-- ===== src/Config/Table.antt =====
-- The table of the settings: its keys, and what follows for single settings.
use mathlib.Core.List.{List, [], ◌∷◌}
use mathlib.Core.Option.{some, some_inj}
use rtkdata_fw.Base.{
  ℕ, ◌^◌, ◌<◌, ◌≡◌, ◌≢◌, refl, ap, sym, ◌∙◌, ◌⊎◌, inl, inr, arith, Bool, true, false,
}
use rtkdata_fw.Base.{not, ◌&&◌, ltb, ◌==◌}
use rtkdata_fw.Config.{Nvs, Item, Value, config_get_item, config_set}
use rtkdata_fw.Config.Laws.{Same, Apart-Same, config_set-Apart}
use rtkdata_fw.Config.Items.{Idf, config_items}

-- No item of the list has this key.
unfoldable fresh : ℕ → List Item → Bool
fresh k [] = true
fresh k (i ∷ items) = not (i.key == k) && fresh k items

-- The keys differ, and each has at least one byte and at most fifteen, as NVS wants them.
unfoldable well_keyed : List Item → Bool
unfolding fresh
well_keyed [] = true
well_keyed (i ∷ items) =
    (ltb 0 i.key && ltb i.key (2 ^ 120)) && (fresh i.key items && well_keyed items)

config_items-well_keyed : (idf : Idf) → well_keyed (config_items idf) ≡ true
unfolding well_keyed config_items
config_items-well_keyed idf = refl

-- `item` stands in the list.
abbrev pub Listed : Item → List Item → Type 0
Listed item [] = ⊥
Listed item (i ∷ items) = (i ≡ item) ⊎ Listed item items

fresh-Listed :
    (k : ℕ) (items : List Item) (a : Item) → fresh k items ≡ true → Listed a items → a.key ≢ k
unfolding fresh
fresh-Listed k [] a h m = absurd m
fresh-Listed k (i ∷ items) a h m = elim m [
  | inl same ↦ λ e. let own : i.key ≡ k = ap (λ (x : Item). x.key) same ∙ e in ground arith
  | inr later ↦ fresh-Listed k items a (ground arith) later
]

get_item-Listed :
    (items : List Item) (a : Item)
    → well_keyed items ≡ true
    → Listed a items
    → config_get_item a.key items ≡ some a
unfolding well_keyed config_get_item
get_item-Listed [] a h m = absurd m
get_item-Listed (i ∷ items) a h m = elim m [
  | inl same ↦
      let own : i.key ≡ a.key = ap (λ (x : Item). x.key) same in
      let hit : (i.key == a.key) ≡ true = ground arith in rw hit (ap some same)
  | inr later ↦
      let ne = fresh-Listed i.key items a (ground arith) later in
      let miss : (i.key == a.key) ≡ false = ground arith in
      rw miss (get_item-Listed items a (ground arith) later)
]

keys-Listed :
    (items : List Item) (a : Item)
    → well_keyed items ≡ true
    → Listed a items
    → (0 < a.key) × (a.key < 2 ^ 120)
unfolding well_keyed
keys-Listed [] a h m = absurd m
keys-Listed (i ∷ items) a h m = elim m [
  | inl same ↦
      let own : i.key ≡ a.key = ap (λ (x : Item). x.key) same in
      let low : ltb 0 i.key ≡ true = ground arith in
      let high : ltb i.key (2 ^ 120) ≡ true = ground arith in (ground arith, ground arith)
  | inr later ↦ keys-Listed items a (ground arith) later
]

-- Every setting of the table is found under its key, which NVS takes as a name, and writing one never
-- changes another.
pub config_items-Apart :
    (nvs : Nvs) (idf : Idf) (a b : Item) (v : Value) (st : nvs.Store)
    → Listed a (config_items idf)
    → Listed b (config_items idf)
    → a ≢ b
    → (config_get_item a.key (config_items idf) ≡ some a)
      × ((0 < a.key) × (a.key < 2 ^ 120))
      × Same nvs b st (config_set nvs a v st).1
config_items-Apart nvs idf a b v st m n ne =
    let ok = config_items-well_keyed idf in
    let items = config_items idf in
    let found_a = get_item-Listed items a ok m in
    let found_b = get_item-Listed items b ok n in
    let apart : a.key ≢ b.key =
      λ e. ne (some_inj.0 (sym found_a ∙ ap (λ k. config_get_item k items) e ∙ found_b)) in
    (
      found_a,
      keys-Listed items a ok m,
      Apart-Same nvs b st (config_set nvs a v st).1 (config_set-Apart nvs a v b.key st apart),
    )
