-- ===== src/WebConfig/Post.antt =====
-- What a request may change: the items it names and that take their entry.
use mathlib.Core.List.{List, [], ◌∷◌}
use mathlib.Core.Option.{Option, none, some}
use rtkdata_fw.Base.{ℕ, ◌≡◌, ◌≢◌, refl, ap, sym, ◌∙◌, arith, Bool, true, false, not, ◌&&◌, ◌||◌}
use rtkdata_fw.Base.{if-case, option-case, ◌==◌, length, get_or}
use rtkdata_fw.Text.{eq_text, strtol, strtoul}
use rtkdata_fw.Config.{Kind, Nvs, Item, ItemType, Err, esp_ok, invalid_arg, of_write, num}
use rtkdata_fw.Config.{config_set, set_kind, narrow}
use rtkdata_fw.Config.Laws.{Same, Same-refl, Same-trans, Apart, Apart-refl, Apart-Same, num-Apart}
use rtkdata_fw.Config.Laws.{text-Apart, blob-Apart}
use rtkdata_fw.WebConfig.{
  Entry, str, array, other, unchanged, black, apply_value, write_text, write_typed,
}
use rtkdata_fw.WebConfig.{
  write_signed, write_unsigned, write_color, write_ip, post_items, is_ip, is_bytes,
}
use rtkdata_fw.WebConfig.{ip_number, color_number}

-- NVS itself never refuses an argument.
of_write-accepts :
    {A : Type 0} {st : A} (w : Bool × A) → (of_write w).0 ≡ invalid_arg → (of_write w).1 ≡ st
unfolding of_write
of_write-accepts (true, x) h = absurd (ground arith)
of_write-accepts (false, x) h = absurd (ground arith)

module _ (nvs : Nvs) where
  open nvs use {Store, set_num, set_text, set_blob}

  -- What holds of every outcome of a write of `item`: a property of results that a refusal, doing
  -- nothing, and the three kinds of writes have.
  module _ (item : Item) (st : Store) (P : Err × Store → Type 0) (rejected : P (invalid_arg, st))
      (skipped : P (esp_ok, st))
      (number : (k : Kind) (v : ℕ) → P (of_write (set_num k item.key v st)))
      (text : (v : List ℕ) → P (of_write (set_text item.key v st)))
      (bytes : (v : List ℕ) → P (of_write (set_blob item.key v st))) where
    set-case : (v : ℕ) → P (config_set nvs item (num v) st)
    unfolding config_set
    set-case v = option-case P (set_kind item.type) (λ _. rejected) (λ k _. number k (narrow k v))

    signed-case : (t : List ℕ) → P (write_signed nvs item t st)
    unfolding write_signed
    signed-case t =
        if-case P ((strtol t).0 == 0 && not (eq_text t (b'0' ∷ []))) (λ _. rejected)
          (λ _. set-case (strtol t).0)

    unsigned-case : (t : List ℕ) → P (write_unsigned nvs item t st)
    unfolding write_unsigned
    unsigned-case t =
        if-case P (strtoul t == 0 && not (eq_text t (b'0' ∷ []))) (λ _. rejected)
          (λ _. set-case (strtoul t))

    color-case : (t : List ℕ) → P (write_color nvs item t st)
    unfolding write_color
    color-case t =
        if-case P (not (length t == 7) || not (get_or t 0 0 == b'#')) (λ _. rejected)
          (λ _.
            if-case P (eq_text t black) (λ _. skipped)
              (λ _. option-case P (color_number item t) (λ _. rejected) (λ v _. number Kind.u32 v)))

    ip-case : (e : Entry) → P (write_ip nvs item e st)
    unfolding write_ip
    ip-case (array parts) =
        option-case P (ip_number parts) (λ _. rejected) (λ v _. number Kind.u32 v)
    ip-case (str t) = rejected
    ip-case other = rejected

    typed-case : (t : ItemType) (l : List ℕ) → P (write_typed nvs t item l st)
    unfolding write_typed
    typed-case ItemType.string l = text l
    typed-case ItemType.blob l = bytes l
    typed-case ItemType.color l = color-case l
    typed-case ItemType.ip l = rejected
    typed-case ItemType.bool l = signed-case l
    typed-case ItemType.int8 l = signed-case l
    typed-case ItemType.int16 l = signed-case l
    typed-case ItemType.int32 l = signed-case l
    typed-case ItemType.int64 l = signed-case l
    typed-case ItemType.uint8 l = unsigned-case l
    typed-case ItemType.uint16 l = unsigned-case l
    typed-case ItemType.uint32 l = unsigned-case l
    typed-case ItemType.uint64 l = unsigned-case l

    apply-case : (e : Entry) → P (apply_value nvs item e st)
    unfolding apply_value write_text
    apply-case (str t) =
        if-case P (not (is_ip item.type) && ((length t == 0) && not (is_bytes item.type)))
          (λ _. skipped)
          (λ _.
            if-case P (eq_text t unchanged) (λ _. skipped)
              (λ _.
                if-case P (is_ip item.type) (λ _. ip-case (str t)) (λ _. typed-case item.type t)))
    apply-case (array parts) =
        if-case P (is_ip item.type) (λ _. ip-case (array parts)) (λ _. rejected)
    apply-case other = rejected

  apply-Apart :
      (item : Item) (other_key : ℕ) (e : Entry) (st : Store)
      → item.key ≢ other_key
      → Apart nvs other_key st (apply_value nvs item e st).1
  apply-Apart item key e st ne =
      apply-case item st (λ r. Apart nvs key st r.1) (Apart-refl nvs key st) (Apart-refl nvs key st)
        (λ k v. num-Apart nvs k item.key v key st ne) (λ v. text-Apart nvs item.key v key st ne)
        (λ v. blob-Apart nvs item.key v key st ne) e

  -- An entry that is refused changes nothing of the store.
  pub apply_value-refused :
      (item : Item) (e : Entry) (st : Store)
      → (apply_value nvs item e st).0 ≡ invalid_arg
      → (apply_value nvs item e st).1 ≡ st
  apply_value-refused item e st =
      apply-case item st (λ r. r.0 ≡ invalid_arg → r.1 ≡ st) (λ _. refl) (λ _. refl)
        (λ k v. of_write-accepts (set_num k item.key v st))
        (λ v. of_write-accepts (set_text item.key v st))
        (λ v. of_write-accepts (set_blob item.key v st)) e

  -- A request changes no setting that it does not name.
  pub post_items-Same :
      (items : List Item) (request : ℕ → Option Entry) (item : Item) (st : Store)
      → request item.key ≡ none
      → Same nvs item st (post_items nvs items request st)
  unfolding post_items
  post_items-Same [] request item st h = Same-refl nvs item st
  post_items-Same (i ∷ items) request item st h =
      option-case (λ (x : Store). Same nvs item st x) (request i.key)
        (λ _. post_items-Same items request item st h)
        (λ e named.
          let ne : i.key ≢ item.key = λ same. clash e (sym named ∙ ap request same ∙ h) in
          let step = (apply_value nvs i e st).1 in
          Same-trans nvs item st step (post_items nvs items request step)
            (Apart-Same nvs item st step (apply-Apart i item.key e st ne))
            (post_items-Same items request item step h))
    where
      clash : (e : Entry) → some e ≡ none → ⊥
      clash e q = ground arith
