-- ===== src/Config/Laws.antt =====
-- What a write of the configuration changes, and what it leaves.
use mathlib.Core.List.{List}
use mathlib.Core.Option.{none, some}
use rtkdata_fw.Base.{ℕ, ◌≡◌, ◌≢◌, refl, ap, sym, ◌∙◌, inl, inr, Bool, true, false}
use rtkdata_fw.Base.{arith, Option-cases, option-case}
use rtkdata_fw.Config.{Kind, Found, Nvs, Item, ItemType, Err, esp_ok}
use rtkdata_fw.Config.{invalid_arg, of_write, set_kind, get_kind, narrow, Value, num, text, string}
use rtkdata_fw.Config.{config_set, config_get_primitive, config_get_bytes, read_num, read_bytes}
use rtkdata_fw.Config.{config_reset}

-- What can be set is read at the same kind.
pub set_kind-get_kind : (t : ItemType) (k : Kind) → set_kind t ≡ some k → get_kind t ≡ some k
unfolding set_kind get_kind
set_kind-get_kind ItemType.string k h = absurd (ground arith)
set_kind-get_kind ItemType.blob k h = absurd (ground arith)
set_kind-get_kind ItemType.color k h = absurd (ground arith)
set_kind-get_kind ItemType.ip k h = absurd (ground arith)
set_kind-get_kind _ k h = h

module _ (nvs : Nvs) where
  open nvs use {
    Store, set_num, get_num, set_text, get_text, set_blob, get_blob, erase, num-written, num_apart,
    text_apart, blob_apart, erase_apart,
  }

  -- The whole value of an item: what the two getters give.
  pub record Same (item : Item) (st st' : Store) : Type 0 where
    pub number : config_get_primitive nvs item st' ≡ config_get_primitive nvs item st
    pub bytes : config_get_bytes nvs item st' ≡ config_get_bytes nvs item st

  pub Same-refl : (item : Item) (st : Store) → Same item st st
  Same-refl item st = record { number = refl; bytes = refl }

  pub Same-trans :
      (item : Item) (st st' st'' : Store)
      → Same item st st'
      → Same item st' st''
      → Same item st st''
  Same-trans item st st' st'' a b = record {
    number = b.number ∙ a.number;
    bytes = b.bytes ∙ a.bytes;
  }

  pub of_write_ok : {A : Type 0} (w : Bool × A) → (of_write w).0 ≡ esp_ok → w.0 ≡ true
  unfolding of_write
  of_write_ok (true, a) h = refl
  of_write_ok (false, a) h = absurd (ground arith)

  pub of_write_state : {A : Type 0} (w : Bool × A) → (of_write w).1 ≡ w.1
  unfolding of_write
  of_write_state (true, a) = refl
  of_write_state (false, a) = refl

  pub config_set_num :
      (item : Item) (k : Kind) (v : ℕ) (st : Store)
      → set_kind item.type ≡ some k
      → config_set nvs item (num v) st ≡ of_write (set_num k item.key (narrow k v) st)
  unfolding config_set
  config_set_num item k v st e = rw (e, config_set) refl

  get_primitive_lem :
      (item : Item) (k : Kind) (st : Store)
      → get_kind item.type ≡ some k
      → config_get_primitive nvs item st ≡ some (read_num item (get_num k item.key st))
  unfolding config_get_primitive
  get_primitive_lem item k st e = rw (e, config_get_primitive) refl

  pub get_primitive_none :
      (item : Item) (st : Store)
      → get_kind item.type ≡ none
      → config_get_primitive nvs item st ≡ none
  unfolding config_get_primitive
  get_primitive_none item st e = rw (e, config_get_primitive) refl

  -- A number that was set is read back, cut to the width of the item.
  pub config_set-get :
      (item : Item) (k : Kind) (v : ℕ) (st : Store)
      → set_kind item.type ≡ some k
      → (config_set nvs item (num v) st).0 ≡ esp_ok
      → config_get_primitive nvs item (config_set nvs item (num v) st).1 ≡ some (esp_ok, narrow k v)
  config_set-get item k v st e h =
      let w = set_num k item.key (narrow k v) st in
      let same = config_set_num item k v st e in
      let ok : w.0 ≡ true = of_write_ok w (ap (λ (r : Err × Store). r.0) (sym same) ∙ h) in
      ap (λ (r : Err × Store). config_get_primitive nvs item r.1) same
      ∙ ap (config_get_primitive nvs item) (of_write_state w)
      ∙ get_primitive_lem item k w.1 (set_kind-get_kind item.type k e)
      ∙ ap (λ (f : Found ℕ). some (read_num item f)) (num-written k item.key (narrow k v) st ok)
      ∙ unfold read_num in refl

  -- A change of the store that the getters of a key do not see.
  pub record Apart (key : ℕ) (st st' : Store) : Type 0 where
    pub numbers : (k : Kind) → get_num k key st' ≡ get_num k key st
    pub texts : get_text key st' ≡ get_text key st
    pub blobs : get_blob key st' ≡ get_blob key st

  pub Apart-Same : (item : Item) (st st' : Store) → Apart item.key st st' → Same item st st'
  unfolding config_get_bytes
  Apart-Same item st st' a = record {
    number = elim (Option-cases (get_kind item.type)) [
      | inl e ↦ get_primitive_none item st' e ∙ sym (get_primitive_none item st e)
      | inr (k, e) ↦
          get_primitive_lem item k st' e
          ∙ ap (λ (f : Found ℕ). some (read_num item f)) (a.numbers k)
          ∙ sym (get_primitive_lem item k st e)
    ];
    bytes =
        ap (λ (t : Found (List ℕ)). read_bytes item.type item t (get_blob item.key st')) a.texts
        ∙ ap (read_bytes item.type item (get_text item.key st)) a.blobs;
  }

  pub Apart-refl : (key : ℕ) (st : Store) → Apart key st st
  Apart-refl key st = record { numbers = λ k. refl; texts = refl; blobs = refl }

  pub Apart-trans :
      (key : ℕ) (st st' st'' : Store) → Apart key st st' → Apart key st' st'' → Apart key st st''
  Apart-trans key st st' st'' a b = record {
    numbers = λ k. b.numbers k ∙ a.numbers k;
    texts = b.texts ∙ a.texts;
    blobs = b.blobs ∙ a.blobs;
  }

  -- A write of another key, as `of_write` passes it on.
  pub num-Apart :
      (k : Kind) (key v other : ℕ) (st : Store)
      → key ≢ other
      → Apart other st (of_write (set_num k key v st)).1
  num-Apart k key v other st ne =
      let a = num_apart k key v other st ne in
      rw (of_write_state (set_num k key v st)) (record { numbers = a.0; texts = a.1; blobs = a.2 })

  pub text-Apart :
      (key : ℕ) (v : List ℕ) (other : ℕ) (st : Store)
      → key ≢ other
      → Apart other st (of_write (set_text key v st)).1
  text-Apart key v other st ne =
      let a = text_apart key v other st ne in
      rw (of_write_state (set_text key v st)) (record { numbers = a.0; texts = a.1; blobs = a.2 })

  pub blob-Apart :
      (key : ℕ) (v : List ℕ) (other : ℕ) (st : Store)
      → key ≢ other
      → Apart other st (of_write (set_blob key v st)).1
  blob-Apart key v other st ne =
      let a = blob_apart key v other st ne in
      rw (of_write_state (set_blob key v st)) (record { numbers = a.0; texts = a.1; blobs = a.2 })

  -- A write of an item of another key.
  typed-Apart :
      (t : ItemType) (item : Item) (v : List ℕ) (other : ℕ) (st : Store)
      → item.key ≢ other
      → let r : Err × Store = elim t [
        | string ↦ of_write (set_text item.key v st)
        | _ ↦ (invalid_arg, st)
      ] in
        Apart other st r.1
  typed-Apart ItemType.string item v other st ne = text-Apart item.key v other st ne
  typed-Apart _ item v other st ne = Apart-refl other st

  pub config_set-Apart :
      (item : Item) (v : Value) (other : ℕ) (st : Store)
      → item.key ≢ other
      → Apart other st (config_set nvs item v st).1
  unfolding config_set
  config_set-Apart item (num v) other st ne =
      option-case (λ (r : Err × Store). Apart other st r.1) (set_kind item.type)
        (λ _. Apart-refl other st) (λ k _. num-Apart k item.key (narrow k v) other st ne)
  config_set-Apart item (text v) other st ne = typed-Apart item.type item v other st ne

  erase-Apart : (key other : ℕ) (st : Store) → key ≢ other → Apart other st (erase key st)
  erase-Apart key other st ne =
      let a = erase_apart key other st ne in record { numbers = a.0; texts = a.1; blobs = a.2 }

  -- A reset of the configuration leaves every item but the three Wi-Fi settings: the identity of the
  -- device, its keys and the caster it sends to.
  pub config_reset-Same :
      (ssid password active : ℕ) (item : Item) (st : Store)
      → ssid ≢ item.key
      → password ≢ item.key
      → active ≢ item.key
      → Same item st (config_reset nvs ssid password active st)
  unfolding config_reset
  config_reset-Same ssid password active item st a b c =
      let one = erase ssid st in
      let two = erase password one in
      Apart-Same item st (erase active two) (
        Apart-trans item.key st two (erase active two)
          (Apart-trans item.key st one two (erase-Apart ssid item.key st a)
            (erase-Apart password item.key one b))
          (erase-Apart active item.key two c))
