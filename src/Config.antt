-- ===== src/Config.antt =====
-- main/config.c: the configuration store over NVS. NVS is the interface `Nvs`, with what its
-- documentation promises of a write that succeeds. A key stands for its text, a number for its bit
-- pattern, so a cast to w bits is `% 2 ^ w`; `config_handle` is open.
pub mod Items
pub mod Table
pub mod Laws
use mathlib.Core.List.{List, [], ◌∷◌}
use mathlib.Core.Option.{Option, none, some}
use mathlib.Core.Bool.{Bool, true, false, ◌&&◌}
use rtkdata_fw.Base.{ℕ, ◌%◌, ◌^◌, ◌<◌, ◌≡◌, ◌≢◌, if◌then◌else◌, ltb, ◌==◌}

-- The width and signedness of a stored number.
pub data Kind : Type 0 where
  i8 i16 i32 i64 u8 u16 u32 u64 : Kind

-- What a read finds.
pub data Found (A : Type 0) : Type 0 where
  found : A → Found A
  not_found : Found A
  refused : Found A

-- A write returns whether it succeeded; one that did is read back.
pub record Nvs : Type 1 where
  pub Store : Type 0
  pub set_num : Kind → ℕ → ℕ → Store → Bool × Store
  pub get_num : Kind → ℕ → Store → Found ℕ
  pub set_text : ℕ → List ℕ → Store → Bool × Store
  pub get_text : ℕ → Store → Found (List ℕ)
  pub set_blob : ℕ → List ℕ → Store → Bool × Store
  pub get_blob : ℕ → Store → Found (List ℕ)
  pub erase : ℕ → Store → Store
  pub num-written :
      (k : Kind) (key v : ℕ) (st : Store)
      → (set_num k key v st).0 ≡ true
      → get_num k key (set_num k key v st).1 ≡ found v
  pub text-written :
      (key : ℕ) (v : List ℕ) (st : Store)
      → (set_text key v st).0 ≡ true
      → get_text key (set_text key v st).1 ≡ found v
  -- No write and no erasure touches another key.
  pub num_apart :
      (kind : Kind) (key v other : ℕ) (st : Store)
      → key ≢ other
      → ((k : Kind) → get_num k other (set_num kind key v st).1 ≡ get_num k other st)
        × (get_text other (set_num kind key v st).1 ≡ get_text other st)
        × (get_blob other (set_num kind key v st).1 ≡ get_blob other st)
  pub text_apart :
      (key : ℕ) (v : List ℕ) (other : ℕ) (st : Store)
      → key ≢ other
      → ((k : Kind) → get_num k other (set_text key v st).1 ≡ get_num k other st)
        × (get_text other (set_text key v st).1 ≡ get_text other st)
        × (get_blob other (set_text key v st).1 ≡ get_blob other st)
  pub blob_apart :
      (key : ℕ) (v : List ℕ) (other : ℕ) (st : Store)
      → key ≢ other
      → ((k : Kind) → get_num k other (set_blob key v st).1 ≡ get_num k other st)
        × (get_text other (set_blob key v st).1 ≡ get_text other st)
        × (get_blob other (set_blob key v st).1 ≡ get_blob other st)
  pub erase_apart :
      (key other : ℕ) (st : Store)
      → key ≢ other
      → ((k : Kind) → get_num k other (erase key st) ≡ get_num k other st)
        × (get_text other (erase key st) ≡ get_text other st)
        × (get_blob other (erase key st) ≡ get_blob other st)

-- `config_item_type_t`
pub data ItemType : Type 0 where
  bool int8 int16 int32 int64 uint8 uint16 uint32 uint64 string blob color ip : ItemType

-- `config_item_t`; of `def`, the member that the type reads, as a number or as bytes.
pub record Item : Type 0 where
  pub key : ℕ
  pub type : ItemType
  pub secret : Bool
  pub def_num : ℕ
  pub def_bytes : List ℕ

-- What the functions return: `ESP_OK`, `ESP_ERR_INVALID_ARG`, `ESP_FAIL` or an error of NVS.
pub data Err : Type 0 where
  esp_ok invalid_arg esp_fail nvs_error : Err

pub data Value : Type 0 where
  num : ℕ → Value
  text : List ℕ → Value

unfoldable pub of_write {ℓ} : {A : Type ℓ} → Bool × A → Err × A
of_write (true, st) = (esp_ok, st)
of_write (false, st) = (nvs_error, st)

-- `config_set` by the item's type: the stored kind, none if it refuses.
unfoldable pub set_kind : ItemType → Option Kind
set_kind bool = some Kind.i8
set_kind int8 = some Kind.i8
set_kind int16 = some Kind.i16
set_kind int32 = some Kind.i32
set_kind int64 = some Kind.i64
set_kind uint8 = some Kind.u8
set_kind uint16 = some Kind.u16
set_kind uint32 = some Kind.u32
set_kind uint64 = some Kind.u64
set_kind _ = none

-- `config_get_primitive` by the item's type.
unfoldable pub get_kind : ItemType → Option Kind
get_kind bool = some Kind.i8
get_kind int8 = some Kind.i8
get_kind int16 = some Kind.i16
get_kind int32 = some Kind.i32
get_kind int64 = some Kind.i64
get_kind uint8 = some Kind.u8
get_kind uint16 = some Kind.u16
get_kind uint32 = some Kind.u32
get_kind ip = some Kind.u32
get_kind uint64 = some Kind.u64
get_kind color = some Kind.u32
get_kind string = none
get_kind blob = none

unfoldable pub bits : Kind → ℕ
bits Kind.i8 = 8
bits Kind.u8 = 8
bits Kind.i16 = 16
bits Kind.u16 = 16
bits Kind.i32 = 32
bits Kind.u32 = 32
bits Kind.i64 = 64
bits Kind.u64 = 64

-- The number that a value pointer of this kind reads from 64 bits in memory, the lowest byte first.
unfoldable pub narrow : Kind → ℕ → ℕ
unfolding bits
narrow k v = v % 2 ^ bits k

-- A missing number leaves the default and is no error.
unfoldable pub read_num : Item → Found ℕ → Err × ℕ
read_num item (found v) = (esp_ok, v)
read_num item not_found = (esp_ok, item.def_num)
read_num item refused = (nvs_error, item.def_num)

unfoldable pub or_default : Item → Found (List ℕ) → Option (List ℕ)
or_default item (found v) = some v
or_default item not_found = some item.def_bytes
or_default item refused = none

-- The bytes of a string or of a blob.
unfoldable pub read_bytes : ItemType → Item → Found (List ℕ) → Found (List ℕ) → Option (List ℕ)
unfolding or_default
read_bytes string item t b = or_default item t
read_bytes blob item t b = or_default item b
read_bytes _ item t b = none

-- `config_get_item`: the first item with the key. A miss aborts.
unfoldable pub config_get_item : ℕ → List Item → Option Item
config_get_item key [] = none
config_get_item key (i ∷ items) =
    let rest = config_get_item key items in if i.key == key then some i else rest

module _ (nvs : Nvs) where
  open nvs use {Store, set_num, get_num, set_text, get_text, set_blob, get_blob, erase}

  -- `config_set`, by what `value` points to: 64 bits, or a text for a string item.
  unfoldable pub config_set : Item → Value → Store → Err × Store
  unfolding set_kind narrow of_write
  config_set item (num v) st = elim (set_kind item.type) [
    | some k ↦ of_write (set_num k item.key (narrow k v) st)
    | none ↦ (invalid_arg, st)
  ]
  config_set item (text v) st = elim item.type [
    | string ↦ of_write (set_text item.key v st)
    | _ ↦ (invalid_arg, st)
  ]

  -- `config_get_u8` and its like: the default stands unless the read finds a value.
  unfoldable pub config_get : Kind → Item → Store → ℕ
  config_get k item st = elim (get_num k item.key st) [
    | found v ↦ v
    | not_found ↦ item.def_num
    | refused ↦ item.def_num
  ]

  -- `config_get_bool1`
  unfoldable pub config_get_bool : Item → Store → Bool
  unfolding config_get
  config_get_bool item st =
      let value = config_get Kind.i8 item st in ltb 0 value && ltb value (2 ^ 7)

  -- `config_get_primitive`: the error and `*out_value`.
  unfoldable pub config_get_primitive : Item → Store → Option (Err × ℕ)
  unfolding get_kind read_num
  config_get_primitive item st = elim (get_kind item.type) [
    | some k ↦ some (read_num item (get_num k item.key st))
    | none ↦ none
  ]

  -- `config_get_str_blob`, and `config_get_str_blob_alloc` when the allocation succeeds; none on an
  -- error.
  unfoldable pub config_get_bytes : Item → Store → Option (List ℕ)
  unfolding read_bytes
  config_get_bytes item st = read_bytes item.type item (get_text item.key st) (get_blob item.key st)

  -- `config_reset`; the keys of the three Wi-Fi settings are parameters.
  unfoldable pub config_reset : ℕ → ℕ → ℕ → Store → Store
  config_reset ssid password active st = erase active (erase password (erase ssid st))
