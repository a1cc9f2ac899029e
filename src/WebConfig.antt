-- ===== src/WebConfig.antt =====
-- main/web_server.c, the configuration over HTTP: what `config_get_handler` shows of an item,
-- `write_config_value`, `apply_config_value` and the loop of `config_post_handler`. cJSON is left
-- out: a request is what it says under a key.
pub mod Post
pub mod Numbers
pub mod Repost
use mathlib.Core.List.{List, [], ◌∷◌, ◌++◌}
use mathlib.Core.Option.{Option, none, some}
use mathlib.Core.Bool.{Bool, true, false, not, ◌&&◌, ◌||◌}
use rtkdata_fw.Base.{
  ℕ, zero, suc, ◌+◌, ◌*◌, ◌/◌, ◌%◌, ◌^◌, if◌then◌else◌, ltb, leb, ◌==◌, u32, length,
}
use rtkdata_fw.Base.{get_or, drop}
use rtkdata_fw.Text.{eq_text, strtoul, strtoul_hex, strtol, print_nat, print_int64, print_hex2}
use rtkdata_fw.Config.{Kind, Nvs, Item, ItemType, Err, esp_ok, invalid_arg, num, of_write}
use rtkdata_fw.Config.{config_set, config_get_primitive, config_get_bytes}

-- A JSON value: a string, an array with its strings, or anything else but null.
pub data Entry : Type 0 where
  str : List ℕ → Entry
  array : List (Option (List ℕ)) → Entry
  other : Entry

-- `CONFIG_VALUE_UNCHANGED`
abbrev pub unchanged : List ℕ
unchanged = 26 ∷ 26 ∷ 26 ∷ 26 ∷ 26 ∷ 26 ∷ 26 ∷ 26 ∷ []

abbrev pub black : List ℕ
black = b'#' ∷ b'0' ∷ b'0' ∷ b'0' ∷ b'0' ∷ b'0' ∷ b'0' ∷ []

-- A part of an address: none unless it is a string that spells a byte.
unfoldable pub ip_part : Option (List ℕ) → Option ℕ
unfolding strtol
ip_part none = none
ip_part (some text) =
    let (byte, range) = strtol text in if range || ltb 255 byte then none else some byte

infixl 5 ◌>>=◌
abbrev pub ◌>>=◌ : {A B : Type 0} → Option A → (A → Option B) → Option B
none >>= f = none
some x >>= f = f x

-- The four bytes, the first in the lowest place (`esp_netif_htonl` of `esp_netif_ip4_makeu32`).
unfoldable pub ip_number : List (Option (List ℕ)) → Option ℕ
unfolding ip_part
ip_number (a ∷ b ∷ c ∷ d ∷ []) = do
  w ← ip_part a
  x ← ip_part b
  y ← ip_part c
  z ← ip_part d
  some (w + x * 2 ^ 8 + y * 2 ^ 16 + z * 2 ^ 24)
ip_number _ = none

-- The colour of a text, with the alpha of the default; none if it is refused.
unfoldable pub color_number : Item → List ℕ → Option ℕ
unfolding strtoul_hex
color_number item text =
    let rgba = u32 (strtoul_hex (drop 1 text) * 2 ^ 8) in
    if rgba == 0 then none else some (rgba / 256 * 256 + item.def_num % 256)

unfoldable pub is_ip : ItemType → Bool
is_ip ItemType.ip = true
is_ip _ = false

unfoldable pub is_bytes : ItemType → Bool
is_bytes ItemType.string = true
is_bytes ItemType.blob = true
is_bytes _ = false

-- The variables of `config_get_handler` after the reads: 0 and empty if nothing was read.
unfoldable pub value_of : Option (Err × ℕ) → ℕ
value_of none = 0
value_of (some (e, v)) = v

unfoldable pub bytes_of : Option (List ℕ) → List ℕ
bytes_of none = []
bytes_of (some l) = l

-- How a value is shown, by the item's type: its number, or its bytes. A signed number has been read
-- into 64 zero bits. An address is an array of numbers.
unfoldable pub show_typed : ItemType → ℕ → List ℕ → Entry
unfolding print_nat print_int64 print_hex2
show_typed ItemType.string value shown = str shown
show_typed ItemType.blob value shown = str shown
show_typed ItemType.color value shown = str (
    b'#'
    ∷ (print_hex2 (value / 2 ^ 24 % 256)
        ++ (print_hex2 (value / 2 ^ 16 % 256) ++ print_hex2 (value / 2 ^ 8 % 256))))
show_typed ItemType.ip value shown = array (none ∷ none ∷ none ∷ none ∷ [])
show_typed ItemType.uint8 value shown = str (print_nat value)
show_typed ItemType.uint16 value shown = str (print_nat value)
show_typed ItemType.uint32 value shown = str (print_nat value)
show_typed ItemType.uint64 value shown = str (print_nat value)
show_typed ItemType.bool value shown = str (print_int64 value)
show_typed ItemType.int8 value shown = str (print_int64 value)
show_typed ItemType.int16 value shown = str (print_int64 value)
show_typed ItemType.int32 value shown = str (print_int64 value)
show_typed ItemType.int64 value shown = str (print_int64 value)

unfoldable pub hide : Bool → Entry → Entry
hide secret (str text) = if secret && ltb 0 (length text) then str unchanged else str text
hide secret (array parts) = array parts
hide secret other = other

module _ (nvs : Nvs) where
  open nvs use {Store, set_num, set_text, set_blob}

  -- The case of a colour.
  unfoldable pub write_color : Item → List ℕ → Store → Err × Store
  unfolding eq_text color_number of_write
  write_color item text st =
      if not (length text == 7) || not (get_or text 0 0 == b'#')
      then (invalid_arg, st)
      else if eq_text text black
      then (esp_ok, st)
      else elim (color_number item text) [
        | none ↦ (invalid_arg, st)
        | some rgba ↦ of_write (set_num Kind.u32 item.key rgba st)
      ]

  -- The case of an address.
  unfoldable pub write_ip : Item → Entry → Store → Err × Store
  unfolding ip_number of_write
  write_ip item (array parts) st = elim (ip_number parts) [
    | none ↦ (invalid_arg, st)
    | some n ↦ of_write (set_num Kind.u32 item.key n st)
  ]
  write_ip item _ st = (invalid_arg, st)

  -- The cases of the signed and of the unsigned numbers.
  unfoldable pub write_signed : Item → List ℕ → Store → Err × Store
  unfolding strtol eq_text config_set
  write_signed item text st =
      let (n, range) = strtol text in
      if n == 0 && not (eq_text text (b'0' ∷ []))
      then (invalid_arg, st)
      else config_set nvs item (num n) st

  unfoldable pub write_unsigned : Item → List ℕ → Store → Err × Store
  unfolding strtoul eq_text config_set
  write_unsigned item text st =
      let n = strtoul text in
      if n == 0 && not (eq_text text (b'0' ∷ []))
      then (invalid_arg, st)
      else config_set nvs item (num n) st

  -- `write_config_value` of a string, by the item's type.
  unfoldable pub write_typed : ItemType → Item → List ℕ → Store → Err × Store
  unfolding write_color write_signed write_unsigned of_write
  write_typed ItemType.string item text st = of_write (set_text item.key text st)
  write_typed ItemType.blob item text st = of_write (set_blob item.key text st)
  write_typed ItemType.color item text st = write_color item text st
  write_typed ItemType.ip item text st = (invalid_arg, st)
  write_typed ItemType.bool item text st = write_signed item text st
  write_typed ItemType.int8 item text st = write_signed item text st
  write_typed ItemType.int16 item text st = write_signed item text st
  write_typed ItemType.int32 item text st = write_signed item text st
  write_typed ItemType.int64 item text st = write_signed item text st
  write_typed ItemType.uint8 item text st = write_unsigned item text st
  write_typed ItemType.uint16 item text st = write_unsigned item text st
  write_typed ItemType.uint32 item text st = write_unsigned item text st
  write_typed ItemType.uint64 item text st = write_unsigned item text st

  unfoldable pub write_text : Item → List ℕ → Store → Err × Store
  unfolding write_typed
  write_text item text st = write_typed item.type item text st

  -- `apply_config_value`
  unfoldable pub apply_value : Item → Entry → Store → Err × Store
  unfolding write_text write_ip eq_text is_ip is_bytes
  apply_value item (str text) st =
      if not (is_ip item.type) && ((length text == 0) && not (is_bytes item.type))
      then (esp_ok, st)
      else if eq_text text unchanged
      then (esp_ok, st)
      else if is_ip item.type
      then write_ip item (str text) st
      else write_text item text st
  apply_value item (array parts) st =
      if is_ip item.type then write_ip item (array parts) st else (invalid_arg, st)
  apply_value item other st = (invalid_arg, st)

  -- The loop of `config_post_handler`: an item that the request does not name is left alone, and an
  -- error does not end the loop.
  unfoldable pub post_items : List Item → (ℕ → Option Entry) → Store → Store
  unfolding apply_value
  post_items [] request st = st
  post_items (item ∷ items) request st = elim (request item.key) [
    | none ↦ post_items items request st
    | some entry ↦ post_items items request (apply_value item entry st).1
  ]

  -- What `config_get_handler` shows of an item before secrets are hidden.
  unfoldable pub plain : Item → Store → Entry
  unfolding show_typed value_of bytes_of
  plain item st =
      show_typed item.type (value_of (config_get_primitive nvs item st))
        (bytes_of (config_get_bytes nvs item st))

  -- The body of the loop of `config_get_handler`.
  unfoldable pub show_item : Item → Store → Entry
  unfolding plain hide
  show_item item st = hide item.secret (plain item st)
