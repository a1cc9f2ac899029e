-- ===== src/WebConfig/Repost.antt =====
-- Saving the configuration page unchanged: what `config_get_handler` shows of an item, posted back.
use mathlib.Core.List.{List, [], ◌∷◌}
use mathlib.Core.Option.{Option, none, some}
use rtkdata_fw.Base.{ℕ, ◌^◌, ◌<◌, ◌≡◌}
use rtkdata_fw.Config.{Kind, Nvs, Item, ItemType, esp_ok}
use rtkdata_fw.Config.{bits, config_get_primitive, config_get_bytes}
use rtkdata_fw.WebConfig.{Entry, array}

pub data Way : Type 0 where
  signed unsigned : Way

-- The numeric types whose values all fit `strtol` or `strtoul`, with the way they are written.
unfoldable pub numeric : ItemType → Option (Way × Kind)
numeric ItemType.bool = some (signed, Kind.i8)
numeric ItemType.int8 = some (signed, Kind.i8)
numeric ItemType.int16 = some (signed, Kind.i16)
numeric ItemType.uint8 = some (unsigned, Kind.u8)
numeric ItemType.uint16 = some (unsigned, Kind.u16)
numeric ItemType.uint32 = some (unsigned, Kind.u32)
numeric _ = none

-- Four numbers, none of them a string.
abbrev four : Entry
four = array (none ∷ none ∷ none ∷ none ∷ [])

module _ (nvs : Nvs) where
  open nvs use {Store, set_num, set_text, get_text, get_blob, text-written}

  -- The items that are read without an error: a number within its kind, a text, an address.
  pub data Readable (item : Item) (st : Store) : Type 0 where
    number :
        (w : Way) (k : Kind) (v : ℕ)
        → numeric item.type ≡ some (w, k)
        → config_get_primitive nvs item st ≡ some (esp_ok, v)
        → v < 2 ^ bits k
        → Readable item st
    text :
        (s : List ℕ)
        → item.type ≡ ItemType.string
        → config_get_bytes nvs item st ≡ some s
        → Readable item st
    address : item.type ≡ ItemType.ip → Readable item st
