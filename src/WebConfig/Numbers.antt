-- ===== src/WebConfig/Numbers.antt =====
-- Numbers over HTTP: what is stored of a decimal number.
use mathlib.Core.List.{List, [], ◌∷◌}
use mathlib.Core.Option.{Option, none, some}
use rtkdata_fw.Base.{ℕ, zero, suc, ◌+◌, ◌/◌, ◌%◌, ◌^◌, ◌<◌, ◌≡◌, refl, ap, sym, ◌∙◌, inl, inr}
use rtkdata_fw.Base.{arith, false, not, ◌&&◌, ltb, ◌==◌, length, All}
use rtkdata_fw.Base.{Bool-cases, and_false, length-append}
use rtkdata_fw.Text.{eq_text, print_nat, print_digits}
use rtkdata_fw.Text.Compare.{eq_text_refl}
use rtkdata_fw.Text.Decimal.{IsDigit, print_digits-IsDigit, strtoul-print_nat, strtol-print_nat}
use rtkdata_fw.Text.Decimal.{print_nat-zero}
use rtkdata_fw.Config.{Kind, Nvs, Item, ItemType, Err, esp_ok, num, config_set, set_kind, bits}
use rtkdata_fw.Config.{config_get_primitive, narrow}
use rtkdata_fw.Config.Laws.{config_set-get}
use rtkdata_fw.WebConfig.{
  str, unchanged, apply_value, write_text, write_typed, write_signed, write_unsigned,
}
use rtkdata_fw.WebConfig.{is_ip}

print_digits-pos : (room n : ℕ) → 0 < length (print_digits (suc room) n)
unfolding print_digits
print_digits-pos room n = elim (Bool-cases (ltb n 10)) [
  | inl small ↦ rw small (omega arith)
  | inr large ↦
      rw large (omega (arith, length-append (print_digits room (n / 10)) ((48 + n % 10) ∷ [])))
]

-- A text that starts with a digit is neither empty nor the placeholder.
digit-eq-unchanged :
    (text : List ℕ) → All IsDigit text → 0 < length text → eq_text text unchanged ≡ false
unfolding eq_text
digit-eq-unchanged [] d h = absurd (omega arith)
digit-eq-unchanged (c ∷ text) d h =
    and_false (c == 26) (eq_text text (26 ∷ 26 ∷ 26 ∷ 26 ∷ 26 ∷ 26 ∷ 26 ∷ [])) (ground (arith, d.0))

pub print_nat-pos : (n : ℕ) → 0 < length (print_nat n)
unfolding print_nat
print_nat-pos n = print_digits-pos 19 n

pub print_nat-eq-unchanged : (n : ℕ) → eq_text (print_nat n) unchanged ≡ false
unfolding print_nat
print_nat-eq-unchanged n =
    digit-eq-unchanged (print_digits 20 n) (print_digits-IsDigit 20 n) (print_digits-pos 19 n)

-- The test for a text that is no number passes every printed number.
zero_spelled : (n : ℕ) → (n == 0 && not (eq_text (print_nat n) (b'0' ∷ []))) ≡ false
zero_spelled zero = rw print_nat-zero (rw (eq_text_refl (b'0' ∷ [])) refl)
zero_spelled (suc n) = ground arith

-- The types of unsigned numbers of at most 32 bits, with the kind that is stored.
unfoldable pub unsigned_kind : ItemType → Option Kind
unsigned_kind ItemType.uint8 = some Kind.u8
unsigned_kind ItemType.uint16 = some Kind.u16
unsigned_kind ItemType.uint32 = some Kind.u32
unsigned_kind _ = none

unsigned-set : (t : ItemType) (k : Kind) → unsigned_kind t ≡ some k → set_kind t ≡ some k
unfolding unsigned_kind set_kind
unsigned-set ItemType.uint8 k h = h
unsigned-set ItemType.uint16 k h = h
unsigned-set ItemType.uint32 k h = h
unsigned-set _ k h = absurd (ground arith)

unsigned-is_ip : (t : ItemType) (k : Kind) → unsigned_kind t ≡ some k → is_ip t ≡ false
unfolding unsigned_kind is_ip
unsigned-is_ip ItemType.ip k h = absurd (ground arith)
unsigned-is_ip _ k h = refl

module _ (nvs : Nvs) where
  open nvs use {Store}

  -- A text that is neither empty nor the placeholder is written.
  pub apply_value-write :
      (item : Item) (text : List ℕ) (st : Store)
      → is_ip item.type ≡ false
      → 0 < length text
      → eq_text text unchanged ≡ false
      → apply_value nvs item (str text) st ≡ write_text nvs item text st
  unfolding apply_value
  apply_value-write item text st no_ip pos fresh =
      let full : (length text == 0) ≡ false = ground arith in rw no_ip (rw full (rw fresh refl))

  pub write_unsigned-print :
      (item : Item) (n : ℕ) (st : Store)
      → n < 2 ^ 32
      → write_unsigned nvs item (print_nat n) st ≡ config_set nvs item (num n) st
  unfolding write_unsigned
  write_unsigned-print item n st h = rw (strtoul-print_nat n h) (rw (zero_spelled n) refl)

  pub write_signed-print :
      (item : Item) (n : ℕ) (st : Store)
      → n < 2 ^ 31
      → write_signed nvs item (print_nat n) st ≡ config_set nvs item (num n) st
  unfolding write_signed
  write_signed-print item n st h = rw (strtol-print_nat n h) (rw (zero_spelled n) refl)

  unsigned-write :
      (t : ItemType) (k : Kind) (item : Item) (text : List ℕ) (st : Store)
      → unsigned_kind t ≡ some k
      → write_typed nvs t item text st ≡ write_unsigned nvs item text st
  unfolding unsigned_kind write_typed
  unsigned-write ItemType.uint8 k item text st h = refl
  unsigned-write ItemType.uint16 k item text st h = refl
  unsigned-write ItemType.uint32 k item text st h = refl
  unsigned-write _ k item text st h = absurd (ground arith)

  apply_unsigned :
      (item : Item) (k : Kind) (n : ℕ) (st : Store)
      → unsigned_kind item.type ≡ some k
      → n < 2 ^ 32
      → apply_value nvs item (str (print_nat n)) st ≡ config_set nvs item (num n) st
  unfolding write_text
  apply_unsigned item k n st u h =
      apply_value-write item (print_nat n) st (unsigned-is_ip item.type k u) (print_nat-pos n)
        (print_nat-eq-unchanged n)
      ∙ unsigned-write item.type k item (print_nat n) st u
      ∙ write_unsigned-print item n st h

  -- Posting a decimal number below 2^32 to an unsigned item of at most 32 bits, if NVS takes the write:
  -- the number that is read from then on is the posted one, cut to the width of the item.
  pub post_unsigned :
      (item : Item) (k : Kind) (n : ℕ) (st : Store)
      → unsigned_kind item.type ≡ some k
      → n < 2 ^ 32
      → (apply_value nvs item (str (print_nat n)) st).0 ≡ esp_ok
      → config_get_primitive nvs item (apply_value nvs item (str (print_nat n)) st).1
        ≡ some (esp_ok, n % 2 ^ bits k)
  post_unsigned item k n st u h ok =
      let e = apply_unsigned item k n st u h in
      ap (λ (r : Err × Store). config_get_primitive nvs item r.1) e
      ∙ config_set-get nvs item k n st (unsigned-set item.type k u)
          (ap (λ (r : Err × Store). r.0) (sym e) ∙ ok)
      ∙ unfold narrow in refl
