-- ===== src/Crc/Detect.antt =====
-- What the CRC detects: a difference in the register is never lost, so one changed byte shows.
use mathlib.Core.List.{List, [], ◌∷◌, ◌++◌}
use rtkdata_fw.Base.{ℕ, ◌*◌, ◌^◌, ◌<◌, ◌≡◌, ◌≢◌, refl, ap, sym, ◌∙◌, All, IsByte, arith, bit_xor}
use rtkdata_fw.Base.Xor.{xor-lt, xor_comm, xor_left_cancel}
use rtkdata_fw.Crc.{crc_byte, crc_from, rtcm_crc24q, serial_byte}
use rtkdata_fw.Crc.Linear.{crc_byte-eq-serial_byte, shift_times_injective}
use rtkdata_fw.Crc.Serial.{crc_byte-lt, crc_from-lt}

xor_cancel : (a b c : ℕ) → bit_xor a b ≡ bit_xor a c → b ≡ c
xor_cancel a b c e = sym (xor_left_cancel a b) ∙ ap (bit_xor a) e ∙ xor_left_cancel a c

-- The same byte keeps two registers apart, and two bytes take one register apart.
serial_byte_injective :
    (x y b c : ℕ)
    → x < 2 ^ 24
    → y < 2 ^ 24
    → b < 256
    → c < 256
    → serial_byte x b ≡ serial_byte y c
    → bit_xor x (b * 2 ^ 16) ≡ bit_xor y (c * 2 ^ 16)
unfolding serial_byte
serial_byte_injective x y b c p q r s e =
    shift_times_injective 8 (bit_xor x (b * 2 ^ 16)) (bit_xor y (c * 2 ^ 16))
      (xor-lt 24 x (b * 2 ^ 16) p (omega arith)) (xor-lt 24 y (c * 2 ^ 16) q (omega arith)) e

crc_byte_injective :
    (x y b c : ℕ)
    → x < 2 ^ 24
    → y < 2 ^ 24
    → b < 256
    → c < 256
    → crc_byte x b ≡ crc_byte y c
    → bit_xor x (b * 2 ^ 16) ≡ bit_xor y (c * 2 ^ 16)
crc_byte_injective x y b c p q r s e =
    serial_byte_injective x y b c p q r s
      (sym (crc_byte-eq-serial_byte x b p r) ∙ e ∙ crc_byte-eq-serial_byte y c q s)

crc_from_injective :
    (x y : ℕ) (bytes : List ℕ)
    → x < 2 ^ 24
    → y < 2 ^ 24
    → All IsByte bytes
    → crc_from x bytes ≡ crc_from y bytes
    → x ≡ y
unfolding crc_from
crc_from_injective x y [] p q k e = e
crc_from_injective x y (b ∷ bs) p q k e =
    let same : crc_byte x b ≡ crc_byte y b =
      crc_from_injective (crc_byte x b) (crc_byte y b) bs (crc_byte-lt x b p k.0)
        (crc_byte-lt y b q k.0) k.1 e in
    xor_cancel (b * 2 ^ 16) x y (
      xor_comm (b * 2 ^ 16) x
      ∙ crc_byte_injective x y b b p q k.0 k.0 same
      ∙ xor_comm y (b * 2 ^ 16))

crc_from-append :
    (crc : ℕ) (xs ys : List ℕ) → crc_from crc (xs ++ ys) ≡ crc_from (crc_from crc xs) ys
unfolding crc_from
crc_from-append crc [] ys = refl
crc_from-append crc (x ∷ xs) ys = crc_from-append (crc_byte crc x) xs ys

one_byte :
    (crc b c : ℕ) (after : List ℕ)
    → crc < 2 ^ 24
    → b < 256
    → c < 256
    → All IsByte after
    → crc_from crc (b ∷ after) ≡ crc_from crc (c ∷ after)
    → b ≡ c
unfolding crc_from
one_byte crc b c after h p q k e =
    let same : crc_byte crc b ≡ crc_byte crc c =
      crc_from_injective (crc_byte crc b) (crc_byte crc c) after (crc_byte-lt crc b h p)
        (crc_byte-lt crc c h q) k e in
    omega (
      arith,
      xor_cancel crc (b * 2 ^ 16) (c * 2 ^ 16) (crc_byte_injective crc crc b c h h p q same),
    )

-- Two byte sequences that differ in exactly one place have different CRCs.
pub rtcm_crc24q_one_byte :
    (before after : List ℕ) (b c : ℕ)
    → All IsByte before
    → All IsByte after
    → b < 256
    → c < 256
    → b ≢ c
    → rtcm_crc24q (before ++ (b ∷ after)) ≢ rtcm_crc24q (before ++ (c ∷ after))
unfolding rtcm_crc24q
rtcm_crc24q_one_byte before after b c k l p q differ e = differ (
    one_byte (crc_from 0 before) b c after (crc_from-lt 0 before (omega arith) k) p q l
      (sym (crc_from-append 0 before (b ∷ after)) ∙ e ∙ crc_from-append 0 before (c ∷ after)))
