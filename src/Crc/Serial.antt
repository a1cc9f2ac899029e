-- ===== src/Crc/Serial.antt =====
-- `rtcm_crc24q` against the bit-serial register.
use mathlib.Core.List.{List, [], ◌∷◌}
use rtkdata_fw.Base.{ℕ, ◌^◌, ◌<◌, ◌≡◌, refl, ap, ◌∙◌, All, IsByte, arith}
use rtkdata_fw.Crc.{crc_byte, crc_from, rtcm_crc24q, serial_from}
use rtkdata_fw.Crc.Linear.{crc_byte-eq-serial_byte, serial_byte-lt}

pub crc_byte-lt : (crc byte : ℕ) → crc < 2 ^ 24 → byte < 256 → crc_byte crc byte < 2 ^ 24
crc_byte-lt crc byte h k =
    omega (arith, crc_byte-eq-serial_byte crc byte h k, serial_byte-lt crc byte h k)

pub crc_from-lt :
    (crc : ℕ) (bytes : List ℕ) → crc < 2 ^ 24 → All IsByte bytes → crc_from crc bytes < 2 ^ 24
unfolding crc_from
crc_from-lt crc [] h k = h
crc_from-lt crc (b ∷ bs) h k = crc_from-lt (crc_byte crc b) bs (crc_byte-lt crc b h k.0) k.1

crc_from-eq-serial_from :
    (crc : ℕ) (bytes : List ℕ)
    → crc < 2 ^ 24
    → All IsByte bytes
    → crc_from crc bytes ≡ serial_from crc bytes
unfolding crc_from serial_from
crc_from-eq-serial_from crc [] h k = refl
crc_from-eq-serial_from crc (b ∷ bs) h k =
    crc_from-eq-serial_from (crc_byte crc b) bs (crc_byte-lt crc b h k.0) k.1
    ∙ ap (λ (t : ℕ). serial_from t bs) (crc_byte-eq-serial_byte crc b h k.0)

-- On every byte sequence the table-driven CRC is what the bit-serial register computes, and it
-- fits in 24 bits.
pub rtcm_crc24q-eq-serial_from :
    (bytes : List ℕ)
    → All IsByte bytes
    → (rtcm_crc24q bytes ≡ serial_from 0 bytes) × (rtcm_crc24q bytes < 2 ^ 24)
unfolding rtcm_crc24q
rtcm_crc24q-eq-serial_from bytes k =
    (crc_from-eq-serial_from 0 bytes (omega arith) k, crc_from-lt 0 bytes (omega arith) k)
