-- ===== src/Crc/Linear.antt =====
-- The shift register of the CRC is linear over `^`, and stays in 24 bits.
use rtkdata_fw.Base.{ℕ, zero, suc, ◌*◌, ◌/◌, ◌%◌, ◌^◌, ◌≤◌, ◌<◌, bit_and, bit_xor}
use rtkdata_fw.Base.{◌≡◌, refl, ap, sym, ◌∙◌, arith, if◌then◌else◌, ◌==◌, u32}
use rtkdata_fw.Base.Bits.{bit_and_single, bit_and_mask}
use rtkdata_fw.Base.Xor.{xor-zero, xor_self, xor_swap, xor-double, xor-shr, xor-shl}
use rtkdata_fw.Base.Xor.{xor-lt, xor_fields, xor_comm, xor_assoc, eq_of_xor}
use native.Mathlib.Nat.{pow-suc, one-le-pow}
use rtkdata_fw.Crc.{poly, shift_once, shift_times, table_entry, crc_byte, serial_byte}

-- What the bit that falls out of the register adds.
abbrev feedback : ℕ → ℕ
feedback t = if t == 0 then 0 else poly

shift_once_lem : (a : ℕ) → a < 2 ^ 24 → shift_once a ≡ bit_xor (a * 2) (feedback (a / 2 ^ 23))
unfolding shift_once
shift_once_lem a h = ground (arith, bit_and_single 24 (a * 2), xor-zero (a * 2))

feedback-xor :
    (x y : ℕ) → x < 2 → y < 2 → feedback (bit_xor x y) ≡ bit_xor (feedback x) (feedback y)
feedback-xor zero zero p q = refl
feedback-xor zero (suc zero) p q = refl
feedback-xor zero (suc (suc y)) p q = absurd (omega arith)
feedback-xor (suc zero) zero p q = refl
feedback-xor (suc zero) (suc zero) p q = refl
feedback-xor (suc zero) (suc (suc y)) p q = absurd (omega arith)
feedback-xor (suc (suc x)) y p q = absurd (omega arith)

pub shift_once-xor :
    (a b : ℕ)
    → a < 2 ^ 24
    → b < 2 ^ 24
    → shift_once (bit_xor a b) ≡ bit_xor (shift_once a) (shift_once b)
shift_once-xor a b p q =
    shift_once_lem (bit_xor a b) (xor-lt 24 a b p q)
    ∙ ap (λ (t : ℕ). bit_xor t (feedback (bit_xor a b / 2 ^ 23))) (sym (xor-double a b))
    ∙ ap (λ (t : ℕ). bit_xor (bit_xor (a * 2) (b * 2)) (feedback t)) (xor-shr 23 a b)
    ∙ ap (bit_xor (bit_xor (a * 2) (b * 2)))
        (feedback-xor (a / 2 ^ 23) (b / 2 ^ 23) (omega arith) (omega arith))
    ∙ xor_swap (a * 2) (b * 2) (feedback (a / 2 ^ 23)) (feedback (b / 2 ^ 23))
    ∙ ap (bit_xor (bit_xor (a * 2) (feedback (a / 2 ^ 23)))) (sym (shift_once_lem b q))
    ∙ ap (λ (t : ℕ). bit_xor t (shift_once b)) (sym (shift_once_lem a p))

-- The reduction clears bit 24.
reduced : (c : ℕ) → 2 ^ 24 ≤ c → c < 2 ^ 25 → bit_xor c poly < 2 ^ 24
reduced c p q =
    let top : c / 2 ^ 24 ≡ 1 = omega arith in
    let gone : bit_xor c poly / 2 ^ 24 ≡ 0 = xor-shr 24 c poly ∙ ap (λ (t : ℕ). bit_xor t 1) top in
    omega arith

pub shift_once-lt : (a : ℕ) → a < 2 ^ 24 → shift_once a < 2 ^ 24
unfolding shift_once
shift_once-lt a h = ground (arith, bit_and_single 24 (a * 2), reduced (a * 2))

pub shift_times-lt : (n a : ℕ) → a < 2 ^ 24 → shift_times n a < 2 ^ 24
unfolding shift_times
shift_times-lt zero a h = h
shift_times-lt (suc n) a h = shift_times-lt n (shift_once a) (shift_once-lt a h)

pub shift_times-xor :
    (n a b : ℕ)
    → a < 2 ^ 24
    → b < 2 ^ 24
    → shift_times n (bit_xor a b) ≡ bit_xor (shift_times n a) (shift_times n b)
unfolding shift_times
shift_times-xor zero a b p q = refl
shift_times-xor (suc n) a b p q =
    ap (shift_times n) (shift_once-xor a b p q)
    ∙ shift_times-xor n (shift_once a) (shift_once b) (shift_once-lt a p) (shift_once-lt b q)

shift_once_low : (a : ℕ) → a < 2 ^ 23 → shift_once a ≡ a * 2
unfolding shift_once
shift_once_low a h = ground (arith, bit_and_single 24 (a * 2))

-- While no bit falls out, the register only moves up.
shift_times_low : (n a : ℕ) → a * 2 ^ n < 2 ^ 24 → shift_times n a ≡ a * 2 ^ n
unfolding shift_times
shift_times_low zero a p = omega arith
shift_times_low (suc n) a p =
    let e : a * 2 ^ suc n ≡ a * 2 * 2 ^ n = omega (arith, ap (λ (t : ℕ). a * t) (pow-suc 2 n)) in
    let grows : a * 2 ≤ a * 2 * 2 ^ n = le_mul (a * 2) (2 ^ n) (one-le-pow n 2 (omega arith)) in
    ap (shift_times n) (shift_once_low a (omega arith))
    ∙ shift_times_low n (a * 2) (omega arith)
    ∙ sym e
  where
    le_mul : (x y : ℕ) → 1 ≤ y → x ≤ x * y
    le_mul x y h = grind arith

pub table_entry_lem : (i : ℕ) → i < 256 → table_entry i ≡ shift_times 8 (i * 2 ^ 16)
unfolding table_entry
table_entry_lem i h =
    let e : u32 (i * 2 ^ 16) ≡ i * 2 ^ 16 = omega arith in
    rw e (bit_and_mask 24 (shift_times 8 (i * 2 ^ 16)) ∙ small)
  where
    small : shift_times 8 (i * 2 ^ 16) % 2 ^ 24 ≡ shift_times 8 (i * 2 ^ 16)
    small = omega (arith, shift_times-lt 8 (i * 2 ^ 16) (omega arith))

shift_times_eight : (a : ℕ) → a < 2 ^ 16 → shift_times 8 a ≡ a * 2 ^ 8
shift_times_eight a h = shift_times_low 8 a (omega arith)

-- The register split at the byte that leaves it.
split :
    (crc byte : ℕ)
    → bit_xor crc (byte * 2 ^ 16) ≡ bit_xor (crc % 2 ^ 16) (bit_xor (crc / 2 ^ 16) byte * 2 ^ 16)
split crc byte =
    let parts : crc ≡ bit_xor (crc % 2 ^ 16) (crc / 2 ^ 16 * 2 ^ 16) = omega (
      arith,
      xor_fields 16 (crc / 2 ^ 16) (crc % 2 ^ 16) (omega arith),
      xor_comm (crc / 2 ^ 16 * 2 ^ 16) (crc % 2 ^ 16),
    ) in
    ap (λ (t : ℕ). bit_xor t (byte * 2 ^ 16)) parts
    ∙ xor_assoc (crc % 2 ^ 16) (crc / 2 ^ 16 * 2 ^ 16) (byte * 2 ^ 16)
    ∙ ap (bit_xor (crc % 2 ^ 16)) (xor-shl 16 (crc / 2 ^ 16) byte)

-- One table lookup does the eight shifts of the register.
pub crc_byte-eq-serial_byte :
    (crc byte : ℕ) → crc < 2 ^ 24 → byte < 256 → crc_byte crc byte ≡ serial_byte crc byte
unfolding crc_byte serial_byte
crc_byte-eq-serial_byte crc byte h k =
    let lo = crc % 2 ^ 16 in
    let idx = bit_xor (crc / 2 ^ 16) byte in
    let idx_lt : idx < 256 = xor-lt 8 (crc / 2 ^ 16) byte (omega arith) (omega arith) in
    let low_half : bit_and (u32 (crc * 2 ^ 8)) 0xFFFFFF ≡ shift_times 8 lo =
      omega (arith, bit_and_mask 24 (u32 (crc * 2 ^ 8)), shift_times_eight lo (omega arith)) in
    let masked : bit_and idx 0xFF ≡ idx = omega (arith, bit_and_mask 8 idx) in
    ap (λ (t : ℕ). bit_xor t (table_entry (bit_and idx 0xFF))) low_half
    ∙ ap (λ (t : ℕ). bit_xor (shift_times 8 lo) (table_entry t)) masked
    ∙ ap (bit_xor (shift_times 8 lo)) (table_entry_lem idx idx_lt)
    ∙ sym (shift_times-xor 8 lo (idx * 2 ^ 16) (omega arith) (omega arith))
    ∙ ap (shift_times 8) (sym (split crc byte))

pub serial_byte-lt : (crc byte : ℕ) → crc < 2 ^ 24 → byte < 256 → serial_byte crc byte < 2 ^ 24
unfolding serial_byte
serial_byte-lt crc byte h k =
    shift_times-lt 8 (bit_xor crc (byte * 2 ^ 16)) (xor-lt 24 crc (byte * 2 ^ 16) h (omega arith))

-- The register never loses a difference: its kernel is zero.
shift_once_kernel : (a : ℕ) → a < 2 ^ 24 → shift_once a ≡ 0 → a ≡ 0
unfolding shift_once
shift_once_kernel a h e = ground (arith, bit_and_single 24 (a * 2), eq_of_xor (a * 2) poly)

pub shift_times_kernel : (n a : ℕ) → a < 2 ^ 24 → shift_times n a ≡ 0 → a ≡ 0
unfolding shift_times
shift_times_kernel zero a h e = e
shift_times_kernel (suc n) a h e =
    shift_once_kernel a h (shift_times_kernel n (shift_once a) (shift_once-lt a h) e)

pub shift_times_injective :
    (n a b : ℕ) → a < 2 ^ 24 → b < 2 ^ 24 → shift_times n a ≡ shift_times n b → a ≡ b
shift_times_injective n a b p q e = eq_of_xor a b (
    shift_times_kernel n (bit_xor a b) (xor-lt 24 a b p q) (
      shift_times-xor n a b p q
      ∙ ap (λ (t : ℕ). bit_xor t (shift_times n b)) e
      ∙ xor_self (shift_times n b)))
