-- ===== src/Base/Bits.antt =====
-- Bit operations at variables: one equation for the lowest digit, then masks and fields.
use Prim.Native.Nat.{ℕ, zero, suc, ◌+◌, ◌-◌, ◌*◌, ◌/◌, ◌%◌, ◌^◌, ◌≤◌, ◌<◌, min, max}
use Prim.Native.Nat.{bit_and, bit_or, bit_xor, digits, bitwise, differ}
use Prim.Native.Nat.{bit_and-bitwise, bit_or-bitwise, bit_xor-bitwise}
use mathlib.Core.Path.{◌≡◌, refl, sym, ap, ◌∙◌}
use native.Mathlib.Nat.{le_refl, pow-suc, pow-succ', one-le-pow, div-div-eq-div-mul, div-add-mod}
use native.Mathlib.Omega.{arith}

-- `z` is what the operation gives once the first number has run out, `op` the operation on digits.
module _ (z : ℕ → ℕ) (op : ℕ → ℕ → ℕ) where
  -- One more digit than the first number can have changes nothing, so any surplus changes nothing.
  spare_digit : (room x y : ℕ) → x ≤ room → digits z op (suc room) x y ≡ digits z op room x y
  spare_digit zero zero y small = refl
  spare_digit zero (suc x) y small = absurd (omega arith)
  spare_digit (suc room) zero y small = refl
  spare_digit (suc room) (suc x) y small =
      ap (λ (high : ℕ). high * 2 + op (suc x % 2) (y % 2))
        (spare_digit room (suc x / 2) (y / 2) (omega arith))

  surplus : (extra x y : ℕ) → digits z op (extra + x) x y ≡ bitwise z op x y
  surplus zero x y =
      let none : 0 + x ≡ x = omega arith in ap (λ (room : ℕ). digits z op room x y) none
  surplus (suc extra) x y =
      let one_more : suc extra + x ≡ suc (extra + x) = omega arith in
      ap (λ (room : ℕ). digits z op room x y) one_more
      ∙ spare_digit (extra + x) x y (omega arith)
      ∙ surplus extra x y

  -- Whatever holds of the run-out case holds of the operation: it splits off its lowest digit.
  split_lowest :
      ((y : ℕ) → z y ≡ z (y / 2) * 2 + op 0 (y % 2))
      → (x y : ℕ) → bitwise z op x y ≡ bitwise z op (x / 2) (y / 2) * 2 + op (x % 2) (y % 2)
  split_lowest run_out zero y = run_out y
  split_lowest run_out (suc x) y =
      let room : (x - suc x / 2) + suc x / 2 ≡ x = omega arith in
      ap (λ (high : ℕ). high * 2 + op (suc x % 2) (y % 2))
        (ap (λ (n : ℕ). digits z op n (suc x / 2) (y / 2)) (sym room)
          ∙ surplus (x - suc x / 2) (suc x / 2) (y / 2))

-- An operation that means `bitwise z op` splits off its lowest digit too.
lowest_digit :
    (z : ℕ → ℕ) (op code : ℕ → ℕ → ℕ)
    → ((x y : ℕ) → code x y ≡ bitwise z op x y)
    → ((y : ℕ) → z y ≡ z (y / 2) * 2 + op 0 (y % 2))
    → (x y : ℕ) → code x y ≡ code (x / 2) (y / 2) * 2 + op (x % 2) (y % 2)
lowest_digit z op code means run_out x y =
    means x y
    ∙ split_lowest z op run_out x y
    ∙ ap (λ (high : ℕ). high * 2 + op (x % 2) (y % 2)) (sym (means (x / 2) (y / 2)))

bit_or-lowest : (x y : ℕ) → bit_or x y ≡ bit_or (x / 2) (y / 2) * 2 + max (x % 2) (y % 2)
bit_or-lowest = lowest_digit (λ y. y) max bit_or bit_or-bitwise (λ y. omega arith)

pub bit_and-lowest : (x y : ℕ) → bit_and x y ≡ bit_and (x / 2) (y / 2) * 2 + min (x % 2) (y % 2)
bit_and-lowest = lowest_digit (λ y. 0) min bit_and bit_and-bitwise (λ y. omega arith)

differ-zero : (y : ℕ) → differ 0 y ≡ y
differ-zero y = refl

bit_xor-differ : (x y : ℕ) → bit_xor x y ≡ bit_xor (x / 2) (y / 2) * 2 + differ (x % 2) (y % 2)
bit_xor-differ =
    lowest_digit (λ y. y) differ bit_xor bit_xor-bitwise (λ y. omega (arith, differ-zero (y % 2)))

-- The digit of `^` in arithmetic, for one binary digit each.
differ-digits : (x y : ℕ) → x < 2 → y < 2 → differ x y ≡ (x + y) % 2
differ-digits zero zero p q = refl
differ-digits zero (suc zero) p q = refl
differ-digits zero (suc (suc y)) p q = absurd (omega arith)
differ-digits (suc zero) zero p q = refl
differ-digits (suc zero) (suc zero) p q = refl
differ-digits (suc zero) (suc (suc y)) p q = absurd (omega arith)
differ-digits (suc (suc x)) y p q = absurd (omega arith)

pub bit_xor-lowest : (x y : ℕ) → bit_xor x y ≡ bit_xor (x / 2) (y / 2) * 2 + (x % 2 + y % 2) % 2
bit_xor-lowest x y =
    bit_xor-differ x y
    ∙ ap (λ (low : ℕ). bit_xor (x / 2) (y / 2) * 2 + low)
        (differ-digits (x % 2) (y % 2) (omega arith) (omega arith))

pub bit_and_zero : (n a : ℕ) → a ≤ n → bit_and a 0 ≡ 0
bit_and_zero n zero h = refl
bit_and_zero zero (suc a) h = absurd (omega arith)
bit_and_zero (suc n) (suc a) h =
    omega (arith, bit_and-lowest (suc a) 0, bit_and_zero n (suc a / 2) (omega arith))

pub bit_or_zero : (n a : ℕ) → a ≤ n → bit_or a 0 ≡ a
bit_or_zero n zero h = refl
bit_or_zero zero (suc a) h = absurd (omega arith)
bit_or_zero (suc n) (suc a) h =
    omega (arith, bit_or-lowest (suc a) 0, bit_or_zero n (suc a / 2) (omega arith))

-- A high field `high << width` and a low one that fits below it do not overlap, so `|` adds them.
pub bit_or_fields :
    (width high low : ℕ) → low < 2 ^ width → bit_or (high * 2 ^ width) low ≡ high * 2 ^ width + low
bit_or_fields zero high low fits = ground (arith, bit_or_zero high high)
bit_or_fields (suc width) high low fits =
    let doubled : high * 2 ^ suc width ≡ 2 * (high * 2 ^ width) =
      omega (arith, ap (λ (unit : ℕ). high * unit) (pow-suc 2 width)) in
    ground (
      arith,
      doubled,
      pow-suc 2 width,
      bit_or-lowest (high * 2 ^ suc width) low,
      bit_or_fields width high (low / 2) (omega (arith, pow-suc 2 width)),
    )

-- The quotient by `2 ^ (k + 1)` is that of the half by `2 ^ k`.
pub div-pow-suc : (k a : ℕ) → a / 2 ^ suc k ≡ a / 2 / 2 ^ k
div-pow-suc k a = ap (λ (t : ℕ). a / t) (pow-succ' 2 k) ∙ sym (div-div-eq-div-mul a 2 (2 ^ k))

pub mod-pow-suc : (k a : ℕ) → a % 2 ^ suc k ≡ (a / 2 % 2 ^ k) * 2 + a % 2
mod-pow-suc k a = omega (
  arith,
  div-pow-suc k a,
  pow-suc 2 k,
  ap (λ (t : ℕ). a / 2 ^ suc k * t) (pow-suc 2 k),
  ap (λ (t : ℕ). t * 2 ^ k) (div-pow-suc k a),
  div-add-mod a (2 ^ suc k),
  div-add-mod (a / 2) (2 ^ k),
)

-- A mask of `k` low bits is the remainder by `2 ^ k`.
pub bit_and_mask : (k a : ℕ) → bit_and a (2 ^ k - 1) ≡ a % 2 ^ k
bit_and_mask zero a = omega (arith, bit_and_zero a a (le_refl _))
bit_and_mask (suc k) a =
    let half : (2 ^ suc k - 1) / 2 ≡ 2 ^ k - 1 = omega (arith, pow-suc 2 k, one-le-pow k 2) in
    omega (
      arith,
      bit_and-lowest a (2 ^ suc k - 1),
      ap (bit_and (a / 2)) half,
      pow-suc 2 k,
      one-le-pow k 2,
      bit_and_mask k (a / 2),
      mod-pow-suc k a,
    )

-- A single-bit mask picks the digit.
pub bit_and_single : (k a : ℕ) → bit_and a (2 ^ k) ≡ a / 2 ^ k % 2 * 2 ^ k
bit_and_single zero a = omega (arith, bit_and-lowest a 1, bit_and_zero (a / 2) (a / 2) (le_refl _))
bit_and_single (suc k) a =
    let half : 2 ^ suc k / 2 ≡ 2 ^ k = omega (arith, pow-suc 2 k) in
    omega (
      arith,
      bit_and-lowest a (2 ^ suc k),
      ap (bit_and (a / 2)) half,
      pow-suc 2 k,
      bit_and_single k (a / 2),
      ap (λ (t : ℕ). t % 2 * 2 ^ suc k) (div-pow-suc k a),
      ap (λ (t : ℕ). a / 2 / 2 ^ k % 2 * t) (pow-suc 2 k),
    )
