-- ===== src/Base/Xor.antt =====
-- The algebra of `^` on words: a commutative group, additive on fields, bounded by its operands.
use Prim.Native.Nat.{ℕ, zero, suc, ◌+◌, ◌*◌, ◌/◌, ◌%◌, ◌^◌, ◌≤◌, ◌<◌, bit_xor}
use mathlib.Core.Path.{◌≡◌, refl, sym, ap, ◌∙◌}
use native.Mathlib.Nat.{le_refl, pow-suc}
use native.Mathlib.Omega.{arith}
use rtkdata_fw.Base.Bits.{bit_xor-lowest, div-pow-suc, mod-pow-suc}

-- Each law goes from the halves to the numbers, by a bound on the operands.
module _ where
  comm_below : (n a b : ℕ) → a ≤ n → b ≤ n → bit_xor a b ≡ bit_xor b a
  comm_below zero zero zero p q = refl
  comm_below zero (suc a) b p q = absurd (omega arith)
  comm_below zero zero (suc b) p q = absurd (omega arith)
  comm_below (suc n) a b p q = omega (
    arith,
    bit_xor-lowest a b,
    bit_xor-lowest b a,
    comm_below n (a / 2) (b / 2) (omega arith) (omega arith),
  )

  assoc_below :
      (n a b c : ℕ) → a ≤ n → b ≤ n → c ≤ n → bit_xor (bit_xor a b) c ≡ bit_xor a (bit_xor b c)
  assoc_below zero zero zero zero p q r = refl
  assoc_below zero (suc a) b c p q r = absurd (omega arith)
  assoc_below zero zero (suc b) c p q r = absurd (omega arith)
  assoc_below zero zero zero (suc c) p q r = absurd (omega arith)
  assoc_below (suc n) a b c p q r =
      let ab : bit_xor a b / 2 ≡ bit_xor (a / 2) (b / 2) = omega (arith, bit_xor-lowest a b) in
      let bc : bit_xor b c / 2 ≡ bit_xor (b / 2) (c / 2) = omega (arith, bit_xor-lowest b c) in
      omega (
        arith,
        bit_xor-lowest (bit_xor a b) c,
        bit_xor-lowest a (bit_xor b c),
        bit_xor-lowest a b,
        bit_xor-lowest b c,
        ap (λ (t : ℕ). bit_xor t (c / 2)) ab,
        ap (bit_xor (a / 2)) bc,
        assoc_below n (a / 2) (b / 2) (c / 2) (omega arith) (omega arith) (omega arith),
      )

  self_below : (n a : ℕ) → a ≤ n → bit_xor a a ≡ 0
  self_below zero zero p = refl
  self_below zero (suc a) p = absurd (omega arith)
  self_below (suc n) a p = omega (arith, bit_xor-lowest a a, self_below n (a / 2) (omega arith))

  zero_below : (n a : ℕ) → a ≤ n → bit_xor a 0 ≡ a
  zero_below zero zero p = refl
  zero_below zero (suc a) p = absurd (omega arith)
  zero_below (suc n) a p = omega (arith, bit_xor-lowest a 0, zero_below n (a / 2) (omega arith))

pub xor_comm : (a b : ℕ) → bit_xor a b ≡ bit_xor b a
xor_comm a b = comm_below (a + b) a b (omega arith) (omega arith)

pub xor_assoc : (a b c : ℕ) → bit_xor (bit_xor a b) c ≡ bit_xor a (bit_xor b c)
xor_assoc a b c = assoc_below (a + b + c) a b c (omega arith) (omega arith) (omega arith)

pub xor_self : (a : ℕ) → bit_xor a a ≡ 0
xor_self a = self_below a a (le_refl _)

pub xor-zero : (a : ℕ) → bit_xor a 0 ≡ a
xor-zero a = zero_below a a (le_refl _)

pub zero-xor : (a : ℕ) → bit_xor 0 a ≡ a
zero-xor a = xor_comm 0 a ∙ xor-zero a

pub xor_left_cancel : (a b : ℕ) → bit_xor a (bit_xor a b) ≡ b
xor_left_cancel a b = sym (xor_assoc a a b) ∙ ap (λ (t : ℕ). bit_xor t b) (xor_self a) ∙ zero-xor b

-- (a ^ b) ^ (c ^ d) = (a ^ c) ^ (b ^ d)
pub xor_swap :
    (a b c d : ℕ) → bit_xor (bit_xor a b) (bit_xor c d) ≡ bit_xor (bit_xor a c) (bit_xor b d)
xor_swap a b c d =
    xor_assoc a b (bit_xor c d)
    ∙ ap (bit_xor a) (sym (xor_assoc b c d))
    ∙ ap (λ (t : ℕ). bit_xor a (bit_xor t d)) (xor_comm b c)
    ∙ ap (bit_xor a) (xor_assoc c b d)
    ∙ sym (xor_assoc a c (bit_xor b d))

-- Two words with no difference are one.
pub eq_of_xor : (a b : ℕ) → bit_xor a b ≡ 0 → a ≡ b
eq_of_xor a b e = sym (xor-zero a) ∙ ap (bit_xor a) (sym e) ∙ xor_left_cancel a b

pub xor-div-two : (a b : ℕ) → bit_xor a b / 2 ≡ bit_xor (a / 2) (b / 2)
xor-div-two a b = omega (arith, bit_xor-lowest a b)

pub xor-double : (a b : ℕ) → bit_xor (a * 2) (b * 2) ≡ bit_xor a b * 2
xor-double a b =
    let ea : a * 2 / 2 ≡ a = omega arith in
    let eb : b * 2 / 2 ≡ b = omega arith in
    omega (
      arith,
      bit_xor-lowest (a * 2) (b * 2),
      ap (λ (t : ℕ). bit_xor t (b * 2 / 2)) ea,
      ap (bit_xor a) eb,
    )

-- Shifts distribute.
pub xor-shr : (k a b : ℕ) → bit_xor a b / 2 ^ k ≡ bit_xor (a / 2 ^ k) (b / 2 ^ k)
xor-shr zero a b = omega (
  arith,
  ap (λ (t : ℕ). bit_xor t (b / 1)) (let e : a / 1 ≡ a = omega arith in e),
  ap (bit_xor a) (let e : b / 1 ≡ b = omega arith in e),
)
xor-shr (suc k) a b =
    div-pow-suc k (bit_xor a b)
    ∙ ap (λ (t : ℕ). t / 2 ^ k) (xor-div-two a b)
    ∙ xor-shr k (a / 2) (b / 2)
    ∙ ap (λ (t : ℕ). bit_xor t (b / 2 / 2 ^ k)) (sym (div-pow-suc k a))
    ∙ ap (bit_xor (a / 2 ^ suc k)) (sym (div-pow-suc k b))

pub xor-mod : (k a b : ℕ) → bit_xor a b % 2 ^ k ≡ bit_xor (a % 2 ^ k) (b % 2 ^ k)
xor-mod zero a b =
    let ea : a % 1 ≡ 0 = omega arith in
    let eb : b % 1 ≡ 0 = omega arith in rw (ea, eb) (omega arith)
xor-mod (suc k) a b =
    let r = a / 2 % 2 ^ k * 2 + a % 2 in
    let s = b / 2 % 2 ^ k * 2 + b % 2 in
    let er : r / 2 ≡ a / 2 % 2 ^ k = omega arith in
    let es : s / 2 ≡ b / 2 % 2 ^ k = omega arith in
    rw (mod-pow-suc k (bit_xor a b), mod-pow-suc k a, mod-pow-suc k b)
      (omega (
        arith,
        bit_xor-lowest r s,
        ap (λ (t : ℕ). bit_xor t (s / 2)) er,
        ap (bit_xor (a / 2 % 2 ^ k)) es,
        xor-mod k (a / 2) (b / 2),
        ap (λ (t : ℕ). t % 2 ^ k) (xor-div-two a b),
        bit_xor-lowest a b,
      ))

pub xor-lt : (k a b : ℕ) → a < 2 ^ k → b < 2 ^ k → bit_xor a b < 2 ^ k
xor-lt zero a b p q =
    let ea : a ≡ 0 = omega arith in let eb : b ≡ 0 = omega arith in rw (ea, eb) (omega arith)
xor-lt (suc k) a b p q = omega (
  arith,
  bit_xor-lowest a b,
  pow-suc 2 k,
  xor-lt k (a / 2) (b / 2) (omega (arith, pow-suc 2 k)) (omega (arith, pow-suc 2 k)),
)

pub xor-shl : (k a b : ℕ) → bit_xor (a * 2 ^ k) (b * 2 ^ k) ≡ bit_xor a b * 2 ^ k
xor-shl zero a b =
    let ea : a * 1 ≡ a = omega arith in
    let eb : b * 1 ≡ b = omega arith in rw (ea, eb) (omega arith)
xor-shl (suc k) a b =
    let ea : a * 2 ^ suc k ≡ a * 2 ^ k * 2 = omega (arith, ap (λ (t : ℕ). a * t) (pow-suc 2 k)) in
    let eb : b * 2 ^ suc k ≡ b * 2 ^ k * 2 = omega (arith, ap (λ (t : ℕ). b * t) (pow-suc 2 k)) in
    rw (ea, eb, xor-double (a * 2 ^ k) (b * 2 ^ k))
      (omega (arith, xor-shl k a b, ap (λ (t : ℕ). bit_xor a b * t) (pow-suc 2 k)))

-- `(q << k) ^ r` is a sum when `r` fits `k` bits.
pub xor_fields : (k q r : ℕ) → r < 2 ^ k → bit_xor (q * 2 ^ k) r ≡ q * 2 ^ k + r
xor_fields zero q r fits = let e : r ≡ 0 = omega arith in rw (e, xor-zero (q * 2 ^ 0)) (omega arith)
xor_fields (suc k) q r fits =
    let e : q * 2 ^ suc k / 2 ≡ q * 2 ^ k = omega (arith, ap (λ (t : ℕ). q * t) (pow-suc 2 k)) in
    omega (
      arith,
      bit_xor-lowest (q * 2 ^ suc k) r,
      ap (λ (t : ℕ). bit_xor t (r / 2)) e,
      ap (λ (t : ℕ). q * t) (pow-suc 2 k),
      pow-suc 2 k,
      xor_fields k q (r / 2) (omega (arith, pow-suc 2 k)),
    )
