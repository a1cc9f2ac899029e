-- ===== src/Text/Decimal.antt =====
-- A printed number reads back.
use mathlib.Core.List.{List, [], ◌∷◌, ◌++◌}
use native.Mathlib.Nat.{pow-suc}
use rtkdata_fw.Base.{ℕ, zero, suc, ◌+◌, ◌-◌, ◌*◌, ◌/◌, ◌%◌, ◌^◌, ◌≤◌, ◌<◌, ◌≡◌, refl, ap, ◌∙◌}
use rtkdata_fw.Base.{arith, All, inl, inr, Bool-cases, ltb, leb, ◌==◌, ◌&&◌, ◌||◌, true, false}
use rtkdata_fw.Base.{All-append}
use rtkdata_fw.Text.{scan_digits, digit_value, print_digits, print_nat, signed, skip_space}
use rtkdata_fw.Text.{strtoul, strtol}

abbrev pub IsDigit : ℕ → Type 0
IsDigit c = (48 ≤ c) × (c < 58)

digit_value-IsDigit : (c : ℕ) → IsDigit c → digit_value c ≡ c - 48
unfolding digit_value
digit_value-IsDigit c h = ground arith

scan_digits-append :
    (xs ys : List ℕ) (acc : ℕ)
    → All IsDigit xs
    → scan_digits 10 (xs ++ ys) acc ≡ scan_digits 10 ys (scan_digits 10 xs acc)
unfolding scan_digits
scan_digits-append [] ys acc h = refl
scan_digits-append (x ∷ xs) ys acc h =
    let small : ltb (digit_value x) 10 ≡ true = ground (arith, digit_value-IsDigit x h.0) in
    rw small (scan_digits-append xs ys (acc * 10 + digit_value x) h.1)

scan_digits-one : (acc d : ℕ) → d < 10 → scan_digits 10 ((48 + d) ∷ []) acc ≡ acc * 10 + d
unfolding scan_digits
scan_digits-one acc d h = ground (arith, digit_value-IsDigit (48 + d))

pub print_digits-IsDigit : (room n : ℕ) → All IsDigit (print_digits room n)
unfolding print_digits
print_digits-IsDigit zero n = tt
print_digits-IsDigit (suc room) n = elim (Bool-cases (ltb n 10)) [
  | inl small ↦ rw small ((omega arith, ground arith), tt)
  | inr large ↦ rw large (
      All-append IsDigit (print_digits room (n / 10)) ((48 + n % 10) ∷ [])
        (print_digits-IsDigit room (n / 10)) ((omega arith, omega arith), tt))
]

scan-print_digits : (room n : ℕ) → n < 10 ^ room → scan_digits 10 (print_digits room n) 0 ≡ n
unfolding print_digits
scan-print_digits zero n h = unfold scan_digits in omega arith
scan-print_digits (suc room) n h = elim (Bool-cases (ltb n 10)) [
  | inl small ↦ rw small (scan_digits-one 0 n (ground arith) ∙ omega arith)
  | inr large ↦
      let ih = scan-print_digits room (n / 10) (omega (arith, pow-suc 10 room)) in
      rw large (
        scan_digits-append (print_digits room (n / 10)) ((48 + n % 10) ∷ []) 0
          (print_digits-IsDigit room (n / 10))
        ∙ scan_digits-one (scan_digits 10 (print_digits room (n / 10)) 0) (n % 10) (omega arith)
        ∙ omega (arith, ih))
]

-- A digit is no sign.
signed-digit :
    (c : ℕ) (xs : List ℕ) → IsDigit c → signed 10 (c ∷ xs) ≡ (false, scan_digits 10 (c ∷ xs) 0)
unfolding signed
signed-digit c xs d =
    let minus : (c == 45) ≡ false = ground arith in
    let plus : (c == 43) ≡ false = ground arith in rw minus (rw plus refl)

signed-digits :
    (xs : List ℕ) → All IsDigit xs → signed 10 (skip_space xs) ≡ (false, scan_digits 10 xs 0)
unfolding skip_space
signed-digits [] h = unfold signed scan_digits in refl
signed-digits (c ∷ xs) h =
    let shown : (c == 32 || (leb 9 c && leb c 13)) ≡ false = ground arith in
    rw shown (signed-digit c xs h.0)

signed-print_nat : (n : ℕ) → n < 10 ^ 20 → signed 10 (skip_space (print_nat n)) ≡ (false, n)
unfolding print_nat
signed-print_nat n h =
    signed-digits (print_digits 20 n) (print_digits-IsDigit 20 n)
    ∙ ap (λ (m : ℕ). (false, m)) (scan-print_digits 20 n h)

pub strtoul-print_nat : (n : ℕ) → n < 2 ^ 32 → strtoul (print_nat n) ≡ n
unfolding strtoul
strtoul-print_nat n h =
    let fits : ltb (2 ^ 32 - 1) n ≡ false = ground arith in
    rw (signed-print_nat n (omega arith)) (rw fits refl)

pub strtol-print_nat : (n : ℕ) → n < 2 ^ 31 → strtol (print_nat n) ≡ (n, false)
unfolding strtol
strtol-print_nat n h =
    let fits : ltb (2 ^ 31 - 1) n ≡ false = ground arith in
    rw (signed-print_nat n (omega arith)) (rw fits refl)

-- Only 0 is printed as "0".
pub print_nat-zero : print_nat 0 ≡ b'0' ∷ []
unfolding print_nat print_digits
print_nat-zero = refl
