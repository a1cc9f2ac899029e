-- ===== src/Text/Compare.antt =====
-- `strcmp` decides equality.
use mathlib.Core.List.{List, [], ◌∷◌}
use rtkdata_fw.Base.{ℕ, ◌≡◌, refl, ap, ◌∙◌, arith, true, ◌==◌, and_left, and_right, and_true}
use rtkdata_fw.Base.{==_iff}
use rtkdata_fw.Text.{eq_text}

pub eq_text_refl : (xs : List ℕ) → eq_text xs xs ≡ true
unfolding eq_text
eq_text_refl [] = refl
eq_text_refl (x ∷ xs) = and_true (x == x) (eq_text xs xs) ((==_iff x x).1 refl) (eq_text_refl xs)

pub eq_of_eq_text : (xs ys : List ℕ) → eq_text xs ys ≡ true → xs ≡ ys
unfolding eq_text
eq_of_eq_text [] [] h = refl
eq_of_eq_text [] (y ∷ ys) h = absurd (ground arith)
eq_of_eq_text (x ∷ xs) [] h = absurd (ground arith)
eq_of_eq_text (x ∷ xs) (y ∷ ys) h =
    ap (λ (a : ℕ). a ∷ xs) ((==_iff x y).0 (and_left (x == y) (eq_text xs ys) h))
    ∙ ap (λ (l : List ℕ). y ∷ l) (eq_of_eq_text xs ys (and_right (x == y) (eq_text xs ys) h))
