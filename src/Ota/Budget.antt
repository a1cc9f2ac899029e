-- ===== src/Ota/Budget.antt =====
-- The attempt budget of main/update.c.
use mathlib.Core.List.{List, [], ◌∷◌}
use mathlib.Core.Option.{Option, none, some}
use rtkdata_fw.Base.{
  ℕ, zero, suc, ◌+◌, ◌<◌, ◌≤◌, ◌≡◌, refl, sym, ap, ◌∙◌, inl, inr, arith, min, ltb, leb,
  if◌then◌else◌,
}
use rtkdata_fw.Base.{
  Bool, true, false, not, length, Bool-cases, if-case, and_true, le→leb, ==_iff, u8, ◌&&◌, and_left,
  and_right, absurd_bool, leb→le,
}
use rtkdata_fw.Ota.{
  Nvs, max_ota_attempts, get_u8, same_text, stored_is, booked, attempt_allowed, attempts_exhausted,
}

-- The namespace after `n` calls for one version that could open it.
pub attempts : ℕ → List ℕ → Nvs → Nvs
attempts zero v nvs = nvs
attempts (suc n) v nvs = (attempt_allowed true v (attempts n v nvs)).1

same_text_refl : (v : List ℕ) → same_text v v ≡ true
unfolding same_text
same_text_refl [] = refl
same_text_refl (x ∷ xs) = and_true _ _ ((==_iff x x).1 refl) (same_text_refl xs)

booked-some :
    (v : List ℕ) (nvs : Nvs) (n : ℕ)
    → length v < 24
    → booked v (record nvs { fail_ver = some v; fail_cnt = some n }) ≡ n
unfolding booked stored_is
booked-some v nvs n h =
    rw (and_true _ _ (le→leb (length v + 1) 24 (omega arith)) (same_text_refl v)) refl

pub booked-attempt :
    (v : List ℕ) (nvs : Nvs)
    → length v < 24
    → booked v (attempt_allowed true v nvs).1
      ≡ (if leb max_ota_attempts (booked v nvs) then booked v nvs else booked v nvs + 1)
unfolding attempt_allowed
booked-attempt v nvs h =
    let b = booked v nvs in
    elim (Bool-cases (leb max_ota_attempts b)) [
      | inl t ↦ rw t refl
      | inr f ↦ rw f (booked-some v nvs (u8 (b + 1)) h ∙ small b f)
    ]
  where
    small : (b : ℕ) → leb max_ota_attempts b ≡ false → u8 (b + 1) ≡ b + 1
    small b f = ground arith

-- The twin that books nothing agrees with the one that books, on every stored state.
pub attempts_exhausted-twin :
    (v : List ℕ) (nvs : Nvs) → attempts_exhausted true v nvs ≡ not (attempt_allowed true v nvs).0
unfolding attempts_exhausted attempt_allowed
attempts_exhausted-twin v nvs =
    if-case (λ (o : Bool × Nvs). leb max_ota_attempts (booked v nvs) ≡ not o.0)
      (leb max_ota_attempts (booked v nvs)) (λ h. h) (λ h. h)

booked-attempts :
    (n : ℕ) (v : List ℕ) (nvs : Nvs)
    → length v < 24
    → booked v nvs ≡ 0
    → booked v (attempts n v nvs) ≡ min 3 n
unfolding attempts
booked-attempts zero v nvs h e = e
booked-attempts (suc n) v nvs h e =
    let ih = booked-attempts n v nvs h e in
    booked-attempt v (attempts n v nvs) h
    ∙ ap (λ b. if leb max_ota_attempts b then b else b + 1) ih
    ∙ ground arith

-- A version of at most 23 characters for which nothing is booked is allowed exactly three
-- attempts, whatever is stored of another version, and after them none.
pub attempts-budget :
    (n : ℕ) (v : List ℕ) (nvs : Nvs)
    → length v < 24
    → booked v nvs ≡ 0
    → (attempt_allowed true v (attempts n v nvs)).0 ≡ ltb n 3
unfolding attempt_allowed
attempts-budget n v nvs h e =
    let b = booked v (attempts n v nvs) in
    let ih = booked-attempts n v nvs h e in
    if-case (λ (o : Bool × Nvs). o.0 ≡ ltb n 3) (leb max_ota_attempts b) (λ t. ground arith)
      (λ f. ground arith)

same_text-length : (v w : List ℕ) → same_text v w ≡ true → length v ≡ length w
unfolding same_text
same_text-length [] [] h = refl
same_text-length [] (y ∷ ys) h = absurd_bool h
same_text-length (x ∷ xs) [] h = absurd_bool h
same_text-length (x ∷ xs) (y ∷ ys) h = ap (λ k. suc k) (same_text-length xs ys (and_right _ _ h))

unstored : (v : List ℕ) (o : Option (List ℕ)) → 24 ≤ length v → stored_is v o ≡ false
unfolding stored_is
unstored v none h = refl
unstored v (some w) h = elim (Bool-cases (leb (length w + 1) 24 && same_text w v)) [
  | inr f ↦ f
  | inl t ↦
      let e = same_text-length w v (and_right (leb (length w + 1) 24) (same_text w v) t) in
      let k = leb→le (length w + 1) 24 (and_left (leb (length w + 1) 24) (same_text w v) t) in
      absurd (omega (arith, e, k, h))
]

-- A version of more than 23 characters is never out of attempts: its text does not fit the buffer
-- that it is compared in.
pub attempts-unbounded :
    (n : ℕ) (v : List ℕ) (nvs : Nvs)
    → 24 ≤ length v
    → (attempt_allowed true v (attempts n v nvs)).0 ≡ true
unfolding attempt_allowed booked
attempts-unbounded n v nvs h =
    let m = attempts n v nvs in
    let e = unstored v m.fail_ver h in
    if-case (λ (o : Bool × Nvs). o.0 ≡ true) (leb max_ota_attempts (booked v m))
      (λ t.
        absurd_bool
          (sym (ap (λ b. leb max_ota_attempts (if b then get_u8 m.fail_cnt else 0)) e) ∙ t))
      (λ f. refl)
