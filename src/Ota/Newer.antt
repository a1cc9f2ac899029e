-- ===== src/Ota/Newer.antt =====
-- The version order of main/update.c on versions that start with a number.
use mathlib.Core.List.{List}
use rtkdata_fw.Base.{ℕ, ◌<◌, ◌≡◌, refl, sym, ◌∙◌, ◌⊎◌, inl, inr, arith, ltb, if◌then◌else◌}
use rtkdata_fw.Base.{◌||◌, Bool, true, false, length, if-case, absurd_bool}
use mathlib.Core.Logic.{◌↔◌}
use rtkdata_fw.Ota.{Version, field, newer_from, version_is_newer}

-- One field decides, or the next ones do.
three_way :
    (a b : ℕ) (r : Bool)
    → (if ltb b a then true else if ltb a b then false else r) ≡ true
    → (b < a) ⊎ ((a ≡ b) × (r ≡ true))
three_way a b true h = ground arith
three_way a b false h = ground arith

decided :
    (a b : ℕ) (r : Bool) → b < a → (if ltb b a then true else if ltb a b then false else r) ≡ true
decided a b r h = ground arith

tied :
    (a b : ℕ) (r : Bool)
    → a ≡ b
    → r ≡ true
    → (if ltb b a then true else if ltb a b then false else r) ≡ true
tied a b true h k = ground arith
tied a b false h k = absurd_bool k

-- The text of a version starts with a number.
abbrev pub Reads : Version → Type 0
Reads v = 0 < length v.fields

numeric :
    (v w : Version) → Reads v → Reads w → version_is_newer v w ≡ newer_from 3 0 v.fields w.fields
unfolding version_is_newer
numeric v w p q =
    if-case (λ b. b ≡ newer_from 3 0 v.fields w.fields)
      (ltb (length v.fields) 1 || ltb (length w.fields) 1) (λ h. absurd (ground arith)) (λ _. refl)

-- Major, minor and patch, the first that differs decides; what was not read is 0.
abbrev pub Later : List ℕ → List ℕ → Type 0
Later a b =
    (field b 0 < field a 0)
    ⊎ ((field a 0 ≡ field b 0)
        × ((field b 1 < field a 1) ⊎ ((field a 1 ≡ field b 1) × (field b 2 < field a 2))))

newer_from-Later : (a b : List ℕ) → newer_from 3 0 a b ≡ true → Later a b
unfolding newer_from
newer_from-Later a b h = elim (three_way (field a 0) (field b 0) (newer_from 2 1 a b) h) [
  | inl p ↦ inl p
  | inr (e, r) ↦ inr (
    e,
    elim (three_way (field a 1) (field b 1) (newer_from 1 2 a b) r) [
      | inl p ↦ inl p
      | inr (f, q) ↦ inr (
        f,
        elim (three_way (field a 2) (field b 2) (newer_from 0 3 a b) q) [
          | inl p ↦ p
          | inr (g, x) ↦ absurd_bool x
        ],
      )
    ],
  )
]

Later-newer_from : (a b : List ℕ) → Later a b → newer_from 3 0 a b ≡ true
unfolding newer_from
Later-newer_from a b (inl p) = decided (field a 0) (field b 0) (newer_from 2 1 a b) p
Later-newer_from a b (inr (e, inl p)) =
    tied (field a 0) (field b 0) (newer_from 2 1 a b) e
      (decided (field a 1) (field b 1) (newer_from 1 2 a b) p)
Later-newer_from a b (inr (e, inr (f, p))) = tied (field a 0) (field b 0) (newer_from 2 1 a b) e (
    tied (field a 1) (field b 1) (newer_from 1 2 a b) f
      (decided (field a 2) (field b 2) (newer_from 0 3 a b) p))

-- Of two versions whose texts start with a number, the first is newer than the second exactly when its
-- major number is greater, or that is equal and its minor number is greater, or both are equal and its
-- patch number is greater.
pub version_is_newer-Later :
    (v w : Version) → Reads v → Reads w → (version_is_newer v w ≡ true) ↔ Later v.fields w.fields
version_is_newer-Later v w p q = (
  λ h. newer_from-Later v.fields w.fields (sym (numeric v w p q) ∙ h),
  λ l. numeric v w p q ∙ Later-newer_from v.fields w.fields l,
)
