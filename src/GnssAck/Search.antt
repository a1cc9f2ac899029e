-- ===== src/GnssAck/Search.antt =====
-- `find_at` of main/gnss_ack.c finds the first match, and misses none.
use mathlib.Core.List.{List}
use mathlib.Core.Option.{Option, none, some}
use mathlib.Core.Path.{subst}
use rtkdata_fw.Base.{
  ℕ, zero, suc, ◌+◌, ◌-◌, ◌≤◌, ◌<◌, ◌≡◌, inl, inr, refl, sym, ◌∙◌, arith, ltb, leb, ◌==◌,
}
use rtkdata_fw.Base.{◌||◌, true, false, length, drop, Bool-cases, if-case, leb→le, ==_iff}
use rtkdata_fw.GnssAck.{starts_with, find_loop, find_at}

-- The text stands in the first `n` bytes of the buffer at this index.
pub record Matches (hay : List ℕ) (n : ℕ) (needle : List ℕ) (i : ℕ) : Type 0 where
  pub room : i + length needle ≤ n
  pub same : starts_with needle (drop i hay) ≡ true

pub absurd_none {ℓ} : {A : Type ℓ} {k : ℕ} → Option.none ≡ some k → A
absurd_none h = ground arith

pub some_inj : {i k : ℕ} → some i ≡ some k → i ≡ k
some_inj h = ground arith

-- One turn of the loop, by its two tests.
find_loop-far :
    (fuel : ℕ) (hay : List ℕ) (n i : ℕ) (needle : List ℕ)
    → leb (i + length needle) n ≡ false
    → find_loop (suc fuel) hay n i needle ≡ none
unfolding find_loop
find_loop-far fuel hay n i needle h = rw h refl

find_loop-here :
    (fuel : ℕ) (hay : List ℕ) (n i : ℕ) (needle : List ℕ)
    → leb (i + length needle) n ≡ true
    → starts_with needle (drop i hay) ≡ true
    → find_loop (suc fuel) hay n i needle ≡ some i
unfolding find_loop
find_loop-here fuel hay n i needle h k = rw h (rw k refl)

find_loop-next :
    (fuel : ℕ) (hay : List ℕ) (n i : ℕ) (needle : List ℕ)
    → leb (i + length needle) n ≡ true
    → starts_with needle (drop i hay) ≡ false
    → find_loop (suc fuel) hay n i needle ≡ find_loop fuel hay n (i + 1) needle
unfolding find_loop
find_loop-next fuel hay n i needle h k = rw h (rw k refl)

-- What a result of the search from `i` means.
pub record First (hay : List ℕ) (n : ℕ) (needle : List ℕ) (i k : ℕ) : Type 0 where
  pub from : i ≤ k
  pub here : Matches hay n needle k
  pub least : (j : ℕ) → i ≤ j → j < k → starts_with needle (drop j hay) ≡ false

find_loop-First :
    (fuel : ℕ) (hay : List ℕ) (n i : ℕ) (needle : List ℕ) (k : ℕ)
    → find_loop fuel hay n i needle ≡ some k
    → First hay n needle i k
unfolding find_loop
find_loop-First zero hay n i needle k h = absurd_none h
find_loop-First (suc fuel) hay n i needle k h = elim (Bool-cases (leb (i + length needle) n)) [
  | inr f ↦ absurd_none (sym (find_loop-far fuel hay n i needle f) ∙ h)
  | inl f ↦ elim (Bool-cases (starts_with needle (drop i hay))) [
    | inl s ↦
        let e = some_inj (sym (find_loop-here fuel hay n i needle f s) ∙ h) in
        subst (λ x. First hay n needle i x) e
          (record {
            from = omega arith;
            here = record { room = leb→le _ _ f; same = s };
            least = λ j p q. absurd (omega arith);
          })
    | inr s ↦
        let r =
          find_loop-First fuel hay n (i + 1) needle k
            (sym (find_loop-next fuel hay n i needle f s) ∙ h) in
        record {
          from = ≤-weaken r.from;
          here = r.here;
          least = λ j p q. elim (Bool-cases (j == i)) [
            | inl e ↦
                subst (λ x. starts_with needle (drop x hay) ≡ false) (sym ((==_iff j i).0 e)) s
            | inr e ↦ r.least j (ground arith) q
          ];
        }
  ]
]
  where
    ≤-weaken : {a b : ℕ} → a + 1 ≤ b → a ≤ b
    ≤-weaken h = omega arith

find_loop-none :
    (fuel : ℕ) (hay : List ℕ) (n i : ℕ) (needle : List ℕ)
    → n < i + fuel
    → find_loop fuel hay n i needle ≡ none
    → (j : ℕ) → i ≤ j
    → j + length needle ≤ n
    → starts_with needle (drop j hay) ≡ false
find_loop-none zero hay n i needle b h j p q = absurd (omega arith)
find_loop-none (suc fuel) hay n i needle b h j p q = elim (Bool-cases (leb (i + length needle) n)) [
  | inr f ↦ absurd (ground arith)
  | inl f ↦ elim (Bool-cases (starts_with needle (drop i hay))) [
    | inl s ↦ absurd_none (sym h ∙ find_loop-here fuel hay n i needle f s)
    | inr s ↦ elim (Bool-cases (j == i)) [
      | inl e ↦ subst (λ x. starts_with needle (drop x hay) ≡ false) (sym ((==_iff j i).0 e)) s
      | inr e ↦
          find_loop-none fuel hay n (i + 1) needle (omega arith)
            (sym (find_loop-next fuel hay n i needle f s) ∙ h) j (ground arith) q
    ]
  ]
]

-- The search from an index returns only a match at or after it, and the first one.
pub find_at-First :
    (hay : List ℕ) (n i : ℕ) (needle : List ℕ) (k : ℕ)
    → find_at hay n i needle ≡ some k
    → First hay n needle i k
unfolding find_at
find_at-First hay n i needle k h =
    if-case (λ (o : Option ℕ). o ≡ some k → First hay n needle i k)
      ((length needle == 0) || ltb n (length needle)) (λ _ q. absurd_none q)
      (λ _ q. find_loop-First (suc (n - i)) hay n i needle k q) h

-- If the search from an index finds nothing, no match stands at or after it: its bound on the
-- turns is enough.
pub find_at-none :
    (hay : List ℕ) (n i : ℕ) (needle : List ℕ)
    → 0 < length needle
    → find_at hay n i needle ≡ none
    → (j : ℕ) → i ≤ j
    → j + length needle ≤ n
    → starts_with needle (drop j hay) ≡ false
unfolding find_at
find_at-none hay n i needle p h j a b =
    if-case (λ (o : Option ℕ). o ≡ none → starts_with needle (drop j hay) ≡ false)
      ((length needle == 0) || ltb n (length needle)) (λ t q. absurd (ground arith))
      (λ _ q. find_loop-none (suc (n - i)) hay n i needle (omega arith) q j a b) h
