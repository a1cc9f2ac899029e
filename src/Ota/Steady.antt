-- ===== src/Ota/Steady.antt =====
-- `ota_mark_valid_task` of main/update.c: what its locals tell of the checks behind it.
use mathlib.Core.List.{List, [], ◌∷◌}
use mathlib.Core.Path.{subst}
use rtkdata_fw.Base.{
  ℕ, zero, suc, ◌+◌, ◌<◌, ◌≤◌, ◌≡◌, refl, sym, ◌∙◌, inl, inr, arith, ltb, leb, ◌==◌,
}
use rtkdata_fw.Base.{
  true, false, ◌&&◌, Bool-cases, absurd_bool, and_left, and_right, ltb→lt, ==_iff,
}
use rtkdata_fw.Ota.Confirm.{Check, Probe, delta, sound, observe}

-- From one check to the next the path carried corrections: ten new frames and 2048 new bytes at
-- least, every required type fresh, an uploader configured, and no recovery in between.
pub record Carried (prev c : Check) : Type 0 where
  pub frames : prev.frames_ok + 10 ≤ c.frames_ok
  pub bytes : prev.accepted + 2048 ≤ c.accepted
  pub fresh : c.all_fresh ≡ true
  pub enabled : 0 < c.instances
  pub calm : c.recoveries_gnss ≡ prev.recoveries_gnss

-- The latest checks of a list, latest first, carry from each to the next this many times.
pub Steady : ℕ → List Check → Type 0
Steady zero past = Unit
Steady (suc n) [] = ⊥
Steady (suc n) (c ∷ []) = ⊥
Steady (suc n) (c ∷ p ∷ past) = Carried p c × Steady n (p ∷ past)

Steady-le : (n m : ℕ) (past : List Check) → n ≤ m → Steady m past → Steady n past
unfolding Steady
Steady-le zero m past h s = tt
Steady-le (suc n) zero past h s = absurd (omega arith)
Steady-le (suc n) (suc m) [] h s = s
Steady-le (suc n) (suc m) (c ∷ []) h s = s
Steady-le (suc n) (suc m) (c ∷ p ∷ past) h s = (s.0, Steady-le n m (p ∷ past) (omega arith) s.1)

-- The locals after these checks, latest first.
unfoldable pub Tracks : List Check → Probe → Type 0
Tracks [] p = (p.have_prev ≡ false) × (p.stable ≡ 0)
Tracks (h ∷ past) p =
    (p.prev_rec_gnss ≡ h.recoveries_gnss)
    × ((p.prev_frames ≡ h.frames_ok) × ((p.prev_bytes ≡ h.accepted) × Steady p.stable (h ∷ past)))

grown : (now prev d : ℕ) → 0 < d → leb d (delta now prev) ≡ true → prev + d ≤ now
unfolding delta
grown now prev d p h = ground arith

sound-parts :
    (c : Check) (p : Probe)
    → sound c p ≡ true
    → (p.have_prev ≡ true)
      × ((p.prev_frames + 10 ≤ c.frames_ok)
          × ((p.prev_bytes + 2048 ≤ c.accepted)
              × ((c.all_fresh ≡ true)
                  × ((0 < c.instances) × (c.recoveries_gnss ≡ p.prev_rec_gnss)))))
unfolding sound
sound-parts c p h =
    let df = leb 10 (delta c.frames_ok p.prev_frames) in
    let db = leb 2048 (delta c.accepted p.prev_bytes) in
    let rec_same = c.recoveries_gnss == p.prev_rec_gnss in
    let some_up = ltb 0 c.instances in
    let g = and_left (df && c.all_fresh) ((p.have_prev && rec_same) && (some_up && db)) h in
    let r = and_right (df && c.all_fresh) ((p.have_prev && rec_same) && (some_up && db)) h in
    let n = and_left (p.have_prev && rec_same) (some_up && db) r in
    let t = and_right (p.have_prev && rec_same) (some_up && db) r in
    (
      and_left p.have_prev rec_same n,
      (
        grown c.frames_ok p.prev_frames 10 (omega arith) (and_left df c.all_fresh g),
        (
          grown c.accepted p.prev_bytes 2048 (omega arith) (and_right some_up db t),
          (
            and_right df c.all_fresh g,
            (
              ltb→lt 0 c.instances (and_left some_up db t),
              (==_iff c.recoveries_gnss p.prev_rec_gnss).0 (and_right p.have_prev rec_same n),
            ),
          ),
        ),
      ),
    )

pub observe-Tracks :
    (past : List Check) (c : Check) (p : Probe) → Tracks past p → Tracks (c ∷ past) (observe c p)
unfolding Tracks observe Steady
observe-Tracks [] c p t = elim (Bool-cases (sound c p)) [
  | inl s ↦ absurd_bool (sym t.0 ∙ (sound-parts c p s).0)
  | inr s ↦ rw s (refl, (refl, (refl, tt)))
]
observe-Tracks (h ∷ past) c p t = elim (Bool-cases (sound c p)) [
  | inr s ↦ rw s (refl, (refl, (refl, tt)))
  | inl s ↦
      let k = sound-parts c p s in
      let carried : Carried h c = record {
        frames = subst (λ x. x + 10 ≤ c.frames_ok) t.1.0 k.1.0;
        bytes = subst (λ x. x + 2048 ≤ c.accepted) t.1.1.0 k.1.1.0;
        fresh = k.1.1.1.0;
        enabled = k.1.1.1.1.0;
        calm = k.1.1.1.1.1 ∙ t.0;
      } in
      let one_more : Steady (p.stable + 1) (c ∷ h ∷ past) =
        let e : suc p.stable ≡ p.stable + 1 = omega arith in
        subst (λ n. Steady n (c ∷ h ∷ past)) e (carried, t.1.1.1) in
      rw s (refl, (refl, (refl, one_more)))
]

pub Tracks-Steady : (past : List Check) (p : Probe) → Tracks past p → 3 ≤ p.stable → Steady 3 past
unfolding Tracks
Tracks-Steady [] p t h = let e = t.1 in absurd (omega arith)
Tracks-Steady (c ∷ past) p t h = Steady-le 3 p.stable (c ∷ past) h t.1.1.1
