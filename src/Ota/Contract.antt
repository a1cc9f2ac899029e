-- ===== src/Ota/Contract.antt =====
-- The health contract of main/update.c: what the checks must have shown before an image is kept.
use mathlib.Core.List.{List, [], ◌∷◌}
use rtkdata_fw.Base.{◌*◌, ◌<◌, ◌≤◌, ◌≡◌, ◌⊎◌, refl, sym, inl, inr, arith, ltb, leb, ◌==◌}
use rtkdata_fw.Base.{
  Bool, true, false, not, ◌&&◌, if-case, and_left, and_right, leb→le, ltb→lt, ==_iff,
}
use rtkdata_fw.Ota.{Nvs}
use rtkdata_fw.Ota.Confirm.{
  Check, Probe, probe_init, observe, Verdict, go_on, semantic, unprovisioned,
}
use rtkdata_fw.Ota.Confirm.{
  local_fault, decide, confirm_loop, Platform, Fate, confirmed, rolled_back, conclude,
}
use rtkdata_fw.Ota.Steady.{Steady, Tracks, observe-Tracks, Tracks-Steady}

-- The checks with the latest first, put back before the ones to come.
pub rev_onto : List Check → List Check → List Check
rev_onto [] rest = rest
rev_onto (c ∷ past) rest = rev_onto past (c ∷ rest)

-- The checks of a run up to where it stopped, latest first, and the ones after it.
pub record Stopped (checks : List Check) (P : List Check → Type 0) : Type 0 where
  pub past : List Check
  pub rest : List Check
  pub split : rev_onto past rest ≡ checks
  pub holds : P past

decide-semantic : (c : Check) (q : Probe) → decide c q ≡ semantic → 3 ≤ q.stable
unfolding decide
decide-semantic c q h =
    let P = λ (v : Verdict). v ≡ semantic → 3 ≤ q.stable in
    if-case P (leb 3 q.stable) (λ t _. leb→le 3 q.stable t)
      (λ _.
        if-case P
          ((c.instances == 0) && (leb (10 * 60 * 1000) c.elapsed_ms && ltb 20480 c.free_heap))
          (λ _ k. ground arith)
          (λ _.
            if-case P (leb (30 * 60 * 1000) c.elapsed_ms && not c.fresh_final) (λ _ k. ground arith)
              (λ _ k. ground arith)))
      h

decide-local_fault :
    (c : Check) (q : Probe)
    → decide c q ≡ local_fault
    → (30 * 60 * 1000 ≤ c.elapsed_ms) × (c.fresh_final ≡ false)
unfolding decide
decide-local_fault c q h =
    let P = λ (v : Verdict).
      v ≡ local_fault → (30 * 60 * 1000 ≤ c.elapsed_ms) × (c.fresh_final ≡ false) in
    if-case P (leb 3 q.stable) (λ _ k. ground arith)
      (λ _.
        if-case P
          ((c.instances == 0) && (leb (10 * 60 * 1000) c.elapsed_ms && ltb 20480 c.free_heap))
          (λ _ k. ground arith)
          (λ _.
            if-case P (leb (30 * 60 * 1000) c.elapsed_ms && not c.fresh_final)
              (λ t _. (leb→le _ _ (and_left _ _ t), stale c.fresh_final (and_right _ _ t)))
              (λ _ k. ground arith)))
      h
  where
    stale : (b : Bool) → not b ≡ true → b ≡ false
    stale true e = sym e
    stale false e = refl

-- No uploader is configured, ten minutes have passed and the heap is sane.
pub IsIdle : List Check → Type 0
IsIdle [] = ⊥
IsIdle (c ∷ past) = (c.instances ≡ 0) × ((10 * 60 * 1000 ≤ c.elapsed_ms) × (20480 < c.free_heap))

decide-unprovisioned :
    (c : Check) (past : List Check) (q : Probe) → decide c q ≡ unprovisioned → IsIdle (c ∷ past)
unfolding decide IsIdle
decide-unprovisioned c past q h =
    let P = λ (v : Verdict). v ≡ unprovisioned → IsIdle (c ∷ past) in
    let long = leb (10 * 60 * 1000) c.elapsed_ms in
    let roomy = ltb 20480 c.free_heap in
    if-case P (leb 3 q.stable) (λ _ k. ground arith)
      (λ _.
        if-case P ((c.instances == 0) && (long && roomy))
          (λ t _.
            let r = and_right (c.instances == 0) (long && roomy) t in
            (
              (==_iff c.instances 0).0 (and_left (c.instances == 0) (long && roomy) t),
              (leb→le _ _ (and_left long roomy r), ltb→lt _ _ (and_right long roomy r)),
            ))
          (λ _.
            if-case P (leb (30 * 60 * 1000) c.elapsed_ms && not c.fresh_final) (λ _ k. ground arith)
              (λ _ k. ground arith)))
      h

-- A pass ends the loop, or the rest of the run does.
pick :
    (v r x : Verdict)
    → (elim v [
      | go_on ↦ r
      | semantic ↦ semantic
      | unprovisioned ↦ unprovisioned
      | local_fault ↦ local_fault
    ])
      ≡ x
    → (v ≡ x) ⊎ (r ≡ x)
pick go_on r x h = inr h
pick semantic r x h = inl h
pick unprovisioned r x h = inl h
pick local_fault r x h = inl h

confirm_loop-stops :
    (x : Verdict) (P : List Check → Type 0)
    → ((x ≡ go_on) → ⊥)
    → ((past : List Check) (c : Check) (q : Probe)
        → Tracks (c ∷ past) q
        → decide c q ≡ x
        → P (c ∷ past))
    → (cs past : List Check) (p : Probe) → Tracks past p
    → confirm_loop cs p ≡ x
    → Stopped (rev_onto past cs) P
unfolding confirm_loop rev_onto
confirm_loop-stops x P ends here [] past p t h = absurd (ends (sym h))
confirm_loop-stops x P ends here (c ∷ cs) past p t h =
    let q = observe c p in
    let t' = observe-Tracks past c p t in
    elim (pick (decide c q) (confirm_loop cs q) x h) [
      | inl d ↦ record { past = c ∷ past; rest = cs; split = refl; holds = here past c q t' d }
      | inr r ↦ confirm_loop-stops x P ends here cs (c ∷ past) q t' r
    ]

semantic-Stopped :
    (cs : List Check) → confirm_loop cs probe_init ≡ semantic → Stopped cs (λ past. Steady 3 past)
unfolding Tracks rev_onto
semantic-Stopped cs h =
    confirm_loop-stops semantic (λ past. Steady 3 past) (λ e. ground arith)
      (λ past c q t d. Tracks-Steady (c ∷ past) q t (decide-semantic c q d)) cs [] probe_init
      (refl, refl) h

unprovisioned-Stopped :
    (cs : List Check) → confirm_loop cs probe_init ≡ unprovisioned → Stopped cs IsIdle
unfolding Tracks rev_onto
unprovisioned-Stopped cs h =
    confirm_loop-stops unprovisioned IsIdle (λ e. ground arith)
      (λ past c q t d. decide-unprovisioned c past q d) cs [] probe_init (refl, refl) h

confirmed-verdict :
    (w : Platform) (v : Verdict) (nvs : Nvs)
    → (conclude w v nvs).1 ≡ confirmed
    → (w.pending_verify ≡ true) × ((v ≡ semantic) ⊎ (v ≡ unprovisioned))
unfolding conclude
confirmed-verdict w go_on nvs h = ground arith
confirmed-verdict w semantic nvs h =
    if-case
      (λ (o : Nvs × Fate).
        o.1 ≡ confirmed
        → (w.pending_verify ≡ true) × ((semantic ≡ semantic) ⊎ (semantic ≡ unprovisioned)))
      (w.pending_verify && w.marks_valid) (λ t _. (and_left _ _ t, inl refl)) (λ _ k. ground arith)
      h
confirmed-verdict w unprovisioned nvs h =
    if-case
      (λ (o : Nvs × Fate).
        o.1 ≡ confirmed
        → (w.pending_verify ≡ true)
          × ((unprovisioned ≡ semantic) ⊎ (unprovisioned ≡ unprovisioned)))
      (w.pending_verify && w.marks_valid) (λ t _. (and_left _ _ t, inr refl)) (λ _ k. ground arith)
      h
confirmed-verdict w local_fault nvs h =
    if-case
      (λ (f : Fate).
        f ≡ confirmed
        → (w.pending_verify ≡ true) × ((local_fault ≡ semantic) ⊎ (local_fault ≡ unprovisioned)))
      w.pending_verify (λ _ k. ground arith) (λ _ k. ground arith) h

-- An image is confirmed only if it was pending verification and the checks since the boot reached
-- a point where the last four had carried corrections from each to the next, with nothing missing
-- and no recovery between them, or where no uploader was configured after ten minutes.
pub conclude-contract :
    (w : Platform) (nvs : Nvs) (checks : List Check)
    → (conclude w (confirm_loop checks probe_init) nvs).1 ≡ confirmed
    → (w.pending_verify ≡ true) × (Stopped checks (λ past. Steady 3 past) ⊎ Stopped checks IsIdle)
conclude-contract w nvs checks h =
    let k = confirmed-verdict w (confirm_loop checks probe_init) nvs h in
    (
      k.0,
      elim k.1 [
        | inl s ↦ inl (semantic-Stopped checks s)
        | inr u ↦ inr (unprovisioned-Stopped checks u)
      ],
    )

-- Half an hour has passed and a required message is still not fresh.
pub IsStale : List Check → Type 0
IsStale [] = ⊥
IsStale (c ∷ past) = (1800000 ≤ c.elapsed_ms) × (c.fresh_final ≡ false)

local_fault-Stopped :
    (cs : List Check) → confirm_loop cs probe_init ≡ local_fault → Stopped cs IsStale
unfolding Tracks rev_onto IsStale
local_fault-Stopped cs h =
    confirm_loop-stops local_fault IsStale (λ e. ground arith)
      (λ past c q t d. decide-local_fault c q d) cs [] probe_init (refl, refl) h

rolled_back-verdict :
    (w : Platform) (v : Verdict) (nvs : Nvs)
    → (conclude w v nvs).1 ≡ rolled_back
    → (w.pending_verify ≡ true) × (v ≡ local_fault) × ((conclude w v nvs).0 ≡ nvs)
unfolding conclude
rolled_back-verdict w go_on nvs h = absurd (ground arith)
rolled_back-verdict w semantic nvs h = absurd (
    if-case (λ (o : Nvs × Fate). o.1 ≡ rolled_back → ⊥) (w.pending_verify && w.marks_valid)
      (λ _ k. ground arith) (λ _ k. ground arith) h)
rolled_back-verdict w unprovisioned nvs h = absurd (
    if-case (λ (o : Nvs × Fate). o.1 ≡ rolled_back → ⊥) (w.pending_verify && w.marks_valid)
      (λ _ k. ground arith) (λ _ k. ground arith) h)
rolled_back-verdict w local_fault nvs h = (
  if-case (λ (f : Fate). f ≡ rolled_back → w.pending_verify ≡ true) w.pending_verify (λ t _. t)
      (λ _ k. absurd (ground arith)) h,
  refl,
  refl,
)

-- An image is rolled back only if it was pending verification, at a check no sooner than half an hour
-- after the start at which a required message is not fresh, so not for an outage of the caster alone;
-- and the attempt that is booked for its version stays booked.
pub conclude-rollback :
    (w : Platform) (nvs : Nvs) (checks : List Check)
    → (conclude w (confirm_loop checks probe_init) nvs).1 ≡ rolled_back
    → (w.pending_verify ≡ true)
      × Stopped checks IsStale
      × ((conclude w (confirm_loop checks probe_init) nvs).0 ≡ nvs)
conclude-rollback w nvs checks h =
    let k = rolled_back-verdict w (confirm_loop checks probe_init) nvs h in
    (k.0, local_fault-Stopped checks k.1, k.2)

-- The attempts booked for a version are forgotten only when its image is confirmed.
pub conclude-spares :
    (w : Platform) (v : Verdict) (nvs : Nvs)
    → ((conclude w v nvs).0 ≡ nvs) ⊎ ((conclude w v nvs).1 ≡ confirmed)
unfolding conclude
conclude-spares w go_on nvs = inl refl
conclude-spares w local_fault nvs = inl refl
conclude-spares w semantic nvs =
    if-case (λ (o : Nvs × Fate). (o.0 ≡ nvs) ⊎ (o.1 ≡ confirmed))
      (w.pending_verify && w.marks_valid) (λ _. inr refl) (λ _. inl refl)
conclude-spares w unprovisioned nvs =
    if-case (λ (o : Nvs × Fate). (o.0 ≡ nvs) ⊎ (o.1 ≡ confirmed))
      (w.pending_verify && w.marks_valid) (λ _. inr refl) (λ _. inl refl)
