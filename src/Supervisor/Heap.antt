-- ===== src/Supervisor/Heap.antt =====
-- The heap guard of main/supervisor.c against an independent count of the low passes of a run.
use mathlib.Core.List.{List, [], ◌∷◌}
use rtkdata_fw.Base.{
  ℕ, ◌+◌, ◌≡◌, refl, ap, sym, ◌∙◌, if◌then◌else◌, ltb, leb, not, ◌&&◌, Bool, true, false,
}
use rtkdata_fw.Base.{if-case, Bool-cases, inl, inr}
use rtkdata_fw.Supervisor.{Supervisor, Reading, Action, restart_heap, boot}
use rtkdata_fw.Supervisor.{note_caster_tx, note_gnss_rx, note_sta_ip, wedged, pass, heap_low_s}
use rtkdata_fw.Supervisor.{heap_floor_b, count_heap, heap_spent, count_reboot, in_grace}
use rtkdata_fw.Supervisor.Run.{Event, gnss_rx, caster_tx, sta_ip, tick, step, same_action, asks}
use rtkdata_fw.Supervisor.Rungs.{rungs-Fired}

-- The state after a run, the latest event first.
unfoldable pub replay : List Event → Supervisor → Supervisor
unfolding step
replay [] s = s
replay (e ∷ past) s = (step e (replay past s)).0

unfoldable pub is_low : Reading → Bool
is_low r = ltb r.free_heap heap_floor_b

-- The latest passes in a row that found the heap low. The passes of the grace period look at
-- nothing.
unfoldable pub low_passes : List Event → ℕ
unfolding in_grace is_low
low_passes [] = 0
low_passes (tick r ∷ past) =
    let n = low_passes past in if in_grace r then n else if is_low r then n + 1 else 0
low_passes (gnss_rx now ∷ past) = low_passes past
low_passes (caster_tx now bytes ∷ past) = low_passes past
low_passes (sta_ip now up ∷ past) = low_passes past

streak-pass :
    (r : Reading) (s : Supervisor) (n : ℕ)
    → s.heap_low_streak ≡ n
    → (pass r s).0.heap_low_streak ≡ (if in_grace r then n else if is_low r then n + 1 else 0)
unfolding pass count_heap count_reboot is_low
streak-pass r s n e =
    let t = count_heap r s in
    let m = if is_low r then n + 1 else 0 in
    let up : t.heap_low_streak ≡ m = ap (λ k. if is_low r then k + 1 else 0) e in
    elim (Bool-cases (in_grace r)) [
      | inl g ↦ rw g e
      | inr g ↦ rw g (
          if-case (λ (o : Supervisor × List Action). o.0.heap_low_streak ≡ m) (heap_spent r t)
            (λ _. up)
            (λ _.
              if-case (λ (o : Supervisor × List Action). o.0.heap_low_streak ≡ m) (wedged r.now t)
                (λ _. up) (λ _. (rungs-Fired r t).streak ∙ up)))
    ]

streak-note_caster_tx :
    (now bytes : ℕ) (s : Supervisor)
    → (note_caster_tx now bytes s).heap_low_streak ≡ s.heap_low_streak
unfolding note_caster_tx
streak-note_caster_tx now bytes s =
    if-case (λ (t : Supervisor). t.heap_low_streak ≡ s.heap_low_streak) (ltb 0 bytes) (λ _. refl)
      (λ _.
        if-case (λ (t : Supervisor). t.heap_low_streak ≡ s.heap_low_streak) (not s.caster_seen)
          (λ _. refl) (λ _. refl))

streak-note_sta_ip :
    (now : ℕ) (up : Bool) (s : Supervisor)
    → (note_sta_ip now up s).heap_low_streak ≡ s.heap_low_streak
unfolding note_sta_ip
streak-note_sta_ip now true s = refl
streak-note_sta_ip now false s = refl

pub streak-replay :
    (past : List Event) (reboots : ℕ)
    → (replay past (boot reboots)).heap_low_streak ≡ low_passes past
unfolding replay step low_passes note_gnss_rx
streak-replay [] reboots = refl
streak-replay (tick r ∷ past) reboots =
    streak-pass r (replay past (boot reboots)) (low_passes past) (streak-replay past reboots)
streak-replay (gnss_rx now ∷ past) reboots = streak-replay past reboots
streak-replay (caster_tx now bytes ∷ past) reboots =
    streak-note_caster_tx now bytes (replay past (boot reboots)) ∙ streak-replay past reboots
streak-replay (sta_ip now up ∷ past) reboots =
    streak-note_sta_ip now up (replay past (boot reboots)) ∙ streak-replay past reboots

heap_asked-pass :
    (r : Reading) (s : Supervisor)
    → asks restart_heap (pass r s).1 ≡ (not (in_grace r) && heap_spent r (count_heap r s))
unfolding pass asks same_action
heap_asked-pass r s =
    let t = count_heap r s in
    let P = λ (o : Supervisor × List Action). asks restart_heap o.1 ≡ heap_spent r t in
    elim (Bool-cases (in_grace r)) [
      | inl g ↦ rw g refl
      | inr g ↦ rw g (
          if-case P (heap_spent r t) (λ h. sym h)
            (λ h. if-case P (wedged r.now t) (λ w. sym h) (λ w. (rungs-Fired r t).heap ∙ sym h)))
    ]

and_if : (b : Bool) (c n : ℕ) → (b && leb c (if b then n else 0)) ≡ (b && leb c n)
and_if true c n = refl
and_if false c n = refl

low_if :
    (a b : Bool) (c n : ℕ)
    → (not a && (b && leb c (n + 1)))
      ≡ (not a && (b && leb c (if a then n else if b then n + 1 else 0)))
low_if true b c n = refl
low_if false true c n = refl
low_if false false c n = refl

-- A pass of a run since the boot restarts the device for want of heap exactly if it is past the
-- grace period and is, with the passes before it, at least the fifteenth in a row that found less
-- free heap than the floor.
pub pass-heap_low :
    (r : Reading) (past : List Event) (reboots : ℕ)
    → asks restart_heap (pass r (replay past (boot reboots))).1
      ≡ (not (in_grace r) && (is_low r && leb heap_low_s (low_passes (tick r ∷ past))))
unfolding low_passes heap_spent count_heap is_low
pass-heap_low r past reboots =
    let s = replay past (boot reboots) in
    let n = low_passes past in
    heap_asked-pass r s
    ∙ ap (λ b. not (in_grace r) && b) (and_if (is_low r) heap_low_s (s.heap_low_streak + 1))
    ∙ ap (λ k. not (in_grace r) && (is_low r && leb heap_low_s (k + 1)))
        (streak-replay past reboots)
    ∙ low_if (in_grace r) (is_low r) heap_low_s n
