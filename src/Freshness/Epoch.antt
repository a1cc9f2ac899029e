-- ===== src/Freshness/Epoch.antt =====
-- What the freshness verdict of main/interface/ntrip_server.c does with the start of the epoch: frames
-- from before a reset, and the half turn of the millisecond clock.
use mathlib.Core.List.{List, [], ◌∷◌}
use mathlib.Core.Path.{subst}
use rtkdata_fw.Base.{ℕ, ◌^◌, ◌≤◌, ◌<◌, ◌≡◌, refl, sym, ◌∙◌, arith, leb, ◌==◌}
use rtkdata_fw.Base.{◌&&◌, false, length, All, if-case, and_right, absurd_bool}
use rtkdata_fw.Base.{true, ◌+◌, ◌⊎◌, u32, sub32}
use rtkdata_fw.Freshness.{
  Sample, Evidence, no_evidence, message_type, stamp, note_frame, epoch_reset, is_after, in_epoch,
}
use rtkdata_fw.Freshness.{Age, age_of, ages, msg_freshness}

-- A frame with the time at which it was completed.
pub record Stamped : Type 0 where
  pub frame : List ℕ
  pub at : ℕ

pub note_all : List Stamped → Evidence → Evidence
unfolding note_frame
note_all [] e = e
note_all (x ∷ xs) e = note_all xs (note_frame x.frame x.at e)

-- A time that the verdict does not take for one after `since`.
abbrev pub NotAfter : ℕ → ℕ → Type 0
NotAfter since t = is_after t since ≡ false

stamp-All :
    (P : ℕ → ℕ → Type 0) (mtype now epoch : ℕ) (rs : List Sample)
    → ((budget last : ℕ) → P budget last → P budget now)
    → All (λ (r : Sample). P r.budget_ms r.last_ms) rs
    → All (λ (r : Sample). P r.budget_ms r.last_ms) (stamp mtype now epoch rs)
unfolding stamp
stamp-All P mtype now epoch [] p h = h
stamp-All P mtype now epoch (r ∷ rs) p h =
    if-case (λ xs. All (λ (r : Sample). P r.budget_ms r.last_ms) xs) (r.msg == mtype)
      (λ _. (p r.budget_ms r.last_ms h.0, h.1)) (λ _. (h.0, stamp-All P mtype now epoch rs p h.1))

note_all-All :
    (P : ℕ → ℕ → Type 0) (xs : List Stamped) (e : Evidence)
    → All (λ (x : Stamped). (budget last : ℕ) → P budget last → P budget x.at) xs
    → All (λ (r : Sample). P r.budget_ms r.last_ms) e.samples
    → All (λ (r : Sample). P r.budget_ms r.last_ms) (note_all xs e).samples
unfolding note_all note_frame
note_all-All P [] e k h = h
note_all-All P (x ∷ xs) e k h = note_all-All P xs (note_frame x.frame x.at e) k.1 (
    if-case (λ (d : Evidence). All (λ (r : Sample). P r.budget_ms r.last_ms) d.samples)
      (leb 6 (length x.frame))
      (λ _. stamp-All P (message_type x.frame) x.at e.epoch e.samples k.0 h) (λ _. h))

note_all-since : (xs : List Stamped) (e : Evidence) → (note_all xs e).since ≡ e.since
unfolding note_all note_frame
note_all-since [] e = refl
note_all-since (x ∷ xs) e =
    note_all-since xs (note_frame x.frame x.at e)
    ∙ if-case (λ (d : Evidence). d.since ≡ e.since) (leb 6 (length x.frame)) (λ _. refl) (λ _. refl)

ages-stale :
    (now epoch since : ℕ) (rs : List Sample)
    → All (λ (r : Sample). NotAfter since r.last_ms) rs
    → All (λ (a : Age). a.fresh ≡ false) (ages now epoch since rs)
unfolding ages age_of in_epoch
ages-stale now epoch since [] h = tt
ages-stale now epoch since (r ∷ rs) h = (
  if-case (λ (a : Age). a.fresh ≡ false) ((r.tag == epoch) && is_after r.last_ms since)
      (λ k. absurd_bool (sym h.0 ∙ and_right _ _ k)) (λ _. refl),
  ages-stale now epoch since rs h.1,
)

-- The millisecond clock showed `t` at a time up to `now`, in milliseconds of a clock that never wraps,
-- and less than half a turn before it.
pub record Before (now t : ℕ) : Type 0 where
  pub real : ℕ
  pub shown : t ≡ u32 real
  pub past : real ≤ now
  pub recent : now < real + 2 ^ 31

Before-NotAfter : (now t : ℕ) → Before now t → NotAfter (u32 now) t
unfolding is_after
Before-NotAfter now t b =
    let e = b.shown in
    let far : (sub32 t (u32 now) ≡ 0) ⊎ (2 ^ 31 ≤ sub32 t (u32 now)) =
      rw e (turned b.real now b.past b.recent) in
    ground (arith, far)
  where
    turned :
        (x y : ℕ)
        → x ≤ y
        → y < x + 2 ^ 31
        → (sub32 (u32 x) (u32 y) ≡ 0) ⊎ (2 ^ 31 ≤ sub32 (u32 x) (u32 y))
    turned x y p r = ground arith

-- A reset of the receiver at the time `t`, on a clock that never wraps: frames that were completed at
-- most half a turn of the millisecond clock before it or at the very time, noted before or after it,
-- leave no required type with a fresh sample.
pub epoch_reset-stale :
    (t now epoch_after : ℕ) (xs : List Stamped) (e : Evidence)
    → All (λ (r : Sample). Before t r.last_ms) e.samples
    → All (λ (x : Stamped). Before t x.at) xs
    → All
        (λ (a : Age). a.fresh ≡ false)
        (msg_freshness now epoch_after (note_all xs (epoch_reset (u32 t) e))).types
unfolding msg_freshness epoch_reset
epoch_reset-stale t now epoch_after xs e h k =
    let w = note_all xs (epoch_reset (u32 t) e) in
    let kept = note_all-All (λ b s. Before t s) xs (epoch_reset (u32 t) e) (late xs k) h in
    ages-stale now w.epoch w.since w.samples (
      subst (λ s. All (λ (r : Sample). NotAfter s r.last_ms) w.samples)
        (sym (note_all-since xs (epoch_reset (u32 t) e))) (not_after w.samples kept))
  where
    late :
        (ys : List Stamped)
        → All (λ (x : Stamped). Before t x.at) ys
        → All (λ (x : Stamped). (budget last : ℕ) → Before t last → Before t x.at) ys
    late [] h = tt
    late (y ∷ ys) h = (λ budget last b. h.0, late ys h.1)

    not_after :
        (rs : List Sample)
        → All (λ (r : Sample). Before t r.last_ms) rs
        → All (λ (r : Sample). NotAfter (u32 t) r.last_ms) rs
    not_after [] h = tt
    not_after (r ∷ rs) h = (Before-NotAfter t r.last_ms h.0, not_after rs h.1)

-- A sample that is at most 30 s good for and not from the future.
abbrev Tame : ℕ → ℕ → ℕ → Type 0
Tame now budget last = (budget ≤ 30000) × (last ≤ now)

too_old :
    (now budget last : ℕ)
    → 2 ^ 31 + 30000 ≤ now
    → now < 2 ^ 32
    → Tame now budget last
    → is_after last 0 ≡ true
    → leb (sub32 now last) budget ≡ false
unfolding is_after
too_old now budget last low high (b, l) a = ground arith

late_ages :
    (now epoch : ℕ) (rs : List Sample)
    → 2 ^ 31 + 30000 ≤ now
    → now < 2 ^ 32
    → All (λ (r : Sample). Tame now r.budget_ms r.last_ms) rs
    → All (λ (a : Age). a.fresh ≡ false) (ages now epoch 0 rs)
unfolding ages age_of in_epoch
late_ages now epoch [] low high h = tt
late_ages now epoch (r ∷ rs) low high h = (
  if-case (λ (a : Age). a.fresh ≡ false) ((r.tag == epoch) && is_after r.last_ms 0)
      (λ k. too_old now r.budget_ms r.last_ms low high h.0 (and_right _ _ k)) (λ _. refl),
  late_ages now epoch rs low high h.1,
)

-- Without a reset since the boot: whatever frames were noted so far, from 30 s after the half turn of
-- the millisecond clock to its end no required type is fresh.
pub note_all-half_turn :
    (now epoch_after : ℕ) (xs : List Stamped)
    → 2 ^ 31 + 30000 ≤ now
    → now < 2 ^ 32
    → All (λ (x : Stamped). x.at ≤ now) xs
    → All
        (λ (a : Age). a.fresh ≡ false)
        (msg_freshness now epoch_after (note_all xs no_evidence)).types
unfolding msg_freshness
note_all-half_turn now epoch_after xs low high h =
    let w = note_all xs no_evidence in
    let z : Tame now 5000 0 = (omega arith, omega arith) in
    let y : Tame now 30000 0 = (omega arith, omega arith) in
    subst (λ s. All (λ (a : Age). a.fresh ≡ false) (ages now w.epoch s w.samples))
      (sym (note_all-since xs no_evidence))
      (late_ages now w.epoch w.samples low high
        (note_all-All (Tame now) xs no_evidence (seen xs h) (y, (y, (z, (z, tt))))))
  where
    seen :
        (ys : List Stamped)
        → All (λ (x : Stamped). x.at ≤ now) ys
        → All (λ (x : Stamped). (budget last : ℕ) → Tame now budget last → Tame now budget x.at) ys
    seen [] h = tt
    seen (y ∷ ys) h = (λ budget last b. (b.0, h.0), seen ys h.1)
