-- ===== src/Sender/Backoff.antt =====
-- The backoff of the retries over a connection of `ntrip_server_task`.
use mathlib.Core.List.{List, [], ◌∷◌}
use mathlib.Core.Option.{Option, none, some}
use rtkdata_fw.Base.{ℕ, zero, suc, ◌+◌, ◌≡◌, refl, ap, inl, inr, true, false, not, ◌&&◌}
use rtkdata_fw.Base.{if-case, Bool-cases, leb, ltb, ◌==◌, sub32}
use mathlib.Core.Path.{subst}
use rtkdata_fw.Base.{Bool, if◌then◌else◌, ◌||◌, ◌∙◌}
use rtkdata_fw.Ring.{Ring}
use rtkdata_fw.Retry.{RetryDelay, retry_reset}
use rtkdata_fw.Sender.{Tx, Socket, PollResult, poll, stalled, frame_overdue}
use rtkdata_fw.Sender.Session.{
  Wake, Close, Session, goes_on, is_error, spin, drain, judge, wake, live,
}
use rtkdata_fw.Sender.Session.{connect, drain_max_spins, max_sends_per_poll, stale_drop_ms}
use rtkdata_fw.Sender.Session.{progress_timeout_ms, frame_deadline_ms, probe_interval_ms}

or_false : (a : Bool) → a ≡ (a || false)
or_false true = refl
or_false false = refl

or_assoc : (a b c : Bool) → ((a || b) || c) ≡ (a || (b || c))
or_assoc true b c = refl
or_assoc false b c = refl

flags : (risen up : Bool) → (if up && not risen then true else risen) ≡ (risen || up)
flags true true = refl
flags true false = refl
flags false true = refl
flags false false = refl

handles :
    (retry : Option RetryDelay) (risen up : Bool)
    → (if up && not risen
        then retry_reset (if risen then retry_reset retry else retry)
        else if risen
        then retry_reset retry
        else retry)
      ≡ (if risen || up then retry_reset retry else retry)
handles retry true true = refl
handles retry true false = refl
handles retry false true = refl
handles retry false false = refl

module _ (net : Socket) where
  open net use {Conn}

  -- Whether a poll found the count of accepted bytes risen: in one round, in the rounds of a wake-up, and
  -- in the wake-ups that the connection lived through.
  unfoldable pub rises : Ring → ℕ → Session net → Bool
  unfolding poll
  rises r now s =
      ltb s.tx.accepted_to_lwip
        (poll net r now stale_drop_ms max_sends_per_poll s.tx s.conn).tx.accepted_to_lwip

  unfoldable pub drain_rises : ℕ → ℕ → Wake → Session net → Bool
  unfolding rises spin goes_on
  drain_rises zero i e s = false
  drain_rises (suc rounds) i e s =
      let p = spin net (e.rings i) e.now s in
      let rest = drain_rises rounds (i + 1) e p.0 in
      rises (e.rings i) e.now s || (if goes_on p.1 then rest else false)

  unfoldable pub live_rises : ℕ → List Wake → Session net → Bool
  unfolding drain_rises wake
  live_rises gen [] s = false
  live_rises gen (e ∷ es) s =
      let w = wake net gen e s in
      let rest = live_rises gen es w.0 in
      (if e.reconnect_gen == gen then drain_rises drain_max_spins 0 e s else false)
      || elim w.1 [ none ↦ rest | some why ↦ false ]

  -- Progress was made or not, and the retry handle is the one before, or that one reset.
  pub record IsPaced (retry : Option RetryDelay) (risen : Bool) (s : Session net) : Type 0 where
    pub flag : s.made_progress ≡ risen
    pub handle : s.retry ≡ (if risen then retry_reset retry else retry)

  spin-IsPaced :
      (retry : Option RetryDelay) (risen : Bool) (r : Ring) (now : ℕ) (s : Session net)
      → IsPaced retry risen s
      → IsPaced retry (risen || rises r now s) (spin net r now s).0
  unfolding spin rises
  spin-IsPaced retry risen r now s v =
      let up =
        ltb s.tx.accepted_to_lwip
          (poll net r now stale_drop_ms max_sends_per_poll s.tx s.conn).tx.accepted_to_lwip in
      record {
        flag = ap (λ (m : Bool). if up && not m then true else m) v.flag ∙ flags risen up;
        handle =
            ap (λ (m : Bool). if up && not m then retry_reset s.retry else s.retry) v.flag
            ∙ ap (λ (h : Option RetryDelay). if up && not risen then retry_reset h else h) v.handle
            ∙ handles retry risen up;
      }

  drain-IsPaced :
      (retry : Option RetryDelay) (rounds i : ℕ) (e : Wake) (risen : Bool) (s : Session net)
      → IsPaced retry risen s
      → IsPaced retry (risen || drain_rises rounds i e s) (drain net rounds i e s).0
  unfolding drain drain_rises
  drain-IsPaced retry zero i e risen s v = subst (λ b. IsPaced retry b s) (or_false risen) v
  drain-IsPaced retry (suc rounds) i e risen s v =
      let p = spin net (e.rings i) e.now s in
      let up = rises (e.rings i) e.now s in
      let here = spin-IsPaced retry risen (e.rings i) e.now s v in
      elim (Bool-cases (goes_on p.1)) [
        | inl on ↦ rw on (
            subst (λ b. IsPaced retry b (drain net rounds (i + 1) e p.0).0)
              (or_assoc risen up (drain_rises rounds (i + 1) e p.0))
              (drain-IsPaced retry rounds (i + 1) e (risen || up) p.0 here))
        | inr off ↦
            rw off (subst (λ b. IsPaced retry b p.0) (ap (λ b. risen || b) (or_false up)) here)
      ]

  judge-IsPaced :
      (retry : Option RetryDelay) (risen : Bool) (e : Wake) (s : Session net) (res : PollResult)
      → IsPaced retry risen s
      → IsPaced retry risen (judge net e (s, res)).0
  unfolding judge
  judge-IsPaced retry risen e s res v =
      let Q = λ (r : Session net × Option Close). IsPaced retry risen r.0 in
      if-case Q (is_error res) (λ _. v)
        (λ _.
          if-case Q (stalled s.tx e.now progress_timeout_ms) (λ _. v)
            (λ _.
              if-case Q (frame_overdue s.tx e.now frame_deadline_ms) (λ _. v)
                (λ _.
                  if-case Q (leb probe_interval_ms (sub32 e.later s.last_probe_ms))
                    (λ _. record { flag = v.flag; handle = v.handle }) (λ _. v))))

  wake-IsPaced :
      (retry : Option RetryDelay) (gen : ℕ) (e : Wake) (risen : Bool) (s : Session net)
      → IsPaced retry risen s
      → IsPaced retry
          (risen || (if e.reconnect_gen == gen then drain_rises drain_max_spins 0 e s else false))
          (wake net gen e s).0
  unfolding wake
  wake-IsPaced retry gen e risen s v =
      let d = drain net drain_max_spins 0 e s in
      elim (Bool-cases (e.reconnect_gen == gen)) [
        | inl on ↦ rw on (
            judge-IsPaced retry (risen || drain_rises drain_max_spins 0 e s) e d.0 d.1
              (drain-IsPaced retry drain_max_spins 0 e risen s v))
        | inr off ↦ rw off (subst (λ b. IsPaced retry b s) (or_false risen) v)
      ]

  run-IsPaced :
      (retry : Option RetryDelay) (gen : ℕ) (es : List Wake) (risen : Bool) (s : Session net)
      → IsPaced retry risen s
      → IsPaced retry (risen || live_rises gen es s) (live net gen es s).0
  unfolding live live_rises
  run-IsPaced retry gen [] risen s v = subst (λ b. IsPaced retry b s) (or_false risen) v
  run-IsPaced retry gen (e ∷ es) risen s v =
      let w = wake net gen e s in
      let up = if e.reconnect_gen == gen then drain_rises drain_max_spins 0 e s else false in
      let here = wake-IsPaced retry gen e risen s v in
      closing w.1 w.0 (λ t. live_rises gen es t) (λ t. live net gen es t) (risen) up here
        (run-IsPaced retry gen es (risen || up) w.0 here)
    where
      closing :
          (o : Option Close) (t : Session net) (more : Session net → Bool)
          (go : Session net → Session net × Option Close) (a b : Bool)
          → IsPaced retry (a || b) t
          → IsPaced retry ((a || b) || more t) (go t).0
          → IsPaced retry
              (a || (b || elim o as (λ _. Bool) [ none ↦ more t | some why ↦ false ]))
              (elim o as (λ _. Session net × Option Close) [
                | none ↦ go t
                | some why ↦ (t, some why)
              ]).0
      closing none t more go a b h k =
          subst (λ x. IsPaced retry x (go t).0) (or_assoc a b (more t)) k
      closing (some why) t more go a b h k =
          subst (λ x. IsPaced retry x t) (ap (λ x. a || x) (or_false b)) h

  connect-IsPaced :
      (tx : Tx) (r : Ring) (now : ℕ) (w : Conn) (retry : Option RetryDelay)
      → IsPaced retry false (connect net tx r now w retry)
  unfolding connect
  connect-IsPaced tx r now w retry = record { flag = refl; handle = refl }

  -- The retry handle over a connection: it is reset if some poll of the connection found the count of
  -- accepted bytes risen, and else it is the one before the handshake, so that the backoff goes on growing
  -- over connections that carry nothing.
  pub live-IsPaced :
      (tx : Tx) (r : Ring) (now gen : ℕ) (w : Conn) (retry : Option RetryDelay) (es : List Wake)
      → let s = connect net tx r now w retry in
        IsPaced retry (live_rises gen es s) (live net gen es s).0
  live-IsPaced tx r now gen w retry es =
      run-IsPaced retry gen es false (connect net tx r now w retry)
        (connect-IsPaced tx r now w retry)
