-- ===== src/Sender/Connection.antt =====
-- A whole connection of `ntrip_server_task`, while the ring goes on filling.
use mathlib.Core.Path.{subst}
use mathlib.Core.List.{List, [], ◌∷◌, ◌++◌}
use mathlib.Core.Option.{Option, none, some}
use rtkdata_fw.Base.{ℕ, zero, suc, ◌+◌, ◌≡◌, ◌≢◌, refl, ap, sym, ◌∙◌, arith, inl, inr}
use rtkdata_fw.Base.{option-case}
use rtkdata_fw.Base.{Bool, true, false, if-case, Bool-cases, leb, ◌==◌, sub32}
use rtkdata_fw.Ring.{Ring}
use rtkdata_fw.Ring.History.{History, Holds}
use rtkdata_fw.Retry.{RetryDelay}
use rtkdata_fw.Sender.{
  Tx, Socket, PollResult, idle, progress, wouldblock, error, pending, reset_conn,
}
use rtkdata_fw.Sender.{abort, stalled, frame_overdue}
use rtkdata_fw.Sender.Balance.{IsBalanced, abort-IsBalanced, reset_conn-IsBalanced}
use rtkdata_fw.Sender.Wire.{Ordered, carried, pending-idle}
use rtkdata_fw.Sender.Poll.{poll-PollOk}
use rtkdata_fw.Sender.Growth.{Grown, Grown-trans, IsBalanced-Grown, carried-Grown}
use rtkdata_fw.Sender.Session.{
  Wake, Close, Session, goes_on, is_error, spin, drain, judge, wake, live,
}
use rtkdata_fw.Sender.Session.{
  connect, disconnect, max_sends_per_poll, stale_drop_ms, drain_max_spins,
}
use rtkdata_fw.Sender.Session.{progress_timeout_ms, frame_deadline_ms, probe_interval_ms}

-- What a connection that was sent `sent` has carried: frames of the history, whole, in order and none
-- twice, but for `lost`, the end of the last one. It is what is pending unless the connection is over.
pub record Carries (h : History) (tx : Tx) (sent : List ℕ) (over : Bool) : Type 0 where
  pub balanced : IsBalanced tx h
  pub frames : List ℕ
  pub lost : List ℕ
  pub order : Ordered tx.cursor_seq frames
  pub stream : sent ++ lost ≡ carried h frames
  pub kept : over ≡ false → lost ≡ pending tx

Carries-Grown :
    (h h' : History) (tx : Tx) (sent : List ℕ) (over : Bool)
    → Grown h h'
    → Carries h tx sent over
    → Carries h' tx sent over
Carries-Grown h h' tx sent over g c = record {
  balanced = IsBalanced-Grown tx h h' g c.balanced;
  frames = c.frames;
  lost = c.lost;
  order = c.order;
  stream = c.stream ∙ sym (carried-Grown h h' tx.cursor_seq c.frames g c.order c.balanced.behind);
  kept = c.kept;
}

Carries-over :
    (h : History) (tx : Tx) (sent : List ℕ) (over : Bool)
    → Carries h tx sent over
    → Carries h tx sent true
Carries-over h tx sent over c = record {
  balanced = c.balanced;
  frames = c.frames;
  lost = c.lost;
  order = c.order;
  stream = c.stream;
  kept = λ e. absurd (ground arith);
}

no_error : (res : PollResult) → is_error res ≡ false → res ≢ error
unfolding is_error
no_error res h e = absurd (ground (arith, ap is_error e))

goes_on-is_error : (res : PollResult) → goes_on res ≡ true → is_error res ≡ false
unfolding goes_on is_error
goes_on-is_error idle h = refl
goes_on-is_error progress h = refl
goes_on-is_error wouldblock h = refl
goes_on-is_error error h = absurd (ground arith)

-- The histories of the ring at the polls of a wake-up, from `h` on and up to `h'`.
pub record Feed (e : Wake) (h h' : History) : Type 0 where
  pub at : ℕ → History
  pub holds : (j : ℕ) → Holds (e.rings j) (at j)
  pub first : Grown h (at 0)
  pub next : (j : ℕ) → Grown (at j) (at (j + 1))
  pub last : (j : ℕ) → Grown (at j) h'

abbrev pub Feeds : List Wake → History → History → Type 0
Feeds [] h h' = Grown h h'
Feeds (e ∷ es) h h' = (m : History) × Feed e h m × Feeds es m h'

Feed-Grown : (e : Wake) (h h' : History) → Feed e h h' → Grown h h'
Feed-Grown e h h' f = Grown-trans h (f.at 0) h' f.first (f.last 0)

Feeds-Grown : (es : List Wake) (h h' : History) → Feeds es h h' → Grown h h'
Feeds-Grown [] h h' f = f
Feeds-Grown (e ∷ es) h h' (m, f, fs) =
    Grown-trans h m h' (Feed-Grown e h m f) (Feeds-Grown es m h' fs)

abbrev pub is_over : Option Close → Bool
is_over none = false
is_over (some why) = true

module _ (net : Socket) where
  open net use {Conn, sent}

  abbrev Ok : History → Bool → Session net → Type 0
  Ok h over s = Carries h s.tx (sent s.conn) over

  spin-Ok :
      (r : Ring) (h : History) (now : ℕ) (s : Session net)
      → Holds r h
      → Ok h false s
      → Ok h (is_error (spin net r now s).1) (spin net r now s).0
  unfolding spin
  spin-Ok r h now s v c =
      let o =
        poll-PollOk net r h now stale_drop_ms v max_sends_per_poll s.tx s.conn c.frames c.balanced
          (record {
            order = c.order;
            stream = ap (λ (l : List ℕ). sent s.conn ++ l) (sym (c.kept refl)) ∙ c.stream;
          }) in
      record {
        balanced = o.balanced;
        frames = o.more ++ c.frames;
        lost = o.lost;
        order = o.order;
        stream = o.stream;
        kept = λ fine. o.kept (no_error (spin net r now s).1 fine);
      }

  drain-Ok :
      (rounds i : ℕ) (e : Wake) (h h' h0 : History) (f : Feed e h0 h') (s : Session net)
      → Grown h (f.at i)
      → Ok h false s
      → Ok h' (is_error (drain net rounds i e s).1) (drain net rounds i e s).0
  unfolding drain is_error
  drain-Ok zero i e h h' h0 f s g c =
      Carries-Grown h h' s.tx (sent s.conn) false (Grown-trans h (f.at i) h' g (f.last i)) c
  drain-Ok (suc rounds) i e h h' h0 f s g c =
      let p = spin net (e.rings i) e.now s in
      let here =
        spin-Ok (e.rings i) (f.at i) e.now s (f.holds i)
          (Carries-Grown h (f.at i) s.tx (sent s.conn) false g c) in
      elim (Bool-cases (goes_on p.1)) [
        | inl on ↦ rw on (
            drain-Ok rounds (i + 1) e (f.at i) h' h0 f p.0 (f.next i)
              (subst (λ b. Ok (f.at i) b p.0) (goes_on-is_error p.1 on) here))
        | inr off ↦
            rw off (Carries-Grown (f.at i) h' p.0.tx (sent p.0.conn) (is_error p.1) (f.last i) here)
      ]

  judge-Ok :
      (e : Wake) (h : History) (s : Session net) (res : PollResult)
      → Ok h (is_error res) s
      → Ok h (is_over (judge net e (s, res)).1) (judge net e (s, res)).0
  unfolding judge
  judge-Ok e h s res c =
      let P = λ (r : Session net × Option Close). Ok h (is_over r.1) r.0 in
      let over = Carries-over h s.tx (sent s.conn) (is_error res) c in
      if-case P (is_error res) (λ _. over)
        (λ fine.
          let up : Ok h false s = subst (λ b. Ok h b s) fine c in
          if-case P (stalled s.tx e.now progress_timeout_ms) (λ _. over)
            (λ _.
              if-case P (frame_overdue s.tx e.now frame_deadline_ms) (λ _. over)
                (λ _.
                  if-case P (leb probe_interval_ms (sub32 e.later s.last_probe_ms))
                    (λ _.
                      if-case (λ (o : Option Close). Ok h (is_over o) s) e.alive (λ _. up)
                        (λ _. over))
                    (λ _. up))))

  wake-Ok :
      (gen : ℕ) (e : Wake) (h h' : History) (s : Session net)
      → Feed e h h'
      → Ok h false s
      → Ok h' (is_over (wake net gen e s).1) (wake net gen e s).0
  unfolding wake
  wake-Ok gen e h h' s f c =
      let d = drain net drain_max_spins 0 e s in
      if-case (λ (r : Session net × Option Close). Ok h' (is_over r.1) r.0) (e.reconnect_gen == gen)
        (λ _. judge-Ok e h' d.0 d.1 (drain-Ok drain_max_spins 0 e h h' h f s f.first c))
        (λ _.
          Carries-over h' s.tx (sent s.conn) false
            (Carries-Grown h h' s.tx (sent s.conn) false (Feed-Grown e h h' f) c))

  live-Ok :
      (gen : ℕ) (es : List Wake) (h h' : History) (s : Session net)
      → Feeds es h h'
      → Ok h false s
      → Ok h' (is_over (live net gen es s).1) (live net gen es s).0
  unfolding live
  live-Ok gen [] h h' s f c = Carries-Grown h h' s.tx (sent s.conn) false f c
  live-Ok gen (e ∷ es) h h' s (m, f, fs) c =
      let w = wake net gen e s in
      let here = wake-Ok gen e h m s f c in
      option-case (λ (r : Session net × Option Close). Ok h' (is_over r.1) r.0) w.1
        (λ up. live-Ok gen es m h' w.0 fs (subst (λ o. Ok m (is_over o) w.0) up here))
        (λ why down.
          Carries-Grown m h' w.0.tx (sent w.0.conn) true (Feeds-Grown es m h' fs)
            (subst (λ o. Ok m (is_over o) w.0) down here))

  connect-Ok :
      (tx : Tx) (r : Ring) (h : History) (now : ℕ) (w : Conn) (retry : Option RetryDelay)
      → Holds r h
      → IsBalanced tx h
      → sent w ≡ []
      → Ok h false (connect net tx r now w retry)
  unfolding connect reset_conn
  connect-Ok tx r h now w retry v b fresh = record {
    balanced = reset_conn-IsBalanced tx r h now v b;
    frames = [];
    lost = [];
    order = tt;
    stream = rw fresh refl;
    kept = λ _. sym (pending-idle (reset_conn tx r now) (omega arith));
  }

  disconnect-Ok :
      (h : History) (over : Bool) (s : Session net) → Ok h over s → Ok h true (disconnect net s)
  unfolding disconnect abort
  disconnect-Ok h over s c =
      let b = abort-IsBalanced s.tx h c.balanced in
      record {
        balanced = record {
          off_le = b.off_le;
          len_le = b.len_le;
          len_small = b.len_small;
          behind = b.behind;
          at_cursor = b.at_cursor;
          consumed = b.consumed;
          copies = b.copies;
        };
        frames = c.frames;
        lost = c.lost;
        order = c.order;
        stream = c.stream;
        kept = λ e. absurd (ground arith);
      }

  -- Take a sender in balance, a fresh connection, and any wake-ups while the ring goes on filling.
  -- However the connection fares and whyever it ends, it has carried whole frames of the ring's history,
  -- in order and none twice, with at most the end of the last one missing, which is still pending while
  -- the connection is up. The byte balance holds then, and after the end too, when the rest of that frame
  -- is dropped.
  pub live-Carries :
      (tx : Tx) (r : Ring) (h h' : History) (now gen : ℕ) (w : Conn) (retry : Option RetryDelay)
      (es : List Wake)
      → Holds r h
      → IsBalanced tx h
      → sent w ≡ []
      → Feeds es h h'
      → let s = live net gen es (connect net tx r now w retry) in
        let t = disconnect net s.0 in
        Carries h' s.0.tx (sent s.0.conn) (is_over s.1) × Carries h' t.tx (sent t.conn) true
  live-Carries tx r h h' now gen w retry es v b fresh f =
      let s = live net gen es (connect net tx r now w retry) in
      let up =
        live-Ok gen es h h' (connect net tx r now w retry) f
          (connect-Ok tx r h now w retry v b fresh) in
      (up, disconnect-Ok h' (is_over s.1) s.0 up)
