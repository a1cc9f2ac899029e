-- ===== src/Sender/Session.antt =====
-- main/interface/ntrip_server.c, one connection of `ntrip_server_task`: from the accepted handshake to
-- the end of the connection. What a wake-up meets is the record `Wake`.
use mathlib.Core.List.{List, [], ◌∷◌}
use mathlib.Core.Option.{Option, none, some}
use rtkdata_fw.Base.{ℕ, zero, suc, ◌+◌, if◌then◌else◌, ltb, leb, ◌==◌, u32, sub32, not, ◌&&◌}
use rtkdata_fw.Base.{Bool, true, false}
use rtkdata_fw.Ring.{Ring}
use rtkdata_fw.Retry.{RetryDelay, retry_reset}
use rtkdata_fw.Sender.{Tx, Socket, PollResult, progress, error, poll, reset_conn}
use rtkdata_fw.Sender.{abort, stalled, frame_overdue}

abbrev pub drain_max_spins : ℕ
drain_max_spins = 64

abbrev pub probe_interval_ms : ℕ
probe_interval_ms = 2000

abbrev pub max_sends_per_poll : ℕ
max_sends_per_poll = 2

abbrev pub stale_drop_ms : ℕ
stale_drop_ms = 2000

abbrev pub progress_timeout_ms : ℕ
progress_timeout_ms = 5000

abbrev pub frame_deadline_ms : ℕ
frame_deadline_ms = 10000

-- Why a connection ends.
pub data Close : Type 0 where
  reconnect_asked send_error no_progress overdue dead_socket : Close

-- What a pass of the loop meets: the instance's `reconnect_gen` before it, the time after the wait and
-- after the drain, the ring at each poll, since frames arrive meanwhile, and whether the probe finds
-- the socket alive.
pub record Wake : Type 0 where
  pub reconnect_gen : ℕ
  pub now : ℕ
  pub later : ℕ
  pub rings : ℕ → Ring
  pub alive : Bool

-- Whether a connection goes on, whatever it was woken for.
unfoldable pub goes_on : PollResult → Bool
goes_on progress = true
goes_on _ = false

unfoldable pub is_error : PollResult → Bool
is_error error = true
is_error _ = false

module _ (net : Socket) where
  open net use {Conn}

  -- The sender of the instance, its connection and its retry handle, with the locals of the loop.
  pub record Session : Type 0 where
    pub tx : Tx
    pub conn : Conn
    pub retry : Option RetryDelay
    pub made_progress : Bool
    pub last_probe_ms : ℕ

  -- One round of the `do` loop: a poll, and the backoff reset on the first accepted bytes.
  unfoldable pub spin : Ring → ℕ → Session → Session × PollResult
  unfolding poll
  spin ring now s =
      let p = poll net ring now stale_drop_ms max_sends_per_poll s.tx s.conn in
      let first = ltb s.tx.accepted_to_lwip p.tx.accepted_to_lwip && not s.made_progress in
      (
        record s {
          tx = p.tx;
          conn = p.conn;
          made_progress = if first then true else s.made_progress;
          retry = if first then retry_reset s.retry else s.retry;
        },
        p.result,
      )

  -- The `do` loop, with the rounds that are left, from round `i` on.
  unfoldable pub drain : ℕ → ℕ → Wake → Session → Session × PollResult
  unfolding spin goes_on
  drain zero i e s = (s, progress)
  drain (suc rounds) i e s =
      let p = spin (e.rings i) e.now s in
      let rest = drain rounds (i + 1) e p.0 in if goes_on p.1 then rest else p

  -- The checks after the drain.
  unfoldable pub judge : Wake → Session × PollResult → Session × Option Close
  unfolding is_error
  judge e (s, result) =
      if is_error result
      then (s, some send_error)
      else if stalled s.tx e.now progress_timeout_ms
      then (s, some no_progress)
      else if frame_overdue s.tx e.now frame_deadline_ms
      then (s, some overdue)
      else if leb probe_interval_ms (sub32 e.later s.last_probe_ms)
      then (record s { last_probe_ms = e.later }, if e.alive then none else some dead_socket)
      else (s, none)

  -- A pass of the `while` loop; `conn_gen` is the generation that the connection was made for.
  unfoldable pub wake : ℕ → Wake → Session → Session × Option Close
  unfolding drain judge
  wake conn_gen e s =
      if e.reconnect_gen == conn_gen
      then judge e (drain drain_max_spins 0 e s)
      else (s, some reconnect_asked)

  -- The `while` loop over the wake-ups: none if the connection is still up after them.
  unfoldable pub live : ℕ → List Wake → Session → Session × Option Close
  unfolding wake
  live conn_gen [] s = (s, none)
  live conn_gen (e ∷ es) s =
      let (t, close) = wake conn_gen e s in
      let rest = live conn_gen es t in elim close [ none ↦ rest | some why ↦ (t, some why) ]

  -- From the accepted handshake on, on a fresh connection, and behind the loop.
  unfoldable pub connect : Tx → Ring → ℕ → Conn → Option RetryDelay → Session
  unfolding reset_conn
  connect tx ring now w retry = record {
    tx = reset_conn tx ring now;
    conn = w;
    retry = retry;
    made_progress = false;
    last_probe_ms = now;
  }

  unfoldable pub disconnect : Session → Session
  unfolding abort
  disconnect s = record s {
    tx = record (abort s.tx) { reconnects = u32 ((abort s.tx).reconnects + 1) };
  }
