-- ===== src/Sender.antt =====
-- main/interface/ntrip_tx_core.c, the sender of one NTRIP instance: `ntrip_tx_t`,
-- `ntrip_tx_init`, `ntrip_tx_reset_conn`, `ntrip_tx_abort`, `ntrip_tx_stalled`,
-- `ntrip_tx_frame_overdue`, `ntrip_tx_pending`, `tx_copy_next` and `ntrip_tx_poll`. The send
-- callback with its socket is a parameter.
pub mod Balance
pub mod Copy
pub mod Wire
pub mod Poll
pub mod Idle
pub mod Session
pub mod Growth
pub mod Backoff
pub mod Connection
use mathlib.Core.List.{List, []}
use mathlib.Core.Bool.{Bool, true, false, ◌&&◌, ◌||◌}
use rtkdata_fw.Base.{ℕ, zero, suc, ◌+◌, ◌-◌, ◌%◌, ◌^◌, ◌≤◌, ◌≡◌, ◌++◌}
use rtkdata_fw.Base.{if◌then◌else◌, ltb, leb, ◌==◌, u16, u32, u64, sub32, sub64, length, take, drop}
use rtkdata_fw.Ring.{Slot, Ring, ring_slots, oldest_seq}

pub record Tx : Type 0 where
  pub cursor_seq : ℕ
  pub cum_through : ℕ
  pub current : List ℕ
  pub current_len : ℕ
  pub current_off : ℕ
  pub current_received_ms : ℕ
  pub last_progress_ms : ℕ
  pub copied_bytes : ℕ
  pub accepted_to_lwip : ℕ
  pub sent_frames : ℕ
  pub dropped_bytes : ℕ
  pub skipped_bytes : ℕ
  pub skipped_frames : ℕ
  pub dropped_frames_stale : ℕ
  pub dropped_stale_bytes : ℕ
  pub eagain_count : ℕ
  pub reconnects : ℕ
  pub max_queue_age_ms : ℕ
  pub last_sock_errno : ℕ

-- `ntrip_tx_init`
abbrev pub tx_init : Tx
tx_init = record {
  cursor_seq = 0;
  cum_through = 0;
  current = [];
  current_len = 0;
  current_off = 0;
  current_received_ms = 0;
  last_progress_ms = 0;
  copied_bytes = 0;
  accepted_to_lwip = 0;
  sent_frames = 0;
  dropped_bytes = 0;
  skipped_bytes = 0;
  skipped_frames = 0;
  dropped_frames_stale = 0;
  dropped_stale_bytes = 0;
  eagain_count = 0;
  reconnects = 0;
  max_queue_age_ms = 0;
  last_sock_errno = 0;
}

-- `ntrip_tx_pending`
pub pending_count : Tx → ℕ
pending_count tx = sub32 tx.current_len tx.current_off

-- The bytes that the next send is given.
abbrev pub pending : Tx → List ℕ
pending tx = drop tx.current_off (take tx.current_len tx.current)

pub abort : Tx → Tx
abort tx =
    let lost =
      if ltb tx.current_off tx.current_len
      then u64 (tx.dropped_bytes + (tx.current_len - tx.current_off))
      else tx.dropped_bytes in
    record tx { dropped_bytes = lost; current_len = 0; current_off = 0 }

-- Frames that waited in the ring are counted as skipped; the next new frame comes first.
pub reset_conn : Tx → Ring → ℕ → Tx
unfolding abort
reset_conn tx ring now =
    let t = abort tx in
    let behind = ltb t.cursor_seq ring.next_seq in
    record t {
      skipped_frames =
          if behind
          then u32 (t.skipped_frames + sub32 ring.next_seq t.cursor_seq)
          else t.skipped_frames;
      skipped_bytes =
          if behind
          then u64 (t.skipped_bytes + sub64 ring.cum_bytes t.cum_through)
          else t.skipped_bytes;
      cursor_seq = ring.next_seq;
      cum_through = ring.cum_bytes;
      last_progress_ms = now;
    }

-- `ntrip_tx_stalled`
pub stalled : Tx → ℕ → ℕ → Bool
stalled tx now timeout =
    if leb tx.current_len tx.current_off then false else ltb timeout (sub32 now tx.last_progress_ms)

-- `ntrip_tx_frame_overdue`
pub frame_overdue : Tx → ℕ → ℕ → Bool
frame_overdue tx now deadline =
    if leb tx.current_len tx.current_off
    then false
    else ltb deadline (sub32 now tx.current_received_ms)

-- The first step of `tx_copy_next`: a cursor that fell off the back of the ring jumps to the
-- oldest resident frame.
pub catch_up : Tx → Ring → Tx
unfolding oldest_seq
catch_up tx ring =
    let oldest = oldest_seq ring in
    let o = ring.slot (oldest % ring_slots) in
    let before = sub64 o.cum_bytes o.len in
    if ltb tx.cursor_seq oldest
    then record tx {
      skipped_bytes = u64 (tx.skipped_bytes + sub64 before tx.cum_through);
      skipped_frames = u32 (tx.skipped_frames + sub32 oldest tx.cursor_seq);
      cum_through = before;
      cursor_seq = oldest;
    }
    else tx

-- The frame at the cursor is too old to be sent.
pub drop_stale : Tx → Slot → Tx
drop_stale tx s = record tx {
  dropped_frames_stale = u32 (tx.dropped_frames_stale + 1);
  dropped_stale_bytes = u64 (tx.dropped_stale_bytes + s.len);
  cum_through = s.cum_bytes;
  cursor_seq = u32 (tx.cursor_seq + 1);
}

-- The frame at the cursor becomes the current one.
pub copy_frame : Tx → Slot → ℕ → Tx
copy_frame tx s now =
    let age = sub32 now s.received_ms in
    record tx {
      current = s.frame;
      current_len = s.len;
      current_off = 0;
      current_received_ms = s.received_ms;
      last_progress_ms = now;
      copied_bytes = u64 (tx.copied_bytes + s.len);
      cum_through = s.cum_bytes;
      cursor_seq = u32 (tx.cursor_seq + 1);
      max_queue_age_ms = if ltb tx.max_queue_age_ms age then age else tx.max_queue_age_ms;
    }

-- The loop of `tx_copy_next`, with the rounds that are left before the cursor meets `next_seq`.
pub copy_loop : ℕ → Tx → Ring → ℕ → ℕ → Tx × Bool
unfolding drop_stale copy_frame
copy_loop zero tx ring now stale = (tx, false)
copy_loop (suc n) tx ring now stale =
    let s = ring.slot (tx.cursor_seq % ring_slots) in
    let rest = copy_loop n (drop_stale tx s) ring now stale in
    if ltb tx.cursor_seq ring.next_seq
    then (if ltb 0 stale && ltb stale (sub32 now s.received_ms)
        then rest
        else (copy_frame tx s now, true))
    else (tx, false)

-- `tx_copy_next`
pub copy_next : Tx → Ring → ℕ → ℕ → Tx × Bool
unfolding catch_up copy_loop
copy_next tx ring now stale =
    let t = catch_up tx ring in copy_loop (ring.next_seq - t.cursor_seq) t ring now stale

-- What a send returns: bytes taken, or a negative value with `*out_errno`.
pub data Sent : Type 0 where
  accepted : ℕ → Sent
  failed : ℕ → Sent

pub data PollResult : Type 0 where
  idle progress wouldblock error : PollResult

-- The values of newlib's errno.h; EWOULDBLOCK is EAGAIN there.
abbrev pub eagain : ℕ
eagain = 11

abbrev pub ewouldblock : ℕ
ewouldblock = 11

abbrev pub econnreset : ℕ
econnreset = 104

-- The socket behind the send callback. `sent` is what its stream has carried so far. By the
-- callback's contract in ntrip_tx_core.h a send takes a prefix of the bytes that it is given.
pub record Socket : Type 1 where
  pub Conn : Type 0
  pub send : Conn → List ℕ → Sent × Conn
  pub sent : Conn → List ℕ
  pub takes_prefix :
      (w : Conn) (bytes : List ℕ) (n : ℕ)
      → (send w bytes).0 ≡ accepted n
      → (n ≤ length bytes) × (sent (send w bytes).1 ≡ sent w ++ take n bytes)
  pub fails_silent :
      (w : Conn) (bytes : List ℕ) (e : ℕ)
      → (send w bytes).0 ≡ failed e
      → sent (send w bytes).1 ≡ sent w

-- A send that took `n` bytes, `0 < n`.
pub advance : Tx → ℕ → ℕ → Tx
advance tx n now =
    let off = u16 (tx.current_off + u16 n) in
    let done = off == tx.current_len in
    record tx {
      current_off = if done then 0 else off;
      current_len = if done then 0 else tx.current_len;
      sent_frames = if done then u64 (tx.sent_frames + 1) else tx.sent_frames;
      accepted_to_lwip = u64 (tx.accepted_to_lwip + n);
      last_progress_ms = now;
    }

-- A hard error, or a 0 return that a stream socket must not give.
pub give_up : Tx → ℕ → Tx
unfolding abort
give_up tx errno = abort (record tx { last_sock_errno = errno })

module _ (net : Socket) (ring : Ring) (now stale : ℕ) where
  open net use {Conn, send}

  pub record Polled : Type 0 where
    pub tx : Tx
    pub conn : Conn
    pub result : PollResult

  -- The loop of `ntrip_tx_poll`, with the rounds that are left.
  pub poll_loop : ℕ → Tx → Conn → PollResult → Polled
  unfolding copy_next advance give_up
  poll_loop zero tx w result = record { tx = tx; conn = w; result = result }
  poll_loop (suc rounds) tx w result =
      let (t, ready) =
        if leb tx.current_len tx.current_off then copy_next tx ring now stale else (tx, true) in
      let (ret, w') = send w (pending t) in
      if ready
      then elim ret [
        | accepted zero ↦ record { tx = give_up t econnreset; conn = w'; result = error }
        | accepted (suc n) ↦ poll_loop rounds (advance t (suc n) now) w' progress
        | failed e ↦
            if e == eagain || e == ewouldblock
            then record {
              tx = record t { eagain_count = u64 (t.eagain_count + 1) };
              conn = w';
              result = wouldblock;
            }
            else record { tx = give_up t e; conn = w'; result = error }
      ]
      else record { tx = t; conn = w; result = result }

  -- `ntrip_tx_poll`
  unfoldable pub poll : ℕ → Tx → Conn → Polled
  unfolding poll_loop
  poll max_sends tx w = poll_loop max_sends tx w idle
