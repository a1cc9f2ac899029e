-- ===== src/Tests/Sending.antt =====
-- The sender on a ring with one frame and a socket that takes everything.
use mathlib.Core.List.{List, [], ◌∷◌, ◌++◌}
use rtkdata_fw.Base.{ℕ, ◌≡◌, refl, ap, sym, arith, length, take_length, false}
use rtkdata_fw.Ring.{Ring, ring_init, push}
use rtkdata_fw.Ring.History.{History, Holds, ring_init-Holds, push-Holds, total}
use rtkdata_fw.Sender.{Tx, tx_init, Sent, accepted, failed, Socket, poll, copy_next, stalled}
use rtkdata_fw.Sender.Balance.{IsBalanced, tx_init-IsBalanced}
use rtkdata_fw.Sender.Copy.{CopyOk, copy_next-CopyOk}
use rtkdata_fw.Sender.Wire.{OnWire}
use rtkdata_fw.Sender.Poll.{PollOk, poll-PollOk}
use mathlib.Core.Option.{Option, some}
use rtkdata_fw.Base.{true}
use rtkdata_fw.Retry.{RetryDelay, retry_init}
use rtkdata_fw.Sender.Growth.{Grown-refl}
use rtkdata_fw.Sender.Session.{Wake, live, connect, disconnect}
use rtkdata_fw.Sender.Connection.{Feed, Carries, is_over, live-Carries}
use rtkdata_fw.Sender.Backoff.{IsPaced, live_rises, live-IsPaced}
use rtkdata_fw.Sender.Idle.{CaughtUp, poll_idle-CaughtUp, poll-not_stalled}

abbrev some_frame : List ℕ
some_frame = 1 ∷ 2 ∷ 3 ∷ 4 ∷ 5 ∷ 6 ∷ 7 ∷ []

abbrev one_frame : Ring
one_frame = push ring_init some_frame 9

abbrev one_entry : History
one_entry = record { frame = some_frame; at = 9 } ∷ []

one_frame-Holds : Holds one_frame one_entry
unfolding total
one_frame-Holds =
    push-Holds ring_init-Holds some_frame 9 (omega arith) (omega arith) (omega arith, omega arith)

count_of : Sent → ℕ
count_of (accepted n) = n
count_of (failed e) = 0

accepted_inj : (m n : ℕ) → accepted m ≡ accepted n → m ≡ n
unfolding count_of
accepted_inj m n e = ap count_of e

never_failed : {A : Type 0} (m e : ℕ) → accepted m ≡ failed e → A
never_failed m e h = ground arith

-- A socket whose connection is what it has taken.
abbrev greedy : Socket
greedy = record {
  Conn = List ℕ;
  send = λ w bytes. (accepted (length bytes), w ++ bytes);
  sent = λ w. w;
  takes_prefix = λ w bytes n e.
      let k : n ≡ length bytes = sym (accepted_inj (length bytes) n e) in
      (omega (arith, k), ap (λ l. w ++ l) (sym (take_length n bytes (omega (arith, k)))));
  fails_silent = λ w bytes e h. never_failed (length bytes) e h;
}

tx_init-OnWire : OnWire one_entry tx_init [] []
tx_init-OnWire = record { order = tt; stream = refl }

poll-PollOk_example :
    PollOk greedy one_frame one_entry 20 0 one_frame-Holds []
      (poll greedy one_frame 20 0 2 tx_init [])
poll-PollOk_example =
    poll-PollOk greedy one_frame one_entry 20 0 one_frame-Holds 2 tx_init [] []
      (tx_init-IsBalanced one_entry) tx_init-OnWire

copy_next-CopyOk_example : CopyOk tx_init one_entry 20 0 (copy_next tx_init one_frame 20 0)
copy_next-CopyOk_example =
    copy_next-CopyOk one_frame one_entry 20 0 one_frame-Holds tx_init (tx_init-IsBalanced one_entry)
      (omega arith)

-- Two sends are enough to take the frame and to find the ring used up.
poll_takes_all : (poll greedy one_frame 20 0 2 tx_init []).conn ≡ some_frame
unfolding poll push
poll_takes_all = refl

-- With the cursor at the end, a poll is idle.
abbrev done : Tx
done = record tx_init { cursor_seq = 1; cum_through = 7; skipped_bytes = 7 }

done-IsBalanced : IsBalanced done one_entry
unfolding total
done-IsBalanced = record {
  off_le = omega arith;
  len_le = omega arith;
  len_small = omega arith;
  behind = omega arith;
  at_cursor = refl;
  consumed = refl;
  copies = refl;
}

poll_idle-CaughtUp_example :
    CaughtUp greedy one_frame one_entry 20 0 one_frame-Holds
      (poll greedy one_frame 20 0 2 done []).tx
unfolding poll push
poll_idle-CaughtUp_example =
    poll_idle-CaughtUp greedy one_frame one_entry 20 0 one_frame-Holds 1 done [] done-IsBalanced
      refl

poll-not_stalled_example : stalled (poll greedy one_frame 20 0 2 tx_init []).tx 20 5 ≡ false
poll-not_stalled_example =
    poll-not_stalled greedy one_frame one_entry 20 0 one_frame-Holds 2 tx_init [] 5 (omega arith)
      (tx_init-IsBalanced one_entry) (omega arith)

-- A connection to an empty ring: the frame arrives, and the caster asks for nothing more.
abbrev arrival : Wake
arrival = record { reconnect_gen = 0; now = 220; later = 221; rings = λ j. one_frame; alive = true }

abbrev arrival-Feed : Feed arrival [] one_entry
arrival-Feed = record {
  at = λ j. one_entry;
  holds = λ j. one_frame-Holds;
  first = record { more = one_entry; longer = refl };
  next = λ j. Grown-refl one_entry;
  last = λ j. Grown-refl one_entry;
}

abbrev tired : Option RetryDelay
tired = some (record (retry_init true 5 2000 0) { attempts = 7 })

live-Carries_example :
    let s = live greedy 0 (arrival ∷ []) (connect greedy tx_init ring_init 20 [] tired) in
    let t = disconnect greedy s.0 in
    Carries one_entry s.0.tx s.0.conn (is_over s.1) × Carries one_entry t.tx t.conn true
live-Carries_example =
    live-Carries greedy tx_init ring_init [] one_entry 20 0 [] tired (arrival ∷ []) ring_init-Holds
      (tx_init-IsBalanced []) refl (one_entry, arrival-Feed, Grown-refl one_entry)

live-IsPaced_example :
    let s = connect greedy tx_init ring_init 20 [] tired in
    IsPaced greedy tired (live_rises greedy 0 (arrival ∷ []) s) (live greedy 0 (arrival ∷ []) s).0
live-IsPaced_example = live-IsPaced greedy tx_init ring_init 20 0 [] tired (arrival ∷ [])
