-- ===== src/Sender/Idle.antt =====
-- What the result of `ntrip_tx_poll` means, and that the stall clock measures a transmission.
use mathlib.Core.Path.{subst}
use rtkdata_fw.Base.{ℕ, zero, suc, ◌+◌, ◌^◌, ◌≤◌, ◌<◌, ◌≡◌, refl, sym}
use rtkdata_fw.Base.{◌⊎◌, inl, inr, arith, if◌then◌else◌, leb, ◌==◌, ◌||◌, u64, Bool, true, false}
use rtkdata_fw.Base.{length, Bool-cases}
use rtkdata_fw.Ring.{Ring}
use rtkdata_fw.Ring.History.{History, Holds}
use rtkdata_fw.Sender.{Tx, pending, Socket, Sent, accepted, failed, advance, give_up, copy_next}
use rtkdata_fw.Sender.{PollResult, idle, progress, wouldblock, error, Polled, poll_loop, poll}
use rtkdata_fw.Sender.{eagain, ewouldblock, econnreset, stalled}
use rtkdata_fw.Sender.Balance.{IsBalanced, advance-IsBalanced}
use rtkdata_fw.Sender.Copy.{Exhausted, CopyOk, copy_next-CopyOk}
use rtkdata_fw.Sender.Wire.{length-pending}

abbrev again_later : Tx → Tx
again_later t = record t { eagain_count = u64 (t.eagain_count + 1) }

module _ (net : Socket) (r : Ring) (h : History) (now stale : ℕ) (v : Holds r h) where
  open net use {Conn, send, sent, takes_prefix}

  -- A poll's state and result, kept by every way a round can go on or end.
  module _ (P : Tx → PollResult → Type 0)
      (copied : (tx t : Tx) (res : PollResult)
        → CopyOk tx h now stale (t, true)
        → P tx res
        → P t res)
      (used_up : (tx t : Tx) (res : PollResult)
        → tx.current_len ≤ tx.current_off
        → CopyOk tx h now stale (t, false)
        → P tx res
        → P t res)
      (moved : (t : Tx) (res : PollResult) (n : ℕ)
        → IsBalanced t h
        → P t res
        → P (advance t (suc n) now) progress)
      (full : (t : Tx) (res : PollResult) → P t res → P (again_later t) wouldblock)
      (broke : (t : Tx) (res : PollResult) (e : ℕ) → P t res → P (give_up t e) error) where
    Continues : ℕ → Type 0
    Continues rounds =
        (tx : Tx) (w : Conn) (res : PollResult)
        → IsBalanced tx h
        → P tx res
        → P (poll_loop net r now stale rounds tx w res).tx
            (poll_loop net r now stale rounds tx w res).result

    abbrev answer : ℕ → Tx → Conn → Sent → Polled net r now stale
    answer rounds t w' ret = elim ret as (λ _. Polled net r now stale) [
      | accepted zero ↦ record { tx = give_up t econnreset; conn = w'; result = error }
      | accepted (suc n) ↦ poll_loop net r now stale rounds (advance t (suc n) now) w' progress
      | failed e ↦
          if e == eagain || e == ewouldblock
          then record { tx = again_later t; conn = w'; result = wouldblock }
          else record { tx = give_up t e; conn = w'; result = error }
    ]

    answer-keeps :
        (rounds : ℕ) (t : Tx) (w' : Conn) (res : PollResult) (ret : Sent)
        → ((n : ℕ) → ret ≡ accepted n → n ≤ length (pending t))
        → IsBalanced t h
        → P t res
        → Continues rounds
        → P (answer rounds t w' ret).tx (answer rounds t w' ret).result
    unfolding Continues
    answer-keeps rounds t w' res (accepted zero) took b p next = broke t res econnreset p
    answer-keeps rounds t w' res (accepted (suc n)) took b p next =
        next (advance t (suc n) now) w' progress
          (advance-IsBalanced t h (suc n) now (omega (arith, took (suc n) refl, length-pending t b))
            b)
          (moved t res n b p)
    answer-keeps rounds t w' res (failed e) took b p next =
        elim (Bool-cases (e == eagain || e == ewouldblock)) [
          | inl later ↦ rw later (full t res p)
          | inr fatal ↦ rw fatal (broke t res e p)
        ]

    abbrev round : ℕ → Conn → PollResult → Tx × Bool → Polled net r now stale
    round rounds w res got =
        if got.1
        then answer rounds got.0 (send w (pending got.0)).1 (send w (pending got.0)).0
        else record { tx = got.0; conn = w; result = res }

    round-keeps :
        (rounds : ℕ) (tx : Tx) (w : Conn) (res : PollResult) (got : Tx × Bool)
        → tx.current_len ≤ tx.current_off
        → CopyOk tx h now stale got
        → P tx res
        → Continues rounds
        → P (round rounds w res got).tx (round rounds w res got).result
    round-keeps rounds tx w res (t, true) q c p next =
        answer-keeps rounds t (send w (pending t)).1 res (send w (pending t)).0
          (λ n e. (takes_prefix w (pending t) n e).0) c.0 (copied tx t res c p) next
    round-keeps rounds tx w res (t, false) q c p next = used_up tx t res q c p

    poll_loop-keeps : (rounds : ℕ) → Continues rounds
    unfolding Continues poll_loop
    poll_loop-keeps zero tx w res b p = p
    poll_loop-keeps (suc rounds) tx w res b p =
        let c = copy_next tx r now stale in
        elim (Bool-cases (leb tx.current_len tx.current_off)) [
          | inl none_left ↦
              subst
                (λ (t : Bool).
                  P (round rounds w res (if t then c else (tx, true))).tx
                    (round rounds w res (if t then c else (tx, true))).result)
                (sym none_left)
                (round-keeps rounds tx w res c (ground arith)
                  (copy_next-CopyOk r h now stale v tx b (ground arith)) p (poll_loop-keeps rounds))
          | inr some_left ↦
              subst
                (λ (t : Bool).
                  P (round rounds w res (if t then c else (tx, true))).tx
                    (round rounds w res (if t then c else (tx, true))).result)
                (sym some_left)
                (answer-keeps rounds tx (send w (pending tx)).1 res (send w (pending tx)).0
                  (λ n e. (takes_prefix w (pending tx) n e).0) b p (poll_loop-keeps rounds))
        ]

    pub poll-keeps :
        (max_sends : ℕ) (tx : Tx) (w : Conn)
        → IsBalanced tx h
        → P tx idle
        → P (poll net r now stale max_sends tx w).tx (poll net r now stale max_sends tx w).result
    unfolding poll Continues
    poll-keeps max_sends tx w b p = poll_loop-keeps max_sends tx w idle b p

    -- A property that any state has whose result is `progress`, and that a used-up ring gives.
    first-keeps :
        (rounds : ℕ) (tx : Tx) (w : Conn) (got : Tx × Bool)
        → ((t : Tx) → P t progress)
        → ((t : Tx) → Exhausted tx t h → P t idle)
        → CopyOk tx h now stale got
        → P (round rounds w idle got).tx (round rounds w idle got).result
    first-keeps rounds tx w (t, true) any empty c =
        answer-keeps rounds t (send w (pending t)).1 progress (send w (pending t)).0
          (λ n e. (takes_prefix w (pending t) n e).0) c.0 (any t) (poll_loop-keeps rounds)
    first-keeps rounds tx w (t, false) any empty c = empty t c.1

    pub poll_first-keeps :
        (rounds : ℕ) (tx : Tx) (w : Conn)
        → ((t : Tx) → P t progress)
        → ((t : Tx) → tx.current_len ≤ tx.current_off → Exhausted tx t h → P t idle)
        → IsBalanced tx h
        → P
            (poll net r now stale (suc rounds) tx w).tx
            (poll net r now stale (suc rounds) tx w).result
    unfolding poll poll_loop
    poll_first-keeps rounds tx w any empty b =
        let c = copy_next tx r now stale in
        elim (Bool-cases (leb tx.current_len tx.current_off)) [
          | inl none_left ↦
              let q : tx.current_len ≤ tx.current_off = ground arith in
              subst
                (λ (t : Bool).
                  P (round rounds w idle (if t then c else (tx, true))).tx
                    (round rounds w idle (if t then c else (tx, true))).result)
                (sym none_left)
                (first-keeps rounds tx w c any (λ t x. empty t q x)
                  (copy_next-CopyOk r h now stale v tx b q))
          | inr some_left ↦
              subst
                (λ (t : Bool).
                  P (round rounds w idle (if t then c else (tx, true))).tx
                    (round rounds w idle (if t then c else (tx, true))).result)
                (sym some_left)
                (answer-keeps rounds tx (send w (pending tx)).1 progress (send w (pending tx)).0
                  (λ n e. (takes_prefix w (pending tx) n e).0) b (any tx) (poll_loop-keeps rounds))
        ]

  -- Nothing is under way, and the cursor has met the end of the ring.
  pub record CaughtUp (t : Tx) : Type 0 where
    pub quiet : t.current_len ≤ t.current_off
    pub at_end : t.cursor_seq ≡ length h

  abbrev IdleIsDone : Tx → PollResult → Type 0
  IdleIsDone t res = res ≡ idle → CaughtUp t

  -- A poll that may send at least once reports `idle` only if every frame of the history has
  -- been dealt with and nothing is under way.
  pub poll_idle-CaughtUp :
      (rounds : ℕ) (tx : Tx) (w : Conn)
      → IsBalanced tx h
      → (poll net r now stale (suc rounds) tx w).result ≡ idle
      → CaughtUp (poll net r now stale (suc rounds) tx w).tx
  poll_idle-CaughtUp rounds tx w b =
      poll_first-keeps IdleIsDone
        (λ tx t res c p e. absurd (omega (arith, c.1.after, c.1.present, (p e).at_end)))
        (λ tx t res q c p e. record {
          quiet = omega (arith, c.1.len, c.1.off);
          at_end = c.1.cursor;
        })
        (λ t res n b p e. absurd (cc)) (λ t res p e. absurd (cc)) (λ t res k p e. absurd (cc))
        rounds tx w (λ t e. absurd (cc))
        (λ t q x e. record { quiet = omega (arith, x.len, x.off); at_end = x.cursor }) b

  -- Nothing is under way, or something moved just now.
  abbrev Moving : Tx → PollResult → Type 0
  Moving t res = (t.current_len ≤ t.current_off) ⊎ (t.last_progress_ms ≡ now)

  Moving-stalled :
      (t : Tx) (res : PollResult) (timeout : ℕ)
      → now < 2 ^ 32
      → Moving t res
      → stalled t now timeout ≡ false
  unfolding stalled
  Moving-stalled t res timeout k m = ground arith

  -- A poll at time `now` that starts with no frame under way does not leave the sender stalled,
  -- whatever the timeout and however long the sender was idle before.
  pub poll-not_stalled :
      (max_sends : ℕ) (tx : Tx) (w : Conn) (timeout : ℕ)
      → now < 2 ^ 32
      → IsBalanced tx h
      → tx.current_len ≤ tx.current_off
      → stalled (poll net r now stale max_sends tx w).tx now timeout ≡ false
  poll-not_stalled max_sends tx w timeout k b quiet =
      Moving-stalled (poll net r now stale max_sends tx w).tx
        (poll net r now stale max_sends tx w).result timeout k
        (poll-keeps Moving (λ tx t res c m. inr c.1.clock)
          (λ tx t res q c m. inl (omega (arith, c.1.len, c.1.off)))
          (λ t res n b m. unfold advance in inr refl) (λ t res m. m)
          (λ t res e m. unfold give_up in inl (omega arith)) max_sends tx w b (inl quiet))
