-- ===== src/Sender/Poll.antt =====
-- `ntrip_tx_poll`: whatever the socket answers, the byte balance holds, and the connection
-- carries whole frames of the history in order.
use mathlib.Core.Path.{subst}
use mathlib.Core.List.{List, [], ◌∷◌, ◌++◌, append-nil, append_assoc}
use rtkdata_fw.Base.{ℕ, zero, suc, ◌+◌, ◌-◌, ◌≤◌, ◌≡◌, ◌≢◌, refl, ap, sym, ◌∙◌}
use rtkdata_fw.Base.{inl, inr, arith, if◌then◌else◌, leb, ◌==◌, ◌||◌, u64, Bool, true, false}
use rtkdata_fw.Base.{length, take, Bool-cases}
use rtkdata_fw.Ring.{Ring}
use rtkdata_fw.Ring.History.{History, Holds}
use rtkdata_fw.Sender.{Tx, pending, Socket, Sent, accepted, failed, advance, give_up, copy_next}
use rtkdata_fw.Sender.{PollResult, idle, progress, wouldblock, error, Polled, poll_loop, poll}
use rtkdata_fw.Sender.{eagain, ewouldblock, econnreset}
use rtkdata_fw.Sender.Balance.{IsBalanced, advance-IsBalanced, give_up-IsBalanced}
use rtkdata_fw.Sender.Copy.{CopyOk, copy_next-CopyOk}
use rtkdata_fw.Sender.Wire.{Ordered, carried, OnWire, length-pending, OnWire-Copied}
use rtkdata_fw.Sender.Wire.{OnWire-Exhausted, OnWire-advance, cursor-give_up}

module _ (net : Socket) (r : Ring) (h : History) (now stale : ℕ) (v : Holds r h) where
  open net use {Conn, send, sent, takes_prefix, fails_silent}

  -- What a poll leaves, if the connection carried the frames `is` before it. `lost` is the rest
  -- of the frame under way: it is still pending, unless the poll gave the connection up.
  pub record PollOk (is : List ℕ) (p : Polled net r now stale) : Type 0 where
    pub balanced : IsBalanced p.tx h
    pub more : List ℕ
    pub lost : List ℕ
    pub order : Ordered p.tx.cursor_seq (more ++ is)
    pub stream : sent p.conn ++ lost ≡ carried h (more ++ is)
    pub kept : p.result ≢ error → lost ≡ pending p.tx

  stopped :
      (is : List ℕ) (t : Tx) (w : Conn) (res : PollResult)
      → IsBalanced t h
      → OnWire h t (sent w) is
      → PollOk is (record { tx = t; conn = w; result = res })
  stopped is t w res b o = record {
    balanced = b;
    more = [];
    lost = pending t;
    order = o.order;
    stream = o.stream;
    kept = λ _. refl;
  }

  gave_up :
      (is : List ℕ) (t : Tx) (w w' : Conn) (e : ℕ)
      → IsBalanced t h
      → OnWire h t (sent w) is
      → sent w' ≡ sent w
      → PollOk is (record { tx = give_up t e; conn = w'; result = error })
  gave_up is t w w' e b o same = record {
    balanced = give_up-IsBalanced t h e b;
    more = [];
    lost = pending t;
    order = subst (λ c. Ordered c is) (sym (cursor-give_up t e)) o.order;
    stream = ap (λ (l : List ℕ). l ++ pending t) same ∙ o.stream;
    kept = λ ne. absurd (ne refl);
  }

  -- One more frame was started before.
  PollOk-cons : (k : ℕ) (is : List ℕ) (p : Polled net r now stale) → PollOk (k ∷ is) p → PollOk is p
  PollOk-cons k is p o =
      let e : (o.more ++ (k ∷ [])) ++ is ≡ o.more ++ (k ∷ is) = append_assoc o.more (k ∷ []) is in
      record {
        balanced = o.balanced;
        more = o.more ++ (k ∷ []);
        lost = o.lost;
        order = subst (Ordered p.tx.cursor_seq) (sym e) o.order;
        stream = o.stream ∙ ap (carried h) (sym e);
        kept = o.kept;
      }

  -- The answer of a send, and how the loop goes on.
  abbrev answer : ℕ → Tx → Conn → Sent → Polled net r now stale
  answer rounds t w' ret = elim ret as (λ _. Polled net r now stale) [
    | accepted zero ↦ record { tx = give_up t econnreset; conn = w'; result = error }
    | accepted (suc n) ↦ poll_loop net r now stale rounds (advance t (suc n) now) w' progress
    | failed e ↦
        if e == eagain || e == ewouldblock
        then record {
          tx = record t { eagain_count = u64 (t.eagain_count + 1) };
          conn = w';
          result = wouldblock;
        }
        else record { tx = give_up t e; conn = w'; result = error }
  ]

  Continues : ℕ → Type 0
  Continues rounds =
      (tx : Tx) (w : Conn) (res : PollResult) (is : List ℕ)
      → IsBalanced tx h
      → OnWire h tx (sent w) is
      → PollOk is (poll_loop net r now stale rounds tx w res)

  answer-PollOk :
      (rounds : ℕ) (t : Tx) (w w' : Conn) (ret : Sent) (is : List ℕ)
      → ((n : ℕ)
          → ret ≡ accepted n
          → (n ≤ length (pending t)) × (sent w' ≡ sent w ++ take n (pending t)))
      → ((e : ℕ) → ret ≡ failed e → sent w' ≡ sent w)
      → IsBalanced t h
      → OnWire h t (sent w) is
      → Continues rounds
      → PollOk is (answer rounds t w' ret)
  unfolding Continues
  answer-PollOk rounds t w w' (accepted zero) is took silent b o next =
      gave_up is t w w' econnreset b o ((took 0 refl).1 ∙ append-nil (sent w))
  answer-PollOk rounds t w w' (accepted (suc n)) is took silent b o next =
      let k = took (suc n) refl in
      let fits : suc n ≤ t.current_len - t.current_off = omega (arith, k.0, length-pending t b) in
      next (advance t (suc n) now) w' progress is (advance-IsBalanced t h (suc n) now fits b)
        (OnWire-advance h t (suc n) now (sent w) (sent w') is b fits k.1 o)
  answer-PollOk rounds t w w' (failed e) is took silent b o next =
      let same = silent e refl in
      elim (Bool-cases (e == eagain || e == ewouldblock)) [
        | inl later ↦ rw later (
            stopped is (record t { eagain_count = u64 (t.eagain_count + 1) }) w' wouldblock
              (record {
                off_le = b.off_le;
                len_le = b.len_le;
                len_small = b.len_small;
                behind = b.behind;
                at_cursor = b.at_cursor;
                consumed = b.consumed;
                copies = b.copies;
              })
              (record {
                order = o.order;
                stream = ap (λ (l : List ℕ). l ++ pending t) same ∙ o.stream;
              }))
        | inr fatal ↦ rw fatal (gave_up is t w w' e b o same)
      ]

  -- A frame is pending: it is sent on.
  send-PollOk :
      (rounds : ℕ) (t : Tx) (w : Conn) (is : List ℕ)
      → IsBalanced t h
      → OnWire h t (sent w) is
      → Continues rounds
      → PollOk is (answer rounds t (send w (pending t)).1 (send w (pending t)).0)
  send-PollOk rounds t w is b o next =
      answer-PollOk rounds t w (send w (pending t)).1 (send w (pending t)).0 is
        (takes_prefix w (pending t)) (fails_silent w (pending t)) b o next

  -- A round, once it is known what there is to send.
  abbrev round : ℕ → Conn → PollResult → Tx × Bool → Polled net r now stale
  round rounds w res got =
      if got.1
      then answer rounds got.0 (send w (pending got.0)).1 (send w (pending got.0)).0
      else record { tx = got.0; conn = w; result = res }

  round-PollOk :
      (rounds : ℕ) (tx : Tx) (w : Conn) (res : PollResult) (is : List ℕ) (got : Tx × Bool)
      → CopyOk tx h now stale got
      → tx.current_len ≤ tx.current_off
      → IsBalanced tx h
      → OnWire h tx (sent w) is
      → Continues rounds
      → PollOk is (round rounds w res got)
  round-PollOk rounds tx w res is (t, true) c none_left b o next =
      let o' = OnWire-Copied h tx t now stale (sent w) is none_left c.1 o in
      PollOk-cons o'.0 is (answer rounds t (send w (pending t)).1 (send w (pending t)).0)
        (send-PollOk rounds t w (o'.0 ∷ is) c.0 o'.1 next)
  round-PollOk rounds tx w res is (t, false) c none_left b o next =
      stopped is t w res c.0 (OnWire-Exhausted h tx t (sent w) is b.behind c.1 o)

  poll_loop-PollOk : (rounds : ℕ) → Continues rounds
  unfolding Continues poll_loop
  poll_loop-PollOk zero tx w res is b o = stopped is tx w res b o
  poll_loop-PollOk (suc rounds) tx w res is b o =
      let copied = copy_next tx r now stale in
      elim (Bool-cases (leb tx.current_len tx.current_off)) [
        | inl none_left ↦
            let k : tx.current_len ≤ tx.current_off = ground arith in
            subst (λ (t : Bool). PollOk is (round rounds w res (if t then copied else (tx, true))))
              (sym none_left)
              (round-PollOk rounds tx w res is copied (copy_next-CopyOk r h now stale v tx b k) k b
                o (poll_loop-PollOk rounds))
        | inr some_left ↦
            subst (λ (t : Bool). PollOk is (round rounds w res (if t then copied else (tx, true))))
              (sym some_left) (send-PollOk rounds tx w is b o (poll_loop-PollOk rounds))
      ]

  -- Take a sender in balance whose connection has carried, with what is pending, the frames `is`
  -- of the ring's history. After a poll, whatever the socket answered: the byte balance holds,
  -- and the connection has carried, with the rest of the frame under way, the frames `is` and
  -- more of the history, whole, none twice and in order. That rest is still pending unless the
  -- poll reports an error.
  pub poll-PollOk :
      (max_sends : ℕ) (tx : Tx) (w : Conn) (is : List ℕ)
      → IsBalanced tx h
      → OnWire h tx (sent w) is
      → PollOk is (poll net r now stale max_sends tx w)
  unfolding poll Continues
  poll-PollOk max_sends tx w is b o = poll_loop-PollOk max_sends tx w idle is b o
