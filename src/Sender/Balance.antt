-- ===== src/Sender/Balance.antt =====
-- The byte balance of a sender: what has passed its cursor was copied, skipped or dropped as
-- stale, and what was copied was accepted, is pending or was dropped. Each small step keeps it.
use mathlib.Core.List.{[], ◌∷◌, ◌++◌}
use rtkdata_fw.Base.{ℕ, suc, ◌+◌, ◌-◌, ◌%◌, ◌^◌, ◌≤◌, ◌<◌, ◌≡◌, refl, ap, sym, ◌∙◌}
use rtkdata_fw.Base.{◌⊎◌, inl, inr, arith, if◌then◌else◌, ltb, u32, u64, true, false}
use rtkdata_fw.Base.{length, take-append_left, length-append, Bool-cases, sub64}
use rtkdata_fw.Ring.{Slot, Ring, ring_slots, oldest_seq}
use rtkdata_fw.Ring.History.{Entry, History, total, through, entry, slot_of, Holds}
use rtkdata_fw.Ring.History.{through-suc, through-le, through-length, through-le-total}
use rtkdata_fw.Sender.{Tx, tx_init, abort, reset_conn, catch_up, drop_stale, copy_frame, advance}
use rtkdata_fw.Sender.{give_up}

pub record IsBalanced (tx : Tx) (h : History) : Type 0 where
  pub off_le : tx.current_off ≤ tx.current_len
  pub len_le : tx.current_len ≤ length tx.current
  pub len_small : tx.current_len ≤ 1029
  pub behind : tx.cursor_seq ≤ length h
  pub at_cursor : tx.cum_through ≡ through h tx.cursor_seq
  pub consumed :
      u64 tx.cum_through ≡ u64 (tx.copied_bytes + tx.skipped_bytes + tx.dropped_stale_bytes)
  pub copies :
      u64 tx.copied_bytes
      ≡ u64 (tx.accepted_to_lwip + tx.dropped_bytes + (tx.current_len - tx.current_off))

pub tx_init-IsBalanced : (h : History) → IsBalanced tx_init h
unfolding total
tx_init-IsBalanced h = record {
  off_le = omega arith;
  len_le = omega arith;
  len_small = omega arith;
  behind = omega arith;
  at_cursor = refl;
  consumed = refl;
  copies = refl;
}

-- New frames in the ring do not touch what lies behind the cursor.
pub IsBalanced-grow :
    (tx : Tx) (h : History) (e : Entry) → IsBalanced tx h → IsBalanced tx (h ++ (e ∷ []))
IsBalanced-grow tx h e b = record {
  off_le = b.off_le;
  len_le = b.len_le;
  len_small = b.len_small;
  behind = omega (arith, b.behind, length-append h (e ∷ []));
  at_cursor = b.at_cursor ∙ ap total (sym (take-append_left tx.cursor_seq h (e ∷ []) b.behind));
  consumed = b.consumed;
  copies = b.copies;
}

pub abort-IsBalanced : (tx : Tx) (h : History) → IsBalanced tx h → IsBalanced (abort tx) h
unfolding abort
abort-IsBalanced tx h b = record {
  off_le = omega arith;
  len_le = omega arith;
  len_small = omega arith;
  behind = b.behind;
  at_cursor = b.at_cursor;
  consumed = b.consumed;
  copies = ground (arith, b.copies, b.off_le);
}

pub give_up-IsBalanced :
    (tx : Tx) (h : History) (e : ℕ) → IsBalanced tx h → IsBalanced (give_up tx e) h
unfolding give_up
give_up-IsBalanced tx h e b =
    abort-IsBalanced (record tx { last_sock_errno = e }) h
      (record {
        off_le = b.off_le;
        len_le = b.len_le;
        len_small = b.len_small;
        behind = b.behind;
        at_cursor = b.at_cursor;
        consumed = b.consumed;
        copies = b.copies;
      })

-- A (re)connect keeps the byte balance of a sender whose ring holds the history: with what was
-- partially sent counted as dropped and what waited as skipped, every byte of the history behind
-- the new cursor is still accounted for.
pub reset_conn-IsBalanced :
    (tx : Tx) (r : Ring) (h : History) (now : ℕ)
    → Holds r h
    → IsBalanced tx h
    → IsBalanced (reset_conn tx r now) h
unfolding reset_conn abort
reset_conn-IsBalanced tx r h now v b =
    let all : through h (length h) ≡ total h = through-length h in
    let ahead : through h tx.cursor_seq ≤ through h (length h) =
      through-le h tx.cursor_seq (length h) b.behind in
    record {
      off_le = omega arith;
      len_le = omega arith;
      len_small = omega arith;
      behind = omega (arith, v.next);
      at_cursor = v.cum ∙ sym all ∙ ap (through h) (sym v.next);
      consumed = skipping (Bool-cases (ltb tx.cursor_seq r.next_seq));
      copies = ground (arith, b.copies, b.off_le);
    }
  where
    skipping :
        (ltb tx.cursor_seq r.next_seq ≡ true) ⊎ (ltb tx.cursor_seq r.next_seq ≡ false)
        → u64 r.cum_bytes
          ≡ u64 (
              tx.copied_bytes
              + (if ltb tx.cursor_seq r.next_seq
                  then u64 (tx.skipped_bytes + sub64 r.cum_bytes tx.cum_through)
                  else tx.skipped_bytes)
              + tx.dropped_stale_bytes)
    skipping (inl e) = rw e (
        omega (
          arith,
          b.consumed,
          b.at_cursor,
          v.cum,
          v.bytes_fit,
          through-le-total h tx.cursor_seq b.behind,
        ))
    skipping (inr e) =
        let end : tx.cursor_seq ≡ length h = ground (arith, b.behind, v.next) in
        rw e (omega (arith, b.consumed, b.at_cursor, v.cum, ap (through h) end, through-length h))

-- The slot of a resident sequence number holds that frame of the history.
pub slot_at :
    (r : Ring) (h : History) (c : ℕ)
    → Holds r h
    → oldest_seq r ≤ c
    → c < length h
    → r.slot (c % ring_slots) ≡ slot_of h c
unfolding oldest_seq
slot_at r h c v o k = v.resident c k (ground (arith, v.next))

pub catch_up-IsBalanced :
    (tx : Tx) (r : Ring) (h : History) → Holds r h → IsBalanced tx h → IsBalanced (catch_up tx r) h
unfolding catch_up
catch_up-IsBalanced tx r h v b = elim (Bool-cases (ltb tx.cursor_seq (oldest_seq r))) [
  | inr near ↦ rw near b
  | inl far ↦
      let o = oldest_seq r in
      let within : o < length h = unfold oldest_seq in ground (arith, v.next) in
      let s = slot_at r h o v (omega arith) within in
      let n : (r.slot (o % ring_slots)).len ≡ length (entry h o).frame =
        ap (λ (t : Slot). t.len) s in
      let c : (r.slot (o % ring_slots)).cum_bytes ≡ through h (suc o) =
        ap (λ (t : Slot). t.cum_bytes) s in
      let grow = through-suc h o within in
      let most = through-le-total h (suc o) (omega arith) in
      let least : through h tx.cursor_seq ≤ through h o =
        through-le h tx.cursor_seq o (ground arith) in
      let before : sub64 (r.slot (o % ring_slots)).cum_bytes (r.slot (o % ring_slots)).len
          ≡ through h o =
        omega (arith, v.bytes_fit) in
      rw far (record {
        off_le = b.off_le;
        len_le = b.len_le;
        len_small = b.len_small;
        behind = omega arith;
        at_cursor = before;
        consumed = omega (arith, b.consumed, b.at_cursor, v.bytes_fit);
        copies = b.copies;
      })
]

-- After it the cursor is on a resident frame, or at the end.
pub catch_up-resident : (tx : Tx) (r : Ring) → oldest_seq r ≤ (catch_up tx r).cursor_seq
unfolding catch_up
catch_up-resident tx r = elim (Bool-cases (ltb tx.cursor_seq (oldest_seq r))) [
  | inl far ↦ rw far (omega arith)
  | inr near ↦ rw near (ground arith)
]

pub drop_stale-IsBalanced :
    (tx : Tx) (s : Slot) (h : History)
    → s ≡ slot_of h tx.cursor_seq
    → tx.cursor_seq < length h
    → length h < 2 ^ 32
    → IsBalanced tx h
    → IsBalanced (drop_stale tx s) h
unfolding drop_stale
drop_stale-IsBalanced tx s h e k fit b =
    let n : s.len ≡ length (entry h tx.cursor_seq).frame = ap (λ (t : Slot). t.len) e in
    let c : s.cum_bytes ≡ through h (suc tx.cursor_seq) = ap (λ (t : Slot). t.cum_bytes) e in
    let next : u32 (tx.cursor_seq + 1) ≡ suc tx.cursor_seq = omega arith in
    let grow = through-suc h tx.cursor_seq k in
    record {
      off_le = b.off_le;
      len_le = b.len_le;
      len_small = b.len_small;
      behind = omega arith;
      at_cursor = c ∙ ap (through h) (sym next);
      consumed = omega (arith, b.consumed, b.at_cursor);
      copies = b.copies;
    }

pub copy_frame-IsBalanced :
    (tx : Tx) (s : Slot) (h : History) (now : ℕ)
    → s ≡ slot_of h tx.cursor_seq
    → tx.cursor_seq < length h
    → length h < 2 ^ 32
    → length (entry h tx.cursor_seq).frame ≤ 1029
    → tx.current_len ≤ tx.current_off
    → IsBalanced tx h
    → IsBalanced (copy_frame tx s now) h
unfolding copy_frame
copy_frame-IsBalanced tx s h now e k fit size idle b =
    let n : s.len ≡ length (entry h tx.cursor_seq).frame = ap (λ (t : Slot). t.len) e in
    let m : length s.frame ≡ length (entry h tx.cursor_seq).frame =
      ap (λ (t : Slot). length t.frame) e in
    let c : s.cum_bytes ≡ through h (suc tx.cursor_seq) = ap (λ (t : Slot). t.cum_bytes) e in
    let next : u32 (tx.cursor_seq + 1) ≡ suc tx.cursor_seq = omega arith in
    let grow = through-suc h tx.cursor_seq k in
    record {
      off_le = omega arith;
      len_le = omega arith;
      len_small = omega arith;
      behind = omega arith;
      at_cursor = c ∙ ap (through h) (sym next);
      consumed = omega (arith, b.consumed, b.at_cursor);
      copies = omega (arith, b.copies);
    }

pub advance-IsBalanced :
    (tx : Tx) (h : History) (n now : ℕ)
    → n ≤ tx.current_len - tx.current_off
    → IsBalanced tx h
    → IsBalanced (advance tx n now) h
unfolding advance
advance-IsBalanced tx h n now fits b = record {
  off_le = ground (arith, b.off_le, b.len_small);
  len_le = ground (arith, b.len_le);
  len_small = ground (arith, b.len_small);
  behind = b.behind;
  at_cursor = b.at_cursor;
  consumed = b.consumed;
  copies = ground (arith, b.copies, b.off_le, b.len_small);
}
