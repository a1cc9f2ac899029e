-- ===== src/Sender/Copy.antt =====
-- `tx_copy_next`: the frame that it copies is the history's, whole and fresh, and lies at or
-- after the cursor; where it copies none, nothing is left in the ring.
use rtkdata_fw.Base.{ℕ, zero, suc, ◌+◌, ◌-◌, ◌%◌, ◌≤◌, ◌<◌, ◌≡◌, refl, ap, ◌∙◌}
use rtkdata_fw.Base.{inl, inr, arith, ltb, ◌&&◌, Bool, true, false}
use rtkdata_fw.Base.{length, Bool-cases, sub32}
use rtkdata_fw.Ring.{Slot, Ring, ring_slots, oldest_seq}
use rtkdata_fw.Ring.History.{History, entry, Holds}
use rtkdata_fw.Sender.{Tx, catch_up, drop_stale, copy_frame, copy_loop, copy_next}
use rtkdata_fw.Sender.Balance.{IsBalanced, slot_at, catch_up-IsBalanced, catch_up-resident}
use rtkdata_fw.Sender.Balance.{drop_stale-IsBalanced, copy_frame-IsBalanced}

-- The frame with number `seq` has become the current one.
pub record Copied (tx t : Tx) (h : History) (now stale : ℕ) : Type 0 where
  pub seq : ℕ
  pub after : tx.cursor_seq ≤ seq
  pub present : seq < length h
  pub cursor : t.cursor_seq ≡ suc seq
  pub whole : t.current ≡ (entry h seq).frame
  pub len : t.current_len ≡ length (entry h seq).frame
  pub off : t.current_off ≡ 0
  pub received : t.current_received_ms ≡ (entry h seq).at
  pub clock : t.last_progress_ms ≡ now
  pub fresh : 0 < stale → sub32 now (entry h seq).at ≤ stale

-- Nothing was copied: the cursor has met the end of the history.
pub record Exhausted (tx t : Tx) (h : History) : Type 0 where
  pub cursor : t.cursor_seq ≡ length h
  pub len : t.current_len ≡ tx.current_len
  pub off : t.current_off ≡ tx.current_off
  pub current : t.current ≡ tx.current

abbrev pub CopyOk : Tx → History → ℕ → ℕ → Tx × Bool → Type 0
CopyOk tx h now stale (t, true) = IsBalanced t h × Copied tx t h now stale
CopyOk tx h now stale (t, false) = IsBalanced t h × Exhausted tx t h

-- The result is stated from an earlier state with a smaller cursor and the same current frame.
CopyOk-weaken :
    (tx u : Tx) (h : History) (now stale : ℕ) (r : Tx × Bool)
    → tx.cursor_seq ≤ u.cursor_seq
    → u.current_len ≡ tx.current_len
    → u.current_off ≡ tx.current_off
    → u.current ≡ tx.current
    → CopyOk u h now stale r
    → CopyOk tx h now stale r
CopyOk-weaken tx u h now stale (t, true) le a b c (bal, k) = (
  bal,
  record {
    seq = k.seq;
    after = omega (arith, k.after);
    present = k.present;
    cursor = k.cursor;
    whole = k.whole;
    len = k.len;
    off = k.off;
    received = k.received;
    clock = k.clock;
    fresh = k.fresh;
  },
)
CopyOk-weaken tx u h now stale (t, false) le a b c (bal, k) =
    (bal, record { cursor = k.cursor; len = k.len ∙ a; off = k.off ∙ b; current = k.current ∙ c })

module _ (r : Ring) (h : History) (now stale : ℕ) (v : Holds r h) where
  copy_frame-CopyOk :
      (tx : Tx)
      → IsBalanced tx h
      → oldest_seq r ≤ tx.cursor_seq
      → tx.cursor_seq < length h
      → tx.current_len ≤ tx.current_off
      → (0 < stale → sub32 now (r.slot (tx.cursor_seq % ring_slots)).received_ms ≤ stale)
      → CopyOk tx h now stale (copy_frame tx (r.slot (tx.cursor_seq % ring_slots)) now, true)
  copy_frame-CopyOk tx b o k idle age =
      let c = tx.cursor_seq in
      let s = r.slot (c % ring_slots) in
      let e = slot_at r h c v o k in
      (
        copy_frame-IsBalanced tx s h now e k v.seq_fits (v.sizes c k).1 idle b,
        unfold copy_frame in
            record {
              seq = c;
              after = omega arith;
              present = k;
              cursor = omega (arith, v.seq_fits);
              whole = ap (λ (t : Slot). t.frame) e;
              len = ap (λ (t : Slot). t.len) e;
              off = refl;
              received = ap (λ (t : Slot). t.received_ms) e;
              clock = refl;
              fresh = λ p. omega (arith, age p, ap (λ (t : Slot). t.received_ms) e);
            },
      )

  copy_loop-CopyOk :
      (n : ℕ) (tx : Tx)
      → IsBalanced tx h
      → oldest_seq r ≤ tx.cursor_seq
      → tx.cursor_seq + n ≡ length h
      → tx.current_len ≤ tx.current_off
      → CopyOk tx h now stale (copy_loop n tx r now stale)
  unfolding copy_loop
  copy_loop-CopyOk zero tx b o e idle =
      (b, record { cursor = omega arith; len = refl; off = refl; current = refl })
  copy_loop-CopyOk (suc n) tx b o e idle =
      let c = tx.cursor_seq in
      let s = r.slot (c % ring_slots) in
      let k : c < length h = omega arith in
      let more : ltb c r.next_seq ≡ true = ground (arith, v.next) in
      rw more (elim (Bool-cases (ltb 0 stale && ltb stale (sub32 now s.received_ms))) [
        | inl old ↦
            let u = drop_stale tx s in
            let bu = drop_stale-IsBalanced tx s h (slot_at r h c v o k) k v.seq_fits b in
            let cu : u.cursor_seq ≡ suc c = unfold drop_stale in omega (arith, v.seq_fits) in
            let lu : u.current_len ≡ tx.current_len = unfold drop_stale in refl in
            let fu : u.current_off ≡ tx.current_off = unfold drop_stale in refl in
            let xu : u.current ≡ tx.current = unfold drop_stale in refl in
            rw old (
              CopyOk-weaken tx u h now stale (copy_loop n u r now stale) (omega arith) lu fu xu
                (copy_loop-CopyOk n u bu (omega arith) (omega arith) (omega arith)))
        | inr young ↦ rw young (copy_frame-CopyOk tx b o k idle (λ p. ground arith))
      ])

  -- With no frame pending, `tx_copy_next` keeps the byte balance; it either makes one frame
  -- of the history at or behind the cursor the current one, whole, at offset 0, no older than
  -- `stale` if that is positive, and restarts the progress clock; or it finds the ring used up.
  pub copy_next-CopyOk :
      (tx : Tx)
      → IsBalanced tx h
      → tx.current_len ≤ tx.current_off
      → CopyOk tx h now stale (copy_next tx r now stale)
  unfolding copy_next
  copy_next-CopyOk tx b idle =
      let u = catch_up tx r in
      let bu = catch_up-IsBalanced tx r h v b in
      let lu : u.current_len ≡ tx.current_len = unfold catch_up in ground arith in
      let fu : u.current_off ≡ tx.current_off = unfold catch_up in ground arith in
      let xu : u.current ≡ tx.current = unfold catch_up in ground arith in
      let up : tx.cursor_seq ≤ u.cursor_seq = unfold catch_up in ground arith in
      CopyOk-weaken tx u h now stale (copy_loop (r.next_seq - u.cursor_seq) u r now stale) up lu fu
        xu
        (copy_loop-CopyOk (r.next_seq - u.cursor_seq) u bu (catch_up-resident tx r)
          (omega (arith, bu.behind, v.next)) (omega arith))
