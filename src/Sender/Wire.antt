-- ===== src/Sender/Wire.antt =====
-- What a connection's byte stream may be: whole frames of the history, in order and none twice,
-- the last of them possibly still under way.
use mathlib.Core.List.{List, [], ◌∷◌, ◌++◌, append-nil, append_assoc}
use rtkdata_fw.Base.{ℕ, ◌+◌, ◌-◌, ◌≤◌, ◌<◌, ◌≡◌, refl, ap, sym, ◌∙◌}
use rtkdata_fw.Base.{inl, inr, arith, ◌==◌, u16}
use rtkdata_fw.Base.{length, take, drop, Bool-cases, length-take, length-drop}
use rtkdata_fw.Base.{take-append-drop, take_length, drop_length, drop-drop}
use rtkdata_fw.Ring.History.{History, entry}
use rtkdata_fw.Sender.{Tx, pending, advance, give_up}
use rtkdata_fw.Sender.Balance.{IsBalanced}
use rtkdata_fw.Sender.Copy.{Copied, Exhausted}

-- Sequence numbers, newest first, all below the cursor and strictly falling.
abbrev pub Ordered : ℕ → List ℕ → Type 0
Ordered c [] = Unit
Ordered c (i ∷ is) = (i < c) × Ordered i is

-- The bytes of these frames, oldest first.
abbrev pub carried : History → List ℕ → List ℕ
carried h [] = []
carried h (i ∷ is) = carried h is ++ (entry h i).frame

pub Ordered-mono : (c d : ℕ) (is : List ℕ) → c ≤ d → Ordered c is → Ordered d is
Ordered-mono c d [] h o = o
Ordered-mono c d (i ∷ is) h o = (omega (arith, o.0), o.1)

-- What was sent on this connection and what is pending make up the frames `is`.
pub record OnWire (h : History) (tx : Tx) (sent : List ℕ) (is : List ℕ) : Type 0 where
  pub order : Ordered tx.cursor_seq is
  pub stream : sent ++ pending tx ≡ carried h is

pub length-pending :
    (tx : Tx) {h : History}
    → IsBalanced tx h
    → length (pending tx) ≡ tx.current_len - tx.current_off
length-pending tx b = omega (
  arith,
  length-drop tx.current_off (take tx.current_len tx.current),
  length-take tx.current_len tx.current,
  b.len_le,
)

pub pending-idle : (tx : Tx) → tx.current_len ≤ tx.current_off → pending tx ≡ []
pending-idle tx k =
    drop_length tx.current_off (take tx.current_len tx.current)
      (omega (arith, length-take tx.current_len tx.current))

pub OnWire-Copied :
    (h : History) (tx t : Tx) (now stale : ℕ) (sent is : List ℕ)
    → tx.current_len ≤ tx.current_off
    → Copied tx t h now stale
    → OnWire h tx sent is
    → (k : ℕ) × OnWire h t sent (k ∷ is)
OnWire-Copied h tx t now stale sent is idle c w =
    let f = (entry h c.seq).frame in
    let whole : pending t ≡ f =
      ap (λ (k : ℕ). drop k (take t.current_len t.current)) c.off
      ∙ ap (λ (k : ℕ). take k t.current) c.len
      ∙ ap (take (length f)) c.whole
      ∙ take_length (length f) f (omega arith) in
    (
      c.seq,
      record {
        order = (omega (arith, c.cursor), Ordered-mono tx.cursor_seq c.seq is c.after w.order);
        stream =
            ap (λ (l : List ℕ). sent ++ l) whole
            ∙ ap (λ (l : List ℕ). l ++ f)
                (sym (append-nil sent)
                  ∙ ap (λ (l : List ℕ). sent ++ l) (sym (pending-idle tx idle))
                  ∙ w.stream);
      },
    )

pub OnWire-Exhausted :
    (h : History) (tx t : Tx) (sent is : List ℕ)
    → tx.cursor_seq ≤ length h
    → Exhausted tx t h
    → OnWire h tx sent is
    → OnWire h t sent is
OnWire-Exhausted h tx t sent is le x w = record {
  order = Ordered-mono tx.cursor_seq t.cursor_seq is (omega (arith, x.cursor)) w.order;
  stream =
      ap (λ (l : List ℕ). sent ++ l)
        (ap (λ (k : ℕ). drop k (take t.current_len t.current)) x.off
          ∙ ap (λ (k : ℕ). drop tx.current_off (take k t.current)) x.len
          ∙ ap (λ (l : List ℕ). drop tx.current_off (take tx.current_len l)) x.current)
      ∙ w.stream;
}

pending-advance :
    (tx : Tx) (h : History) (n now : ℕ)
    → IsBalanced tx h
    → n ≤ tx.current_len - tx.current_off
    → pending (advance tx n now) ≡ drop n (pending tx)
unfolding advance
pending-advance tx h n now b k =
    let cur = take tx.current_len tx.current in
    let sum : u16 (tx.current_off + u16 n) ≡ tx.current_off + n =
      omega (arith, b.off_le, b.len_small) in
    elim (Bool-cases (u16 (tx.current_off + u16 n) == tx.current_len)) [
      | inl done ↦ rw done (sym (drop_length n (pending tx) (ground (arith, length-pending tx b))))
      | inr more ↦ rw more (ap (λ (j : ℕ). drop j cur) sum ∙ sym (drop-drop tx.current_off n cur))
    ]

pub OnWire-advance :
    (h : History) (tx : Tx) (n now : ℕ) (sent sent' is : List ℕ)
    → IsBalanced tx h
    → n ≤ tx.current_len - tx.current_off
    → sent' ≡ sent ++ take n (pending tx)
    → OnWire h tx sent is
    → OnWire h (advance tx n now) sent' is
OnWire-advance h tx n now sent sent' is b k e w = record {
  order = unfold advance in w.order;
  stream =
      ap (λ (l : List ℕ). l ++ pending (advance tx n now)) e
      ∙ ap (λ (l : List ℕ). (sent ++ take n (pending tx)) ++ l) (pending-advance tx h n now b k)
      ∙ append_assoc sent (take n (pending tx)) (drop n (pending tx))
      ∙ ap (λ (l : List ℕ). sent ++ l) (take-append-drop n (pending tx))
      ∙ w.stream;
}

pub cursor-give_up : (tx : Tx) (e : ℕ) → (give_up tx e).cursor_seq ≡ tx.cursor_seq
unfolding give_up
cursor-give_up tx e = refl
