-- ===== src/Ring/History.antt =====
-- What the ring is a window on: the list of all frames ever pushed. A ring that holds a history
-- has its last sixteen entries in its slots, each with the byte count up to and with it.
use mathlib.Core.List.{List, [], ◌∷◌, ◌++◌}
use rtkdata_fw.Base.{ℕ, zero, suc, ◌+◌, ◌%◌, ◌^◌, ◌≤◌, ◌<◌, ◌≡◌, refl, ap, sym, ◌∙◌}
use rtkdata_fw.Base.{◌⊎◌, inl, inr, arith, if◌then◌else◌, ltb, ◌==◌, u64, ◌||◌, true, false}
use rtkdata_fw.Base.{length, get_or, take, length-append, get_or-append_left, get_or-append_end}
use rtkdata_fw.Base.{take-append_left, take_length, Bool-cases}
use rtkdata_fw.Ring.{Slot, Ring, ring_init, ring_slots, push}

pub record Entry : Type 0 where
  pub frame : List ℕ
  pub at : ℕ

abbrev pub nothing : Entry
nothing = record { frame = []; at = 0 }

abbrev pub History : Type 0
History = List Entry

unfoldable pub total : History → ℕ
total [] = 0
total (e ∷ es) = length e.frame + total es

pub total-append : (xs ys : History) → total (xs ++ ys) ≡ total xs + total ys
unfolding total
total-append [] ys = omega arith
total-append (x ∷ xs) ys = omega (arith, total-append xs ys)

-- The bytes of the first `n` frames.
abbrev pub through : History → ℕ → ℕ
through h n = total (take n h)

abbrev pub entry : History → ℕ → Entry
entry h s = get_or h s nothing

pub through-suc :
    (h : History) (n : ℕ)
    → n < length h
    → through h (suc n) ≡ through h n + length (entry h n).frame
unfolding total
through-suc [] n k = absurd (omega arith)
through-suc (e ∷ es) zero k = omega arith
through-suc (e ∷ es) (suc n) k = omega (arith, through-suc es n (omega arith))

pub through-le : (h : History) (m n : ℕ) → m ≤ n → through h m ≤ through h n
unfolding total
through-le h zero n k = omega arith
through-le h (suc m) zero k = absurd (omega arith)
through-le [] (suc m) (suc n) k = omega arith
through-le (e ∷ es) (suc m) (suc n) k = omega (arith, through-le es m n (omega arith))

pub through-length : (h : History) → through h (length h) ≡ total h
through-length h = ap total (take_length (length h) h (omega arith))

pub through-le-total : (h : History) (n : ℕ) → n ≤ length h → through h n ≤ total h
through-le-total h n k = omega (arith, through-le h n (length h) k, through-length h)

-- The slot of the frame with sequence number `s`.
abbrev pub slot_of : History → ℕ → Slot
slot_of h s = record {
  seq = s;
  received_ms = (entry h s).at;
  len = length (entry h s).frame;
  cum_bytes = through h (suc s);
  frame = (entry h s).frame;
}

abbrev IsPushable : List ℕ → Type 0
IsPushable f = (6 ≤ length f) × (length f ≤ 1029)

pub record Holds (r : Ring) (h : History) : Type 0 where
  pub next : r.next_seq ≡ length h
  pub cum : r.cum_bytes ≡ total h
  pub pushed : r.pushed_frames ≡ length h
  pub resident :
      (s : ℕ) → s < length h → length h ≤ s + ring_slots → r.slot (s % ring_slots) ≡ slot_of h s
  -- The counters have not wrapped, and every frame passed the length check.
  pub seq_fits : length h < 2 ^ 32
  pub bytes_fit : total h < 2 ^ 64
  pub sizes : (s : ℕ) → s < length h → IsPushable (entry h s).frame

pub ring_init-Holds : Holds ring_init []
unfolding total
ring_init-Holds = record {
  next = refl;
  cum = refl;
  pushed = refl;
  resident = λ s k l. absurd (omega arith);
  seq_fits = omega arith;
  bytes_fit = omega arith;
  sizes = λ s k. absurd (omega arith);
}

slot_of-append :
    (h : History) (e : Entry) (s : ℕ) → s < length h → slot_of (h ++ (e ∷ [])) s ≡ slot_of h s
slot_of-append h e s k =
    ap
      (λ (x : Entry). record {
        seq = s;
        received_ms = x.at;
        len = length x.frame;
        cum_bytes = through (h ++ (e ∷ [])) (suc s);
        frame = x.frame;
      })
      (get_or-append_left h (e ∷ []) s nothing k)
    ∙ ap (λ c. record (slot_of h s) { cum_bytes = c })
        (ap total (take-append_left (suc s) h (e ∷ []) (omega arith)))

-- Two resident numbers share a slot only if they are one.
apart : (n s : ℕ) → s < n → n < s + 16 → (s % 16 == n % 16) ≡ false
apart n s k l = ground arith

module _ {r : Ring} {h : History} (v : Holds r h) (f : List ℕ) (now : ℕ)
    (seq_room : length h + 1 < 2 ^ 32) (byte_room : total h + length f < 2 ^ 64) where
  abbrev h' : History
  h' = h ++ (record { frame = f; at = now } ∷ [])

  push-accepts : IsPushable f → (ltb (length f) 6 || ltb 1029 (length f)) ≡ false
  push-accepts p = ground arith

  grown : length h' ≡ length h + 1
  grown = length-append h (record { frame = f; at = now } ∷ [])

  heavier : total h' ≡ total h + length f
  unfolding total
  heavier = omega (arith, total-append h (record { frame = f; at = now } ∷ []))

  entry_new : entry h' (length h) ≡ record { frame = f; at = now }
  entry_new = get_or-append_end h (record { frame = f; at = now }) nothing

  through_new : through h' (suc (length h)) ≡ total h + length f
  through_new = ap total (take_length (suc (length h)) h' (omega (arith, grown))) ∙ heavier

  slot_new :
      (c : ℕ)
      → c ≡ total h + length f
      → (let n : Slot = record {
        seq = r.next_seq;
        received_ms = now;
        len = length f;
        cum_bytes = c;
        frame = f;
      } in
          n)
        ≡ slot_of h' (length h)
  slot_new c e =
      ap
        (λ (s : ℕ). record { seq = s; received_ms = now; len = length f; cum_bytes = c; frame = f })
        v.next
      ∙ ap
          (λ (k : ℕ). record {
            seq = length h;
            received_ms = now;
            len = length f;
            cum_bytes = k;
            frame = f;
          })
          (e ∙ sym through_new)
      ∙ ap
          (λ (x : Entry). record {
            seq = length h;
            received_ms = x.at;
            len = length x.frame;
            cum_bytes = through h' (suc (length h));
            frame = x.frame;
          })
          (sym entry_new)

  resident_after :
      (s : ℕ)
      → s < length h'
      → length h' ≤ s + ring_slots
      → (if s % ring_slots == r.next_seq % ring_slots
          then record {
            seq = r.next_seq;
            received_ms = now;
            len = length f;
            cum_bytes = u64 (r.cum_bytes + length f);
            frame = f;
          }
          else r.slot (s % ring_slots))
        ≡ slot_of h' s
  resident_after s k l = elim (Bool-cases (ltb s (length h))) [
    | inl old ↦
        let lt : s < length h = ground arith in
        let test : (s % ring_slots == r.next_seq % ring_slots) ≡ false =
          ap (λ n. s % ring_slots == n % ring_slots) v.next
          ∙ apart (length h) s lt (omega (arith, grown)) in
        rw test (
          v.resident s lt (omega (arith, grown))
          ∙ sym (slot_of-append h (record { frame = f; at = now }) s lt))
    | inr new ↦
        let e : s ≡ length h = ground (arith, grown) in
        let test : (s % ring_slots == r.next_seq % ring_slots) ≡ true = ground (arith, v.next) in
        rw test
          (slot_new (u64 (r.cum_bytes + length f)) (omega (arith, v.cum)) ∙ ap (slot_of h') (sym e))
  ]

  sizes_after : IsPushable f → (s : ℕ) → s < length h' → IsPushable (entry h' s).frame
  sizes_after p s k = elim (Bool-cases (ltb s (length h))) [
    | inl old ↦
        let same =
          get_or-append_left h (record { frame = f; at = now } ∷ []) s nothing (ground arith) in
        rw same (v.sizes s (ground arith))
    | inr new ↦ let e : s ≡ length h = ground (arith, grown) in rw e (rw entry_new p)
  ]

  -- If the counters do not wrap, a push that the length check accepts appends the frame to the
  -- history that the ring holds: the counters are its totals, and the resident slots its latest
  -- entries, each with its frame.
  pub push-Holds : IsPushable f → Holds (push r f now) h'
  unfolding push
  push-Holds p = rw (push-accepts p) (record {
    next = omega (arith, v.next, grown);
    cum = omega (arith, v.cum, heavier);
    pushed = omega (arith, v.pushed, grown);
    resident = λ s k l. resident_after s k l;
    seq_fits = omega (arith, grown);
    bytes_fit = omega (arith, heavier);
    sizes = λ s k. sizes_after p s k;
  })

-- A frame of a length that RTCM3 does not have leaves the ring as it was.
pub push_refused :
    (r : Ring) (f : List ℕ) (now : ℕ) → (length f < 6) ⊎ (1029 < length f) → push r f now ≡ r
unfolding push
push_refused r f now h = ground arith
