-- ===== src/Parser/Rounds.antt =====
-- The outer loop of `rtcm_parser_feed`, round by round: hunting in the input and block copies
-- toward the next decision point change nothing but the speed.
use mathlib.Core.List.{List, [], ◌∷◌}
use rtkdata_fw.Base.{ℕ, zero, suc, ◌+◌, ◌≤◌}
use rtkdata_fw.Base.{◌≡◌, refl, ap, sym, ◌∙◌, ◌⊎◌, inl, inr, true, false, arith, Bool-cases}
use rtkdata_fw.Base.{◌==◌, u64, length, All, IsByte}
use rtkdata_fw.Parser.{Parser, preamble, feed_byte, feed_bytes}
use rtkdata_fw.Parser.{top_up, hunt_in_input, feed_round, feed_loop, feed}
use rtkdata_fw.Parser.Settle.{IsSettled}
use rtkdata_fw.Parser.Bytewise.{empty-IsSettled, start-IsSettled}
use rtkdata_fw.Parser.TopUp.{RoundOk, top_up-RoundOk}

module _ {S : Type 0} (cb : List ℕ → ℕ → S → S) (now : ℕ) where
  pub feed_bytes-skip :
      (p : Parser) (x : ℕ) (xs : List ℕ) (s : S)
      → length p.buf ≡ 0
      → (x == preamble) ≡ false
      → feed_bytes cb now p (x ∷ xs) s
        ≡ feed_bytes cb now (record p { bytes_discarded = u64 (p.bytes_discarded + 1) }) xs s
  unfolding feed_bytes feed_byte
  feed_bytes-skip p x xs s e miss =
      let out : (length p.buf == 0) ≡ true = ground arith in rw out (rw miss refl)

  pub feed_bytes-start :
      (p : Parser) (x : ℕ) (xs : List ℕ) (s : S)
      → length p.buf ≡ 0
      → x ≡ preamble
      → feed_bytes cb now p (x ∷ xs) s ≡ feed_bytes cb now (record p { buf = preamble ∷ [] }) xs s
  unfolding feed_bytes feed_byte
  feed_bytes-start p x xs s e is =
      let out : (length p.buf == 0) ≡ true = ground arith in
      let hit : (x == preamble) ≡ true = ground arith in rw out (rw hit refl)

  -- The hunt in the input is the reference out of a frame.
  hunt_in_input-bytes :
      (p : Parser) (input : List ℕ) (s : S)
      → IsSettled p
      → length p.buf ≡ 0
      → All IsByte input
      → let (q, rest) = hunt_in_input p input in
        IsSettled q
        × (length q.buf ≡ 0)
        × All IsByte rest
        × (length rest ≤ length input)
        × (feed_bytes cb now p input s ≡ feed_bytes cb now q rest s)
        × ((rest ≡ []) ⊎ ((xs : List ℕ) × (rest ≡ preamble ∷ xs)))
  unfolding hunt_in_input
  hunt_in_input-bytes p [] s v e b = (v, e, tt, omega arith, refl, inl refl)
  hunt_in_input-bytes p (x ∷ xs) s v e b = elim (Bool-cases (x == preamble)) [
    | inl hit ↦
        let is : x ≡ preamble = ground arith in
        rw hit (v, e, b, omega arith, refl, inr (xs, ap (λ y. y ∷ xs) is))
    | inr miss ↦
        let q : Parser = record p { bytes_discarded = u64 (p.bytes_discarded + 1) } in
        let ih =
          hunt_in_input-bytes q xs s (empty-IsSettled p (u64 (p.bytes_discarded + 1)) v e) e b.1 in
        rw miss
          (ih.0, ih.1, ih.2, omega (arith, ih.3), feed_bytes-skip p x xs s e miss ∙ ih.4, ih.5)
  ]

  feed_round-RoundOk :
      (p : Parser) (x : ℕ) (xs : List ℕ) (s : S)
      → IsSettled p
      → All IsByte (x ∷ xs)
      → RoundOk cb now p (x ∷ xs) s (feed_round cb now p (x ∷ xs) s)
  unfolding feed_round
  feed_round-RoundOk p x xs s v b = elim (Bool-cases (length p.buf == 0)) [
    | inl out ↦
        let h = hunt_in_input p (x ∷ xs) in
        rw out (go h.0 h.1 (hunt_in_input-bytes p (x ∷ xs) s v (ground arith) b))
    | inr held ↦ rw held (top_up-RoundOk cb now p (x ∷ xs) s v b (ground arith))
  ]
    where
      go :
          (q : Parser) (rest : List ℕ)
          → (IsSettled q
              × (length q.buf ≡ 0)
              × All IsByte rest
              × (length rest ≤ suc (length xs))
              × (feed_bytes cb now p (x ∷ xs) s ≡ feed_bytes cb now q rest s)
              × ((rest ≡ []) ⊎ ((ys : List ℕ) × (rest ≡ preamble ∷ ys))))
          → RoundOk cb now p (x ∷ xs) s (elim rest as (λ _. Parser × S × List ℕ) [
            | [] ↦ (q, s, [])
            | y ∷ ys ↦ top_up cb now (record q { buf = preamble ∷ [] }) ys s
          ])
      go q [] h = record { settled = h.0; bytes = tt; shorter = omega arith; same = h.4 }
      go q (y ∷ ys) h =
          let t = start-IsSettled q h.0 h.1 in
          let r =
            top_up-RoundOk cb now (record q { buf = preamble ∷ [] }) ys s t h.2.1 (omega arith) in
          record {
            settled = r.settled;
            bytes = r.bytes;
            shorter = omega (arith, r.shorter, h.3);
            same = h.4 ∙ feed_bytes-start q y ys s h.1 (first h.5) ∙ r.same;
          }
        where
          first : (y ∷ ys ≡ []) ⊎ ((zs : List ℕ) × (y ∷ ys ≡ preamble ∷ zs)) → y ≡ preamble
          first (inl e) = cc
          first (inr (zs, e)) = cc

  feed_loop-bytes :
      (f : ℕ) (p : Parser) (input : List ℕ) (s : S)
      → length input ≤ f
      → IsSettled p
      → All IsByte input
      → feed_loop cb now f p input s ≡ feed_bytes cb now p input s
  unfolding feed_loop
  feed_loop-bytes zero p [] s h v b = unfold feed_bytes in refl
  feed_loop-bytes zero p (x ∷ xs) s h v b = absurd (omega arith)
  feed_loop-bytes (suc f) p [] s h v b = unfold feed_bytes in refl
  feed_loop-bytes (suc f) p (x ∷ xs) s h v b =
      let r = feed_round-RoundOk p x xs s v b in
      let (q, t, rest) = feed_round cb now p (x ∷ xs) s in
      feed_loop-bytes f q rest t (omega (arith, r.shorter)) r.settled r.bytes ∙ sym r.same

  -- From any state that the parser can be in, feeding a chunk of any size leaves the same state
  -- and makes the same callbacks as feeding its bytes one at a time.
  pub feed-eq-feed_bytes :
      (p : Parser) (input : List ℕ) (s : S)
      → IsSettled p
      → All IsByte input
      → feed cb now p input s ≡ feed_bytes cb now p input s
  unfolding feed
  feed-eq-feed_bytes p input s v b = feed_loop-bytes (length input) p input s (omega arith) v b
