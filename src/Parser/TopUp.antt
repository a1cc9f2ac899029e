-- ===== src/Parser/TopUp.antt =====
-- The block copy of `rtcm_parser_feed` toward the next decision point is the byte-at-a-time
-- reference over the bytes that it copies.
use mathlib.Core.List.{List, [], ◌∷◌, ◌++◌, append-nil, append_assoc}
use rtkdata_fw.Base.{ℕ, suc, ◌+◌, ◌-◌, ◌≤◌, ◌<◌, min}
use rtkdata_fw.Base.{◌≡◌, ◌≢◌, refl, ap, sym, ◌∙◌, ◌⊎◌, inl, inr, false, arith, Bool-cases}
use rtkdata_fw.Base.{if◌then◌else◌, ltb, ◌==◌, length, take, drop, All, IsByte, sub32}
use rtkdata_fw.Base.{length-append, length-take, length-drop, All-take, All-drop}
use rtkdata_fw.Parser.{Parser, target, process, feed_byte, feed_bytes}
use rtkdata_fw.Parser.{top_up}
use rtkdata_fw.Parser.Settle.{IsSettled}
use rtkdata_fw.Parser.Process.{process-Processed}
use rtkdata_fw.Parser.Bytewise.{target_bounds, push_byte-IsSettled, push-IsSettled, grown-IsReady}

-- How many bytes of `n` are copied toward the decision point.
abbrev pub room : Parser → ℕ → ℕ
room p n = min (target p - length p.buf) n

module _ {S : Type 0} (cb : List ℕ → ℕ → S → S) (now : ℕ) where
  -- Append `front`, judge the buffer if it has reached `goal`, and leave `back`.
  abbrev pub finish : ℕ → Parser → List ℕ → List ℕ → S → Parser × S × List ℕ
  finish goal p front back s =
      let q : Parser = record p { buf = p.buf ++ front } in
      if length q.buf == goal
      then (let (r, t) = process cb now q s in (r, t, back))
      else (q, s, back)

  top_up-finish :
      (p : Parser) (input : List ℕ) (s : S)
      → IsSettled p
      → top_up cb now p input s
        ≡ finish
            (target p)
            p
            (take (room p (length input)) input)
            (drop (room p (length input)) input)
            s
  unfolding top_up
  top_up-finish p input s v =
      let n =
        if ltb (sub32 (target p) (length p.buf)) (length input)
        then sub32 (target p) (length p.buf)
        else length input in
      let e : n ≡ room p (length input) = ground (arith, target_bounds v) in
      ap (λ k. finish (target p) p (take k input) (drop k input) s) e

  -- One byte more of the input, before the decision point.
  room-suc :
      (p : Parser) (x n : ℕ)
      → suc (length p.buf) < target p
      → IsSettled p
      → room p (suc n) ≡ suc (room (record p { buf = p.buf ++ (x ∷ []) }) n)
  room-suc p x n h v = ground (arith, length-append p.buf (x ∷ []), target_bounds v)

  target-push :
      (p : Parser) (x : ℕ)
      → IsSettled p
      → suc (length p.buf) < target p
      → target (record p { buf = p.buf ++ (x ∷ []) }) ≡ target p
  target-push p x v h = ground (arith, length-append p.buf (x ∷ []), v.short)

  abbrev pub resume : Parser × S × List ℕ → Parser × S
  resume r = feed_bytes cb now r.0 r.2 r.1

  finish-push :
      (p : Parser) (x : ℕ) (xs : List ℕ) (s : S)
      → IsSettled p
      → suc (length p.buf) < target p
      → let q : Parser = record p { buf = p.buf ++ (x ∷ []) } in
        finish
          (target p)
          p
          (take (room p (suc (length xs))) (x ∷ xs))
          (drop (room p (suc (length xs))) (x ∷ xs))
          s
        ≡ finish (target q) q (take (room q (length xs)) xs) (drop (room q (length xs)) xs) s
  finish-push p x xs s v h =
      let q : Parser = record p { buf = p.buf ++ (x ∷ []) } in
      let n = room q (length xs) in
      ap (λ k. finish (target p) p (take k (x ∷ xs)) (drop k (x ∷ xs)) s)
        (room-suc p x (length xs) h v)
      ∙ ap
          (λ l.
            if length l == target p
            then (let (r, t) = process cb now (record p { buf = l }) s in (r, t, drop n xs))
            else (record p { buf = l }, s, drop n xs))
          (sym (append_assoc p.buf (x ∷ []) (take n xs)))
      ∙ ap (λ g. finish g q (take n xs) (drop n xs) s) (sym (target-push p x v h))

  -- Copying toward the decision point is feeding the same bytes one by one.
  pub finish-bytes :
      (p : Parser) (input : List ℕ) (s : S)
      → IsSettled p
      → All IsByte input
      → length p.buf ≢ 0
      → feed_bytes cb now p input s
        ≡ resume (
            finish
              (target p)
              p
              (take (room p (length input)) input)
              (drop (room p (length input)) input)
              s)
  unfolding feed_bytes feed_byte
  finish-bytes p [] s v b n =
      let z : room p 0 ≡ 0 = omega arith in
      let short : (length (p.buf ++ []) == target p) ≡ false =
        ground (arith, length-append p.buf [], target_bounds v) in
      rw z (rw short (ap (λ l. (record p { buf = l }, s)) (sym (append-nil p.buf))))
  finish-bytes p (x ∷ xs) s v b n =
      let held : (length p.buf == 0) ≡ false = ground arith in
      let grown : length (p.buf ++ (x ∷ [])) ≡ length p.buf + 1 = length-append p.buf (x ∷ []) in
      elim (Bool-cases (length (p.buf ++ (x ∷ [])) == target p)) [
        | inl due ↦
            let one : room p (suc (length xs)) ≡ 1 = ground arith in rw (held, one) (rw due refl)
        | inr early ↦
            let h : suc (length p.buf) < target p = ground (arith, target_bounds v) in
            rw held (
              rw early (
                finish-bytes (record p { buf = p.buf ++ (x ∷ []) }) xs s
                  (push_byte-IsSettled p x v b.0 n h) b.1 (omega arith)
                ∙ ap resume (sym (finish-push p x xs s v h))))
      ]

  -- What a round of the outer loop promises, when it starts with `input`.
  pub record RoundOk (p : Parser) (input : List ℕ) (s : S) (r : Parser × S × List ℕ) : Type 0 where
    pub settled : IsSettled r.0
    pub bytes : All IsByte r.2
    pub shorter : length r.2 ≤ length input - 1
    pub same : feed_bytes cb now p input s ≡ resume r

  finish-IsSettled :
      (p : Parser) (front back : List ℕ) (s : S)
      → IsSettled p
      → All IsByte front
      → length p.buf ≢ 0
      → length p.buf + length front < target p ⊎ length p.buf + length front ≡ target p
      → IsSettled (finish (target p) p front back s).0
        × ((finish (target p) p front back s).2 ≡ back)
  finish-IsSettled p front back s v b n within =
      let q : Parser = record p { buf = p.buf ++ front } in
      let grown : length (p.buf ++ front) ≡ length p.buf + length front =
        length-append p.buf front in
      elim (Bool-cases (length (p.buf ++ front) == target p)) [
        | inl due ↦
            rw due ((process-Processed cb now q s (grown-IsReady p front v b n)).settled, refl)
        | inr early ↦ rw early (push-IsSettled p front v b n (ground arith), refl)
      ]

  pub top_up-RoundOk :
      (p : Parser) (input : List ℕ) (s : S)
      → IsSettled p
      → All IsByte input
      → length p.buf ≢ 0
      → RoundOk p input s (top_up cb now p input s)
  top_up-RoundOk p input s v b n =
      let k = room p (length input) in
      let f =
        finish-IsSettled p (take k input) (drop k input) s v (All-take IsByte k input b) n
          (ground (arith, length-take k input, target_bounds v)) in
      rw (top_up-finish p input s v) (record {
        settled = f.0;
        bytes = rw f.1 (All-drop IsByte k input b);
        shorter = rw f.1 (ground (arith, length-drop k input, target_bounds v));
        same = finish-bytes p input s v b n;
      })
