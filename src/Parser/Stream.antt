-- ===== src/Parser/Stream.antt =====
-- Completeness of the parser: a frame fed to an idle parser reaches the callback, once and
-- whole.
use mathlib.Core.Path.{subst}
use mathlib.Core.List.{List, [], ◌∷◌, ◌++◌}
use rtkdata_fw.Base.{ℕ, suc, ◌+◌, ◌-◌, ◌*◌, ◌/◌, ◌%◌, ◌≤◌, ◌<◌, bit_and}
use rtkdata_fw.Base.{◌≡◌, ◌≢◌, refl, ap, sym, ◌∙◌, true, false, arith}
use rtkdata_fw.Base.{ltb, ◌==◌, u64, length, get_or, take, drop, All, IsByte}
use rtkdata_fw.Base.{take_length, drop_length, length-append}
use rtkdata_fw.Crc.{rtcm_crc24q}
use rtkdata_fw.Parser.{Parser, preamble, frame_need, carried_crc, target, consume}
use rtkdata_fw.Parser.{Pass, stop, again, process_pass, process_loop, process}
use rtkdata_fw.Parser.{feed_bytes}
use rtkdata_fw.Parser.Settle.{IsSettled, frame_need_lem}
use rtkdata_fw.Parser.Frame.{frame, frame_body, crc_bytes, IsPayload, length-frame, frame-IsByte}
use rtkdata_fw.Parser.Frame.{frame-Recognised, reserved_lem}
use rtkdata_fw.Parser.Bytewise.{feed_bytes-append, feed_bytes-ByteOk, start-IsSettled}
use rtkdata_fw.Parser.TopUp.{room, finish, finish-bytes, resume}
use rtkdata_fw.Parser.Rounds.{feed_bytes-start}

-- Between frames: nothing is buffered.
pub record IsIdle (p : Parser) : Type 0 where
  pub empty : p.buf ≡ []
  pub cleared : p.need ≡ 0

pub IsIdle-IsSettled : (p : Parser) → IsIdle p → IsSettled p
IsIdle-IsSettled p i = record {
  head = rw i.empty tt;
  bytes = rw i.empty tt;
  short = λ _. i.cleared;
  long = λ h. absurd (omega (arith, ap (length {A = ℕ}) i.empty));
}

-- The parser when it has taken a frame of `n` bytes.
abbrev pub took : ℕ → Parser → Parser
took n p = record p { frames_ok = u64 (p.frames_ok + 1); bytes_ok = u64 (p.bytes_ok + n) }

module _ {S : Type 0} (cb : List ℕ → ℕ → S → S) (now : ℕ) where
  pass-short :
      (p : Parser) (s : S)
      → length p.buf < 3
      → process_pass cb now p s ≡ stop (record p { need = 0 }) s
  unfolding process_pass
  pass-short p s h = let t : ltb (length p.buf) 3 ≡ true = ground arith in rw t refl

  pass-wait :
      (p : Parser) (s : S)
      → 3 ≤ length p.buf
      → (bit_and (get_or p.buf 1 0) 0xFC == 0) ≡ true
      → length p.buf < frame_need p.buf
      → process_pass cb now p s ≡ stop (record p { need = frame_need p.buf }) s
  unfolding process_pass
  pass-wait p s many good h =
      let t3 : ltb (length p.buf) 3 ≡ false = ground arith in
      let tn : ltb (length p.buf) (frame_need p.buf) ≡ true = ground arith in
      rw t3 (rw good (rw tn refl))

  pass-take :
      (p : Parser) (s : S)
      → 3 ≤ length p.buf
      → (bit_and (get_or p.buf 1 0) 0xFC == 0) ≡ true
      → frame_need p.buf ≤ length p.buf
      → (rtcm_crc24q (take (frame_need p.buf - 3) p.buf) == carried_crc p.buf (frame_need p.buf))
        ≡ true
      → process_pass cb now p s
        ≡ again (consume p (frame_need p.buf)) (cb (take (frame_need p.buf) p.buf) now s)
  unfolding process_pass
  pass-take p s many good h crc =
      let t3 : ltb (length p.buf) 3 ≡ false = ground arith in
      let tn : ltb (length p.buf) (frame_need p.buf) ≡ false = ground arith in
      rw t3 (rw good (rw tn (rw crc refl)))

  abbrev after : ℕ → Pass S → Parser × S
  after f pass = elim pass as (λ _. Parser × S) [
    | stop q t ↦ (q, t)
    | again q t ↦ process_loop cb now f q t
  ]

  loop_step :
      (f : ℕ) (p : Parser) (s : S) (pass : Pass S)
      → process_pass cb now p s ≡ pass
      → process_loop cb now (suc f) p s ≡ after f pass
  unfolding process_loop
  loop_step f p s pass e = ap (after f) e

  -- With only the header in the buffer the pass learns the length and waits.
  process-header :
      (p : Parser) (h l : ℕ) (s : S)
      → h < 4
      → l < 256
      → p.buf ≡ preamble ∷ h ∷ l ∷ []
      → process cb now p s ≡ (record p { need = h * 256 + l + 6 }, s)
  unfolding process
  process-header p h l s hh hl e =
      let n3 : length p.buf ≡ 3 = ap length e in
      let g1 : get_or p.buf 1 0 ≡ h = ap (λ (b : List ℕ). get_or b 1 0) e in
      let g2 : get_or p.buf 2 0 ≡ l = ap (λ (b : List ℕ). get_or b 2 0) e in
      let need : frame_need p.buf ≡ h * 256 + l + 6 =
        omega (arith, frame_need_lem p.buf (rw e (omega arith, (omega arith, (hl, tt))))) in
      let good : (bit_and (get_or p.buf 1 0) 0xFC == 0) ≡ true =
        ap (λ x. bit_and x 0xFC == 0) g1 ∙ reserved_lem h (omega arith) ∙ ground arith in
      loop_step (length p.buf) p s (stop (record p { need = frame_need p.buf }) s)
        (pass-wait p s (omega arith) good (omega arith))
      ∙ ap (λ k. (record p { need = k }, s)) need

  -- With exactly a frame in the buffer nothing is left to resynchronise.
  consume-all :
      (p : Parser) (n : ℕ)
      → length p.buf ≡ n
      → consume p n ≡ record (took n p) { buf = []; need = 0 }
  unfolding consume
  consume-all p n e =
      let gone : drop n p.buf ≡ [] = drop_length n p.buf (omega arith) in rw gone refl

  -- With a whole frame in the buffer the pass hands it on, and the next one stops.
  process-frame :
      (p : Parser) (payload : List ℕ) (s : S)
      → IsPayload payload
      → p.buf ≡ frame payload
      → process cb now p s
        ≡ (record (took (length payload + 6) p) { buf = []; need = 0 }, cb (frame payload) now s)
  unfolding process
  process-frame p payload s v e =
      let r = frame-Recognised payload v in
      let len : length p.buf ≡ length payload + 6 = ap (length {A = ℕ}) e ∙ length-frame payload in
      let need : frame_need p.buf ≡ length payload + 6 = ap frame_need e ∙ r.announced in
      let whole : take (frame_need p.buf) p.buf ≡ frame payload =
        take_length (frame_need p.buf) p.buf (omega arith) ∙ e in
      let good : (bit_and (get_or p.buf 1 0) 0xFC == 0) ≡ true =
        ap (λ (b : List ℕ). bit_and (get_or b 1 0) 0xFC == 0) e ∙ r.reserved in
      let crc : (rtcm_crc24q (take (frame_need p.buf - 3) p.buf)
            == carried_crc p.buf (frame_need p.buf))
          ≡ true =
        ap (λ k. rtcm_crc24q (take (k - 3) p.buf) == carried_crc p.buf k) need
        ∙ ap
            (λ b.
              rtcm_crc24q (take (length payload + 6 - 3) b) == carried_crc b (length payload + 6))
            e
        ∙ r.checked in
      let done : Parser = record (took (length payload + 6) p) { buf = []; need = 0 } in
      let pred : length p.buf ≡ suc (length payload + 5) = omega arith in
      loop_step (length p.buf) p s
        (again (consume p (frame_need p.buf)) (cb (take (frame_need p.buf) p.buf) now s))
        (pass-take p s (omega arith) good (omega arith) crc)
      ∙ ap
          (λ k.
            process_loop cb now (length p.buf) (consume p k)
              (cb (take (frame_need p.buf) p.buf) now s))
          need
      ∙ ap (λ q. process_loop cb now (length p.buf) q (cb (take (frame_need p.buf) p.buf) now s))
          (consume-all p (length payload + 6) len)
      ∙ ap (λ f. process_loop cb now (length p.buf) done (cb f now s)) whole
      ∙ ap (λ k. process_loop cb now k done (cb (frame payload) now s)) pred
      ∙ loop_step (length payload + 5) done (cb (frame payload) now s)
          (stop done (cb (frame payload) now s))
          (pass-short done (cb (frame payload) now s) (omega arith))

  -- Copying exactly to the decision point judges the buffer.
  reach :
      (p : Parser) (input : List ℕ) (s : S)
      → IsSettled p
      → All IsByte input
      → length p.buf ≢ 0
      → length p.buf + length input ≡ target p
      → feed_bytes cb now p input s ≡ process cb now (record p { buf = p.buf ++ input }) s
  reach p input s v b n e =
      let k : room p (length input) ≡ length input = omega arith in
      let due : (length (p.buf ++ input) == target p) ≡ true =
        ground (arith, length-append p.buf input) in
      finish-bytes cb now p input s v b n
      ∙ ap (λ j. resume cb now (finish cb now (target p) p (take j input) (drop j input) s)) k
      ∙ ap (λ l. resume cb now (finish cb now (target p) p l (drop (length input) input) s))
          (take_length (length input) input (omega arith))
      ∙ ap (λ l. resume cb now (finish cb now (target p) p input l s))
          (drop_length (length input) input (omega arith))
      ∙ judged due
    where
      judged :
          (length (p.buf ++ input) == target p) ≡ true
          → resume cb now (finish cb now (target p) p input [] s)
            ≡ process cb now (record p { buf = p.buf ++ input }) s
      judged due = unfold feed_bytes in rw due refl

  -- The body of a frame, behind its header.
  pub feed_bytes-frame :
      (p : Parser) (payload : List ℕ) (s : S)
      → IsIdle p
      → IsPayload payload
      → feed_bytes cb now p (frame payload) s
        ≡ (took (length payload + 6) p, cb (frame payload) now s)
  unfolding frame frame_body
  feed_bytes-frame p payload s i v =
      let n = length payload in
      let h = n / 256 in
      let l = n % 256 in
      let rest = payload ++ crc_bytes (rtcm_crc24q (frame_body payload)) in
      let settled = IsIdle-IsSettled p i in
      let z : length p.buf ≡ 0 = ap (length {A = ℕ}) i.empty in
      let p1 : Parser = record p { buf = preamble ∷ [] } in
      let p2 : Parser = record p { buf = preamble ∷ h ∷ l ∷ []; need = h * 256 + l + 6 } in
      let s1 = start-IsSettled p settled z in
      let hl : All IsByte (h ∷ l ∷ []) = (omega (arith, v.fits), (omega arith, tt)) in
      let header : feed_bytes cb now p1 (h ∷ l ∷ []) s ≡ (p2, s) =
        reach p1 (h ∷ l ∷ []) s s1 hl (omega arith) (omega arith)
        ∙ process-header (record p { buf = preamble ∷ h ∷ l ∷ [] }) h l s (omega (arith, v.fits))
            (omega arith) refl in
      let s2 : IsSettled p2 =
        subst (λ (r : Parser × S). IsSettled r.0) header
          ((feed_bytes-ByteOk cb now p1 (h ∷ l ∷ []) s s1 hl).settled) in
      let len : length rest ≡ n + 3 = omega (arith, length-frame payload) in
      feed_bytes-start cb now p preamble (h ∷ l ∷ rest) s z refl
      ∙ feed_bytes-append cb now p1 (h ∷ l ∷ []) rest s
      ∙ ap (λ (r : Parser × S). feed_bytes cb now r.0 rest r.1) header
      ∙ reach p2 rest s s2 (frame-IsByte payload v).1.1.1 (omega arith) (omega arith)
      ∙ process-frame (record p2 { buf = preamble ∷ h ∷ l ∷ rest }) payload s v refl
      ∙ ap (λ b. (record (took (n + 6) p) { buf = b; need = 0 }, cb (frame payload) now s))
          (sym i.empty)
      ∙ ap (λ k. (record (took (n + 6) p) { need = k }, cb (frame payload) now s)) (sym i.cleared)

pub took-IsIdle : (n : ℕ) (p : Parser) → IsIdle p → IsIdle (took n p)
took-IsIdle n p i = record { empty = i.empty; cleared = i.cleared }
