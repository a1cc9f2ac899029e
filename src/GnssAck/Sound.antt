-- ===== src/GnssAck/Sound.antt =====
-- Which records `gnss_ack_scan` of main/gnss_ack.c takes a verdict from.
use mathlib.Core.List.{List, [], ◌∷◌}
use rtkdata_fw.Base.{◌-◌, ap, ==_iff, ◌==◌, and_left, take}
use rtkdata_fw.GnssAck.{same_bytes, span}
use mathlib.Core.Option.{Option, none, some}
use mathlib.Core.Path.{subst}
use rtkdata_fw.Base.{ℕ, zero, suc, ◌+◌, ◌≡◌, ◌⊎◌, inl, inr, refl, sym, ◌∙◌, arith, leb}
use rtkdata_fw.Base.{
  if◌then◌else◌, ◌&&◌, Bool, true, false, length, drop, if-case, option-case, and_right,
}
use rtkdata_fw.GnssAck.{Verdict, ack_none, ack_ok, ack_rejected, prefix, prefix_len, bare_response}
use rtkdata_fw.GnssAck.{
  response, no_matching_func, parsing_fail, ok_text, starts_with, find_at, span_equals,
}
use rtkdata_fw.GnssAck.{record_end, skip_spaces, trim_end, judge_bare, judge_found, judge_text}
use rtkdata_fw.GnssAck.{judge_echo, judge, scan_step, scan_loop, gnss_ack_scan}
use rtkdata_fw.GnssAck.Search.{First, find_at-First}
use rtkdata_fw.GnssAck.Record.{IsRecord, record_end-IsRecord}

-- What a judgement makes of the verdict so far: it keeps it, or it does not depend on it.
Overrides : (Verdict → Verdict) → Type 0
Overrides f = (v w : Verdict) → (f v ≡ v) ⊎ (f v ≡ f w)

if-Overrides :
    (b : Bool) (f g : Verdict → Verdict)
    → Overrides f
    → Overrides g
    → Overrides (λ v. if b then f v else g v)
unfolding Overrides
if-Overrides true f g p q = p
if-Overrides false f g p q = q

keep-Overrides : Overrides (λ v. v)
unfolding Overrides
keep-Overrides v w = inl refl

set-Overrides : (x : Verdict) → Overrides (λ v. x)
unfolding Overrides
set-Overrides x v w = inr refl

option-Overrides :
    (o : Option ℕ) (f : ℕ → Verdict → Verdict)
    → ((k : ℕ) → Overrides (f k))
    → Overrides (λ v. elim o [ none ↦ v | some k ↦ f k v ])
unfolding Overrides
option-Overrides none f p v w = inl refl
option-Overrides (some k) f p v w = p k v w

judge-Overrides :
    (buf : List ℕ) (body end : ℕ) (cmd : List ℕ) → Overrides (λ v. judge buf body end cmd v)
unfolding judge judge_bare judge_found judge_echo judge_text
judge-Overrides buf body end cmd =
    if-Overrides _ _ _
      (option-Overrides _ (λ func v. judge_found buf func end cmd v)
        (λ func. if-Overrides _ _ _ (set-Overrides ack_rejected) keep-Overrides))
      (option-Overrides _ (λ resp v. judge_echo buf body resp end cmd v)
        (λ resp.
          if-Overrides _ _ _
            (if-Overrides _ _ _ (set-Overrides ack_rejected)
              (if-Overrides _ _ _ (set-Overrides ack_ok) keep-Overrides))
            keep-Overrides))

-- The record of the buffer that a verdict comes from.
pub record Source (buf : List ℕ) (n : ℕ) (cmd : List ℕ) (v : Verdict) : Type 0 where
  pub from : ℕ
  pub end : ℕ
  pub is_record : IsRecord buf n from end
  pub verdict : judge buf (from + prefix_len) end cmd ack_none ≡ v

scan_loop-Source :
    (fuel : ℕ) (buf : List ℕ) (n : ℕ) (cmd : List ℕ) (pos : ℕ) (v : Verdict)
    → (v ≡ ack_none) ⊎ Source buf n cmd v
    → (scan_loop fuel buf n cmd pos v ≡ ack_none)
      ⊎ Source buf n cmd (scan_loop fuel buf n cmd pos v)
unfolding scan_loop scan_step Overrides
scan_loop-Source zero buf n cmd pos v h = h
scan_loop-Source (suc fuel) buf n cmd pos v h =
    let Q = λ (u : Verdict). (u ≡ ack_none) ⊎ Source buf n cmd u in
    let G = λ (o : Option (ℕ × Verdict)).
      Q (elim o [ none ↦ v | some (p, u) ↦ scan_loop fuel buf n cmd p u ]) in
    option-case G (find_at buf n pos prefix) (λ _. h)
      (λ from k.
        option-case G (record_end buf n from)
          (λ _. scan_loop-Source fuel buf n cmd (from + prefix_len) v h)
          (λ end q.
            let w = judge buf (from + prefix_len) end cmd v in
            let rec_ok =
              record_end-IsRecord buf n from end (find_at-First buf n pos prefix from k).here q in
            scan_loop-Source fuel buf n cmd end w
              (elim (judge-Overrides buf (from + prefix_len) end cmd v ack_none) [
                | inl same ↦ subst Q (sym same) h
                | inr set ↦
                    inr (record { from = from; end = end; is_record = rec_ok; verdict = sym set })
              ])))

same_bytes-eq : (xs ys : List ℕ) → same_bytes xs ys ≡ true → xs ≡ ys
unfolding same_bytes
same_bytes-eq [] [] h = refl
same_bytes-eq [] (y ∷ ys) h = absurd (ground arith)
same_bytes-eq (x ∷ xs) [] h = absurd (ground arith)
same_bytes-eq (x ∷ xs) (y ∷ ys) h =
    ap (λ (a : ℕ). a ∷ xs) ((==_iff x y).0 (and_left (x == y) (same_bytes xs ys) h))
    ∙ ap (λ (l : List ℕ). y ∷ l) (same_bytes-eq xs ys (and_right (x == y) (same_bytes xs ys) h))

span_equals-span :
    (buf : List ℕ) (from to : ℕ) (text : List ℕ)
    → span_equals buf from to text ≡ true
    → take (to - from) (drop from buf) ≡ text
unfolding span_equals span
span_equals-span buf from to text h =
    same_bytes-eq (take (to - from) (drop from buf)) text
      (and_right (to - from == length text) (same_bytes (take (to - from) (drop from buf)) text) h)

-- The echo of the command, and the trimmed text "OK" after the response mark.
pub record Accepted (buf : List ℕ) (body end : ℕ) (cmd : List ℕ) : Type 0 where
  pub resp : ℕ
  pub mark : First buf end response body resp
  pub echo : take (resp - body) (drop body buf) ≡ cmd
  pub text :
      let v = skip_spaces end buf end (resp + length response) in
      take (trim_end end buf v end - v) (drop v buf) ≡ ok_text

-- Either the echo and a text that starts with the failure, or no echo and the command at the end.
pub data Refused (buf : List ℕ) (body end : ℕ) (cmd : List ℕ) : Type 0 where
  echoed :
      (resp : ℕ)
      → First buf end response body resp
      → take (resp - body) (drop body buf) ≡ cmd
      → starts_with parsing_fail (drop (skip_spaces end buf end (resp + length response)) buf)
        ≡ true
      → Refused buf body end cmd
  unechoed :
      (func : ℕ)
      → starts_with bare_response (drop body buf) ≡ true
      → First buf end no_matching_func body func
      → take
          (end - skip_spaces end buf end (func + length no_matching_func))
          (drop (skip_spaces end buf end (func + length no_matching_func)) buf)
        ≡ cmd
      → Refused buf body end cmd

none_ok {ℓ} : {A : Type ℓ} → ack_none ≡ ack_ok → A
none_ok h = ground arith

none_rejected {ℓ} : {A : Type ℓ} → ack_none ≡ ack_rejected → A
none_rejected h = ground arith

rejected_ok {ℓ} : {A : Type ℓ} → ack_rejected ≡ ack_ok → A
rejected_ok h = ground arith

ok_rejected {ℓ} : {A : Type ℓ} → ack_ok ≡ ack_rejected → A
ok_rejected h = ground arith

-- The two tests of the text after an echo.
abbrev fails : List ℕ → ℕ → ℕ → Bool
fails buf end resp =
    let v = skip_spaces end buf end (resp + length response) in
    leb (v + 12) (trim_end end buf v end) && starts_with parsing_fail (drop v buf)

abbrev is_ok : List ℕ → ℕ → ℕ → Bool
is_ok buf end resp =
    let v = skip_spaces end buf end (resp + length response) in
    span_equals buf v (trim_end end buf v end) ok_text

judge-Accepted :
    (buf : List ℕ) (body end : ℕ) (cmd : List ℕ)
    → judge buf body end cmd ack_none ≡ ack_ok
    → Accepted buf body end cmd
unfolding judge judge_bare judge_found judge_echo judge_text
judge-Accepted buf body end cmd h =
    let P = λ (u : Verdict). u ≡ ack_ok → Accepted buf body end cmd in
    if-case P (leb (body + 9) end && starts_with bare_response (drop body buf))
      (λ _.
        option-case P (find_at buf end body no_matching_func) (λ _ k. none_ok k)
          (λ func _. if-case P _ (λ _ k. rejected_ok k) (λ _ k. none_ok k)))
      (λ _.
        option-case P (find_at buf end body response) (λ _ k. none_ok k)
          (λ resp f.
            if-case P (span_equals buf body resp cmd)
              (λ e.
                if-case P (fails buf end resp) (λ _ k. rejected_ok k)
                  (λ _.
                    if-case P (is_ok buf end resp)
                      (λ t k. record {
                        resp = resp;
                        mark = find_at-First buf end body response resp f;
                        echo = span_equals-span buf body resp cmd e;
                        text = span_equals-span buf _ _ ok_text t;
                      })
                      (λ _ k. none_ok k)))
              (λ _ k. none_ok k)))
      h

judge-Refused :
    (buf : List ℕ) (body end : ℕ) (cmd : List ℕ)
    → judge buf body end cmd ack_none ≡ ack_rejected
    → Refused buf body end cmd
unfolding judge judge_bare judge_found judge_echo judge_text
judge-Refused buf body end cmd h =
    let P = λ (u : Verdict). u ≡ ack_rejected → Refused buf body end cmd in
    if-case P (leb (body + 9) end && starts_with bare_response (drop body buf))
      (λ b.
        option-case P (find_at buf end body no_matching_func) (λ _ k. none_rejected k)
          (λ func f.
            if-case P _
              (λ s k.
                unechoed func (and_right _ _ b) (find_at-First buf end body no_matching_func func f)
                  (span_equals-span buf _ end cmd s))
              (λ _ k. none_rejected k)))
      (λ _.
        option-case P (find_at buf end body response) (λ _ k. none_rejected k)
          (λ resp f.
            if-case P (span_equals buf body resp cmd)
              (λ e.
                if-case P (fails buf end resp)
                  (λ t k.
                    echoed resp (find_at-First buf end body response resp f)
                      (span_equals-span buf body resp cmd e) (and_right _ _ t))
                  (λ _.
                    if-case P (is_ok buf end resp) (λ _ k. ok_rejected k) (λ _ k. none_rejected k)))
              (λ _ k. none_rejected k)))
      h

-- Where a verdict comes from.
pub record Answered (buf : List ℕ) (n : ℕ) (P : ℕ → ℕ → Type 0) : Type 0 where
  pub from : ℕ
  pub end : ℕ
  pub is_record : IsRecord buf n from end
  pub answer : P (from + prefix_len) end

-- If the scan says OK, the buffer holds a complete record: the prefix, and a delimiter before two
-- hexadecimal digits that spell the XOR of its bytes. It echoes this very command before the response
-- mark, and its text, trimmed, is exactly "OK".
pub gnss_ack_scan-Accepted :
    (buf : List ℕ) (n : ℕ) (cmd : List ℕ)
    → gnss_ack_scan buf n cmd ≡ ack_ok
    → Answered buf n (λ body end. Accepted buf body end cmd)
unfolding gnss_ack_scan
gnss_ack_scan-Accepted buf n cmd h =
    elim (scan_loop-Source (suc n) buf n cmd 0 ack_none (inl refl)) [
      | inl k ↦ none_ok (sym k ∙ h)
      | inr s ↦ record {
        from = s.from;
        end = s.end;
        is_record = s.is_record;
        answer = judge-Accepted buf (s.from + prefix_len) s.end cmd (s.verdict ∙ h);
      }
    ]

-- If the scan says rejected, the buffer holds a complete record: the prefix, and a delimiter before
-- two hexadecimal digits that spell the XOR of its bytes. Either it echoes this very command before a
-- text that starts with the failure, or it has no echo and names the command at its end.
pub gnss_ack_scan-Refused :
    (buf : List ℕ) (n : ℕ) (cmd : List ℕ)
    → gnss_ack_scan buf n cmd ≡ ack_rejected
    → Answered buf n (λ body end. Refused buf body end cmd)
unfolding gnss_ack_scan
gnss_ack_scan-Refused buf n cmd h =
    elim (scan_loop-Source (suc n) buf n cmd 0 ack_none (inl refl)) [
      | inl k ↦ none_rejected (sym k ∙ h)
      | inr s ↦ record {
        from = s.from;
        end = s.end;
        is_record = s.is_record;
        answer = judge-Refused buf (s.from + prefix_len) s.end cmd (s.verdict ∙ h);
      }
    ]
