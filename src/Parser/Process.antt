-- ===== src/Parser/Process.antt =====
-- `parser_process`: one pass, then the loop. It always returns by its own exits, leaves the
-- documented invariant, and accounts for every byte.
use mathlib.Core.List.{List, [], ◌∷◌}
use rtkdata_fw.Base.{ℕ, zero, suc, ◌+◌, ◌-◌, ◌≤◌, ◌<◌, bit_and}
use rtkdata_fw.Base.{◌≡◌, refl, ◌∙◌, ◌⊎◌, inl, inr, arith, Bool-cases}
use rtkdata_fw.Base.{ltb, ◌==◌, u64, length, get_or, take, drop, All, IsByte}
use rtkdata_fw.Base.{length-drop, All-drop, not, ◌&&◌}
use rtkdata_fw.Crc.{rtcm_crc24q}
use rtkdata_fw.Parser.{Parser, preamble, frame_need, carried_crc, consume}
use rtkdata_fw.Parser.{Pass, stop, again, process_pass, process_loop, process}
use rtkdata_fw.Parser.Settle.{HeadOk, IsSettled, frame_need_lem, Hunted}
use rtkdata_fw.Parser.Settle.{hunt_in_buf-Hunted}

-- Bytes in good frames, discarded bytes and buffered bytes, in the width of the counters.
abbrev pub accounted : Parser → ℕ
accounted p = u64 (p.bytes_ok + p.bytes_discarded + length p.buf)

-- A buffer that `parser_process` may be called with.
pub record IsReady (p : Parser) : Type 0 where
  pub head : HeadOk p.buf
  pub bytes : All IsByte p.buf

pub Hunted-accounted : {p q : Parser} {from : ℕ} → Hunted p from q → accounted q ≡ accounted p
Hunted-accounted h = omega (arith, h.balance, h.discarded, h.kept)

HeadOk-of_first : (xs : List ℕ) → (length xs ≡ 0) ⊎ (get_or xs 0 0 ≡ preamble) → HeadOk xs
HeadOk-of_first [] h = tt
HeadOk-of_first (x ∷ xs) h = ground arith

record Consumed (p : Parser) (need : ℕ) (q : Parser) : Type 0 where
  ready : IsReady q
  shorter : length q.buf + need ≤ length p.buf
  account : accounted q ≡ accounted p

abbrev popped : Parser → ℕ → Parser
popped p need = record p {
  buf = drop need p.buf;
  need = 0;
  frames_ok = u64 (p.frames_ok + 1);
  bytes_ok = u64 (p.bytes_ok + need);
}

consume-Consumed :
    (p : Parser) (need : ℕ)
    → All IsByte p.buf
    → need ≤ length p.buf
    → Consumed p need (consume p need)
unfolding consume
consume-Consumed p need bytes fits =
    elim (Bool-cases
      (ltb 0 (length (drop need p.buf)) && not (get_or (drop need p.buf) 0 0 == preamble))) [
        | inl e ↦
            let h =
              hunt_in_buf-Hunted (popped p need) 0 (All-drop IsByte need p.buf bytes)
                (omega arith) in
            rw e (record {
              ready = record { head = h.head; bytes = h.bytes };
              shorter = omega (arith, length-drop need p.buf, h.balance);
              account = omega (arith, length-drop need p.buf, h.balance, h.discarded, h.kept);
            })
        | inr e ↦ rw e (record {
          ready = record {
            head = HeadOk-of_first (drop need p.buf) (ground arith);
            bytes = All-drop IsByte need p.buf bytes;
          };
          shorter = omega (arith, length-drop need p.buf);
          account = omega (arith, length-drop need p.buf);
        })
      ]

module _ {S : Type 0} where
  -- What one pass promises.
  abbrev pub PassOk : Parser → Pass S → Type 0
  PassOk p (stop q t) = IsSettled q × (accounted q ≡ accounted p) × (q.buf ≡ p.buf)
  PassOk p (again q t) = IsReady q × (accounted q ≡ accounted p) × (length q.buf < length p.buf)

module _ {S : Type 0} (cb : List ℕ → ℕ → S → S) (now : ℕ) where
  pub process_pass-PassOk : (p : Parser) (s : S) → IsReady p → PassOk p (process_pass cb now p s)
  unfolding process_pass
  process_pass-PassOk p s v = elim (Bool-cases (ltb (length p.buf) 3)) [
    | inl few ↦ rw few (
      record {
        head = v.head;
        bytes = v.bytes;
        short = λ _. refl;
        long = λ h. absurd (ground arith);
      },
      refl,
      refl,
    )
    | inr many ↦ rw many (elim (Bool-cases (not (bit_and (get_or p.buf 1 0) 0xFC == 0))) [
      | inl bad ↦
          let h = hunt_in_buf-Hunted p 1 v.bytes (ground arith) in
          rw bad (
            record { head = h.head; bytes = h.bytes },
            Hunted-accounted h,
            omega (arith, h.balance, h.enough),
          )
      | inr good ↦ rw good (elim (Bool-cases (ltb (length p.buf) (frame_need p.buf))) [
        | inl wait ↦ rw wait (
          record {
            head = v.head;
            bytes = v.bytes;
            short = λ h. absurd (ground arith);
            long = λ h. (ground arith, refl, ground arith);
          },
          refl,
          refl,
        )
        | inr full ↦
            rw full
              (elim (Bool-cases (
                rtcm_crc24q (take (frame_need p.buf - 3) p.buf)
                == carried_crc p.buf (frame_need p.buf))) [
                  | inl ok ↦
                      let c = consume-Consumed p (frame_need p.buf) v.bytes (ground arith) in
                      rw ok
                        (c.ready, c.account, omega (arith, c.shorter, frame_need_lem p.buf v.bytes))
                  | inr wrong ↦
                      let q : Parser = record p {
                        need = frame_need p.buf;
                        crc_errors = u64 (p.crc_errors + 1);
                      } in
                      let h = hunt_in_buf-Hunted q 1 v.bytes (ground arith) in
                      rw wrong (
                        record { head = h.head; bytes = h.bytes },
                        Hunted-accounted h,
                        omega (arith, h.balance, h.enough),
                      )
                ])
      ])
    ])
  ]

  -- What the loop promises once its fuel exceeds the buffer.
  pub record Processed (p q : Parser) : Type 0 where
    pub settled : IsSettled q
    pub account : accounted q ≡ accounted p

  pub process_loop-Processed :
      (f : ℕ) (p : Parser) (s : S)
      → length p.buf < f
      → IsReady p
      → Processed p (process_loop cb now f p s).0
  unfolding process_loop
  process_loop-Processed zero p s h v = absurd (omega arith)
  process_loop-Processed (suc f) p s h v =
      go (process_pass cb now p s) (process_pass-PassOk p s v) (process_loop-Processed f)
    where
      go :
          (pass : Pass S)
          → PassOk p pass
          → ((q : Parser) (t : S)
              → length q.buf < f
              → IsReady q
              → Processed q (process_loop cb now f q t).0)
          → Processed p
              (elim pass as (λ _. Parser × S) [
                | stop q t ↦ (q, t)
                | again q t ↦ process_loop cb now f q t
              ]).0
      go (stop q t) ok ih = record { settled = ok.0; account = ok.1 }
      go (again q t) ok ih =
          let r = ih q t (omega (arith, ok.2)) ok.0 in
          record { settled = r.settled; account = r.account ∙ ok.1 }

  pub process-Processed : (p : Parser) (s : S) → IsReady p → Processed p (process cb now p s).0
  unfolding process
  process-Processed p s v = process_loop-Processed (suc (length p.buf)) p s (omega arith) v

  -- More fuel changes nothing: the loop stops by its own exits.
  pub process_loop_fuel :
      (f g : ℕ) (p : Parser) (s : S)
      → length p.buf < f
      → length p.buf < g
      → IsReady p
      → process_loop cb now f p s ≡ process_loop cb now g p s
  unfolding process_loop
  process_loop_fuel zero g p s h k v = absurd (omega arith)
  process_loop_fuel (suc f) zero p s h k v = absurd (omega arith)
  process_loop_fuel (suc f) (suc g) p s h k v =
      go (process_pass cb now p s) (process_pass-PassOk p s v) (process_loop_fuel f g)
    where
      go :
          (pass : Pass S)
          → PassOk p pass
          → ((q : Parser) (t : S)
              → length q.buf < f
              → length q.buf < g
              → IsReady q
              → process_loop cb now f q t ≡ process_loop cb now g q t)
          → (elim pass as (λ _. Parser × S) [
            | stop q t ↦ (q, t)
            | again q t ↦ process_loop cb now f q t
          ])
            ≡ (elim pass as (λ _. Parser × S) [
              | stop q t ↦ (q, t)
              | again q t ↦ process_loop cb now g q t
            ])
      go (stop q t) ok ih = refl
      go (again q t) ok ih = ih q t (omega (arith, ok.2)) (omega (arith, ok.2)) ok.0
