-- ===== src/Parser/Emits.antt =====
-- Soundness of the parser: the callback only ever sees frames of the standard.
use mathlib.Core.List.{List, [], ◌∷◌, ◌++◌}
use rtkdata_fw.Base.{ℕ, zero, suc, ◌-◌, ◌<◌, bit_and}
use rtkdata_fw.Base.{◌≡◌, refl, inl, inr, arith, Bool-cases}
use rtkdata_fw.Base.{ltb, ◌==◌, length, get_or, take, All, IsByte}
use rtkdata_fw.Crc.{rtcm_crc24q}
use rtkdata_fw.Parser.{Parser, preamble, frame_need, carried_crc, target}
use rtkdata_fw.Parser.{Pass, stop, again, process_pass, process_loop, process}
use rtkdata_fw.Parser.{feed_byte, feed_bytes, feed}
use rtkdata_fw.Parser.Settle.{IsSettled}
use rtkdata_fw.Parser.Frame.{frame, IsPayload, take-need-frame}
use rtkdata_fw.Parser.Process.{IsReady, PassOk, process_pass-PassOk}
use rtkdata_fw.Parser.Bytewise.{grown-IsReady, feed_byte-ByteOk}
use rtkdata_fw.Parser.Rounds.{feed-eq-feed_bytes}

module _ {S : Type 0} (cb : List ℕ → ℕ → S → S) (now : ℕ) (P : S → Type 0)
    (keep : (payload : List ℕ) (s : S)
      → IsPayload payload
      → P s
      → P (cb (frame payload) now s)) where
  abbrev PassKeeps : Pass S → Type 0
  PassKeeps (stop q t) = P t
  PassKeeps (again q t) = P t

  process_pass-keeps : (p : Parser) (s : S) → IsReady p → P s → PassKeeps (process_pass cb now p s)
  unfolding process_pass
  process_pass-keeps p s v h = elim (Bool-cases (ltb (length p.buf) 3)) [
    | inl few ↦ rw few h
    | inr many ↦ rw many (elim (Bool-cases (bit_and (get_or p.buf 1 0) 0xFC == 0)) [
      | inr bad ↦ rw bad h
      | inl good ↦ rw good (elim (Bool-cases (ltb (length p.buf) (frame_need p.buf))) [
        | inl wait ↦ rw wait h
        | inr full ↦
            rw full
              (elim (Bool-cases (
                rtcm_crc24q (take (frame_need p.buf - 3) p.buf)
                == carried_crc p.buf (frame_need p.buf))) [
                  | inr wrong ↦ rw wrong h
                  | inl ok ↦
                      let f =
                        take-need-frame p.buf v.head v.bytes (ground arith) good (ground arith)
                          (ground arith) in
                      rw ok (rw f.2 (keep f.0 s f.1 h))
                ])
      ])
    ])
  ]

  process_loop-keeps :
      (f : ℕ) (p : Parser) (s : S) → IsReady p → P s → P (process_loop cb now f p s).1
  unfolding process_loop
  process_loop-keeps zero p s v h = h
  process_loop-keeps (suc f) p s v h =
      go (process_pass cb now p s) (process_pass-PassOk cb now p s v) (process_pass-keeps p s v h)
        (process_loop-keeps f)
    where
      go :
          (pass : Pass S)
          → PassOk p pass
          → PassKeeps pass
          → ((q : Parser) (t : S) → IsReady q → P t → P (process_loop cb now f q t).1)
          → P
              (elim pass as (λ _. Parser × S) [
                | stop q t ↦ (q, t)
                | again q t ↦ process_loop cb now f q t
              ]).1
      go (stop q t) ok k ih = k
      go (again q t) ok k ih = ih q t ok.0 k

  feed_byte-keeps :
      (p : Parser) (x : ℕ) (s : S) → IsSettled p → x < 256 → P s → P (feed_byte cb now p x s).1
  unfolding feed_byte process
  feed_byte-keeps p x s v b h = elim (Bool-cases (length p.buf == 0)) [
    | inl out ↦ rw out (elim (Bool-cases (x == preamble)) [ inl e ↦ rw e h | inr e ↦ rw e h ])
    | inr held ↦
        let q : Parser = record p { buf = p.buf ++ (x ∷ []) } in
        rw held (elim (Bool-cases (length (p.buf ++ (x ∷ [])) == target p)) [
          | inl due ↦ rw due (
              process_loop-keeps (suc (length q.buf)) q s
                (grown-IsReady p (x ∷ []) v (b, tt) (ground arith)) h)
          | inr early ↦ rw early h
        ])
  ]

  feed_bytes-keeps :
      (p : Parser) (xs : List ℕ) (s : S)
      → IsSettled p
      → All IsByte xs
      → P s
      → P (feed_bytes cb now p xs s).1
  unfolding feed_bytes
  feed_bytes-keeps p [] s v b h = h
  feed_bytes-keeps p (x ∷ xs) s v b h =
      let r = feed_byte-ByteOk cb now p x s v b.0 in
      let k = feed_byte-keeps p x s v b.0 h in
      let (q, t) = feed_byte cb now p x s in feed_bytes-keeps q xs t r.settled b.1 k

  -- Whatever holds of the callback's state and is kept by calling back with a frame of the
  -- standard (a CRC-valid one with a payload of at most 1023 bytes) holds after any bytes were fed.
  pub feed-keeps :
      (p : Parser) (input : List ℕ) (s : S)
      → IsSettled p
      → All IsByte input
      → P s
      → P (feed cb now p input s).1
  feed-keeps p input s v b h =
      rw (feed-eq-feed_bytes cb now p input s v b) (feed_bytes-keeps p input s v b h)

-- The callback that records the frames that it is called with.
abbrev pub collect : List ℕ → ℕ → List (List ℕ) → List (List ℕ)
collect f now fs = fs ++ (f ∷ [])

abbrev pub IsFrame : List ℕ → Type 0
IsFrame f = (payload : List ℕ) × IsPayload payload × (f ≡ frame payload)

pub All-collect :
    (payload : List ℕ) (fs : List (List ℕ))
    → IsPayload payload
    → All IsFrame fs
    → All IsFrame (collect (frame payload) 0 fs)
All-collect payload [] v h = ((payload, v, refl), tt)
All-collect payload (f ∷ fs) v h = (h.0, All-collect payload fs v h.1)

-- From a state that the parser can be in, every frame that any input makes it hand out is the
-- encoding of some payload: preamble, length, payload and the CRC-24Q of these.
pub feed-emits_frames :
    (now : ℕ) (p : Parser) (input : List ℕ)
    → IsSettled p
    → All IsByte input
    → All IsFrame (feed collect now p input []).1
feed-emits_frames now p input v b =
    feed-keeps collect now (λ fs. All IsFrame fs) (λ pl fs w h. All-collect pl fs w h) p input [] v
      b tt
