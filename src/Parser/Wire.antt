-- ===== src/Parser/Wire.antt =====
-- Completeness of the parser on a whole line: frames with garbage between them all come through.
use mathlib.Core.List.{List, [], ◌∷◌, ◌++◌}
use rtkdata_fw.Base.{ℕ, ◌+◌, ◌^◌, ◌<◌}
use rtkdata_fw.Base.{◌≡◌, ◌≢◌, refl, ap, ◌∙◌, arith}
use rtkdata_fw.Base.{u64, length, All, IsByte, All-append}
use rtkdata_fw.Parser.{Parser, preamble, feed_bytes, feed}
use rtkdata_fw.Parser.Frame.{frame, IsPayload, frame-IsByte}
use rtkdata_fw.Parser.Bytewise.{feed_bytes-append}
use rtkdata_fw.Parser.Rounds.{feed-eq-feed_bytes, feed_bytes-skip}
use rtkdata_fw.Parser.Stream.{IsIdle, IsIdle-IsSettled, took, took-IsIdle, feed_bytes-frame}

-- Garbage is what the hunt for a preamble skips.
abbrev pub IsGarbage : List ℕ → Type 0
IsGarbage xs = All (λ x. (x < 256) × (x ≢ preamble)) xs

-- What one reads on the wire: garbage, then a frame, again and again.
pub wire : List (List ℕ × List ℕ) → List ℕ
wire [] = []
wire ((noise, payload) ∷ rest) = noise ++ (frame payload ++ wire rest)

abbrev pub IsWire : List (List ℕ × List ℕ) → Type 0
IsWire [] = Unit
IsWire ((noise, payload) ∷ rest) = IsGarbage noise × IsPayload payload × IsWire rest

-- What the parser's counters read after `items`.
pub tally : List (List ℕ × List ℕ) → Parser → Parser
tally [] p = p
tally ((noise, payload) ∷ rest) p = tally rest (
    took (length payload + 6)
      (record p { bytes_discarded = u64 (p.bytes_discarded + length noise) }))

module _ {S : Type 0} (cb : List ℕ → ℕ → S → S) (now : ℕ) where
  pub deliver : List (List ℕ × List ℕ) → S → S
  deliver [] s = s
  deliver ((noise, payload) ∷ rest) s = deliver rest (cb (frame payload) now s)

  feed_bytes-garbage :
      (p : Parser) (noise : List ℕ) (s : S)
      → length p.buf ≡ 0
      → p.bytes_discarded < 2 ^ 64
      → IsGarbage noise
      → feed_bytes cb now p noise s
        ≡ (record p { bytes_discarded = u64 (p.bytes_discarded + length noise) }, s)
  feed_bytes-garbage p [] s z small g =
      unfold feed_bytes in
      ap (λ k. (record p { bytes_discarded = k }, s))
        (let e : p.bytes_discarded ≡ u64 (p.bytes_discarded + 0) = omega arith in e)
  feed_bytes-garbage p (x ∷ noise) s z small g =
      feed_bytes-skip cb now p x noise s z (ground (arith, g.0.1))
      ∙ feed_bytes-garbage (record p { bytes_discarded = u64 (p.bytes_discarded + 1) }) noise s z
          (omega arith) g.1
      ∙ ap (λ k. (record p { bytes_discarded = k }, s)) (omega arith)

  feed_bytes-wire :
      (p : Parser) (items : List (List ℕ × List ℕ)) (s : S)
      → IsIdle p
      → p.bytes_discarded < 2 ^ 64
      → IsWire items
      → feed_bytes cb now p (wire items) s ≡ (tally items p, deliver items s)
  unfolding wire tally deliver
  feed_bytes-wire p [] s i small w = unfold feed_bytes in refl
  feed_bytes-wire p ((noise, payload) ∷ rest) s i small w =
      let q : Parser = record p { bytes_discarded = u64 (p.bytes_discarded + length noise) } in
      let iq : IsIdle q = record { empty = i.empty; cleared = i.cleared } in
      feed_bytes-append cb now p noise (frame payload ++ wire rest) s
      ∙ ap (λ (r : Parser × S). feed_bytes cb now r.0 (frame payload ++ wire rest) r.1)
          (feed_bytes-garbage p noise s (ap (length {A = ℕ}) i.empty) small w.0)
      ∙ feed_bytes-append cb now q (frame payload) (wire rest) s
      ∙ ap (λ (r : Parser × S). feed_bytes cb now r.0 (wire rest) r.1)
          (feed_bytes-frame cb now q payload s iq w.1)
      ∙ feed_bytes-wire (took (length payload + 6) q) rest (cb (frame payload) now s)
          (took-IsIdle (length payload + 6) q iq) (omega arith) w.2

  garbage-IsByte : (noise : List ℕ) → IsGarbage noise → All IsByte noise
  garbage-IsByte [] g = tt
  garbage-IsByte (x ∷ noise) g = (g.0.0, garbage-IsByte noise g.1)

  wire-IsByte : (items : List (List ℕ × List ℕ)) → IsWire items → All IsByte (wire items)
  unfolding wire
  wire-IsByte [] w = tt
  wire-IsByte ((noise, payload) ∷ rest) w =
      All-append IsByte noise (frame payload ++ wire rest) (garbage-IsByte noise w.0) (
        All-append IsByte (frame payload) (wire rest) (frame-IsByte payload w.1)
          (wire-IsByte rest w.2))

  -- An idle parser that is fed any number of frames, with garbage free of preambles before each,
  -- calls back with exactly these frames in order, counts each of them and every byte of the
  -- garbage, and is idle again.
  pub feed-wire :
      (p : Parser) (items : List (List ℕ × List ℕ)) (s : S)
      → IsIdle p
      → p.bytes_discarded < 2 ^ 64
      → IsWire items
      → feed cb now p (wire items) s ≡ (tally items p, deliver items s)
  feed-wire p items s i small w =
      feed-eq-feed_bytes cb now p (wire items) s (IsIdle-IsSettled p i) (wire-IsByte items w)
      ∙ feed_bytes-wire p items s i small w
