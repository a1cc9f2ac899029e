-- ===== src/Parser/Account.antt =====
-- What a call of `rtcm_parser_feed` guarantees whatever it is given: chunk boundaries do not
-- matter, the buffer stays within a frame, and every byte is accounted for.
use mathlib.Core.List.{List, ◌++◌}
use rtkdata_fw.Base.{ℕ, ◌+◌, ◌<◌, ◌≡◌, refl, ap, sym, ◌∙◌, arith}
use rtkdata_fw.Base.{u64, length, All, IsByte, All-append}
use rtkdata_fw.Parser.{Parser, parser_init, max_frame_b, feed, feed_bytes}
use rtkdata_fw.Parser.Settle.{IsSettled}
use rtkdata_fw.Parser.Process.{accounted}
use rtkdata_fw.Parser.Bytewise.{target_bounds, feed_bytes-ByteOk, feed_bytes-append}
use rtkdata_fw.Parser.Rounds.{feed-eq-feed_bytes}

pub parser_init-IsSettled : IsSettled parser_init
parser_init-IsSettled = record {
  head = tt;
  bytes = tt;
  short = λ _. refl;
  long = λ h. absurd (omega arith);
}

module _ {S : Type 0} (cb : List ℕ → ℕ → S → S) (now : ℕ) where
  pub feed-IsSettled :
      (p : Parser) (input : List ℕ) (s : S)
      → IsSettled p
      → All IsByte input
      → IsSettled (feed cb now p input s).0
  feed-IsSettled p input s v b =
      rw (feed-eq-feed_bytes cb now p input s v b)
        ((feed_bytes-ByteOk cb now p input s v b).settled)

  -- From a state that the parser can be in, and for any bytes fed: the parser is again in such a
  -- state, it holds fewer bytes than a frame may have, and the bytes in valid frames, the
  -- discarded bytes and the buffered bytes together have grown by exactly the bytes fed (in the
  -- 64 bits of the counters).
  pub feed-accounted :
      (p : Parser) (input : List ℕ) (s : S)
      → IsSettled p
      → All IsByte input
      → let q = (feed cb now p input s).0 in
        IsSettled q
        × (length q.buf < max_frame_b)
        × (accounted q ≡ u64 (accounted p + length input))
  feed-accounted p input s v b =
      let r = feed_bytes-ByteOk cb now p input s v b in
      rw (feed-eq-feed_bytes cb now p input s v b)
        (r.settled, omega (arith, target_bounds r.settled), r.account)

  -- From a state that the parser can be in, feeding two chunks one after the other leaves the
  -- same parser and the same callbacks as feeding them as one chunk.
  pub feed-append :
      (p : Parser) (xs ys : List ℕ) (s : S)
      → IsSettled p
      → All IsByte xs
      → All IsByte ys
      → feed cb now p (xs ++ ys) s ≡ (let (q, t) = feed cb now p xs s in feed cb now q ys t)
  feed-append p xs ys s v b c =
      let r = feed_bytes-ByteOk cb now p xs s v b in
      feed-eq-feed_bytes cb now p (xs ++ ys) s v (All-append IsByte xs ys b c)
      ∙ feed_bytes-append cb now p xs ys s
      ∙ sym (
          feed-eq-feed_bytes cb now (feed_bytes cb now p xs s).0 ys (feed_bytes cb now p xs s).1
            r.settled c)
      ∙ sym (ap (λ (h : Parser × S). feed cb now h.0 ys h.1) (feed-eq-feed_bytes cb now p xs s v b))
