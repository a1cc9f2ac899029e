-- ===== src/Tests/Line.antt =====
-- The parser, the CRC, the ring and the ingest on a short line.
use mathlib.Core.List.{List, [], ◌∷◌, ◌++◌}
use rtkdata_fw.Base.{ℕ, ◌+◌, ◌^◌, ◌<◌, ◌≡◌, ◌≢◌, refl, arith, u64, length, All, IsByte, true, false}
use rtkdata_fw.Crc.{rtcm_crc24q, serial_from}
use rtkdata_fw.Crc.Serial.{rtcm_crc24q-eq-serial_from}
use rtkdata_fw.Crc.Detect.{rtcm_crc24q_one_byte}
use rtkdata_fw.Parser.{parser_init, feed, feed_bytes, max_frame_b}
use rtkdata_fw.Parser.Settle.{IsSettled}
use rtkdata_fw.Parser.Process.{accounted}
use rtkdata_fw.Parser.Frame.{frame, IsPayload, frame-IsByte}
use rtkdata_fw.Parser.Stream.{IsIdle}
use rtkdata_fw.Parser.Emits.{collect, IsFrame, feed-emits_frames}
use rtkdata_fw.Parser.Account.{parser_init-IsSettled, feed-accounted, feed-append}
use rtkdata_fw.Parser.Rounds.{feed-eq-feed_bytes}
use rtkdata_fw.Parser.Wire.{wire, tally, deliver, feed-wire}
use rtkdata_fw.Ring.{ring_init, push}
use rtkdata_fw.Ring.History.{Holds, ring_init-Holds, push-Holds, total}
use rtkdata_fw.Ingest.{Instance, station_init}
use rtkdata_fw.Ingest.Heard.{Arrival, chunk, receiver_reset, arrive_all, hear_all, silence}
use rtkdata_fw.Ingest.Flow.{Kept, arrive_all-Kept}
use rtkdata_fw.Supervisor.{boot}

-- A payload of two bytes, and a frame that arrives in two chunks with a wrong CRC.
abbrev small_payload : List ℕ
small_payload = 62 ∷ 208 ∷ []

small_payload-IsPayload : IsPayload small_payload
small_payload-IsPayload = record { bytes = (omega arith, (omega arith, tt)); fits = omega arith }

abbrev chunk_a : List ℕ
chunk_a = 7 ∷ 0xD3 ∷ 0 ∷ []

abbrev chunk_b : List ℕ
chunk_b = 2 ∷ 62 ∷ 208 ∷ 1 ∷ []

chunk_a-bytes : All IsByte chunk_a
chunk_a-bytes = (omega arith, (omega arith, (omega arith, tt)))

chunk_b-bytes : All IsByte chunk_b
chunk_b-bytes = (omega arith, (omega arith, (omega arith, (omega arith, tt))))

parser_init-IsIdle : IsIdle parser_init
parser_init-IsIdle = record { empty = refl; cleared = refl }

feed-wire_example :
    feed collect 5 parser_init (wire ((7 ∷ [], small_payload) ∷ ([], small_payload) ∷ [])) [] ≡ (
      tally ((7 ∷ [], small_payload) ∷ ([], small_payload) ∷ []) parser_init,
      deliver collect 5 ((7 ∷ [], small_payload) ∷ ([], small_payload) ∷ []) [],
    )
feed-wire_example =
    feed-wire collect 5 parser_init ((7 ∷ [], small_payload) ∷ ([], small_payload) ∷ []) []
      parser_init-IsIdle (omega arith)
      (((omega arith, omega arith), tt), small_payload-IsPayload, (tt, small_payload-IsPayload, tt))

feed-eq-feed_bytes_example :
    feed collect 5 parser_init chunk_a [] ≡ feed_bytes collect 5 parser_init chunk_a []
feed-eq-feed_bytes_example =
    feed-eq-feed_bytes collect 5 parser_init chunk_a [] parser_init-IsSettled chunk_a-bytes

feed-emits_frames_example : All IsFrame (feed collect 5 parser_init chunk_a []).1
feed-emits_frames_example =
    feed-emits_frames 5 parser_init chunk_a parser_init-IsSettled chunk_a-bytes

feed-accounted_example :
    let q = (feed collect 5 parser_init chunk_a []).0 in
    IsSettled q × (length q.buf < max_frame_b) × (accounted q ≡ u64 (accounted parser_init + 3))
feed-accounted_example =
    feed-accounted collect 5 parser_init chunk_a [] parser_init-IsSettled chunk_a-bytes

feed-append_example :
    feed collect 5 parser_init (chunk_a ++ chunk_b) []
    ≡ (let (q, t) = feed collect 5 parser_init chunk_a [] in feed collect 5 q chunk_b t)
feed-append_example =
    feed-append collect 5 parser_init chunk_a chunk_b [] parser_init-IsSettled chunk_a-bytes
      chunk_b-bytes

rtcm_crc24q-eq-serial_from_example :
    (rtcm_crc24q chunk_b ≡ serial_from 0 chunk_b) × (rtcm_crc24q chunk_b < 2 ^ 24)
rtcm_crc24q-eq-serial_from_example = rtcm_crc24q-eq-serial_from chunk_b chunk_b-bytes

rtcm_crc24q_one_byte_example :
    rtcm_crc24q (chunk_a ++ (1 ∷ chunk_b)) ≢ rtcm_crc24q (chunk_a ++ (2 ∷ chunk_b))
rtcm_crc24q_one_byte_example =
    rtcm_crc24q_one_byte chunk_a chunk_b 1 2 chunk_a-bytes chunk_b-bytes (omega arith) (omega arith)
      (omega arith)

push-Holds_example :
    Holds
      (push ring_init (1 ∷ 2 ∷ 3 ∷ 4 ∷ 5 ∷ 6 ∷ 7 ∷ []) 9)
      (record { frame = 1 ∷ 2 ∷ 3 ∷ 4 ∷ 5 ∷ 6 ∷ 7 ∷ []; at = 9 } ∷ [])
unfolding total
push-Holds_example =
    push-Holds ring_init-Holds (1 ∷ 2 ∷ 3 ∷ 4 ∷ 5 ∷ 6 ∷ 7 ∷ []) 9 (omega arith) (omega arith)
      (omega arith, omega arith)

abbrev connected : Instance
connected = record {
  has_ev = true;
  has_task = true;
  caster_ready = true;
  data_ready = false;
  data_sent = false;
  data_keep_alive = 10000;
  reconnect_gen = 0;
  notified = 0;
}

abbrev arrivals : List Arrival
arrivals = chunk 2000 chunk_a ∷ receiver_reset 3000 ∷ chunk 4000 (frame small_payload) ∷ []

arrive_all-Kept_example :
    Kept
      (boot 0)
      (hear_all arrivals silence)
      (arrive_all arrivals (station_init 0 (connected ∷ [])))
unfolding hear_all feed frame rtcm_crc24q
arrive_all-Kept_example =
    arrive_all-Kept 0 (connected ∷ []) arrivals
      (chunk_a-bytes, (tt, (frame-IsByte small_payload small_payload-IsPayload, tt))) (omega arith)

-- The whole frame after the reset is heard, at the time of its chunk.
arrivals_heard :
    (hear_all arrivals silence).frames ≡ record { frame = frame small_payload; at = 4 } ∷ []
unfolding hear_all feed frame rtcm_crc24q
arrivals_heard = refl

-- A reset between the chunks drops the half frame, and the whole one after it goes to the ring.
arrivals_pushed : (arrive_all arrivals (station_init 0 (connected ∷ []))).sink.ring.next_seq ≡ 1
unfolding arrive_all feed push frame rtcm_crc24q
arrivals_pushed = refl
