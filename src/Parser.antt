-- ===== src/Parser.antt =====
-- main/interface/ntrip_tx_core.c, the RTCM3 frame parser: `rtcm_parser_t`, `rtcm_parser_init`,
-- `parser_hunt_in_buf`, `parser_process` and `rtcm_parser_feed`. `buf` is `buf[0..have)` of the
-- C array, so `have` is its length and the memmoves are `drop`. The frame callback with its
-- context is a function on a state `S`.
pub mod Frame
pub mod Settle
pub mod Process
pub mod Bytewise
pub mod TopUp
pub mod Rounds
pub mod Account
pub mod Callback
pub mod Emits
pub mod Stream
pub mod Wire
use mathlib.Core.List.{List, [], ◌∷◌, ◌++◌}
use mathlib.Core.Bool.{Bool, not, ◌&&◌}
use rtkdata_fw.Base.{ℕ, zero, suc, ◌+◌, ◌-◌, ◌*◌, ◌^◌, bit_and, bit_or}
use rtkdata_fw.Base.{if◌then◌else◌, ltb, ◌==◌, u16, u64, sub32, length, get_or, take, drop}
use rtkdata_fw.Crc.{rtcm_crc24q}

abbrev pub preamble : ℕ
preamble = 0xD3

-- `RTCM_MAX_FRAME_B`
abbrev pub max_frame_b : ℕ
max_frame_b = 1029

pub record Parser : Type 0 where
  pub buf : List ℕ
  pub need : ℕ
  pub frames_ok : ℕ
  pub bytes_ok : ℕ
  pub bytes_discarded : ℕ
  pub crc_errors : ℕ

-- `rtcm_parser_init`
abbrev pub parser_init : Parser
parser_init = record {
  buf = [];
  need = 0;
  frames_ok = 0;
  bytes_ok = 0;
  bytes_discarded = 0;
  crc_errors = 0;
}

-- The scan of `parser_hunt_in_buf`: at index `i`, with the bytes from there on.
pub hunt_index : List ℕ → ℕ → ℕ
hunt_index [] i = i
hunt_index (x ∷ xs) i = if x == preamble then i else hunt_index xs (i + 1)

pub hunt_in_buf : Parser → ℕ → Parser
hunt_in_buf p from =
    let i = hunt_index (drop from p.buf) from in
    record p { buf = drop i p.buf; need = 0; bytes_discarded = u64 (p.bytes_discarded + i) }

-- The frame length that the header announces.
abbrev pub frame_need : List ℕ → ℕ
frame_need buf = u16 (bit_or (bit_and (get_or buf 1 0) 0x03 * 2 ^ 8) (get_or buf 2 0) + 6)

-- The CRC that the last three bytes of the frame carry.
abbrev pub carried_crc : List ℕ → ℕ → ℕ
carried_crc buf need =
    bit_or (bit_or (get_or buf (need - 3) 0 * 2 ^ 16) (get_or buf (need - 2) 0 * 2 ^ 8))
      (get_or buf (need - 1) 0)

-- A frame is done: consume it, and resynchronise what a resync has buffered behind it.
pub consume : Parser → ℕ → Parser
unfolding hunt_in_buf hunt_index
consume p need =
    let rest = drop need p.buf in
    let q : Parser = record p {
      buf = rest;
      need = 0;
      frames_ok = u64 (p.frames_ok + 1);
      bytes_ok = u64 (p.bytes_ok + need);
    } in
    if ltb 0 (length rest) && not (get_or rest 0 0 == preamble) then hunt_in_buf q 0 else q

-- The next decision point: 3 bytes for the header, then the whole frame.
abbrev pub target : Parser → ℕ
target p = if ltb (length p.buf) 3 then 3 else p.need

-- The inner hunt of `rtcm_parser_feed`, directly in the input.
pub hunt_in_input : Parser → List ℕ → Parser × List ℕ
hunt_in_input p [] = (p, [])
hunt_in_input p (x ∷ xs) =
    if x == preamble
    then (p, x ∷ xs)
    else hunt_in_input (record p { bytes_discarded = u64 (p.bytes_discarded + 1) }) xs

-- One pass of the loop of `parser_process` returns, or goes round again.
pub data Pass (S : Type 0) : Type 0 where
  stop : Parser → S → Pass S
  again : Parser → S → Pass S

module _ {S : Type 0} (cb : List ℕ → ℕ → S → S) (now : ℕ) where
  pub process_pass : Parser → S → Pass S
  unfolding consume hunt_in_buf hunt_index rtcm_crc24q
  process_pass p s =
      if ltb (length p.buf) 3
      then stop (record p { need = 0 }) s
      else if not (bit_and (get_or p.buf 1 0) 0xFC == 0)
      then again (hunt_in_buf p 1) s
      else let need = frame_need p.buf in
        if ltb (length p.buf) need
        then stop (record p { need = need }) s
        else if rtcm_crc24q (take (need - 3) p.buf) == carried_crc p.buf need
        then again (consume p need) (cb (take need p.buf) now s)
        else again (hunt_in_buf (record p { need = need; crc_errors = u64 (p.crc_errors + 1) }) 1) s

  -- The loop, on fuel: every round that goes on shortens the buffer.
  pub process_loop : ℕ → Parser → S → Parser × S
  unfolding process_pass
  process_loop zero p s = (p, s)
  process_loop (suc f) p s = elim (process_pass p s) [
    | stop q t ↦ (q, t)
    | again q t ↦ process_loop f q t
  ]

  pub process : Parser → S → Parser × S
  unfolding process_loop
  process p s = process_loop (suc (length p.buf)) p s

  -- Top up toward the next decision point; what is left of the input comes third.
  pub top_up : Parser → List ℕ → S → Parser × S × List ℕ
  unfolding process
  top_up p input s =
      let goal = target p in
      let want = sub32 goal (length p.buf) in
      let n = if ltb want (length input) then want else length input in
      let q : Parser = record p { buf = p.buf ++ take n input } in
      if length q.buf == goal
      then (let (r, t) = process q s in (r, t, drop n input))
      else (q, s, drop n input)

  -- One round of the outer loop of `rtcm_parser_feed`.
  pub feed_round : Parser → List ℕ → S → Parser × S × List ℕ
  unfolding top_up hunt_in_input
  feed_round p input s =
      if length p.buf == 0
      then (let (q, rest) = hunt_in_input p input in
          elim rest [ [] ↦ (q, s, []) | x ∷ xs ↦ top_up (record q { buf = preamble ∷ [] }) xs s ])
      else top_up p input s

  -- The outer loop, on fuel: every round takes a byte of the input.
  pub feed_loop : ℕ → Parser → List ℕ → S → Parser × S
  unfolding feed_round
  feed_loop zero p input s = (p, s)
  feed_loop (suc f) p [] s = (p, s)
  feed_loop (suc f) p (x ∷ xs) s =
      let (q, t, rest) = feed_round p (x ∷ xs) s in feed_loop f q rest t

  unfoldable pub feed : Parser → List ℕ → S → Parser × S
  unfolding feed_loop
  feed p input s = feed_loop (length input) p input s

  -- The reference: one byte at a time. Out of a frame a byte is dropped unless it is a preamble;
  -- in a frame it is appended, and the buffer is judged when it is long enough.
  pub feed_byte : Parser → ℕ → S → Parser × S
  unfolding process
  feed_byte p x s =
      if length p.buf == 0
      then (if x == preamble
          then (record p { buf = preamble ∷ [] }, s)
          else (record p { bytes_discarded = u64 (p.bytes_discarded + 1) }, s))
      else let q : Parser = record p { buf = p.buf ++ (x ∷ []) } in
        if length q.buf == target p then process q s else (q, s)

  pub feed_bytes : Parser → List ℕ → S → Parser × S
  unfolding feed_byte
  feed_bytes p [] s = (p, s)
  feed_bytes p (x ∷ xs) s = let (q, t) = feed_byte p x s in feed_bytes q xs t
