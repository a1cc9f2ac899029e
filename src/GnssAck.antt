-- ===== src/GnssAck.antt =====
-- main/gnss_ack.c: the verdict of the receiver on a command, found in a buffer of its answers.
-- A buffer is a list of bytes; an index that the C code passes as -1 is `none`.
pub mod Search
pub mod Record
pub mod Sound
use mathlib.Core.List.{List, [], ◌∷◌}
use mathlib.Core.Option.{Option, none, some}
use mathlib.Core.Bool.{Bool, true, false, not, ◌&&◌, ◌||◌}
use rtkdata_fw.Base.{
  ℕ, zero, suc, ◌+◌, ◌-◌, ◌*◌, if◌then◌else◌, ltb, leb, ◌==◌, bit_or, bit_xor, length,
}
use rtkdata_fw.Base.{get_or, take, drop}

-- `gnss_ack_verdict_t`
pub data Verdict : Type 0 where
  ack_none ack_ok ack_rejected : Verdict

-- `PREFIX`, `PREFIX_LEN` and the other texts, in ASCII.
abbrev pub prefix : List ℕ
prefix = 36 ∷ 99 ∷ 111 ∷ 109 ∷ 109 ∷ 97 ∷ 110 ∷ 100 ∷ 44 ∷ []

abbrev pub prefix_len : ℕ
prefix_len = 9

abbrev pub star_text : List ℕ
star_text = 42 ∷ []

-- "response:"
abbrev pub bare_response : List ℕ
bare_response = 114 ∷ 101 ∷ 115 ∷ 112 ∷ 111 ∷ 110 ∷ 115 ∷ 101 ∷ 58 ∷ []

-- ",response:"
abbrev pub response : List ℕ
response = 44 ∷ bare_response

-- "NO MATCHING FUNC"
abbrev pub no_matching_func : List ℕ
no_matching_func =
    78 ∷ 79 ∷ 32 ∷ 77 ∷ 65 ∷ 84 ∷ 67 ∷ 72 ∷ 73 ∷ 78 ∷ 71 ∷ 32 ∷ 70 ∷ 85 ∷ 78 ∷ 67 ∷ []

-- "PARSING FAIL"
abbrev pub parsing_fail : List ℕ
parsing_fail = 80 ∷ 65 ∷ 82 ∷ 83 ∷ 73 ∷ 78 ∷ 71 ∷ 32 ∷ 70 ∷ 65 ∷ 73 ∷ 76 ∷ []

abbrev pub ok_text : List ℕ
ok_text = 79 ∷ 75 ∷ []

-- `memcmp` with a text: do the bytes start with it?
unfoldable pub starts_with : List ℕ → List ℕ → Bool
starts_with [] hay = true
starts_with (c ∷ cs) [] = false
starts_with (c ∷ cs) (x ∷ xs) = (c == x) && starts_with cs xs

pub same_bytes : List ℕ → List ℕ → Bool
same_bytes [] [] = true
same_bytes [] (y ∷ ys) = false
same_bytes (x ∷ xs) [] = false
same_bytes (x ∷ xs) (y ∷ ys) = (x == y) && same_bytes xs ys

-- The loop of `find_at`.
unfoldable pub find_loop : ℕ → List ℕ → ℕ → ℕ → List ℕ → Option ℕ
unfolding starts_with
find_loop zero hay n i needle = none
find_loop (suc fuel) hay n i needle =
    let rest = find_loop fuel hay n (i + 1) needle in
    if leb (i + length needle) n
    then if starts_with needle (drop i hay) then some i else rest
    else none

unfoldable pub find_at : List ℕ → ℕ → ℕ → List ℕ → Option ℕ
unfolding find_loop
find_at hay n from needle =
    if (length needle == 0) || ltb n (length needle)
    then none
    else find_loop (suc (n - from)) hay n from needle

-- The bytes from `from` to before `to`.
pub span : List ℕ → ℕ → ℕ → List ℕ
span buf from to = take (to - from) (drop from buf)

-- `span_equals`
pub span_equals : List ℕ → ℕ → ℕ → List ℕ → Bool
unfolding span same_bytes
span_equals buf from to cmd = (to - from == length cmd) && same_bytes (span buf from to) cmd

pub is_hex : ℕ → Bool
is_hex c = (leb 48 c && leb c 57) || ((leb 97 c && leb c 102) || (leb 65 c && leb c 70))

pub hex_val : ℕ → ℕ
hex_val c =
    if leb 48 c && leb c 57
    then c - 48
    else if leb 97 c && leb c 102
    then c - 97 + 10
    else c - 65 + 10

pub xor_all : List ℕ → ℕ
xor_all [] = 0
xor_all (x ∷ xs) = bit_xor x (xor_all xs)

unfoldable pub record_valid_at : List ℕ → ℕ → ℕ → ℕ → Bool
unfolding is_hex hex_val xor_all span
record_valid_at buf n from star =
    let hi = get_or buf (star + 1) 0 in
    let lo = get_or buf (star + 2) 0 in
    if leb n (star + 2)
    then false
    else if not (is_hex hi) || not (is_hex lo)
    then false
    else (xor_all (span buf from star) == bit_or (hex_val hi * 16) (hex_val lo))

-- Does the next record, if there is one, start before this index?
pub starts_before : Option ℕ → ℕ → Bool
starts_before none s = false
starts_before (some m) s = ltb m s

-- The search for the delimiter of the record at `from`; `next` is where the next record starts.
unfoldable pub star_loop : ℕ → List ℕ → ℕ → ℕ → Option ℕ → Option ℕ → Option ℕ
unfolding record_valid_at find_at starts_before
star_loop zero buf n from next s = none
star_loop (suc fuel) buf n from next none = none
star_loop (suc fuel) buf n from next (some s) =
    let rest = star_loop fuel buf n from next (find_at buf n (s + 1) star_text) in
    if starts_before next s then none else if record_valid_at buf n from s then some s else rest

-- Where the record ends, if it is complete and no record starts before its end.
unfoldable pub record_end : List ℕ → ℕ → ℕ → Option ℕ
unfolding star_loop find_at starts_before
record_end buf n from =
    let body = from + prefix_len in
    let next = find_at buf n body prefix in
    elim (star_loop (suc n) buf n from next (find_at buf n body star_text)) [
      | none ↦ none
      | some star ↦ if starts_before next star then none else some star
    ]

pub skip_spaces : ℕ → List ℕ → ℕ → ℕ → ℕ
skip_spaces zero buf end v = v
skip_spaces (suc fuel) buf end v =
    let rest = skip_spaces fuel buf end (v + 1) in
    if ltb v end && (get_or buf v 0 == 32) then rest else v

pub trim_end : ℕ → List ℕ → ℕ → ℕ → ℕ
trim_end zero buf v vend = vend
trim_end (suc fuel) buf v vend =
    let rest = trim_end fuel buf v (vend - 1) in
    let last = get_or buf (vend - 1) 0 in
    if ltb v vend && ((last == 32) || (last == 13)) then rest else vend

-- The failure form without an echo: the command stands after the text.
unfoldable pub judge_found : List ℕ → ℕ → ℕ → List ℕ → Verdict → Verdict
unfolding span_equals skip_spaces
judge_found buf func end cmd verdict =
    let cstart = skip_spaces end buf end (func + length no_matching_func) in
    if span_equals buf cstart end cmd then ack_rejected else verdict

unfoldable pub judge_bare : List ℕ → ℕ → ℕ → List ℕ → Verdict → Verdict
unfolding find_at judge_found
judge_bare buf body end cmd verdict = elim (find_at buf end body no_matching_func) [
  | none ↦ verdict
  | some func ↦ judge_found buf func end cmd verdict
]

-- The verdict text of an echoed answer, trimmed.
unfoldable pub judge_text : List ℕ → ℕ → ℕ → Verdict → Verdict
unfolding span_equals skip_spaces trim_end starts_with
judge_text buf from end verdict =
    let v = skip_spaces end buf end from in
    let vend = trim_end end buf v end in
    if leb (v + 12) vend && starts_with parsing_fail (drop v buf)
    then ack_rejected
    else if span_equals buf v vend ok_text
    then ack_ok
    else verdict

unfoldable pub judge_echo : List ℕ → ℕ → ℕ → ℕ → List ℕ → Verdict → Verdict
unfolding span_equals judge_text
judge_echo buf body resp end cmd verdict =
    if span_equals buf body resp cmd
    then judge_text buf (resp + length response) end verdict
    else verdict

-- What the record from `body` to `end` makes of the verdict so far.
unfoldable pub judge : List ℕ → ℕ → ℕ → List ℕ → Verdict → Verdict
unfolding find_at starts_with judge_bare judge_echo
judge buf body end cmd verdict =
    if leb (body + 9) end && starts_with bare_response (drop body buf)
    then judge_bare buf body end cmd verdict
    else elim (find_at buf end body response) [
      | none ↦ verdict
      | some resp ↦ judge_echo buf body resp end cmd verdict
    ]

-- The body of the loop: the position and the verdict after a record, `none` when none is left.
unfoldable pub scan_step : List ℕ → ℕ → List ℕ → ℕ → Verdict → Option (ℕ × Verdict)
unfolding find_at record_end judge
scan_step buf n cmd pos verdict = elim (find_at buf n pos prefix) [
  | none ↦ none
  | some from ↦ elim (record_end buf n from) [
    | none ↦ some (from + prefix_len, verdict)
    | some end ↦ some (end, judge buf (from + prefix_len) end cmd verdict)
  ]
]

unfoldable pub scan_loop : ℕ → List ℕ → ℕ → List ℕ → ℕ → Verdict → Verdict
unfolding scan_step
scan_loop zero buf n cmd pos verdict = verdict
scan_loop (suc fuel) buf n cmd pos verdict = elim (scan_step buf n cmd pos verdict) [
  | none ↦ verdict
  | some (p, v) ↦ scan_loop fuel buf n cmd p v
]

-- `gnss_ack_scan` on a buffer of `n` bytes. Every record advances the position.
unfoldable pub gnss_ack_scan : List ℕ → ℕ → List ℕ → Verdict
unfolding scan_loop
gnss_ack_scan buf n cmd = scan_loop (suc n) buf n cmd 0 ack_none
