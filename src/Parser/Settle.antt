-- ===== src/Parser/Settle.antt =====
-- The invariant that `parser_process` leaves and `rtcm_parser_feed` relies on, and what the
-- resynchronisation does to the buffer.
use mathlib.Core.List.{List, [], ◌∷◌}
use rtkdata_fw.Base.{ℕ, zero, suc, ◌+◌, ◌-◌, ◌*◌, ◌%◌, ◌≤◌, ◌<◌, bit_and}
use rtkdata_fw.Base.{◌≡◌, refl, ap, sym, ◌∙◌, inl, inr, arith, Bool-cases}
use rtkdata_fw.Base.{◌==◌, u64, length, get_or, drop, All, IsByte}
use rtkdata_fw.Base.{length-drop, drop-drop, All-drop}
use rtkdata_fw.Base.Bits.{bit_and_mask, bit_or_fields}
use rtkdata_fw.Parser.{Parser, preamble, frame_need, hunt_index, hunt_in_buf}

-- The buffer is empty or starts with a preamble.
abbrev pub HeadOk : List ℕ → Type 0
HeadOk [] = Unit
HeadOk (x ∷ xs) = x ≡ preamble

-- The three cases that the comment above `parser_process` lists.
pub record IsSettled (p : Parser) : Type 0 where
  pub head : HeadOk p.buf
  pub bytes : All IsByte p.buf
  pub short : length p.buf < 3 → p.need ≡ 0
  pub long :
      3 ≤ length p.buf
      → (bit_and (get_or p.buf 1 0) 0xFC ≡ 0)
        × (p.need ≡ frame_need p.buf)
        × (length p.buf < p.need)

pub get_or-IsByte : (xs : List ℕ) (i : ℕ) → All IsByte xs → get_or xs i 0 < 256
get_or-IsByte [] i h = omega arith
get_or-IsByte (x ∷ xs) zero h = h.0
get_or-IsByte (x ∷ xs) (suc i) h = get_or-IsByte xs i h.1

-- The announced length in arithmetic.
pub frame_need_lem :
    (buf : List ℕ) → All IsByte buf → frame_need buf ≡ get_or buf 1 0 % 4 * 256 + get_or buf 2 0 + 6
frame_need_lem buf h = omega (
  arith,
  bit_or_fields 8 (bit_and (get_or buf 1 0) 0x03) (get_or buf 2 0) (get_or-IsByte buf 2 h),
  bit_and_mask 2 (get_or buf 1 0),
  get_or-IsByte buf 2 h,
)

pub hunt_index_lem :
    (xs : List ℕ) (i : ℕ)
    → (i ≤ hunt_index xs i)
      × (hunt_index xs i ≤ i + length xs)
      × HeadOk (drop (hunt_index xs i - i) xs)
unfolding hunt_index
hunt_index_lem [] i = (omega arith, omega arith, head (i - i))
  where
    head : (k : ℕ) → HeadOk (drop k [])
    head zero = tt
    head (suc k) = tt
hunt_index_lem (x ∷ xs) i = elim (Bool-cases (x == preamble)) [
  | inl e ↦ let z : i - i ≡ 0 = omega arith in rw e (omega arith, omega arith, rw z (ground arith))
  | inr e ↦
      let ih = hunt_index_lem xs (i + 1) in
      let z : hunt_index xs (i + 1) - i ≡ suc (hunt_index xs (i + 1) - (i + 1)) = omega arith in
      rw e (omega arith, omega arith, rw z ih.2)
]

-- The scan from `from` on discards that many bytes at least, loses none of the rest, and leaves
-- a buffer that starts with a preamble.
pub record Hunted (p : Parser) (from : ℕ) (q : Parser) : Type 0 where
  pub head : HeadOk q.buf
  pub bytes : All IsByte q.buf
  pub gone : ℕ
  pub enough : from ≤ gone
  pub balance : length q.buf + gone ≡ length p.buf
  pub discarded : q.bytes_discarded ≡ u64 (p.bytes_discarded + gone)
  pub kept : q.bytes_ok ≡ p.bytes_ok
  pub cleared : q.need ≡ 0

pub hunt_in_buf-Hunted :
    (p : Parser) (from : ℕ)
    → All IsByte p.buf
    → from ≤ length p.buf
    → Hunted p from (hunt_in_buf p from)
unfolding hunt_in_buf
hunt_in_buf-Hunted p from bytes fits =
    let i = hunt_index (drop from p.buf) from in
    let facts = hunt_index_lem (drop from p.buf) from in
    let shift : from + (i - from) ≡ i = omega arith in
    record {
      head =
          rw (sym (ap (λ k. drop k p.buf) shift) ∙ sym (drop-drop from (i - from) p.buf)) facts.2;
      bytes = All-drop IsByte i p.buf bytes;
      gone = i;
      enough = facts.0;
      balance = omega (arith, length-drop i p.buf, length-drop from p.buf);
      discarded = refl;
      kept = refl;
      cleared = refl;
    }
