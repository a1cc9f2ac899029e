-- ===== src/Tests/Memory.antt =====
-- An `Nvs` for the tests: a cell for each key, in which a write replaces what was there.
use mathlib.Core.List.{List}
use rtkdata_fw.Base.{ℕ, ◌≡◌, ◌≢◌, refl, arith, true, if◌then◌else◌, ◌==◌}
use rtkdata_fw.Config.{Nvs, Found, found, not_found, refused, Kind}

pub data Cell : Type 0 where
  empty : Cell
  number : ℕ → Cell
  text : List ℕ → Cell
  bytes : List ℕ → Cell

unfoldable pub put : ℕ → Cell → (ℕ → Cell) → ℕ → Cell
put key c st other = if key == other then c else st other

unfoldable pub as_number : Cell → Found ℕ
as_number empty = not_found
as_number (number v) = found v
as_number _ = refused

unfoldable pub as_text : Cell → Found (List ℕ)
as_text empty = not_found
as_text (text v) = found v
as_text _ = refused

unfoldable pub as_bytes : Cell → Found (List ℕ)
as_bytes empty = not_found
as_bytes (bytes v) = found v
as_bytes _ = refused

put-same : (key : ℕ) (c : Cell) (st : ℕ → Cell) → put key c st key ≡ c
unfolding put
put-same key c st = ground arith

put-other :
    (key : ℕ) (c : Cell) (st : ℕ → Cell) (other : ℕ) → key ≢ other → put key c st other ≡ st other
unfolding put
put-other key c st other ne = ground arith

pub put-apart :
    (key : ℕ) (c : Cell) (other : ℕ) (st : ℕ → Cell)
    → key ≢ other
    → ((k : Kind) → as_number (put key c st other) ≡ as_number (st other))
      × (as_text (put key c st other) ≡ as_text (st other))
      × (as_bytes (put key c st other) ≡ as_bytes (st other))
put-apart key c other st ne = rw (put-other key c st other ne) (λ _. refl, refl, refl)

pub number_read : (key v : ℕ) (st : ℕ → Cell) → as_number (put key (number v) st key) ≡ found v
unfolding as_number
number_read key v st = rw (put-same key (number v) st) refl

pub text_read : (key : ℕ) (v : List ℕ) (st : ℕ → Cell) → as_text (put key (text v) st key) ≡ found v
unfolding as_text
text_read key v st = rw (put-same key (text v) st) refl

abbrev pub memory : Nvs
memory = record {
  Store = ℕ → Cell;
  set_num = λ k key v st. (true, put key (number v) st);
  get_num = λ k key st. as_number (st key);
  set_text = λ key v st. (true, put key (text v) st);
  get_text = λ key st. as_text (st key);
  set_blob = λ key v st. (true, put key (bytes v) st);
  get_blob = λ key st. as_bytes (st key);
  erase = λ key st. put key empty st;
  num-written = λ k key v st h. number_read key v st;
  text-written = λ key v st h. text_read key v st;
  num_apart = λ kind key v other st ne. put-apart key (number v) other st ne;
  text_apart = λ key v other st ne. put-apart key (text v) other st ne;
  blob_apart = λ key v other st ne. put-apart key (bytes v) other st ne;
  erase_apart = λ key other st ne. put-apart key empty other st ne;
}

abbrev pub blank : ℕ → Cell
blank key = empty
