-- ===== src/GnssAck/Record.antt =====
-- What the search for the delimiter in main/gnss_ack.c takes for a complete record.
use mathlib.Core.List.{List, [], ◌∷◌}
use rtkdata_fw.Base.{◌-◌, ◌*◌, ◌<◌, sym, ◌∙◌, inl, inr, Bool, not, ◌&&◌, ◌||◌, false, leb, ==_iff}
use rtkdata_fw.Base.{Bool-cases, bit_xor, bit_or, get_or, take, drop}
use rtkdata_fw.Base.Bits.{bit_or_fields}
use rtkdata_fw.Base.Xor.{xor_assoc, xor-zero, zero-xor}
use rtkdata_fw.GnssAck.{is_hex, hex_val, xor_all, span}
use mathlib.Core.Option.{Option, none, some}
use mathlib.Core.Path.{subst}
use rtkdata_fw.Base.{ℕ, zero, suc, ◌+◌, ◌≤◌, ◌≡◌, refl, arith}
use rtkdata_fw.Base.{true, if-case, option-case}
use rtkdata_fw.GnssAck.{prefix, prefix_len, star_text}
use rtkdata_fw.GnssAck.{find_at}
use rtkdata_fw.GnssAck.{record_valid_at, starts_before, star_loop, record_end}
use rtkdata_fw.GnssAck.Search.{Matches, find_at-First, absurd_none, some_inj}

-- The value of a hexadecimal digit.
pub data Digit (c v : ℕ) : Type 0 where
  decimal : c ≡ 48 + v → v < 10 → Digit c v
  lower : c ≡ 87 + v → 10 ≤ v → v < 16 → Digit c v
  upper : c ≡ 55 + v → 10 ≤ v → v < 16 → Digit c v

-- The running XOR of the bytes, from the first on.
abbrev pub running_xor : ℕ → List ℕ → ℕ
running_xor sum [] = sum
running_xor sum (x ∷ xs) = running_xor (bit_xor sum x) xs

-- Behind the delimiter at `end` stand two hexadecimal digits, the high one first, that spell the XOR
-- of the bytes from `from` up to the delimiter.
pub record IsChecked (buf : List ℕ) (n from end : ℕ) : Type 0 where
  pub high : ℕ
  pub low : ℕ
  pub fits : end + 2 < n
  pub high_digit : Digit (get_or buf (end + 1) 0) high
  pub low_digit : Digit (get_or buf (end + 2) 0) low
  pub sum : running_xor 0 (take (end - from) (drop from buf)) ≡ 16 * high + low

Digit-of : (c : ℕ) → is_hex c ≡ true → Digit c (hex_val c)
unfolding is_hex hex_val
Digit-of c h = elim (Bool-cases (leb 48 c && leb c 57)) [
  | inl d ↦ rw d (decimal (ground arith) (ground arith))
  | inr d ↦ rw d (elim (Bool-cases (leb 97 c && leb c 102)) [
    | inl l ↦ rw l (lower (ground arith) (ground arith) (ground arith))
    | inr l ↦ rw l (upper (ground arith) (ground arith) (ground arith))
  ])
]

both : (a b : Bool) → (not a || not b) ≡ false → (a ≡ true) × (b ≡ true)
both true true h = (refl, refl)
both true false h = absurd (ground arith)
both false b h = absurd (ground arith)

running_xor-xor_all : (sum : ℕ) (l : List ℕ) → running_xor sum l ≡ bit_xor sum (xor_all l)
unfolding xor_all
running_xor-xor_all sum [] = sym (xor-zero sum)
running_xor-xor_all sum (x ∷ xs) =
    running_xor-xor_all (bit_xor sum x) xs ∙ xor_assoc sum x (xor_all xs)

Digit-lt : (c v : ℕ) → Digit c v → v < 16
Digit-lt c v (decimal e h) = omega (arith, h)
Digit-lt c v (lower e l h) = omega (arith, h)
Digit-lt c v (upper e l h) = omega (arith, h)

record_valid_at-IsChecked :
    (buf : List ℕ) (n from end : ℕ)
    → record_valid_at buf n from end ≡ true
    → IsChecked buf n from end
unfolding record_valid_at span
record_valid_at-IsChecked buf n from end h =
    let hi = get_or buf (end + 1) 0 in
    let lo = get_or buf (end + 2) 0 in
    let P = λ (b : Bool). b ≡ true → IsChecked buf n from end in
    if-case P (leb n (end + 2)) (λ _ k. absurd (ground arith))
      (λ room.
        if-case P (not (is_hex hi) || not (is_hex lo)) (λ _ k. absurd (ground arith))
          (λ hex k.
            let a = Digit-of hi (both (is_hex hi) (is_hex lo) hex).0 in
            let b = Digit-of lo (both (is_hex hi) (is_hex lo) hex).1 in
            record {
              high = hex_val hi;
              low = hex_val lo;
              fits = ground (arith, room);
              high_digit = a;
              low_digit = b;
              sum =
                  running_xor-xor_all 0 (span buf from end)
                  ∙ zero-xor (xor_all (span buf from end))
                  ∙ (==_iff (xor_all (span buf from end)) (bit_or (hex_val hi * 16) (hex_val lo))).0
                      k
                  ∙ bit_or_fields 4 (hex_val hi) (hex_val lo) (Digit-lt lo (hex_val lo) b)
                  ∙ omega arith;
            }))
      h

-- A complete record: the prefix, a delimiter with its two digits inside the buffer, and the right
-- checksum.
pub record IsRecord (buf : List ℕ) (n from end : ℕ) : Type 0 where
  pub start : Matches buf n prefix from
  pub body : from + prefix_len ≤ end
  pub delimiter : Matches buf n star_text end
  pub checksum : IsChecked buf n from end

star_loop-delimiter :
    (fuel : ℕ) (buf : List ℕ) (n from : ℕ) (next at : Option ℕ) (body e : ℕ)
    → ((k : ℕ) → at ≡ some k → (body ≤ k) × Matches buf n star_text k)
    → star_loop fuel buf n from next at ≡ some e
    → (body ≤ e) × (Matches buf n star_text e × (record_valid_at buf n from e ≡ true))
unfolding star_loop
star_loop-delimiter zero buf n from next at body e m h = absurd_none h
star_loop-delimiter (suc fuel) buf n from next none body e m h = absurd_none h
star_loop-delimiter (suc fuel) buf n from next (some s) body e m h =
    let b = starts_before next s in
    let rest = star_loop fuel buf n from next (find_at buf n (s + 1) star_text) in
    let ms = m s refl in
    let P = λ (o : Option ℕ).
      o ≡ some e
      → (body ≤ e) × (Matches buf n star_text e × (record_valid_at buf n from e ≡ true)) in
    if-case P b (λ _ k. absurd_none k)
      (λ _.
        if-case P (record_valid_at buf n from s)
          (λ v k.
            subst
              (λ x.
                (body ≤ x) × (Matches buf n star_text x × (record_valid_at buf n from x ≡ true)))
              (some_inj k) (ms.0, (ms.1, v)))
          (λ v k.
            star_loop-delimiter fuel buf n from next (find_at buf n (s + 1) star_text) body e
              (λ j q.
                let f = find_at-First buf n (s + 1) star_text j q in (later ms.0 f.from, f.here))
              k))
      h
  where
    later : {a b c : ℕ} → a ≤ b → b + 1 ≤ c → a ≤ c
    later h k = omega arith

pub record_end-IsRecord :
    (buf : List ℕ) (n from e : ℕ)
    → Matches buf n prefix from
    → record_end buf n from ≡ some e
    → IsRecord buf n from e
unfolding record_end
record_end-IsRecord buf n from e m h =
    let body = from + prefix_len in
    let next = find_at buf n body prefix in
    let o = star_loop (suc n) buf n from next (find_at buf n body star_text) in
    let P = λ (r : Option ℕ). r ≡ some e → IsRecord buf n from e in
    option-case P o (λ _ k. absurd_none k)
      (λ s q.
        if-case P (starts_before next s) (λ _ k. absurd_none k)
          (λ _ k.
            let d =
              star_loop-delimiter (suc n) buf n from next (find_at buf n body star_text) body s
                (λ j w. let f = find_at-First buf n body star_text j w in (f.from, f.here)) q in
            subst (λ x. IsRecord buf n from x) (some_inj k)
              (record {
                start = m;
                body = d.0;
                delimiter = d.1.0;
                checksum = record_valid_at-IsChecked buf n from s d.1.1;
              })))
      h
