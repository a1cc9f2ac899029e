-- ===== src/Dns/Query.antt =====
-- Queries as a resolver writes them, and what the captive DNS answers.
use mathlib.Core.List.{List, [], ◌∷◌, ◌++◌, append_assoc}
use mathlib.Core.Option.{some}
use rtkdata_fw.Base.{ℕ, zero, suc, ◌+◌, ◌*◌, ◌^◌, ◌≤◌, ◌<◌, bit_and, bit_or}
use rtkdata_fw.Base.{◌≡◌, refl, ap, sym, ◌∙◌, arith, true, false, not, ◌&&◌}
use rtkdata_fw.Base.{if◌then◌else◌, ltb, leb, ◌==◌, u16, length, get_or, All}
use rtkdata_fw.Base.{length-append, get_or-append_right, take-append_exact}
use rtkdata_fw.Base.Bits.{bit_or_fields}
use rtkdata_fw.Dns.{respond, respond_at, reply, answer, get16, walk}
use rtkdata_fw.Dns.Bytes.{plain_label, response_bit}
use rtkdata_fw.Dns.Reply.{reply_lem, past_header}

-- A name is its labels, each of 1 to 63 bytes.
abbrev pub IsLabel : List ℕ → Type 0
IsLabel l = (0 < length l) × (length l < 64)

unfoldable pub encode_labels : List (List ℕ) → List ℕ
encode_labels [] = []
encode_labels (l ∷ ls) = length l ∷ (l ++ encode_labels ls)

-- A query with one question: the id, the flags, the other three counts, the name, QTYPE and QCLASS
-- (high and low byte), and what else the datagram carries.
pub record Query : Type 0 where
  pub id_high : ℕ
  pub id_low : ℕ
  pub flags_high : ℕ
  pub flags_low : ℕ
  pub an_high : ℕ
  pub an_low : ℕ
  pub ns_high : ℕ
  pub ns_low : ℕ
  pub ar_high : ℕ
  pub ar_low : ℕ
  pub labels : List (List ℕ)
  pub type_high : ℕ
  pub type_low : ℕ
  pub class_high : ℕ
  pub class_low : ℕ
  pub extra : List ℕ

unfoldable pub question : Query → List ℕ
unfolding encode_labels
question q =
    encode_labels q.labels ++ 0 ∷ q.type_high ∷ q.type_low ∷ q.class_high ∷ q.class_low ∷ []

unfoldable pub encode : Query → List ℕ
unfolding question
encode q =
    q.id_high
    ∷ q.id_low
    ∷ q.flags_high
    ∷ q.flags_low
    ∷ 0
    ∷ 1
    ∷ q.an_high
    ∷ q.an_low
    ∷ q.ns_high
    ∷ q.ns_low
    ∷ q.ar_high
    ∷ q.ar_low
    ∷ (question q ++ q.extra)

pub record IsQuery (q : Query) : Type 0 where
  pub asks : q.flags_high < 128
  pub flags_byte : q.flags_low < 256
  pub names : All IsLabel q.labels
  pub type_high_byte : q.type_high < 256
  pub type_low_byte : q.type_low < 256
  pub fits : length (encode q) ≤ 512

-- The reply that the query is owed.
unfoldable pub reply_to : List ℕ → Query → List ℕ
unfolding question
reply_to ip q =
    let is_a = q.type_high * 256 + q.type_low == 1 in
    q.id_high
    ∷ q.id_low
    ∷ 0x81
    ∷ 0x80
    ∷ 0
    ∷ 1
    ∷ 0
    ∷ (if is_a then 1 else 0)
    ∷ 0
    ∷ 0
    ∷ 0
    ∷ 0
    ∷ (question q ++ (if is_a then answer ip else []))

walk-end : (fuel : ℕ) (rx : List ℕ) (p : ℕ) → get_or rx p 0 ≡ 0 → walk (suc fuel) rx p ≡ some p
unfolding walk
walk-end fuel rx p e = ground arith

walk-step :
    (fuel : ℕ) (rx : List ℕ) (p n : ℕ)
    → get_or rx p 0 ≡ n
    → p < length rx
    → 0 < n
    → n < 64
    → walk (suc fuel) rx p ≡ walk fuel rx (p + n + 1)
unfolding walk
walk-step fuel rx p n e inside pos small =
    let on : (ltb p (length rx) && not (n == 0)) ≡ true = ground arith in
    rw e (rw on (rw (plain_label n small) refl))

byte_at : (pre : List ℕ) (x : ℕ) (rest : List ℕ) → get_or (pre ++ x ∷ rest) (length pre) 0 ≡ x
byte_at pre x rest =
    ap (λ (i : ℕ). get_or (pre ++ x ∷ rest) i 0) (omega arith)
    ∙ get_or-append_right pre (x ∷ rest) 0 0

-- The walk crosses the labels and stops at the byte 0 behind them.
walk-labels :
    (labels : List (List ℕ)) (fuel : ℕ) (pre rest : List ℕ)
    → All IsLabel labels
    → length (encode_labels labels) ≤ fuel
    → walk fuel (pre ++ (encode_labels labels ++ 0 ∷ rest)) (length pre)
      ≡ some (length pre + length (encode_labels labels))
unfolding encode_labels
walk-labels [] zero pre rest v h = unfold walk in ap some (omega arith)
walk-labels [] (suc fuel) pre rest v h =
    walk-end fuel (pre ++ 0 ∷ rest) (length pre) (byte_at pre 0 rest) ∙ ap some (omega arith)
walk-labels (l ∷ ls) zero pre rest v h = absurd (omega arith)
walk-labels (l ∷ ls) (suc fuel) pre rest v h =
    let n = length l in
    let tail = encode_labels ls ++ 0 ∷ rest in
    let rx = pre ++ n ∷ ((l ++ encode_labels ls) ++ 0 ∷ rest) in
    let past = pre ++ n ∷ l in
    let regroup : rx ≡ past ++ tail =
      ap (λ (t : List ℕ). pre ++ n ∷ t) (append_assoc l (encode_labels ls) (0 ∷ rest))
      ∙ sym (append_assoc pre (n ∷ l) tail) in
    let there : length past ≡ length pre + n + 1 = omega (arith, length-append pre (n ∷ l)) in
    walk-step fuel rx (length pre) n (byte_at pre n _)
      (omega (arith, length-append pre (n ∷ ((l ++ encode_labels ls) ++ 0 ∷ rest)))) v.0.0 v.0.1
    ∙ ap (walk fuel rx) (sym there)
    ∙ ap (λ (r : List ℕ). walk fuel r (length past)) regroup
    ∙ walk-labels ls fuel past rest v.1 (omega (arith, length-append l (encode_labels ls)))
    ∙ ap some (omega (arith, there, length-append l (encode_labels ls)))

passes-checks :
    (ip rx : List ℕ) (p : ℕ)
    → 12 ≤ length rx
    → (bit_and (get16 rx 2) 0x8000 == 0) ≡ true
    → get16 rx 4 ≡ 1
    → walk (length rx) rx 12 ≡ some p
    → respond ip rx ≡ respond_at ip rx p
unfolding respond
passes-checks ip rx p long query one w =
    let enough : ltb (length rx) 12 ≡ false = ground arith in
    rw enough (rw query (rw one (rw w refl)))

passes-bounds :
    (ip rx : List ℕ) (p high low : ℕ)
    → p + 5 ≤ length rx
    → length rx ≤ 512
    → get_or rx (p + 1) 0 ≡ high
    → get_or rx (p + 2) 0 ≡ low
    → high < 256
    → low < 256
    → respond_at ip rx p ≡ some (reply ip rx (p + 1 + 4) (high * 256 + low))
unfolding respond_at
passes-bounds ip rx p high low inside small eh el bh bl =
    let a : leb (length rx) p ≡ false = ground arith in
    let b : ltb (length rx) (p + 1 + 4) ≡ false = ground arith in
    let c : ltb 528 (p + 1 + 4 + 16) ≡ false = ground arith in
    let t : u16 (bit_or (high * 2 ^ 8) low) ≡ high * 256 + low =
      omega (arith, bit_or_fields 8 high low bl) in
    rw a (rw b (rw c (rw eh (rw el (rw t refl)))))

module _ (q : Query) (v : IsQuery q) where
  abbrev header : List ℕ
  header =
      q.id_high ∷ q.id_low ∷ q.flags_high ∷ q.flags_low ∷ 0 ∷ 1 ∷ q.an_high ∷ q.an_low ∷ q.ns_high
      ∷ q.ns_low ∷ q.ar_high ∷ q.ar_low ∷ []

  abbrev after_name : List ℕ
  after_name = q.type_high ∷ q.type_low ∷ q.class_high ∷ q.class_low ∷ q.extra

  abbrev name_len : ℕ
  name_len = length (encode_labels q.labels)

  encode_lem : encode q ≡ header ++ (encode_labels q.labels ++ 0 ∷ after_name)
  unfolding encode question
  encode_lem =
      ap (λ (t : List ℕ). header ++ t)
        (append_assoc (encode_labels q.labels)
          (0 ∷ q.type_high ∷ q.type_low ∷ q.class_high ∷ q.class_low ∷ []) q.extra)

  length-encode : length (encode q) ≡ 12 + name_len + 5 + length q.extra
  length-encode =
      omega (arith, ap length encode_lem, length-append (encode_labels q.labels) (0 ∷ after_name))

  walk-encode : walk (length (encode q)) (encode q) 12 ≡ some (12 + name_len)
  walk-encode =
      ap (λ (rx : List ℕ). walk (length (encode q)) rx 12) encode_lem
      ∙ walk-labels q.labels (length (encode q)) header after_name v.names
          (omega (arith, length-encode))

  after-encode : (k : ℕ) → get_or (encode q) (12 + name_len + k) 0 ≡ get_or (0 ∷ after_name) k 0
  after-encode k =
      let e : 12 + name_len + k ≡ length header + (name_len + k) = omega arith in
      ap (λ (rx : List ℕ). get_or rx (12 + name_len + k) 0) encode_lem
      ∙ ap (λ (i : ℕ). get_or (header ++ (encode_labels q.labels ++ 0 ∷ after_name)) i 0) e
      ∙ get_or-append_right header (encode_labels q.labels ++ 0 ∷ after_name) (name_len + k) 0
      ∙ get_or-append_right (encode_labels q.labels) (0 ∷ after_name) k 0

  length-question : length (question q) ≡ name_len + 5
  unfolding question
  length-question = omega (
    arith,
    length-append (encode_labels q.labels)
        (0 ∷ q.type_high ∷ q.type_low ∷ q.class_high ∷ q.class_low ∷ []),
  )

  reply-encode :
      (ip : List ℕ)
      → reply ip (encode q) (12 + name_len + 1 + 4) (q.type_high * 256 + q.type_low) ≡ reply_to ip q
  unfolding encode reply_to
  reply-encode ip =
      let t = q.type_high * 256 + q.type_low in
      let k : 12 + name_len + 1 + 4 ≡ past_header (length (question q)) =
        omega (arith, length-question) in
      rw k (
        reply_lem ip (question q ++ q.extra) q.id_high q.id_low q.flags_high q.flags_low 0 1
          q.an_high q.an_low q.ns_high q.ns_low q.ar_high q.ar_low (length (question q)) t
        ∙ ap
            (λ (asked : List ℕ).
              q.id_high
              ∷ q.id_low
              ∷ 0x81
              ∷ 0x80
              ∷ 0
              ∷ 1
              ∷ 0
              ∷ (if t == 1 then 1 else 0)
              ∷ 0
              ∷ 0
              ∷ 0
              ∷ 0
              ∷ (asked ++ (if t == 1 then answer ip else [])))
            (take-append_exact (question q) q.extra))

  flags-encode : (bit_and (get16 (encode q) 2) 0x8000 == 0) ≡ true
  unfolding encode get16
  flags-encode =
      response_bit (q.flags_high * 256 + q.flags_low) (omega (arith, v.asks, v.flags_byte))
      ∙ ground (arith, v.asks, v.flags_byte)

  one-encode : get16 (encode q) 4 ≡ 1
  unfolding encode get16
  one-encode = refl

pub respond-encode :
    (ip : List ℕ) (q : Query) → IsQuery q → respond ip (encode q) ≡ some (reply_to ip q)
respond-encode ip q v =
    let p = 12 + name_len q v in
    passes-checks ip (encode q) p (omega (arith, length-encode q v)) (flags-encode q v)
      (one-encode q v) (walk-encode q v)
    ∙ passes-bounds ip (encode q) p q.type_high q.type_low (omega (arith, length-encode q v)) v.fits
        (after-encode q v 1) (after-encode q v 2) v.type_high_byte v.type_low_byte
    ∙ ap some (reply-encode q v ip)
