-- ===== src/Parser/Bytewise.antt =====
-- The byte-at-a-time reference keeps the invariant and accounts for every byte.
use mathlib.Core.List.{List, [], ◌∷◌, ◌++◌}
use rtkdata_fw.Base.{ℕ, suc, ◌+◌, ◌≤◌, ◌<◌}
use rtkdata_fw.Base.{◌≡◌, ◌≢◌, refl, inl, inr, arith, Bool-cases}
use rtkdata_fw.Base.{◌==◌, u64, length, All, IsByte}
use rtkdata_fw.Base.{length-append, All-append, get_or-append_left}
use rtkdata_fw.Parser.{Parser, preamble, target, feed_byte, feed_bytes}
use rtkdata_fw.Parser.Settle.{HeadOk, IsSettled, frame_need_lem, get_or-IsByte}
use rtkdata_fw.Parser.Process.{accounted, IsReady, process-Processed}

pub HeadOk-append : (xs ys : List ℕ) → length xs ≢ 0 → HeadOk xs → HeadOk (xs ++ ys)
HeadOk-append [] ys n h = absurd (n refl)
HeadOk-append (x ∷ xs) ys n h = h

-- The next decision point lies ahead of the buffer, within a frame's maximum.
pub target_bounds : {p : Parser} → IsSettled p → (length p.buf < target p) × (target p ≤ 1029)
target_bounds {p} v =
    ground (arith, v.long, frame_need_lem p.buf v.bytes, get_or-IsByte p.buf 2 v.bytes)

-- Bytes that do not reach the decision point are only appended.
pub push-IsSettled :
    (p : Parser) (front : List ℕ)
    → IsSettled p
    → All IsByte front
    → length p.buf ≢ 0
    → length p.buf + length front < target p
    → IsSettled (record p { buf = p.buf ++ front })
push-IsSettled p front v b n h =
    let grown : length (p.buf ++ front) ≡ length p.buf + length front = length-append p.buf front in
    record {
      head = HeadOk-append p.buf front n v.head;
      bytes = All-append IsByte p.buf front v.bytes b;
      short = λ k. v.short (omega arith);
      long = λ k.
          let old : 3 ≤ length p.buf = ground arith in
          let same1 = get_or-append_left p.buf front 1 0 (omega arith) in
          let same2 = get_or-append_left p.buf front 2 0 (omega arith) in
          rw (same1, same2) ((v.long old).0, (v.long old).1, ground arith);
    }

pub push_byte-IsSettled :
    (p : Parser) (x : ℕ)
    → IsSettled p
    → x < 256
    → length p.buf ≢ 0
    → suc (length p.buf) < target p
    → IsSettled (record p { buf = p.buf ++ (x ∷ []) })
push_byte-IsSettled p x v b n h = push-IsSettled p (x ∷ []) v (b, tt) n (omega arith)

pub grown-IsReady :
    (p : Parser) (front : List ℕ)
    → IsSettled p
    → All IsByte front
    → length p.buf ≢ 0
    → IsReady (record p { buf = p.buf ++ front })
grown-IsReady p front v b n = record {
  head = HeadOk-append p.buf front n v.head;
  bytes = All-append IsByte p.buf front v.bytes b;
}

-- Out of a frame.
pub empty-IsSettled :
    (p : Parser) (k : ℕ)
    → IsSettled p
    → length p.buf ≡ 0
    → IsSettled (record p { bytes_discarded = k })
empty-IsSettled p k v e = record { head = v.head; bytes = v.bytes; short = v.short; long = v.long }

pub start-IsSettled :
    (p : Parser) → IsSettled p → length p.buf ≡ 0 → IsSettled (record p { buf = preamble ∷ [] })
start-IsSettled p v e = record {
  head = refl;
  bytes = (omega arith, tt);
  short = λ _. v.short (omega arith);
  long = λ k. absurd (omega arith);
}

module _ {S : Type 0} (cb : List ℕ → ℕ → S → S) (now : ℕ) where
  pub record ByteOk (p : Parser) (n : ℕ) (q : Parser) : Type 0 where
    pub settled : IsSettled q
    pub account : accounted q ≡ u64 (accounted p + n)

  pub feed_byte-ByteOk :
      (p : Parser) (x : ℕ) (s : S) → IsSettled p → x < 256 → ByteOk p 1 (feed_byte cb now p x s).0
  unfolding feed_byte
  feed_byte-ByteOk p x s v b = elim (Bool-cases (length p.buf == 0)) [
    | inl none_yet ↦ rw none_yet (elim (Bool-cases (x == preamble)) [
      | inl e ↦
          rw e (record { settled = start-IsSettled p v (ground arith); account = ground arith })
      | inr e ↦ rw e (record {
        settled = empty-IsSettled p (u64 (p.bytes_discarded + 1)) v (ground arith);
        account = ground arith;
      })
    ])
    | inr some_held ↦
        let held : length p.buf ≢ 0 = ground arith in
        let grown : length (p.buf ++ (x ∷ [])) ≡ length p.buf + 1 = length-append p.buf (x ∷ []) in
        let q : Parser = record p { buf = p.buf ++ (x ∷ []) } in
        rw some_held (elim (Bool-cases (length (p.buf ++ (x ∷ [])) == target p)) [
          | inl due ↦
              let r = process-Processed cb now q s (grown-IsReady p (x ∷ []) v (b, tt) held) in
              rw due (record { settled = r.settled; account = omega (arith, r.account) })
          | inr early ↦ rw early (record {
            settled = push_byte-IsSettled p x v b held (ground (arith, target_bounds v));
            account = omega arith;
          })
        ])
  ]

  pub feed_bytes-ByteOk :
      (p : Parser) (xs : List ℕ) (s : S)
      → IsSettled p
      → All IsByte xs
      → ByteOk p (length xs) (feed_bytes cb now p xs s).0
  unfolding feed_bytes
  feed_bytes-ByteOk p [] s v b = record { settled = v; account = omega arith }
  feed_bytes-ByteOk p (x ∷ xs) s v b =
      let r = feed_byte-ByteOk p x s v b.0 in
      let (q, t) = feed_byte cb now p x s in
      let rest = feed_bytes-ByteOk q xs t r.settled b.1 in
      record { settled = rest.settled; account = omega (arith, r.account, rest.account) }

  pub feed_bytes-append :
      (p : Parser) (xs ys : List ℕ) (s : S)
      → feed_bytes cb now p (xs ++ ys) s
        ≡ (let (q, t) = feed_bytes cb now p xs s in feed_bytes cb now q ys t)
  unfolding feed_bytes
  feed_bytes-append p [] ys s = refl
  feed_bytes-append p (x ∷ xs) ys s =
      let (q, t) = feed_byte cb now p x s in feed_bytes-append q xs ys t
