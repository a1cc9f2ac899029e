-- ===== src/Dns/Reply.antt =====
-- Any reply of the captive DNS: it fits the buffer, and is never answered itself.
use mathlib.Core.Path.{subst}
use mathlib.Core.List.{List, [], ◌∷◌, ◌++◌, append-nil}
use mathlib.Core.Option.{Option, none, some}
use rtkdata_fw.Base.{ℕ, zero, suc, ◌+◌, ◌-◌, ◌≤◌, bit_and}
use rtkdata_fw.Base.{◌≡◌, refl, inl, inr, arith, Bool, true, false, not}
use rtkdata_fw.Base.{if◌then◌else◌, ltb, leb, ◌==◌, length, take, get_or, Bool-cases, if-case}
use rtkdata_fw.Base.{option-case, length-append, length-take}
use rtkdata_fw.Dns.{reply, respond_at, respond, answer, put16, get16, walk, dns_tx_max}

-- `k` bytes past the header.
abbrev pub past_header : ℕ → ℕ
past_header k = suc (suc (suc (suc (suc (suc (suc (suc (suc (suc (suc (suc k)))))))))))

-- The reply, spelled out: the id, the flags, one question, the count of answers, the question.
pub reply_lem :
    (ip rest : List ℕ) (a0 a1 a2 a3 a4 a5 a6 a7 a8 a9 a10 a11 k q : ℕ)
    → reply ip
        (a0 ∷ a1 ∷ a2 ∷ a3 ∷ a4 ∷ a5 ∷ a6 ∷ a7 ∷ a8 ∷ a9 ∷ a10 ∷ a11 ∷ rest)
        (past_header k)
        q
      ≡ a0
        ∷ a1
        ∷ 0x81
        ∷ 0x80
        ∷ 0
        ∷ 1
        ∷ 0
        ∷ (if q == 1 then 1 else 0)
        ∷ 0
        ∷ 0
        ∷ 0
        ∷ 0
        ∷ (take k rest ++ (if q == 1 then answer ip else []))
unfolding reply put16
reply_lem ip rest a0 a1 a2 a3 a4 a5 a6 a7 a8 a9 a10 a11 k q = elim (Bool-cases (q == 1)) [
  | inl a ↦ rw a refl
  | inr other ↦ rw (other, append-nil (take k rest)) refl
]

-- What a reply to the datagram `rx` is: it fits the send buffer, repeats the id, and carries the
-- flags of a response.
pub record IsReply (rx tx : List ℕ) : Type 0 where
  pub fits : length tx ≤ dns_tx_max
  pub id : take 2 tx ≡ take 2 rx
  pub flags : get16 tx 2 ≡ 0x8180

length-answer : (ip : List ℕ) (b : Bool) → length ip ≡ 4 → length (if b then answer ip else []) ≤ 16
unfolding answer
length-answer ip true h = omega arith
length-answer ip false h = omega arith

reply-IsReply :
    (ip rx : List ℕ) (k q : ℕ)
    → length ip ≡ 4
    → 12 ≤ length rx
    → k ≤ 500
    → IsReply rx (reply ip rx (past_header k) q)
unfolding get16
reply-IsReply ip (a0 ∷ a1 ∷ a2 ∷ a3 ∷ a4 ∷ a5 ∷ a6 ∷ a7 ∷ a8 ∷ a9 ∷ a10 ∷ a11 ∷ rest) k q four h
      le =
    let tail = if q == 1 then answer ip else [] in
    let short = length-answer ip (q == 1) four in
    rw (reply_lem ip rest a0 a1 a2 a3 a4 a5 a6 a7 a8 a9 a10 a11 k q) (record {
      fits = omega (arith, length-append (take k rest) tail, length-take k rest, short);
      id = refl;
      flags = refl;
    })
reply-IsReply ip _ k q four h le = absurd (omega arith)

-- The walk never goes back.
walk-le : (fuel : ℕ) (rx : List ℕ) (p e : ℕ) → walk fuel rx p ≡ some e → p ≤ e
unfolding walk
walk-le zero rx p e h = ground arith
walk-le (suc fuel) rx p e h = ground (arith, walk-le fuel rx (p + get_or rx p 0 + 1) e)

respond_at-IsReply :
    (ip rx : List ℕ) (p : ℕ) (tx : List ℕ)
    → length ip ≡ 4
    → length rx ≤ 512
    → 12 ≤ length rx
    → 12 ≤ p
    → respond_at ip rx p ≡ some tx
    → IsReply rx tx
unfolding respond_at
respond_at-IsReply ip rx p tx four small long far h =
    let P = λ (o : Option (List ℕ)). o ≡ some tx → IsReply rx tx in
    if-case P (leb (length rx) p) (λ _ k. ground arith)
      (λ inside.
        if-case P (ltb (length rx) (p + 1 + 4)) (λ _ k. ground arith)
          (λ whole.
            if-case P (ltb 528 (p + 1 + 4 + 16)) (λ _ k. ground arith)
              (λ _ k.
                let e : p + 1 + 4 ≡ past_header (p - 7) = omega arith in
                subst (IsReply rx) (some_inj k)
                  (rw e (reply-IsReply ip rx (p - 7) _ four long (ground arith))))))
      h
  where
    some_inj : {x y : List ℕ} → some x ≡ some y → x ≡ y
    some_inj h = ground arith

-- A datagram with the response bit gets no reply.
response-unanswered : (ip tx : List ℕ) → get16 tx 2 ≡ 0x8180 → respond ip tx ≡ none
unfolding respond
response-unanswered ip tx flags =
    let bit : (bit_and (get16 tx 2) 0x8000 == 0) ≡ false = rw flags refl in
    if-case (λ (o : Option (List ℕ)). o ≡ none) (ltb (length tx) 12) (λ _. refl) (λ _. rw bit refl)

-- Any reply to a datagram that fits the receive buffer fits the send buffer, repeats the id and has
-- the flags of a response, and no responder of this kind, whatever its address, answers it.
pub respond-IsReply :
    (ip rx tx : List ℕ)
    → length ip ≡ 4
    → length rx ≤ 512
    → respond ip rx ≡ some tx
    → IsReply rx tx × ((ip' : List ℕ) → respond ip' tx ≡ none)
unfolding respond
respond-IsReply ip rx tx four small h = (r, λ ip'. response-unanswered ip' tx r.flags)
  where
    r : IsReply rx tx
    r =
        let P = λ (o : Option (List ℕ)). o ≡ some tx → IsReply rx tx in
        if-case P (ltb (length rx) 12) (λ _ k. ground arith)
          (λ long.
            if-case P (not (bit_and (get16 rx 2) 0x8000 == 0)) (λ _ k. ground arith)
              (λ _.
                if-case P (not (get16 rx 4 == 1)) (λ _ k. ground arith)
                  (λ _.
                    option-case P (walk (length rx) rx 12) (λ _ k. ground arith)
                      (λ p w.
                        respond_at-IsReply ip rx p tx four small (ground arith)
                          (walk-le (length rx) rx 12 p w)))))
          h
