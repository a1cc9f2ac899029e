-- ===== src/Retry/Backoff.antt =====
-- The backoff of main/retry.c: how the delays of successive attempts compare, and their bounds.
use mathlib.Core.List.{List, [], ◌∷◌}
use mathlib.Core.Path.{subst}
use mathlib.Core.Option.{some}
use rtkdata_fw.Base.{
  ℕ, zero, suc, ◌+◌, ◌-◌, ◌≤◌, ◌<◌, ◌≡◌, ◌⊎◌, inl, inr, refl, max, min, arith, if◌then◌else◌, ltb,
  ◌==◌,
}
use rtkdata_fw.Base.{
  ◌&&◌, Bool, true, false, length, get_or, drop, Bool-cases, ltb→lt, leb→le, leb, and_left,
  and_right, if-case, absurd_bool, sym, ap, ◌∙◌, u16,
}
use rtkdata_fw.Retry.{
  delays, delays_count, RetryDelay, first_not_below, retry_init, cap, from_table, delay,
  retry_delay,
}

-- Each entry is at most the one after it.
abbrev ascending : ℕ → List ℕ → Bool
ascending x [] = true
ascending x (y ∷ ys) = leb x y && ascending y ys

≤-via : {a b c : ℕ} → a ≤ b → b ≤ c → a ≤ c
≤-via h k = omega arith

first-le : (x : ℕ) (xs : List ℕ) (j : ℕ) → ascending x xs ≡ true → j < length xs → x ≤ get_or xs j 0
first-le x [] j h b = absurd (omega arith)
first-le x (y ∷ ys) zero h b = leb→le x y (and_left _ _ h)
first-le x (y ∷ ys) (suc j) h b =
    ≤-via (leb→le x y (and_left _ _ h)) (first-le y ys j (and_right _ _ h) (omega arith))

get_or-ascending :
    (x : ℕ) (xs : List ℕ) (i j : ℕ)
    → ascending x xs ≡ true
    → i ≤ j
    → j < suc (length xs)
    → get_or (x ∷ xs) i 0 ≤ get_or (x ∷ xs) j 0
get_or-ascending x xs zero zero a h b = omega arith
get_or-ascending x xs zero (suc j) a h b = first-le x xs j a (omega arith)
get_or-ascending x xs (suc i) zero a h b = absurd (omega arith)
get_or-ascending x [] (suc i) (suc j) a h b = absurd (omega arith)
get_or-ascending x (y ∷ ys) (suc i) (suc j) a h b =
    get_or-ascending y ys i j (and_right _ _ a) (omega arith) (omega arith)

first_not_below-get_or :
    (s : ℕ) (xs : List ℕ)
    → first_not_below s xs < length xs
    → s ≤ get_or xs (first_not_below s xs) 0
unfolding first_not_below
first_not_below-get_or s [] b = absurd (omega arith)
first_not_below-get_or s (x ∷ xs) b = elim (Bool-cases (ltb x s)) [
  | inl e ↦
      let b' : (if ltb x s then suc (first_not_below s xs) else 0) < suc (length xs) = b in
      let k : suc (first_not_below s xs) < suc (length xs) =
        subst (λ t. (if t then suc (first_not_below s xs) else 0) < suc (length xs)) e b' in
      rw e (first_not_below-get_or s xs (omega arith))
  | inr e ↦ rw e (ground arith)
]

get_or-delays : (i j : ℕ) → i ≤ j → j < delays_count → get_or delays i 0 ≤ get_or delays j 0
get_or-delays i j h b = get_or-ascending 1000 (drop 1 delays) i j refl h b

from_table-monotone : (i j : ℕ) → i ≤ j → from_table i ≤ from_table j
unfolding from_table
from_table-monotone i j h =
    if-case (λ a. a ≤ from_table j) (ltb i delays_count)
      (λ p.
        if-case (λ b. get_or delays i 0 ≤ b) (ltb j delays_count)
          (λ q. get_or-delays i j h (ltb→lt _ _ q))
          (λ q. get_or-delays i (delays_count - 1) (ground arith) (omega arith)))
      (λ p.
        if-case (λ b. get_or delays (delays_count - 1) 0 ≤ b) (ltb j delays_count)
          (λ q. absurd (ground arith)) (λ q. omega arith))

from_table-le : (i : ℕ) → from_table i ≤ 3600000
unfolding from_table
from_table-le i =
    if-case (λ a. a ≤ 3600000) (ltb i delays_count)
      (λ p. get_or-delays i (delays_count - 1) (ground arith) (omega arith)) (λ p. omega arith)

cap-monotone : (m d e : ℕ) → d ≤ e → cap m d ≤ cap m e
unfolding cap
cap-monotone m d e h = ground arith

cap-le : (m d : ℕ) → cap m d ≤ d
unfolding cap
cap-le m d = ground arith

cap-le_max : (m d : ℕ) → 0 < m → cap m d ≤ m
unfolding cap
cap-le_max m d h = ground arith

cap-ge : (m s d : ℕ) → s ≤ d → (m ≡ 0) ⊎ (s ≤ m) → s ≤ cap m d
unfolding cap
cap-ge m s d h k = ground arith

-- The handle after this many calls of `retry_delay`.
pub tries : ℕ → RetryDelay → RetryDelay
tries zero h = h
tries (suc n) h = record (tries n h) { attempts = u16 ((tries n h).attempts + 1) }

pub retry_delay-tries :
    (n : ℕ) (h : RetryDelay) → (retry_delay (some (tries n h))).handle ≡ some (tries (suc n) h)
unfolding retry_delay tries
retry_delay-tries n h = refl

tries-attempts :
    (n : ℕ) (h : RetryDelay) → h.attempts ≡ 0 → n < 65536 → tries n h ≡ record h { attempts = n }
unfolding tries
tries-attempts zero h e b = ap (λ a. record h { attempts = a }) e
tries-attempts (suc n) h e b =
    let ih = tries-attempts n h e (omega arith) in
    ap (λ (k : RetryDelay). record k { attempts = u16 (k.attempts + 1) }) ih
    ∙ ap (λ a. record h { attempts = a }) (omega arith)

-- The delay of attempt `i` of a handle made with these arguments.
nth_delay : ℕ → Bool → ℕ → ℕ → ℕ → ℕ
unfolding cap from_table
nth_delay i f c s m =
    if (i == 0) && f
    then 0
    else if ltb i c
    then s
    else cap m (from_table (i - c + first_not_below s delays))

delay-nth_delay :
    (i : ℕ) (f : Bool) (c s m : ℕ)
    → i < 65536
    → delay (tries i (retry_init f c s m)) ≡ nth_delay i f c s m
unfolding delay retry_init nth_delay
delay-nth_delay i f c s m b = ap (λ h. delay h) (tries-attempts i (retry_init f c s m) refl b)

short-le-cap :
    (k c s m : ℕ)
    → s ≤ 3600000
    → (m ≡ 0) ⊎ (s ≤ m)
    → s ≤ cap m (from_table (k + first_not_below s delays))
unfolding from_table
short-le-cap k c s m h w =
    let o = first_not_below s delays in
    let reach : s ≤ from_table o =
      if-case (λ a. s ≤ a) (ltb o delays_count)
        (λ p. first_not_below-get_or s delays (ltb→lt _ _ p)) (λ p. h) in
    cap-ge m s _ (≤-via reach (from_table-monotone o (k + o) (omega arith))) w

first_too : (i j : ℕ) (f : Bool) → i ≤ j → ((j == 0) && f) ≡ true → ((i == 0) && f) ≡ true
first_too i j true h q = ground arith
first_too i j false h q = absurd_bool (and_right (j == 0) false q)

nth_delay-monotone :
    (i j : ℕ) (f : Bool) (c s m : ℕ)
    → i ≤ j
    → s ≤ 3600000
    → (m ≡ 0) ⊎ (s ≤ m)
    → nth_delay i f c s m ≤ nth_delay j f c s m
unfolding nth_delay
nth_delay-monotone i j f c s m h k w =
    let o = first_not_below s delays in
    let slow_i = cap m (from_table (i - c + o)) in
    let slow_j = cap m (from_table (j - c + o)) in
    let after : (if ltb i c then s else slow_i) ≤ (if ltb j c then s else slow_j) =
      if-case (λ a. a ≤ (if ltb j c then s else slow_j)) (ltb i c)
        (λ p.
          if-case (λ b. s ≤ b) (ltb j c) (λ q. omega arith) (λ q. short-le-cap (j - c) c s m k w))
        (λ p.
          if-case (λ b. slow_i ≤ b) (ltb j c) (λ q. absurd (ground arith))
            (λ q. cap-monotone m _ _ (from_table-monotone _ _ (omega arith)))) in
    if-case (λ a. a ≤ nth_delay j f c s m) ((i == 0) && f) (λ p. omega arith)
      (λ p.
        if-case (λ b. (if ltb i c then s else slow_i) ≤ b) ((j == 0) && f)
          (λ q. absurd_bool (sym p ∙ first_too i j f h q)) (λ q. after))

-- Of two attempts of one handle, before its counter wraps, the later waits at least as long as the
-- earlier, if the short delay is within the table and within the cap.
pub delay-monotone :
    (i j : ℕ) (f : Bool) (c s m : ℕ)
    → i ≤ j
    → j < 65536
    → s ≤ 3600000
    → (m ≡ 0) ⊎ (s ≤ m)
    → delay (tries i (retry_init f c s m)) ≤ delay (tries j (retry_init f c s m))
delay-monotone i j f c s m h b k w =
    subst (λ x. x ≤ delay (tries j (retry_init f c s m)))
      (sym (delay-nth_delay i f c s m (omega arith)))
      (subst (λ y. nth_delay i f c s m ≤ y) (sym (delay-nth_delay j f c s m b))
        (nth_delay-monotone i j f c s m h k w))

-- No attempt waits longer than the greater of the short delay and an hour, or, under a cap, of the
-- short delay and the cap.
pub delay-bounded :
    (h : RetryDelay)
    → delay h ≤ max h.short_delay (if h.max_delay == 0 then 3600000 else min h.max_delay 3600000)
unfolding delay
delay-bounded h =
    let i = h.attempts - h.short_count + h.delays_offset in
    let slow = from_table i in
    let bound = if h.max_delay == 0 then 3600000 else min h.max_delay 3600000 in
    let hour : cap h.max_delay slow ≤ 3600000 = ≤-via (cap-le h.max_delay slow) (from_table-le i) in
    let capped : cap h.max_delay slow ≤ bound =
      if-case (λ b. cap h.max_delay slow ≤ b) (h.max_delay == 0) (λ _. hour)
        (λ p. ≤-min (cap-le_max h.max_delay slow (ground arith)) hour) in
    let P = λ (d : ℕ). d ≤ max h.short_delay bound in
    if-case P ((h.attempts == 0) && h.first_instant) (λ _. omega arith)
      (λ _.
        if-case P (ltb h.attempts h.short_count) (λ _. omega arith) (λ _. omega (arith, capped)))
  where
    ≤-min : {a b c : ℕ} → a ≤ b → a ≤ c → a ≤ min b c
    ≤-min h k = omega arith
