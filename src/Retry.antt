-- ===== src/Retry.antt =====
-- main/retry.c: the backoff between attempts. The delays in milliseconds that callers pass are not
-- negative; `attempts` is a `uint16_t` and wraps.
pub mod Backoff
use mathlib.Core.List.{List, [], ◌∷◌}
use mathlib.Core.Option.{Option, none, some}
use mathlib.Core.Bool.{Bool, true, false, ◌&&◌}
use rtkdata_fw.Base.{ℕ, suc, ◌+◌, ◌-◌, if◌then◌else◌, ltb, ◌==◌, u16, length, get_or}

-- `delays` and `delays_count`
abbrev pub delays : List ℕ
delays =
    1000 ∷ 2000 ∷ 5000 ∷ 10000 ∷ 15000 ∷ 30000 ∷ 45000 ∷ 60000 ∷ 90000 ∷ 120000 ∷ 300000 ∷ 600000
    ∷ 900000 ∷ 1800000 ∷ 2700000 ∷ 3600000 ∷ []

abbrev pub delays_count : ℕ
delays_count = length delays

-- `struct retry_delay`
pub record RetryDelay : Type 0 where
  pub attempts : ℕ
  pub first_instant : Bool
  pub short_count : ℕ
  pub short_delay : ℕ
  pub max_delay : ℕ
  pub delays_offset : ℕ

-- The loop of `retry_init` over what is left of the table.
unfoldable pub first_not_below : ℕ → List ℕ → ℕ
first_not_below short [] = 0
first_not_below short (d ∷ ds) = if ltb d short then suc (first_not_below short ds) else 0

-- `retry_init`, when the allocation succeeds.
unfoldable pub retry_init : Bool → ℕ → ℕ → ℕ → RetryDelay
unfolding first_not_below
retry_init first_instant short_count short_delay max_delay = record {
  attempts = 0;
  first_instant = first_instant;
  short_count = short_count;
  short_delay = short_delay;
  max_delay = max_delay;
  delays_offset = first_not_below short_delay delays;
}

unfoldable pub cap : ℕ → ℕ → ℕ
cap max_delay delay = if ltb 0 max_delay && ltb max_delay delay then max_delay else delay

unfoldable pub from_table : ℕ → ℕ
from_table i = if ltb i delays_count then get_or delays i 0 else get_or delays (delays_count - 1) 0

-- The delay that an attempt waits.
unfoldable pub delay : RetryDelay → ℕ
unfolding cap from_table
delay h =
    if (h.attempts == 0) && h.first_instant
    then 0
    else if ltb h.attempts h.short_count
    then h.short_delay
    else cap h.max_delay (from_table (h.attempts - h.short_count + h.delays_offset))

-- What the caller gets back, and the delay it waited; a handle is `NULL` when `retry_init` found
-- no memory.
pub record Retried : Type 0 where
  pub handle : Option RetryDelay
  pub waited_ms : ℕ
  pub result : ℕ

unfoldable pub retry_delay : Option RetryDelay → Retried
unfolding delay
retry_delay none = record { handle = none; waited_ms = 2000; result = 0 }
retry_delay (some h) =
    let attempts = u16 (h.attempts + 1) in
    record {
      handle = some (record h { attempts = attempts });
      waited_ms = delay h;
      result = attempts;
    }

unfoldable pub retry_reset : Option RetryDelay → Option RetryDelay
retry_reset none = none
retry_reset (some h) = some (record h { attempts = 0 })
