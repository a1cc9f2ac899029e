-- ===== src/Stats.antt =====
-- main/stream_stats.c: the byte counters of the streams and their running averages. A stream's name
-- is compared as a pointer, so it is a number here; the `double` arithmetic is the interface
-- `Double`.
use mathlib.Core.List.{List, [], ◌∷◌}
use mathlib.Core.Option.{Option, none, some}
use rtkdata_fw.Base.{ℕ, ◌+◌, ◌≡◌, arith, if◌then◌else◌, ◌==◌, u32}

-- The operations and constants that the average is written with.
pub record Double : Type 1 where
  pub D : Type 0
  pub none_yet : D
  pub plus : D → D → D
  pub times : D → D → D
  pub of_count : ℕ → D
  -- `RUNNING_AVERAGE_ALPHA`, `1.0 - RUNNING_AVERAGE_ALPHA`, `RUNNING_AVERAGE_PERIOD_CORRECTION`
  pub alpha : D
  pub one_minus_alpha : D
  pub period_correction : D

module _ (double : Double) where
  open double use {D, none_yet, plus, times, of_count, alpha, one_minus_alpha, period_correction}

  pub record StreamStats : Type 0 where
    pub name : ℕ
    pub total_in : ℕ
    pub total_out : ℕ
    pub rate_in : D
    pub rate_out : D
    pub rate_in_period_count : ℕ
    pub rate_out_period_count : ℕ

  average : D → ℕ → D
  average rate count =
      plus (times rate alpha) (times (times (of_count count) one_minus_alpha) period_correction)

  -- The body of the loop over the streams in `stream_stats_task`.
  average_stream : StreamStats → StreamStats
  unfolding average
  average_stream s = record s {
    rate_in = average s.rate_in s.rate_in_period_count;
    rate_out = average s.rate_out s.rate_out_period_count;
    rate_in_period_count = 0;
    rate_out_period_count = 0;
  }

  -- One pass of `stream_stats_task`.
  stats_pass : List StreamStats → List StreamStats
  unfolding average_stream
  stats_pass [] = []
  stats_pass (s ∷ list) = average_stream s ∷ stats_pass list

  -- `stream_stats_new`: the new head of the list.
  stats_new : ℕ → List StreamStats → List StreamStats
  stats_new name list =
      record {
        name = name;
        total_in = 0;
        total_out = 0;
        rate_in = none_yet;
        rate_out = none_yet;
        rate_in_period_count = 0;
        rate_out_period_count = 0;
      }
      ∷ list

  -- `stream_stats_increment`
  increment : ℕ → ℕ → StreamStats → StreamStats
  increment bytes_in bytes_out s = record s {
    total_in = u32 (s.total_in + bytes_in);
    total_out = u32 (s.total_out + bytes_out);
    rate_in_period_count = u32 (s.rate_in_period_count + bytes_in);
    rate_out_period_count = u32 (s.rate_out_period_count + bytes_out);
  }

  -- `stream_stats_get`
  stats_get : ℕ → List StreamStats → Option StreamStats
  stats_get name [] = none
  stats_get name (s ∷ list) =
      let rest = stats_get name list in if s.name == name then some s else rest

  -- What happens to a stream: bytes are counted, or a period ends.
  data Event : Type 0 where
    counted : ℕ → ℕ → Event
    period : Event

  stats_run : List Event → StreamStats → StreamStats
  unfolding average_stream increment
  stats_run [] s = s
  stats_run (counted i o ∷ events) s = stats_run events (increment i o s)
  stats_run (period ∷ events) s = stats_run events (average_stream s)

  bytes_in : List Event → ℕ
  bytes_in [] = 0
  bytes_in (counted i o ∷ events) = i + bytes_in events
  bytes_in (period ∷ events) = bytes_in events

  -- Whenever the periods end in between, the total is the sum of what was counted, in 32 bits.
  stats_run-total :
      (events : List Event) (s : StreamStats)
      → u32 (stats_run events s).total_in ≡ u32 (s.total_in + bytes_in events)
  unfolding stats_run bytes_in average_stream increment
  stats_run-total [] s = omega arith
  stats_run-total (counted i o ∷ events) s = omega (arith, stats_run-total events (increment i o s))
  stats_run-total (period ∷ events) s = stats_run-total events (average_stream s)
