-- ===== src/Tests/Supervision.antt =====
-- The supervisor and the retry backoff on short runs.
use mathlib.Core.List.{List, [], ◌∷◌}
use rtkdata_fw.Base.{ℕ, ◌*◌, ◌≤◌, ◌≡◌, refl, inl, arith, max, ◌||◌, true}
use rtkdata_fw.Supervisor.{
  Supervisor, Reading, boot, pass, reconnect_caster, in_grace, gnss_silent_s, note_caster_tx,
}
use rtkdata_fw.Supervisor.Run.{Event, caster_tx, tick, step, asks, restarts, times}
use rtkdata_fw.Supervisor.Spacing.{Spaced, gap_us, last_act, times-Spaced}
use rtkdata_fw.Supervisor.Heap.{replay}
use rtkdata_fw.Supervisor.Silence.{pass-silent_path, pass-silent_caster, moves_nothing}
use rtkdata_fw.Retry.{RetryDelay, delay}
use rtkdata_fw.Retry.Backoff.{delay-bounded}

-- A reading with one time for all and this free heap.
abbrev at_s : ℕ → ℕ → Reading
at_s s heap = record {
  now = s * 1000000;
  now_wifi = s * 1000000;
  now_caster = s * 1000000;
  now_gnss = s * 1000000;
  free_heap = heap;
}

-- A station whose caster took bytes at second 40.
abbrev armed : Supervisor
armed = record (boot 0) {
  t_caster = 40000000;
  caster_seen = true;
  recover_caster = true;
  t_gnss = 40000000;
  gnss_seen = true;
}

-- Handshakes only, then a pass at second 200.
abbrev handshakes : List Event
handshakes = caster_tx 150000000 0 ∷ tick (at_s 80 90000) ∷ caster_tx 60000000 0 ∷ []

pass-silent_path_example : restarts (pass (at_s 200 90000) (replay handshakes armed)).1 ≡ true
unfolding replay step pass note_caster_tx gnss_silent_s moves_nothing in_grace
pass-silent_path_example =
    pass-silent_path (at_s 200 90000) handshakes armed refl refl (omega arith) (omega arith) refl
      (inl (omega arith))

pass-silent_caster_example :
    (restarts (pass (at_s 100 90000) (replay (caster_tx 90000000 0 ∷ []) armed)).1
      || asks reconnect_caster (pass (at_s 100 90000) (replay (caster_tx 90000000 0 ∷ []) armed)).1)
    ≡ true
unfolding replay pass note_caster_tx moves_nothing in_grace
pass-silent_caster_example =
    pass-silent_caster (at_s 100 90000) (caster_tx 90000000 0 ∷ []) armed refl refl (omega arith)
      (omega arith) refl refl (omega arith) (omega arith)

-- The first reconnect of a caster silent since second 40, and the next one.
abbrev silence : List Event
silence = tick (at_s 75 90000) ∷ tick (at_s 80 90000) ∷ tick (at_s 92 90000) ∷ []

times-Spaced_example :
    Spaced
      (gap_us reconnect_caster)
      (last_act reconnect_caster armed)
      (times reconnect_caster silence armed)
times-Spaced_example = times-Spaced reconnect_caster silence armed

silence_reconnects : times reconnect_caster silence armed ≡ 75000000 ∷ 92000000 ∷ []
unfolding times pass
silence_reconnects = refl

-- The tenth attempt of a handle with a short delay of 1.5 s and a cap of a minute.
abbrev tenth : RetryDelay
tenth = record {
  attempts = 9;
  first_instant = true;
  short_count = 2;
  short_delay = 1500;
  max_delay = 60000;
  delays_offset = 1;
}

delay-bounded_example : delay tenth ≤ max 1500 60000
delay-bounded_example = delay-bounded tenth
