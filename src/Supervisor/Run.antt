-- ===== src/Supervisor/Run.antt =====
-- main/supervisor.c as a state machine: the notes of the hot paths interleaved with the passes of
-- the task, and the log of what the passes ask for. A restart ends the log, as the code does.
use mathlib.Core.List.{List, [], ◌∷◌}
use rtkdata_fw.Base.{ℕ, if◌then◌else◌, ◌||◌, Bool, true, false}
use rtkdata_fw.Supervisor.{Supervisor, Reading, Action, restart_heap, restart_wedge, restart_wifi}
use rtkdata_fw.Supervisor.{reconnect_caster, reset_gnss, note_gnss_rx, note_caster_tx, note_sta_ip}
use rtkdata_fw.Supervisor.{pass}

pub data Event : Type 0 where
  gnss_rx : ℕ → Event
  caster_tx : ℕ → ℕ → Event
  sta_ip : ℕ → Bool → Event
  tick : Reading → Event

unfoldable pub step : Event → Supervisor → Supervisor × List Action
step (gnss_rx now) s = (note_gnss_rx now s, [])
step (caster_tx now bytes) s = (note_caster_tx now bytes s, [])
step (sta_ip now up) s = (note_sta_ip now up s, [])
step (tick r) s = pass r s

unfoldable pub same_action : Action → Action → Bool
same_action restart_heap restart_heap = true
same_action restart_wedge restart_wedge = true
same_action restart_wifi restart_wifi = true
same_action reconnect_caster reconnect_caster = true
same_action reset_gnss reset_gnss = true
same_action _ _ = false

-- Does the list of actions hold this one?
unfoldable pub asks : Action → List Action → Bool
unfolding same_action
asks a [] = false
asks a (b ∷ bs) = same_action a b || asks a bs

unfoldable pub restarts : List Action → Bool
unfolding asks
restarts acts = asks restart_heap acts || asks restart_wedge acts

-- When a rung acts it stores the timer's reading of that moment.
unfoldable pub stamp : Action → Reading → ℕ
stamp restart_wifi r = r.now_wifi
stamp reconnect_caster r = r.now_caster
stamp reset_gnss r = r.now_gnss
stamp _ r = r.now

-- The times at which a run asks for an action.
unfoldable pub times : Action → List Event → Supervisor → List ℕ
unfolding step restarts stamp
times a [] s = []
times a (tick r ∷ es) s =
    let (s', acts) = step (tick r) s in
    let rest = if restarts acts then [] else times a es s' in
    if asks a acts then stamp a r ∷ rest else rest
times a (gnss_rx now ∷ es) s = times a es (note_gnss_rx now s)
times a (caster_tx now bytes ∷ es) s = times a es (note_caster_tx now bytes s)
times a (sta_ip now up ∷ es) s = times a es (note_sta_ip now up s)
