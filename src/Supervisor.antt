-- ===== src/Supervisor.antt =====
-- main/supervisor.c, the health supervisor: the liveness notes, one pass of the loop of
-- `supervisor_task`, and the health snapshot. Times are microseconds of the monotonic timer, so
-- a stored time is never ahead of a reading. The statics are one record; what a pass asks of the
-- outside (recoveries, restarts) is its list of actions.
pub mod Run
pub mod Rungs
pub mod Report
pub mod Heap
pub mod Spacing
pub mod Silence
use mathlib.Core.List.{List, [], ◌∷◌, ◌++◌}
use mathlib.Core.Bool.{Bool, true, false, not, ◌&&◌, ◌||◌}
use rtkdata_fw.Base.{ℕ, ◌+◌, ◌-◌, ◌/◌, ◌*◌, if◌then◌else◌, ltb, leb, ◌==◌, u32}

-- Boot grace, fault thresholds and debounce times, in seconds.
abbrev pub grace_s : ℕ
grace_s = 30

abbrev pub th_gnss_s : ℕ
th_gnss_s = 10

abbrev pub th_caster_s : ℕ
th_caster_s = 30

abbrev pub th_link_s : ℕ
th_link_s = 60

abbrev pub th_wedge_s : ℕ
th_wedge_s = 120

abbrev pub deb_gnss_s : ℕ
deb_gnss_s = 20

abbrev pub deb_caster_s : ℕ
deb_caster_s = 15

abbrev pub deb_link_s : ℕ
deb_link_s = 30

-- `HEAP_FLOOR_B`, and `HEAP_LOW_S` passes below it.
abbrev pub heap_floor_b : ℕ
heap_floor_b = 12 * 1024

abbrev pub heap_low_s : ℕ
heap_low_s = 15

-- The statics, the registered callbacks (`NULL` is `false`) and the locals of the task.
pub record Supervisor : Type 0 where
  pub t_gnss : ℕ
  pub t_caster : ℕ
  pub t_ip : ℕ
  pub gnss_seen : Bool
  pub caster_seen : Bool
  pub ip_seen : Bool
  pub link_up : Bool
  pub rec_gnss : ℕ
  pub rec_caster : ℕ
  pub rec_wifi : ℕ
  pub supervised_reboots : ℕ
  pub recover_gnss : Bool
  pub recover_caster : Bool
  pub recover_wifi : Bool
  pub last_gnss_act : ℕ
  pub last_caster_act : ℕ
  pub last_link_act : ℕ
  pub heap_low_streak : ℕ

-- The statics after a boot; the reboot counter survives in RTC memory.
abbrev pub boot : ℕ → Supervisor
boot reboots = record {
  t_gnss = 0;
  t_caster = 0;
  t_ip = 0;
  gnss_seen = false;
  caster_seen = false;
  ip_seen = false;
  link_up = false;
  rec_gnss = 0;
  rec_caster = 0;
  rec_wifi = 0;
  supervised_reboots = reboots;
  recover_gnss = false;
  recover_caster = false;
  recover_wifi = false;
  last_gnss_act = 0;
  last_caster_act = 0;
  last_link_act = 0;
  heap_low_streak = 0;
}

-- `age_s`, with the reading of the timer first.
abbrev pub age_s : ℕ → ℕ → ℕ
age_s now t = u32 ((now - t) / 1000000)

unfoldable pub note_gnss_rx : ℕ → Supervisor → Supervisor
note_gnss_rx now s = record s { t_gnss = now; gnss_seen = true }

-- Bytes are progress; a handshake (0 bytes) only arms the watchdog.
unfoldable pub note_caster_tx : ℕ → ℕ → Supervisor → Supervisor
note_caster_tx now bytes s =
    if ltb 0 bytes
    then record s { t_caster = now; caster_seen = true }
    else if not s.caster_seen
    then record s { t_caster = now; caster_seen = true }
    else s

unfoldable pub note_sta_ip : ℕ → Bool → Supervisor → Supervisor
note_sta_ip now up s =
    if up
    then record s { t_ip = now; ip_seen = true; link_up = true }
    else record s { link_up = false }

pub set_recovery : Bool → Bool → Bool → Supervisor → Supervisor
set_recovery gnss caster wifi s = record s {
  recover_gnss = gnss;
  recover_caster = caster;
  recover_wifi = wifi;
}

-- `supervisor_health_t`
pub record Health : Type 0 where
  pub uptime_s : ℕ
  pub gnss_silent_s : ℕ
  pub caster_silent_s : ℕ
  pub ip_down_s : ℕ
  pub gnss_ok : Bool
  pub caster_ok : Bool
  pub link_ok : Bool
  pub recoveries_gnss : ℕ
  pub recoveries_caster : ℕ
  pub recoveries_wifi : ℕ
  pub reboots_supervised : ℕ

-- `supervisor_health`
unfoldable pub health : ℕ → Supervisor → Health
health now s =
    let uptime = u32 (now / 1000000) in
    let gnss_silent = if s.gnss_seen then age_s now s.t_gnss else uptime in
    let caster_silent = if s.caster_seen then age_s now s.t_caster else 0 in
    record {
      uptime_s = uptime;
      gnss_silent_s = gnss_silent;
      caster_silent_s = caster_silent;
      ip_down_s = if s.link_up then 0 else if s.ip_seen then age_s now s.t_ip else 0;
      gnss_ok = s.gnss_seen && ltb gnss_silent th_gnss_s;
      caster_ok = not s.caster_seen || ltb caster_silent th_caster_s;
      link_ok = s.link_up || not s.ip_seen;
      recoveries_gnss = s.rec_gnss;
      recoveries_caster = s.rec_caster;
      recoveries_wifi = s.rec_wifi;
      reboots_supervised = s.supervised_reboots;
    }

pub data Action : Type 0 where
  restart_heap restart_wedge : Action
  restart_wifi reconnect_caster reset_gnss : Action

-- What a pass reads: the timer when it judges, the timer at each rung (a recovery may take
-- time), and the free heap.
pub record Reading : Type 0 where
  pub now : ℕ
  pub now_wifi : ℕ
  pub now_caster : ℕ
  pub now_gnss : ℕ
  pub free_heap : ℕ

-- The judgements of a pass.
unfoldable pub gnss_silent_s : ℕ → Supervisor → ℕ
gnss_silent_s now s = if s.gnss_seen then age_s now s.t_gnss else u32 (now / 1000000)

unfoldable pub caster_silent_s : ℕ → Supervisor → ℕ
caster_silent_s now s = if s.caster_seen then age_s now s.t_caster else 0

unfoldable pub ip_down_s : ℕ → Supervisor → ℕ
ip_down_s now s = if not s.link_up && s.ip_seen then age_s now s.t_ip else 0

unfoldable pub gnss_fault : ℕ → Supervisor → Bool
unfolding gnss_silent_s
gnss_fault now s = leb th_gnss_s (gnss_silent_s now s)

unfoldable pub caster_fault : ℕ → Supervisor → Bool
unfolding caster_silent_s
caster_fault now s = s.caster_seen && leb th_caster_s (caster_silent_s now s)

unfoldable pub link_fault : ℕ → Supervisor → Bool
unfolding ip_down_s
link_fault now s = s.ip_seen && (not s.link_up && leb th_link_s (ip_down_s now s))

unfoldable pub wedged : ℕ → Supervisor → Bool
unfolding caster_fault gnss_silent_s caster_silent_s ip_down_s
wedged now s =
    caster_fault now s
    && (leb th_wedge_s (caster_silent_s now s)
        && (leb th_wedge_s (gnss_silent_s now s) || leb th_wedge_s (ip_down_s now s)))

-- Rungs 3, 2 and 1, each with its debounce.
pub rung_wifi : Reading → Supervisor → Supervisor × List Action
unfolding link_fault
rung_wifi r s =
    if link_fault r.now s && (s.recover_wifi && leb deb_link_s (age_s r.now_wifi s.last_link_act))
    then (
      record s { last_link_act = r.now_wifi; rec_wifi = u32 (s.rec_wifi + 1) },
      restart_wifi ∷ [],
    )
    else (s, [])

pub rung_caster : Reading → Supervisor → Supervisor × List Action
unfolding caster_fault
rung_caster r s =
    if caster_fault r.now s
      && (s.recover_caster && leb deb_caster_s (age_s r.now_caster s.last_caster_act))
    then (
      record s { last_caster_act = r.now_caster; rec_caster = u32 (s.rec_caster + 1) },
      reconnect_caster ∷ [],
    )
    else (s, [])

pub rung_gnss : Reading → Supervisor → Supervisor × List Action
unfolding gnss_fault
rung_gnss r s =
    if gnss_fault r.now s && (s.recover_gnss && leb deb_gnss_s (age_s r.now_gnss s.last_gnss_act))
    then (record s { last_gnss_act = r.now_gnss; rec_gnss = u32 (s.rec_gnss + 1) }, reset_gnss ∷ [])
    else (s, [])

-- The rungs below the restarts, in the order of the source. The faults were judged before.
pub rungs : Reading → Supervisor → Supervisor × List Action
unfolding rung_wifi rung_caster rung_gnss
rungs r s =
    let (s1, a1) = rung_wifi r s in
    let (s2, a2) = rung_caster r s1 in let (s3, a3) = rung_gnss r s2 in (s3, a1 ++ (a2 ++ a3))

-- The streak of passes that find the heap low, and whether it is long enough to restart.
unfoldable pub count_heap : Reading → Supervisor → Supervisor
count_heap r s = record s {
  heap_low_streak = if ltb r.free_heap heap_floor_b then s.heap_low_streak + 1 else 0;
}

unfoldable pub heap_spent : Reading → Supervisor → Bool
heap_spent r t = ltb r.free_heap heap_floor_b && leb heap_low_s t.heap_low_streak

-- The counter in RTC memory that a restart leaves behind.
unfoldable pub count_reboot : Supervisor → Supervisor
count_reboot s = record s { supervised_reboots = u32 (s.supervised_reboots + 1) }

unfoldable pub in_grace : Reading → Bool
in_grace r = ltb (u32 (r.now / 1000000)) grace_s

-- One pass of the loop. Nothing of a pass runs after a restart.
unfoldable pub pass : Reading → Supervisor → Supervisor × List Action
unfolding in_grace count_heap heap_spent count_reboot wedged rungs
pass r s =
    if in_grace r
    then (s, [])
    else let t = count_heap r s in
      if heap_spent r t
      then (count_reboot t, restart_heap ∷ [])
      else if wedged r.now t
      then (count_reboot t, restart_wedge ∷ [])
      else rungs r t
