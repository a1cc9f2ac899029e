-- ===== src/Ingest.antt =====
-- main/interface/ntrip_server.c, the way from the UART into the ring: `ntrip_server_on_frame`,
-- `ntrip_server_ingest_uart`, and what it does to the instances
-- (`ntrip_server_update_data_state`), with the keep-alive of `ntrip_server_sleep_task`. A pass
-- runs with the mutexes held, so it is one step.
pub mod Heard
pub mod Calls
pub mod Restart
pub mod Flow
pub mod KeepAlive
use mathlib.Core.List.{List, [], ◌∷◌}
use mathlib.Core.Bool.{Bool, true, false, not, ◌&&◌, ◌||◌}
use rtkdata_fw.Base.{ℕ, ◌+◌, ◌-◌, ◌/◌, if◌then◌else◌, ltb, leb, ◌==◌, u32, length}
use rtkdata_fw.Parser.{Parser, parser_init, feed}
use rtkdata_fw.Ring.{Ring, ring_init, push}
use rtkdata_fw.Supervisor.{Supervisor, boot, note_gnss_rx}
use rtkdata_fw.Freshness.{Evidence, no_evidence, note_frame, epoch_reset}

-- `NTRIP_KEEP_ALIVE_THRESHOLD`
abbrev pub keep_alive_threshold : ℕ
keep_alive_threshold = 10000

-- Of `ntrip_instance_t`: the three bits of its event group, the counter, the generation of the
-- reconnect requests, and the notifications given to its task. `has_ev` and `has_task` say that
-- `ev` and `task_server` are not `NULL`.
pub record Instance : Type 0 where
  pub has_ev : Bool
  pub has_task : Bool
  pub caster_ready : Bool
  pub data_ready : Bool
  pub data_sent : Bool
  pub data_keep_alive : ℕ
  pub reconnect_gen : ℕ
  pub notified : ℕ

-- `ntrip_server_update_data_state`: the instance, and whether it may send.
unfoldable pub update_data_state : Instance → Instance × Bool
update_data_state i =
    if i.has_ev
    then (let j : Instance = record i { data_ready = true; data_keep_alive = 0 } in
        if i.caster_ready then (record j { data_sent = true }, true) else (j, false))
    else (i, false)

-- The body of the loop over the instances in `ntrip_server_ingest_uart`.
unfoldable pub wake : Instance → Instance
unfolding update_data_state
wake i =
    if i.has_ev
    then (let (j, sends) = update_data_state i in
        if sends && j.has_task then record j { notified = j.notified + 1 } else j)
    else i

unfoldable pub wake_all : List Instance → List Instance
unfolding wake
wake_all [] = []
wake_all (i ∷ is) = wake i ∷ wake_all is

-- `ntrip_server_update_keep_alive_counter`
unfoldable pub update_keep_alive_counter : Instance → Instance
update_keep_alive_counter i =
    if ltb i.data_keep_alive keep_alive_threshold
    then (let n = i.data_keep_alive + keep_alive_threshold / 10 in
        record i {
          data_keep_alive = if ltb keep_alive_threshold n then keep_alive_threshold else n;
        })
    else i

-- `ntrip_server_handle_keep_alive_timeout`
unfoldable pub handle_keep_alive_timeout : Instance → Instance
handle_keep_alive_timeout i =
    if i.has_ev && leb keep_alive_threshold i.data_keep_alive
    then record i { data_ready = false }
    else i

-- One pass of the loop of `ntrip_server_sleep_task`, one second long.
unfoldable pub sleep_pass : Instance → Instance
unfolding update_keep_alive_counter handle_keep_alive_timeout
sleep_pass i = handle_keep_alive_timeout (update_keep_alive_counter i)

-- `ntrip_server_reconnect_all`
unfoldable pub reconnect_all : List Instance → List Instance
reconnect_all [] = []
reconnect_all (i ∷ is) = record i { reconnect_gen = u32 (i.reconnect_gen + 1) } ∷ reconnect_all is

-- What the callback of the parser writes.
pub record Sink : Type 0 where
  pub evidence : Evidence
  pub supervisor : Supervisor
  pub ring : Ring

-- `ntrip_server_on_frame`
unfoldable pub on_frame : ℕ → List ℕ → ℕ → Sink → Sink
unfolding note_frame note_gnss_rx
on_frame now_us frame now s = record {
  evidence = note_frame frame now s.evidence;
  supervisor = note_gnss_rx now_us s.supervisor;
  ring = push s.ring frame now;
}

pub record Station : Type 0 where
  pub ready : Bool
  pub parser : Parser
  pub sink : Sink
  pub instances : List Instance

-- `ntrip_now_ms`
abbrev pub now_ms : ℕ → ℕ
now_ms now_us = u32 (now_us / 1000)

-- The request of a receiver reset, honoured before the chunk is parsed.
unfoldable pub honour_reset : Station → Station
honour_reset st =
    if st.sink.evidence.reset_req
    then record st {
      parser = parser_init;
      sink = record st.sink { evidence = record st.sink.evidence { reset_req = false } };
    }
    else st

-- `ntrip_server_ingest_uart`
unfoldable pub ingest_uart : ℕ → List ℕ → Station → Station
unfolding on_frame honour_reset wake_all
ingest_uart now_us bytes st =
    if not st.ready || (length bytes == 0)
    then st
    else let a = honour_reset st in
      let (p, s) = feed (on_frame now_us) (now_ms now_us) a.parser bytes a.sink in
      record a {
        parser = p;
        sink = s;
        instances =
            if s.ring.next_seq == a.sink.ring.next_seq then a.instances else wake_all a.instances;
      }

-- `ntrip_server_msg_epoch_reset` on the station.
unfoldable pub reset_epoch : ℕ → Station → Station
unfolding epoch_reset
reset_epoch now_us st = record st {
  sink = record st.sink { evidence = epoch_reset (now_ms now_us) st.sink.evidence };
}

-- After `ntrip_server_ingest_init`.
abbrev pub station_init : ℕ → List Instance → Station
station_init reboots instances = record {
  ready = true;
  parser = parser_init;
  sink = record { evidence = no_evidence; supervisor = boot reboots; ring = ring_init };
  instances = instances;
}
