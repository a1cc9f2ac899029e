-- ===== src/Lib.antt =====
-- The data path of the RTKdata reference firmware (an ESP32 base station that reads RTCM3
-- corrections from a UM980 GNSS receiver over a UART and sends them to NTRIP casters), with the
-- parts that keep it alive and that keep an update from bricking the device.
--
-- How the parts interact. The UART task hands every chunk to `ntrip_server_ingest_uart`
-- (main/interface/ntrip_server.c). The parser (main/interface/ntrip_tx_core.c) cuts the stream into
-- CRC-valid frames and calls back; the callback notes the message type for the freshness verdict,
-- tells the supervisor that the receiver lives, and pushes the frame into a ring of sixteen slots.
-- One sender per caster drains the ring on a non-blocking socket. The supervisor
-- (main/supervisor.c) judges receiver, caster, link and heap once a second and walks a ladder of
-- recoveries. A new image (main/update.c) is confirmed by what sender, supervisor and freshness
-- report, and is given up by the attempt budget or the boot-loop guard. Retries wait by
-- main/retry.c, and the receiver's answers to commands are read by main/gnss_ack.c. The settings of all
-- parts are items of a table that main/config.c keeps in NVS. The page of main/web_server.c shows and
-- changes them, and main/provisioning.c fetches the caster's credentials from the integrity engine,
-- writes them there and asks the senders to reconnect. On the setup network main/dns_server.c answers
-- every query with the address of the device.
--
-- The files, with the code that each models:
--   Base      numbers, C arrays as lists, bit operations, fixed-width casts; no code of its own
--   Crc       rtcm_crc24q and its table; Serial and Detect compare it with a bit-serial register
--   Parser    rtcm_parser_t, rtcm_parser_init, parser_hunt_in_buf, parser_process and
--             rtcm_parser_feed; the callback with its context is a function on any state. Settle,
--             Process, Bytewise, TopUp, Rounds: the invariant and the byte-at-a-time reference;
--             Account: the byte balance; Frame, Emits, Stream, Wire: frames of the standard; Callback:
--             two callbacks side by side
--   Ring      ntrip_ring_t, ntrip_ring_init, ntrip_ring_push; History: the list of all frames pushed
--   Sender    ntrip_tx_t and every function on it; the send callback is the interface `Socket` with
--             the contract that ntrip_tx_core.h states. Balance: the byte balance; Copy: the next
--             frame; Wire and Poll: what a connection has carried; Idle: idle and stalled. Session:
--             one connection of ntrip_server_task (main/interface/ntrip_server.c), from the accepted
--             handshake to its end; Growth, Connection, Backoff: what holds of it
--   Supervisor  main/supervisor.c: notes, health, one pass of the task. Run: notes and passes in
--             any order; Rungs: what fires; Spacing, Heap, Silence: runs; Report: the snapshot
--   Freshness main/interface/ntrip_server.c: ntrip_server_msg_epoch_reset, the bookkeeping of
--             ntrip_server_on_frame, ntrip_server_msg_freshness
--   Ingest    main/interface/ntrip_server.c: ntrip_server_on_frame, ntrip_server_ingest_uart,
--             ntrip_server_update_data_state, the keep-alive, ntrip_server_reconnect_all. Heard: the
--             arrivals, and a parser alone on them; Calls, Restart, Flow: the station beside it
--   Retry     main/retry.c: retry_init, retry_delay, retry_reset
--   GnssAck   main/gnss_ack.c: gnss_ack_scan and its helpers
--   Ota       main/update.c: ota_version_is_newer, ota_attempt_allowed, ota_attempts_exhausted,
--             ota_note_planned_reboot, ota_boot_loop_guard, ota_bootloop_clear_task; Ota/Confirm:
--             ota_mark_valid_task; Ota/Install: ota_update_firmware. Ota/BootCheck:
--             ota_boot_check and updateFirmware. Newer, Budget, Guard, Steady,
--             Contract: what holds of these
--   Stats     main/stream_stats.c; the arithmetic on `double` is the interface `Double`
--   Text      strcmp, strtol, strtoul and the printing of numbers, on lists of bytes; Compare and
--             Decimal: their laws
--   Config    main/config.c: config_set, the getters, config_get_primitive, config_get_str_blob,
--             config_reset; NVS is the interface `Nvs`. Items: the table CONFIG_ITEMS; Laws: what a
--             write changes; Table: what holds of the table's settings
--   WebConfig main/web_server.c: write_config_value, apply_config_value, the loops of
--             config_get_handler and config_post_handler. Numbers, Post, Repost: what a request does
--   Provisioning  main/provisioning.c: write_caster_creds, caster_creds_differ, enroll, apply_reply,
--             heartbeat, provisioning_task. Credentials, Rollout: replies and runs; Body: the read
--             loop of http_post_json over the interface `Source`
--   Dns       main/dns_server.c: dns_task on one datagram. Bytes, Reply, Query: what it answers
--   Tests     concrete runs, and the theorems at concrete inputs
--
-- Conventions. Integers of w bits are natural numbers with their wrap-around written out. A function
-- that runs under a lock is one step. Log lines, NMEA notices and delays are left out; what a pass
-- asks of the outside (recoveries, restarts) is its list of actions, and what the outside answers
-- (timer, heap, NVS, flash, HTTP client, reset reason) is an argument. A stored time of the
-- monotonic microsecond timer is never ahead of a reading, so its age is a difference of naturals.
--
-- Bounds and fuel. The parser's resync loop has as much fuel as bytes are buffered and its feed loop
-- as many rounds as bytes were given; copy_loop runs the rounds
-- that are left to the newest frame; poll has the caller's max_sends, the
-- drain of a connection the 64 spins of the source. find_at, the delimiter loop
-- and the scan of gnss_ack have one round more than the buffer has bytes.
-- The walk over a DNS name has a round for each byte of the datagram, the read of an HTTP body one more
-- than the body has bytes. A configuration key stands for its text, read in base 256.
-- Every write of the boot-loop and attempt counters into an opened namespace is taken to succeed, and
-- every write of main/provisioning.c to the configuration; the numbers of a version text are naturals.
-- The ring's theorems ask that the 32-bit sequence and the 64-bit byte counter have not wrapped.
--
-- Not modelled: the handshake of ntrip_server_task and the registration of instances, the www
-- download and the daily poll of main/update.c, and of main/web_server.c and main/provisioning.c the
-- files, the status, the authentication and the texts of requests. main/gnss.c, main/uart.c,
-- main/wifi.c, main/main.c and the socket interfaces are I/O over ESP-IDF for the most part. Tasks that
-- share counters without a lock are modelled at the granularity of the functions named above.
pub mod Base
pub mod Crc
pub mod Parser
pub mod Ring
pub mod Sender
pub mod Supervisor
pub mod Freshness
pub mod Ingest
pub mod Retry
pub mod GnssAck
pub mod Ota
pub mod Stats
pub mod Text
pub mod Config
pub mod WebConfig
pub mod Provisioning
pub mod Dns
pub mod Tests
