-- ===== src/Ingest/Heard.antt =====
-- Arrivals at the ingest of main/interface/ntrip_server.c, chunks from the UART and receiver resets in
-- any order, and what a parser alone makes of them.
use mathlib.Core.List.{List, [], ◌∷◌, ◌++◌}
use mathlib.Core.Option.{Option, none, some}
use rtkdata_fw.Base.{ℕ, ◌≡◌, ◌==◌}
use rtkdata_fw.Base.{Bool, true, false, if◌then◌else◌}
use rtkdata_fw.Base.{length, All, IsByte}
use rtkdata_fw.Parser.{Parser, parser_init, feed}
use rtkdata_fw.Parser.Frame.{frame, IsPayload}
use rtkdata_fw.Parser.Emits.{collect}
use rtkdata_fw.Supervisor.{Supervisor, note_gnss_rx}
use rtkdata_fw.Ring.History.{Entry, History}
use rtkdata_fw.Ingest.{Station, ingest_uart, reset_epoch, now_ms}

pub data Arrival : Type 0 where
  chunk : ℕ → List ℕ → Arrival
  receiver_reset : ℕ → Arrival

unfoldable pub arrive : Arrival → Station → Station
unfolding ingest_uart reset_epoch
arrive (chunk now_us bytes) st = ingest_uart now_us bytes st
arrive (receiver_reset now_us) st = reset_epoch now_us st

-- The station after a list of arrivals, the first arrival first.
unfoldable pub arrive_all : List Arrival → Station → Station
unfolding arrive
arrive_all [] st = st
arrive_all (a ∷ rest) st = arrive_all rest (arrive a st)

-- What was heard: the parser, whether it starts anew at the next chunk, the frames that it found, each
-- with the time of its chunk, and the time of the last chunk in which it found one.
pub record Heard : Type 0 where
  pub parser : Parser
  pub due : Bool
  pub frames : History
  pub last : Option ℕ

abbrev pub silence : Heard
silence = record { parser = parser_init; due = false; frames = []; last = none }

abbrev pub dated : ℕ → List (List ℕ) → History
dated now [] = []
dated now (f ∷ fs) = record { frame = f; at = now } ∷ dated now fs

abbrev pub last_of : ℕ → List (List ℕ) → Option ℕ → Option ℕ
last_of now_us [] before = before
last_of now_us (f ∷ fs) before = some now_us

-- The parser alone, with a callback that only collects.
unfoldable pub hear : Arrival → Heard → Heard
hear (receiver_reset now_us) h = record h { due = true }
hear (chunk now_us bytes) h =
    let start = if h.due then parser_init else h.parser in
    let r = feed collect (now_ms now_us) start bytes [] in
    if length bytes == 0 then h else record {
      parser = r.0;
      due = false;
      frames = h.frames ++ dated (now_ms now_us) r.1;
      last = last_of now_us r.1 h.last;
    }

unfoldable pub hear_all : List Arrival → Heard → Heard
unfolding hear
hear_all [] h = h
hear_all (a ∷ rest) h = hear_all rest (hear a h)

-- The supervisor's record with its last sign of life of the receiver.
abbrev pub alive_at : Option ℕ → Supervisor → Supervisor
alive_at none s = s
alive_at (some now_us) s = note_gnss_rx now_us s

abbrev pub IsEncoded : Entry → Type 0
IsEncoded e = (payload : List ℕ) × IsPayload payload × (e.frame ≡ frame payload)

-- The bytes that arrive are bytes.
abbrev pub Arrives : Arrival → Type 0
Arrives (chunk now_us bytes) = All IsByte bytes
Arrives (receiver_reset now_us) = Unit
