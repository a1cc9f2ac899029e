-- ===== src/Ingest/Flow.antt =====
-- Whole runs of the ingest of main/interface/ntrip_server.c: the station beside a parser alone.
use mathlib.Core.List.{List, [], ◌∷◌, ◌++◌}
use mathlib.Core.Path.{subst}
use rtkdata_fw.Base.{ℕ, ◌^◌, ◌<◌, ◌≡◌, refl, ap, sym, ◌∙◌, arith, ◌==◌, ◌||◌, not}
use rtkdata_fw.Base.{Bool, true, false, if◌then◌else◌, inl, inr, Bool-cases}
use rtkdata_fw.Base.{length, All, IsByte}
use rtkdata_fw.Parser.{Parser, parser_init, feed}
use rtkdata_fw.Parser.Settle.{IsSettled}
use rtkdata_fw.Parser.Emits.{collect, feed-emits_frames}
use rtkdata_fw.Parser.Account.{feed-IsSettled, parser_init-IsSettled}
use rtkdata_fw.Supervisor.{Supervisor, boot}
use rtkdata_fw.Freshness.{epoch_reset}
use rtkdata_fw.Ring.History.{Holds, total, ring_init-Holds}
use rtkdata_fw.Ingest.{
  Instance, Sink, Station, on_frame, honour_reset, ingest_uart, reset_epoch, station_init, now_ms,
  wake_all,
}
use rtkdata_fw.Ingest.Heard.{
  Arrival, chunk, receiver_reset, arrive, arrive_all, Heard, silence, hear, hear_all, Arrives,
  alive_at, IsEncoded, dated, last_of,
}
use rtkdata_fw.Ingest.Calls.{
  Recorded, call_all, call_all-reset_req, call_all-Recorded, feed-call_all,
}
use rtkdata_fw.Ingest.Restart.{
  honour_reset-parser, honour_reset-ready, honour_reset-due, honour_reset-Recorded,
  restart-IsSettled,
}

-- The station has what was heard.
pub record Tracks (s0 : Supervisor) (st : Station) (h : Heard) : Type 0 where
  pub ready : st.ready ≡ true
  pub settled : IsSettled h.parser
  pub same : st.parser ≡ h.parser
  pub due : st.sink.evidence.reset_req ≡ h.due
  pub recorded : Recorded s0 h.frames h.last st.sink

else_of : {A : Type 0} → (c : Bool) (x y : A) → c ≡ false → (if c then x else y) ≡ y
else_of c x y h = rw h refl

in_service :
    (up none_there : Bool) → up ≡ true → none_there ≡ false → (not up || none_there) ≡ false
in_service up none_there a b = rw a (rw b refl)

-- The parse of a chunk, with what it wakes.
abbrev fed : ℕ → List ℕ → Station → Station
fed now_us bytes a =
    let (p, s) = feed (on_frame now_us) (now_ms now_us) a.parser bytes a.sink in
    record a {
      parser = p;
      sink = s;
      instances =
          if s.ring.next_seq == a.sink.ring.next_seq then a.instances else wake_all a.instances;
    }

ingest_uart-fed :
    (now_us : ℕ) (bytes : List ℕ) (st : Station)
    → st.ready ≡ true
    → (length bytes == 0) ≡ false
    → ingest_uart now_us bytes st ≡ fed now_us bytes (honour_reset st)
unfolding ingest_uart
ingest_uart-fed now_us bytes st up more =
    else_of (not st.ready || (length bytes == 0)) st (fed now_us bytes (honour_reset st))
      (in_service st.ready (length bytes == 0) up more)

-- A chunk that is not empty.
chunk-Tracks :
    (s0 : Supervisor) (now_us : ℕ) (bytes : List ℕ) (st : Station) (h : Heard)
    → All IsByte bytes
    → (length bytes == 0) ≡ false
    → Tracks s0 st h
    → Tracks s0 (ingest_uart now_us bytes st) (hear (chunk now_us bytes) h)
unfolding hear
chunk-Tracks s0 now_us bytes st h b more v =
    let a = honour_reset st in
    let start = if h.due then parser_init else h.parser in
    let same : a.parser ≡ start =
      honour_reset-parser st
      ∙ ap (λ d. if d then parser_init else st.parser) v.due
      ∙ ap (λ p. if h.due then parser_init else p) v.same in
    let settled = restart-IsSettled h.due h.parser v.settled in
    let r = feed collect (now_ms now_us) start bytes [] in
    let run : feed (on_frame now_us) (now_ms now_us) a.parser bytes a.sink
        ≡ (r.0, call_all s0 now_us r.1 a.sink) =
      ap (λ p. feed (on_frame now_us) (now_ms now_us) p bytes a.sink) same
      ∙ feed-call_all s0 now_us start bytes a.sink in
    subst (λ (x : Station). Tracks s0 x (hear (chunk now_us bytes) h))
      (sym (ingest_uart-fed now_us bytes st v.ready more))
      (rw more (record {
        ready = honour_reset-ready st ∙ v.ready;
        settled = feed-IsSettled collect (now_ms now_us) start bytes [] settled b;
        same = ap (λ (o : Parser × Sink). o.0) run;
        due =
            ap (λ (o : Parser × Sink). o.1.evidence.reset_req) run
            ∙ call_all-reset_req s0 now_us r.1 a.sink
            ∙ honour_reset-due st;
        recorded =
            subst
              (λ (o : Parser × Sink).
                Recorded s0 (h.frames ++ dated (now_ms now_us) r.1) (last_of now_us r.1 h.last) o.1)
              (sym run)
              (call_all-Recorded s0 now_us r.1 h.frames h.last a.sink
                (feed-emits_frames (now_ms now_us) start bytes settled b)
                (honour_reset-Recorded s0 h.frames h.last st v.recorded));
      }))

empty_chunk :
    (now_us : ℕ) (bytes : List ℕ) (st : Station)
    → (length bytes == 0) ≡ true
    → ingest_uart now_us bytes st ≡ st
unfolding ingest_uart
empty_chunk now_us bytes st none_there = elim (Bool-cases st.ready) [
  | inl up ↦ rw none_there (rw up refl)
  | inr down ↦ rw none_there (rw down refl)
]

empty_heard :
    (now_us : ℕ) (bytes : List ℕ) (h : Heard)
    → (length bytes == 0) ≡ true
    → hear (chunk now_us bytes) h ≡ h
unfolding hear
empty_heard now_us bytes h none_there = rw none_there refl

arrive-Tracks :
    (s0 : Supervisor) (a : Arrival) (st : Station) (h : Heard)
    → Arrives a
    → Tracks s0 st h
    → Tracks s0 (arrive a st) (hear a h)
unfolding arrive
arrive-Tracks s0 (chunk now_us bytes) st h b v = elim (Bool-cases (length bytes == 0)) [
  | inl nothing_new ↦
      subst (λ (x : Station). Tracks s0 x (hear (chunk now_us bytes) h))
        (sym (empty_chunk now_us bytes st nothing_new))
        (subst (λ (x : Heard). Tracks s0 st x) (sym (empty_heard now_us bytes h nothing_new)) v)
  | inr more ↦ chunk-Tracks s0 now_us bytes st h b more v
]
arrive-Tracks s0 (receiver_reset now_us) st h b v =
    unfold reset_epoch hear epoch_reset in
    record {
      ready = v.ready;
      settled = v.settled;
      same = v.same;
      due = refl;
      recorded = record {
        bytes = v.recorded.bytes;
        valid = v.recorded.valid;
        held = v.recorded.held;
        alive = v.recorded.alive;
      };
    }

arrive_all-Tracks :
    (s0 : Supervisor) (arrivals : List Arrival) (st : Station) (h : Heard)
    → All Arrives arrivals
    → Tracks s0 st h
    → Tracks s0 (arrive_all arrivals st) (hear_all arrivals h)
unfolding arrive_all hear_all
arrive_all-Tracks s0 [] st h b v = v
arrive_all-Tracks s0 (a ∷ rest) st h b v =
    arrive_all-Tracks s0 rest (arrive a st) (hear a h) b.1 (arrive-Tracks s0 a st h b.0 v)

station_init-Tracks :
    (reboots : ℕ) (instances : List Instance)
    → Tracks (boot reboots) (station_init reboots instances) silence
unfolding total
station_init-Tracks reboots instances = record {
  ready = refl;
  settled = parser_init-IsSettled;
  same = refl;
  due = refl;
  recorded = record { bytes = omega arith; valid = tt; held = λ _. ring_init-Holds; alive = refl };
}

-- What the station keeps of what was heard.
pub record Kept (s0 : Supervisor) (h : Heard) (st : Station) : Type 0 where
  pub parser : st.parser ≡ h.parser
  pub ring : Holds st.sink.ring h.frames
  pub valid : All IsEncoded h.frames
  pub supervisor : st.sink.supervisor ≡ alive_at h.last s0

-- After any chunks and receiver resets since the start, beside a parser alone that starts anew at the
-- first chunk with a byte after a reset and hands out less than 2^32 frames: the ring holds the history of exactly
-- these frames in their order, each with the time of its chunk and each the encoding of some payload
-- with its CRC, and the supervisor has the receiver alive at the time of the last chunk in which a
-- frame was completed, and is else as after the start.
pub arrive_all-Kept :
    (reboots : ℕ) (instances : List Instance) (arrivals : List Arrival)
    → All Arrives arrivals
    → length (hear_all arrivals silence).frames < 2 ^ 32
    → Kept
        (boot reboots)
        (hear_all arrivals silence)
        (arrive_all arrivals (station_init reboots instances))
arrive_all-Kept reboots instances arrivals b few =
    let v =
      arrive_all-Tracks (boot reboots) arrivals (station_init reboots instances) silence b
        (station_init-Tracks reboots instances) in
    record {
      parser = v.same;
      ring = v.recorded.held few;
      valid = v.recorded.valid;
      supervisor = v.recorded.alive;
    }
