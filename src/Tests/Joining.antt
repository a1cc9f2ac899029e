-- ===== src/Tests/Joining.antt =====
-- The provisioning client: an enrolment, credentials that come twice, and a body in two chunks.
use mathlib.Core.List.{List, [], ◌∷◌}
use mathlib.Core.Option.{none, some}
use rtkdata_fw.Base.{ℕ, zero, suc, ◌<◌, ◌≡◌, refl, arith, true, false, length, ◌⊎◌, take}
use rtkdata_fw.Base.{ltb, drop, length-take, take-append-drop}
use rtkdata_fw.Provisioning.{Json, Caster, Reply, Device, Pass, start, apply_reply}
use rtkdata_fw.Provisioning.{maturing_text, pass}
use rtkdata_fw.Provisioning.Credentials.{Settled, apply_reply-credentials}
use rtkdata_fw.Provisioning.Rollout.{run, Enrolled, run-start}
use rtkdata_fw.Provisioning.Body.{Source, Whole, read_body, read_body-Whole}

abbrev fresh_device : Device
fresh_device = record {
  host = some [];
  port = 2101;
  mountpoint = some [];
  username = none;
  password = some [];
  server_active = false;
  station_token = [];
  state = 0;
}

abbrev new_caster : Caster ℕ
new_caster = record {
  host = Json.string (b'h' ∷ []);
  port = Json.number 2102 2102;
  mountpoint = Json.string (b'm' ∷ []);
  username = Json.string (b'u' ∷ []);
  password = Json.missing;
}

abbrev maturing_reply : Reply ℕ
maturing_reply = record {
  state = Json.string maturing_text;
  progress_pct = Json.number 40 40;
  matures_in_s = Json.missing;
  station_id = Json.string (b's' ∷ []);
  sats = Json.missing;
  fix = Json.missing;
  position = none;
  caster = some new_caster;
}

-- A pass without an enroll key, one that enrolls, and a heartbeat.
abbrev passes : List (Pass ℕ)
passes =
    record { has_key = false; enrolled = none; fits = true; reply = none; applied = true }
    ∷ record {
      has_key = true;
      enrolled = some (record {
        caster = some new_caster;
        station_token = Json.string (b't' ∷ []);
        ie_poll_s = Json.missing;
      });
      fits = true;
      reply = none;
      applied = true;
    }
    ∷ record {
      has_key = true;
      enrolled = none;
      fits = true;
      reply = some maturing_reply;
      applied = true;
    }
    ∷ []

apply_reply-credentials_example :
    let c = start ℕ fresh_device in
    let c' = apply_reply ℕ true maturing_reply c in
    Settled new_caster c c'
    × ((apply_reply ℕ false maturing_reply c').device ≡ c'.device)
    × ((apply_reply ℕ false maturing_reply c').reconnects ≡ c'.reconnects)
apply_reply-credentials_example =
    apply_reply-credentials true false maturing_reply new_caster (start ℕ fresh_device) refl

run-start_example :
    ((run passes (start ℕ fresh_device) ≡ start ℕ fresh_device) × (fresh_device.state ≡ 0))
    ⊎ ((token : List ℕ) × Enrolled token (run passes (start ℕ fresh_device))
        × ((more : List (Pass ℕ)) → Enrolled token (run more (run passes (start ℕ fresh_device)))))
run-start_example = run-start fresh_device passes (omega arith)

-- Of these passes the station comes out maturing.
passes_state : (run passes (start ℕ fresh_device)).device.state ≡ 2
unfolding run start pass
passes_state = refl

all_read : (w : List ℕ) (room : ℕ) → 0 < room → length (take room w) ≡ 0 → w ≡ []
all_read [] room pos unread = refl
all_read (x ∷ w) zero pos unread = absurd (omega arith)
all_read (x ∷ w) (suc room) pos unread = absurd (omega arith)

-- The client hands out what is asked for as far as the body goes.
abbrev whole_chunks : Source
whole_chunks = record {
  Conn = List ℕ;
  read = λ w room. (true, take room w, drop room w);
  left = λ w. w;
  in_order = λ w room. take-append-drop room w;
  within = λ w room. omega (arith, length-take room w);
  ends_late = λ w room pos good unread. all_read w room pos unread;
}

read_body-Whole_example :
    Whole whole_chunks
      (1 ∷ 2 ∷ 3 ∷ [])
      (read_body whole_chunks 4 (λ n. ltb n 1000) 1 (1 ∷ 2 ∷ 3 ∷ []))
read_body-Whole_example =
    read_body-Whole whole_chunks 4 (λ n. ltb n 1000) 1 (1 ∷ 2 ∷ 3 ∷ []) (λ v room. refl)
      (λ n low. ground arith) (omega arith)
