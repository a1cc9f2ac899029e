-- ===== src/Provisioning.antt =====
-- main/provisioning.c: the credentials and the state that the integrity engine (IE) assigns. cJSON,
-- HTTP and the HMAC are left out: a reply is what its items say. An `int` is its 32-bit pattern, a
-- `double` a value of the parameter `D`, and a write of the configuration succeeds; `device` holds the
-- keys of the configuration that the client uses, each with its value or its default.
pub mod Body
pub mod Credentials
pub mod Rollout
use mathlib.Core.List.{List, [], ◌∷◌}
use mathlib.Core.Option.{Option, none, some}
use mathlib.Core.Bool.{Bool, true, false, not, ◌&&◌, ◌||◌}
use rtkdata_fw.Base.{ℕ, ◌+◌, ◌-◌, ◌*◌, ◌^◌, if◌then◌else◌, ltb, leb, ◌==◌, u16, u32, take, length}
use rtkdata_fw.Text.{eq_text}

-- `enum rtk_state`, as it is stored.
abbrev pub unclaimed : ℕ
unclaimed = 0

abbrev pub provisioning : ℕ
provisioning = 1

abbrev pub maturing : ℕ
maturing = 2

abbrev pub active : ℕ
active = 3

-- `MIN_POLL_S` and `DEFAULT_POLL_S`
abbrev pub min_poll_s : ℕ
min_poll_s = 10

abbrev pub default_poll_s : ℕ
default_poll_s = 30

-- What the configuration holds of the caster, of the station and of the state. A string that cannot
-- be read is none.
pub record Device : Type 0 where
  pub host : Option (List ℕ)
  pub port : ℕ
  pub mountpoint : Option (List ℕ)
  pub username : Option (List ℕ)
  pub password : Option (List ℕ)
  pub server_active : Bool
  pub station_token : List ℕ
  pub state : ℕ

-- The texts "maturing" and "active".
abbrev pub maturing_text : List ℕ
maturing_text = b'm' ∷ b'a' ∷ b't' ∷ b'u' ∷ b'r' ∷ b'i' ∷ b'n' ∷ b'g' ∷ []

abbrev pub active_text : List ℕ
active_text = b'a' ∷ b'c' ∷ b't' ∷ b'i' ∷ b'v' ∷ b'e' ∷ []

unfoldable pub state_number : List ℕ → ℕ
unfolding eq_text
state_number s =
    if eq_text s maturing_text
    then maturing
    else if eq_text s active_text
    then active
    else provisioning

module _ (D : Type 0) where
  -- An item of a reply: missing, a string, a number as `valueint` and `valuedouble`, a Boolean, or
  -- another value.
  pub data Json : Type 0 where
    missing : Json
    string : List ℕ → Json
    number : ℕ → D → Json
    bool : Bool → Json
    other : Json

  -- The object under "caster", if it is one.
  pub record Caster : Type 0 where
    pub host : Json
    pub port : Json
    pub mountpoint : Json
    pub username : Json
    pub password : Json

  pub record Position : Type 0 where
    pub valid : Json
    pub lat : Json
    pub lon : Json
    pub height : Json

  -- The reply to a heartbeat. "quality", "position" and "config_delta" are none unless they are
  -- objects, and so is the caster of a "config_delta".
  pub record Reply : Type 0 where
    pub state : Json
    pub progress_pct : Json
    pub matures_in_s : Json
    pub station_id : Json
    pub sats : Json
    pub fix : Json
    pub position : Option Position
    pub caster : Option Caster

  pub record EnrollReply : Type 0 where
    pub caster : Option Caster
    pub station_token : Json
    pub ie_poll_s : Json

  -- `s_st`
  pub record Status : Type 0 where
    pub state : List ℕ
    pub progress_pct : ℕ
    pub matures_in_s : ℕ
    pub station_id : List ℕ
    pub q_sats : ℕ
    pub q_fix : ℕ
    pub position : Option (D × D × D)
    pub enrolled : Bool

  -- The statics of the client, the local `state` of its task, and what it has asked of the others:
  -- how often of the NTRIP server to reconnect, and which positions of the GNSS module, latest first.
  pub record Client : Type 0 where
    pub device : Device
    pub status : Status
    pub token : List ℕ
    pub poll_s : ℕ
    pub fixed_base_set : Bool
    pub task_state : ℕ
    pub reconnects : ℕ
    pub positions : List (D × D × D)

  unfoldable pub text_or : {A : Type 0} → Json → (List ℕ → A) → A → A
  text_or (string s) f old = f s
  text_or _ f old = old

  unfoldable pub number_or : Json → (ℕ → ℕ) → ℕ → ℕ
  number_or (number n d) f old = f n
  number_or _ f old = old

  -- `write_caster_creds`
  unfoldable pub write_caster : Caster → Device → Device
  unfolding text_or number_or
  write_caster c dev = record dev {
    host = text_or c.host some dev.host;
    port = number_or c.port u16 dev.port;
    mountpoint = text_or c.mountpoint some dev.mountpoint;
    username = text_or c.username some dev.username;
    password = text_or c.password some dev.password;
    server_active = true;
  }

  -- `!cur || strcmp(cur, item->valuestring) != 0`, if the item is a string.
  unfoldable pub text_differs : Json → Option (List ℕ) → Bool
  unfolding eq_text
  text_differs (string s) (some cur) = not (eq_text cur s)
  text_differs (string s) none = true
  text_differs _ cur = false

  unfoldable pub port_differs : Json → ℕ → Bool
  port_differs (number n d) cur = not (cur == u16 n)
  port_differs _ cur = false

  -- `caster_creds_differ`
  unfoldable pub caster_differs : Caster → Device → Bool
  unfolding text_differs port_differs
  caster_differs c dev =
      text_differs c.host dev.host
      || (text_differs c.mountpoint dev.mountpoint
          || (text_differs c.username dev.username
              || (text_differs c.password dev.password || port_differs c.port dev.port)))

  -- The part of `enroll` from the parsed reply on, by its token and its caster.
  unfoldable pub join : Json → Caster → Json → Client → Client × Bool
  unfolding write_caster number_or
  join (string text) caster poll c =
      let kept = take 95 text in
      (
        record c {
          device = record (write_caster caster c.device) {
            station_token = kept;
            state = provisioning;
          };
          token = kept;
          poll_s =
              number_or poll (λ n. if leb min_poll_s n && ltb n (2 ^ 31) then n else c.poll_s)
                c.poll_s;
          reconnects = c.reconnects + 1;
        },
        true,
      )
  join _ caster poll c = (c, false)

  unfoldable pub enrolled_by : EnrollReply → Client → Client × Bool
  unfolding join
  enrolled_by r c = elim r.caster [
    | none ↦ (c, false)
    | some caster ↦ join r.station_token caster r.ie_poll_s c
  ]

  -- `enroll`: whether there is an enroll key, and the parsed reply, none if there is no reply with
  -- status 200 that parses.
  unfoldable pub enroll : Bool → Option EnrollReply → Client → Client × Bool
  unfolding enrolled_by
  enroll has_key answer c =
      if not has_key
      then (c, false)
      else elim answer [ none ↦ (c, false) | some r ↦ enrolled_by r c ]

  -- The position of a reply, if it is one to apply: valid, and three numbers.
  unfoldable pub three_numbers : Json → Json → Json → Option (D × D × D)
  three_numbers (number a lat) (number b lon) (number c h) = some (lat, lon, h)
  three_numbers _ _ _ = none

  unfoldable pub wanted_position : Option Position → Option (D × D × D)
  unfolding three_numbers
  wanted_position none = none
  wanted_position (some p) = elim p.valid [
    | bool true ↦ three_numbers p.lat p.lon p.height
    | _ ↦ none
  ]

  -- What `apply_reply` does under the mutex.
  unfoldable pub note_status : Reply → Status → Status
  unfolding text_or number_or wanted_position
  note_status r st = record st {
    state = text_or r.state (take 15) st.state;
    progress_pct = number_or r.progress_pct (λ n. n) st.progress_pct;
    matures_in_s = number_or r.matures_in_s (λ n. n) st.matures_in_s;
    station_id = text_or r.station_id (take 39) st.station_id;
    q_sats = number_or r.sats (λ n. n) st.q_sats;
    q_fix = number_or r.fix (λ n. n) st.q_fix;
    position = elim (wanted_position r.position) [ none ↦ st.position | some p ↦ some p ];
  }

  -- The position goes to the GNSS module, which answers whether it applied it.
  unfoldable pub apply_position : Bool → Option (D × D × D) → Client → Client
  apply_position applied none c = c
  apply_position applied (some p) c = record c {
    fixed_base_set = applied;
    positions = p ∷ c.positions;
  }

  unfoldable pub apply_delta : Option Caster → Client → Client
  unfolding caster_differs write_caster
  apply_delta none c = c
  apply_delta (some caster) c =
      if caster_differs caster c.device
      then record c { device = write_caster caster c.device; reconnects = c.reconnects + 1 }
      else c

  unfoldable pub persist_state : Json → Client → Client
  unfolding text_or state_number
  persist_state j c = record c {
    device = record c.device { state = text_or j state_number c.device.state };
  }

  -- `apply_reply`, with the answer of `gnss_set_fixed_base`.
  unfoldable pub apply_reply : Bool → Reply → Client → Client
  unfolding note_status apply_position apply_delta persist_state wanted_position
  apply_reply applied r c =
      let noted = record c { status = note_status r c.status } in
      let placed = apply_position applied (wanted_position r.position) noted in
      persist_state r.state (apply_delta r.caster placed)

  -- `heartbeat`: whether the body fits, and the parsed reply as for `enroll`.
  unfoldable pub heartbeat : Bool → Bool → Option Reply → Client → Client
  unfolding apply_reply
  heartbeat fits applied answer c =
      if not fits then c else elim answer [ none ↦ c | some r ↦ apply_reply applied r c ]

  -- What the surroundings answer in one pass of the task.
  pub record Pass : Type 0 where
    pub has_key : Bool
    pub enrolled : Option EnrollReply
    pub fits : Bool
    pub reply : Option Reply
    pub applied : Bool

  -- A pass of the loop of `provisioning_task`, and the delay behind it in milliseconds.
  unfoldable pub pass : Pass → Client → Client × ℕ
  unfolding enroll heartbeat
  pass e c =
      let (n, ok) = enroll e.has_key e.enrolled c in
      let b = heartbeat e.fits e.applied e.reply c in
      if ltb c.task_state provisioning
      then (if ok
          then (
            record n { task_state = provisioning; status = record n.status { enrolled = true } },
            n.poll_s * 1000,
          )
          else (n, 15000))
      else (record b { task_state = b.device.state }, b.poll_s * 1000)

  -- The start of `provisioning_task` and of its statics, on what the configuration holds.
  unfoldable pub start : Device → Client
  start dev = record {
    device = dev;
    status = record {
      state =
          if leb maturing dev.state
          then maturing_text
          else b'p' ∷ b'r' ∷ b'o' ∷ b'v' ∷ b'i' ∷ b's' ∷ b'i' ∷ b'o' ∷ b'n' ∷ b'i' ∷ b'n' ∷ b'g'
            ∷ [];
      progress_pct = 0;
      matures_in_s = 0;
      station_id = [];
      q_sats = 0;
      q_fix = 0;
      position = none;
      enrolled = leb provisioning dev.state;
    };
    token = take 95 dev.station_token;
    poll_s = default_poll_s;
    fixed_base_set = false;
    task_state = dev.state;
    reconnects = 0;
    positions = [];
  }
