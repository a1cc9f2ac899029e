-- ===== src/Freshness.antt =====
-- main/interface/ntrip_server.c, the evidence that the receiver emits the required messages: the
-- bookkeeping of `ntrip_server_on_frame`, `ntrip_server_msg_epoch_reset` and
-- `ntrip_server_msg_freshness`. Times are `uint32_t` milliseconds; the four parallel arrays are
-- one list of rows.
pub mod Epoch
use mathlib.Core.List.{List, [], ◌∷◌}
use mathlib.Core.Bool.{Bool, true, false, ◌&&◌}
use rtkdata_fw.Base.{
  ℕ, ◌+◌, ◌-◌, ◌*◌, ◌/◌, ◌^◌, if◌then◌else◌, ltb, leb, ◌==◌, bit_or, u16, u32, sub32,
}
use rtkdata_fw.Base.{length, get_or}

-- `ntrip_required_msgs[i]`, its budget, `s_msg_last_ms[i]` and `s_msg_epoch[i]`
pub record Sample : Type 0 where
  pub msg : ℕ
  pub budget_ms : ℕ
  pub last_ms : ℕ
  pub tag : ℕ

-- `s_epoch`, `s_epoch_started_ms`, `s_ingest_reset_req` and the samples
pub record Evidence : Type 0 where
  pub samples : List Sample
  pub epoch : ℕ
  pub since : ℕ
  pub reset_req : Bool

abbrev pub unseen : ℕ → ℕ → Sample
unseen msg budget = record { msg = msg; budget_ms = budget; last_ms = 0; tag = 0 }

-- The statics after a boot.
abbrev pub no_evidence : Evidence
no_evidence = record {
  samples = unseen 1005 30000 ∷ unseen 1033 30000 ∷ unseen 1077 5000 ∷ unseen 1087 5000 ∷ [];
  epoch = 1;
  since = 0;
  reset_req = false;
}

-- The first 12 bits of the payload.
unfoldable pub message_type : List ℕ → ℕ
message_type frame = u16 (bit_or (get_or frame 3 0 * 2 ^ 4) (get_or frame 4 0 / 2 ^ 4))

-- The loop over the required types, which stops at the first that matches.
unfoldable pub stamp : ℕ → ℕ → ℕ → List Sample → List Sample
stamp mtype now epoch [] = []
stamp mtype now epoch (r ∷ rs) =
    let rest = stamp mtype now epoch rs in
    if r.msg == mtype then record r { last_ms = now; tag = epoch } ∷ rs else r ∷ rest

-- The bookkeeping of `ntrip_server_on_frame`.
unfoldable pub note_frame : List ℕ → ℕ → Evidence → Evidence
unfolding stamp message_type
note_frame frame now e =
    if leb 6 (length frame)
    then record e { samples = stamp (message_type frame) now e.epoch e.samples }
    else e

unfoldable pub epoch_reset : ℕ → Evidence → Evidence
epoch_reset now e =
    let next = u32 (e.epoch + 1) in
    record e { since = now; epoch = if next == 0 then 1 else next; reset_req = true }

-- `(int32_t)(a - b) > 0`
unfoldable pub is_after : ℕ → ℕ → Bool
is_after a b = ltb 0 (sub32 a b) && ltb (sub32 a b) (2 ^ 31)

unfoldable pub in_epoch : ℕ → ℕ → Sample → Bool
unfolding is_after
in_epoch epoch since r = (r.tag == epoch) && is_after r.last_ms since

-- One row of `ntrip_msg_freshness_t`
pub record Age : Type 0 where
  pub msg : ℕ
  pub age_ms : ℕ
  pub fresh : Bool

unfoldable pub age_of : ℕ → ℕ → ℕ → Sample → Age
unfolding in_epoch
age_of now epoch since r =
    if in_epoch epoch since r
    then record {
      msg = r.msg;
      age_ms = sub32 now r.last_ms;
      fresh = leb (sub32 now r.last_ms) r.budget_ms;
    }
    else record { msg = r.msg; age_ms = 2 ^ 32 - 1; fresh = false }

unfoldable pub ages : ℕ → ℕ → ℕ → List Sample → List Age
unfolding age_of
ages now epoch since [] = []
ages now epoch since (r ∷ rs) = age_of now epoch since r ∷ ages now epoch since rs

unfoldable pub all_of : List Age → Bool
all_of [] = true
all_of (a ∷ rest) = a.fresh && all_of rest

-- `ntrip_msg_freshness_t`
pub record Freshness : Type 0 where
  pub types : List Age
  pub all_fresh : Bool

-- `ntrip_server_msg_freshness`; `epoch_after` is `s_epoch` when the function reads it again.
unfoldable pub msg_freshness : ℕ → ℕ → Evidence → Freshness
unfolding ages all_of
msg_freshness now epoch_after e =
    let types = ages now e.epoch e.since e.samples in
    record { types = types; all_fresh = all_of types && (epoch_after == e.epoch) }
