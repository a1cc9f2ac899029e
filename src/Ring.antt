-- ===== src/Ring.antt =====
-- main/interface/ntrip_tx_core.c, the frame ring: `ntrip_ring_slot_t`, `ntrip_ring_t`,
-- `ntrip_ring_init`, `ntrip_ring_push` and `ring_oldest_seq`. Each function runs with the ring's
-- lock held, so it is one step on the ring; the hooks themselves only lock.
pub mod History
use mathlib.Core.List.{List, []}
use mathlib.Core.Bool.{◌||◌}
use rtkdata_fw.Base.{ℕ, ◌+◌, ◌-◌, ◌%◌, if◌then◌else◌, ltb, ◌==◌, u32, u64, length}

-- `RTCM_RING_SLOTS`
abbrev pub ring_slots : ℕ
ring_slots = 16

pub record Slot : Type 0 where
  pub seq : ℕ
  pub received_ms : ℕ
  pub len : ℕ
  pub cum_bytes : ℕ
  pub frame : List ℕ

pub record Ring : Type 0 where
  pub slot : ℕ → Slot
  pub next_seq : ℕ
  pub cum_bytes : ℕ
  pub pushed_frames : ℕ

-- `ntrip_ring_init`
abbrev pub ring_init : Ring
ring_init = record {
  slot = λ _. record { seq = 0; received_ms = 0; len = 0; cum_bytes = 0; frame = [] };
  next_seq = 0;
  cum_bytes = 0;
  pushed_frames = 0;
}

unfoldable pub push : Ring → List ℕ → ℕ → Ring
push r frame now =
    if ltb (length frame) 6 || ltb 1029 (length frame)
    then r
    else let total = u64 (r.cum_bytes + length frame) in
      let s : Slot = record {
        seq = r.next_seq;
        received_ms = now;
        len = length frame;
        cum_bytes = total;
        frame = frame;
      } in
      record {
        slot = λ i. if i == r.next_seq % ring_slots then s else r.slot i;
        next_seq = u32 (r.next_seq + 1);
        cum_bytes = total;
        pushed_frames = u64 (r.pushed_frames + 1);
      }

-- `ring_oldest_seq`: the oldest sequence number that is still resident.
unfoldable pub oldest_seq : Ring → ℕ
oldest_seq r = if ltb ring_slots r.next_seq then r.next_seq - ring_slots else 0
