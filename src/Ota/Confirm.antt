-- ===== src/Ota/Confirm.antt =====
-- `ota_mark_valid_task` of main/update.c: the checks of a new image, and what it does with their
-- outcome. A check is what one pass of the loop reads.
use mathlib.Core.List.{List, [], ◌∷◌}
use mathlib.Core.Option.{none}
use mathlib.Core.Bool.{Bool, true, false, not, ◌&&◌}
use rtkdata_fw.Base.{ℕ, ◌+◌, ◌-◌, ◌*◌, if◌then◌else◌, ltb, leb, ◌==◌}
use rtkdata_fw.Ota.{Nvs}

-- The `OTA_CONFIRM_*` block.
abbrev pub stable_n : ℕ
stable_n = 3

abbrev pub deadline_ms : ℕ
deadline_ms = 30 * 60 * 1000

abbrev pub min_frame_delta : ℕ
min_frame_delta = 10

abbrev pub min_byte_delta : ℕ
min_byte_delta = 2048

abbrev pub unprov_ms : ℕ
unprov_ms = 10 * 60 * 1000

abbrev pub min_heap_b : ℕ
min_heap_b = 20480

-- The totals, the health and the freshness of a pass; `fresh_final` is the freshness that is read
-- again at the deadline.
pub record Check : Type 0 where
  pub elapsed_ms : ℕ
  pub frames_ok : ℕ
  pub accepted : ℕ
  pub instances : ℕ
  pub recoveries_gnss : ℕ
  pub all_fresh : Bool
  pub fresh_final : Bool
  pub free_heap : ℕ

-- The locals of the task.
pub record Probe : Type 0 where
  pub have_prev : Bool
  pub prev_rec_gnss : ℕ
  pub prev_frames : ℕ
  pub prev_bytes : ℕ
  pub stable : ℕ

abbrev pub probe_init : Probe
probe_init = record {
  have_prev = false;
  prev_rec_gnss = 0;
  prev_frames = 0;
  prev_bytes = 0;
  stable = 0;
}

unfoldable pub delta : ℕ → ℕ → ℕ
delta now prev = if ltb prev now then now - prev else 0

-- What a pass takes for a sound data path.
unfoldable pub sound : Check → Probe → Bool
unfolding delta
sound c p =
    let gnss_ok = leb min_frame_delta (delta c.frames_ok p.prev_frames) && c.all_fresh in
    let no_new_rec = p.have_prev && (c.recoveries_gnss == p.prev_rec_gnss) in
    let caster_good = ltb 0 c.instances && leb min_byte_delta (delta c.accepted p.prev_bytes) in
    gnss_ok && (no_new_rec && caster_good)

-- The locals after a pass.
unfoldable pub observe : Check → Probe → Probe
unfolding sound
observe c p = record {
  have_prev = true;
  prev_rec_gnss = c.recoveries_gnss;
  prev_frames = c.frames_ok;
  prev_bytes = c.accepted;
  stable = if sound c p then p.stable + 1 else 0;
}

pub data Verdict : Type 0 where
  go_on semantic unprovisioned local_fault : Verdict

-- What a pass decides, after it has updated the locals.
unfoldable pub decide : Check → Probe → Verdict
decide c q =
    if leb stable_n q.stable
    then semantic
    else if (c.instances == 0) && (leb unprov_ms c.elapsed_ms && ltb min_heap_b c.free_heap)
    then unprovisioned
    else if leb deadline_ms c.elapsed_ms && not c.fresh_final
    then local_fault
    else go_on

-- The loop of the task over the checks that are still to come, and where it ends.
unfoldable pub confirm_loop : List Check → Probe → Verdict
unfolding observe decide
confirm_loop [] p = go_on
confirm_loop (c ∷ cs) p =
    let q = observe c p in
    let rest = confirm_loop cs q in
    elim (decide c q) [
      | go_on ↦ rest
      | semantic ↦ semantic
      | unprovisioned ↦ unprovisioned
      | local_fault ↦ local_fault
    ]

-- What the platform says when the task is through.
pub record Platform : Type 0 where
  pub pending_verify : Bool
  pub marks_valid : Bool
  pub opens : Bool

-- The image is confirmed, rolled back, or left as it is.
pub data Fate : Type 0 where
  confirmed rolled_back left : Fate

-- `fail_ver` and `fail_cnt` are erased only after a confirmation.
unfoldable pub conclude : Platform → Verdict → Nvs → Nvs × Fate
conclude w v nvs =
    let spared : Nvs = record nvs { fail_ver = none; fail_cnt = none } in
    let confirm : Nvs × Fate =
      if w.pending_verify && w.marks_valid
      then (if w.opens then spared else nvs, confirmed)
      else (nvs, left) in
    elim v [
      | go_on ↦ (nvs, left)
      | semantic ↦ confirm
      | unprovisioned ↦ confirm
      | local_fault ↦ (nvs, if w.pending_verify then rolled_back else left)
    ]
