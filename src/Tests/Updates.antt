-- ===== src/Tests/Updates.antt =====
-- The update guards on short runs.
use mathlib.Core.List.{List, [], ◌∷◌}
use mathlib.Core.Option.{some}
use rtkdata_fw.Base.{ℕ, ◌*◌, ◌≡◌, ◌≢◌, ◌⊎◌, refl, arith, true, false}
use rtkdata_fw.Ota.{Version, version_is_newer, Nvs, nvs_empty, get_u8}
use rtkdata_fw.Ota.{Boot, panic, other, software, boots, into_factory, boot_loop_guard}
use rtkdata_fw.Ota.BootCheck.{Offer, firmware, www}
use rtkdata_fw.Ota.BootCheck.Trials.{trials}
use rtkdata_fw.Ota.Newer.{Later, version_is_newer-Later}
use mathlib.Core.Logic.{◌↔◌}
use rtkdata_fw.Ota.Guard.{
  Event, booted, cleared, announced, tally, Calm, evidence, run_on, run_on-patient, run_on-fifth,
}
use rtkdata_fw.Ota.Confirm.{Check, probe_init, confirm_loop, Platform, conclude}
use rtkdata_fw.Ota.Steady.{Steady}
use rtkdata_fw.Ota.Contract.{IsIdle, Stopped, conclude-contract, IsStale, conclude-rollback}
use rtkdata_fw.Ota.Install.{Download, bootable, update_firmware, update_firmware-later_file, sent}

-- "1.1.6", "1.1.5" and "1.0.9"
abbrev v116 : Version
v116 = record { text = 49 ∷ 46 ∷ 49 ∷ 46 ∷ 54 ∷ []; fields = 1 ∷ 1 ∷ 6 ∷ [] }

abbrev v115 : Version
v115 = record { text = 49 ∷ 46 ∷ 49 ∷ 46 ∷ 53 ∷ []; fields = 1 ∷ 1 ∷ 5 ∷ [] }

abbrev v109 : Version
v109 = record { text = 49 ∷ 46 ∷ 48 ∷ 46 ∷ 57 ∷ []; fields = 1 ∷ 0 ∷ 9 ∷ [] }

version_is_newer-Later_example : (version_is_newer v116 v109 ≡ true) ↔ Later v116.fields v109.fields
version_is_newer-Later_example = version_is_newer-Later v116 v109 (omega arith) (omega arith)

-- Two attempts of another version are stored.
abbrev other_stored : Nvs
other_stored = record nvs_empty { fail_ver = some (v115.text); fail_cnt = some 2 }

-- A version text of 24 characters.
abbrev long_text : List ℕ
long_text =
    49 ∷ 46 ∷ 49 ∷ 46 ∷ 54 ∷ 45 ∷ 97 ∷ 97 ∷ 97 ∷ 97 ∷ 97 ∷ 97 ∷ 97 ∷ 97 ∷ 97 ∷ 97 ∷ 97 ∷ 97 ∷ 97
    ∷ 97 ∷ 97 ∷ 97 ∷ 97 ∷ 97 ∷ []

-- A panic and a power-on of an image in an update slot.
abbrev crash : Boot
crash = record {
  reason = panic;
  just_installed = false;
  on_factory = false;
  has_otadata = true;
  erases = true;
  opens = true;
  reopens = true;
}

abbrev planned_restart : Boot
planned_restart = record crash { reason = software }

abbrev power_on : Boot
power_on = record crash { reason = other }

-- An announced restart that is not counted, a crash, a healthy run, and four faulty boots.
abbrev four_faults : List Event
four_faults =
    announced
    ∷ booted planned_restart
    ∷ booted crash
    ∷ cleared
    ∷ booted crash
    ∷ booted power_on
    ∷ booted planned_restart
    ∷ booted crash
    ∷ booted crash
    ∷ []

four_faults-Calm : Calm four_faults 0 false
unfolding Calm evidence
four_faults-Calm = (
  refl,
  omega arith,
  (
    refl,
    omega arith,
    (
      refl,
      omega arith,
      (refl, omega arith, (refl, omega arith, (refl, omega arith, (refl, omega arith, tt)))),
    ),
  ),
)

run_on-patient_example :
    ((run_on four_faults (nvs_empty, boots)).1 ≡ false)
    × (get_u8 (run_on four_faults (nvs_empty, boots)).0.bootloop ≡ (tally four_faults 0 false).0)
run_on-patient_example = run_on-patient four_faults four_faults-Calm

run_on-fifth_example :
    let o = boot_loop_guard crash (run_on four_faults (nvs_empty, boots)).0 in
    (o.1 ≡ into_factory) × ((get_u8 o.0.bootloop ≡ 0) × (get_u8 o.0.planned_rb ≡ 1))
unfolding tally evidence
run_on-fifth_example =
    run_on-fifth four_faults crash four_faults-Calm refl refl
      (record { opens = refl; reopens = refl; on_update = refl; has_otadata = refl; erases = refl })

-- Check number `n` of a sound station, ten seconds apart.
abbrev sound_check : ℕ → Check
sound_check n = record {
  elapsed_ms = 10000 * n;
  frames_ok = 40 * n;
  accepted = 4096 * n;
  instances = 1;
  recoveries_gnss = 0;
  all_fresh = true;
  fresh_final = true;
  free_heap = 90000;
}

abbrev four_checks : List Check
four_checks = sound_check 1 ∷ sound_check 2 ∷ sound_check 3 ∷ sound_check 4 ∷ []

abbrev pending_image : Platform
pending_image = record { pending_verify = true; marks_valid = true; opens = true }

conclude-contract_example :
    (pending_image.pending_verify ≡ true)
    × (Stopped four_checks (λ past. Steady 3 past) ⊎ Stopped four_checks IsIdle)
unfolding conclude confirm_loop
conclude-contract_example = conclude-contract pending_image nvs_empty four_checks refl

-- No message for half an hour.
abbrev deaf : List Check
deaf =
    record (sound_check 1) { all_fresh = false }
    ∷ record (sound_check 180) { fresh_final = false }
    ∷ []

conclude-rollback_example :
    (pending_image.pending_verify ≡ true)
    × Stopped deaf IsStale
    × ((conclude pending_image (confirm_loop deaf probe_init) other_stored).0 ≡ other_stored)
unfolding conclude confirm_loop
conclude-rollback_example = conclude-rollback pending_image other_stored deaf refl

-- A firmware file of 1500 bytes in two chunks.
abbrev whole_file : Download
whole_file = record {
  free_heap = 130000;
  has_client = true;
  connects = true;
  has_partition = true;
  status = 200;
  content_length = some 1500;
  begins = true;
  reads = (1024, true) ∷ (476, true) ∷ [];
  read_fails = false;
  ends = true;
  sets_boot = true;
}

update_firmware-later_file_example : (update_firmware whole_file 4096).1 ≢ bootable
unfolding sent
update_firmware-later_file_example = update_firmware-later_file whole_file 4096 (omega arith) refl

-- Four boots to which 1.1.6 is offered: the second finds too little heap, the others fail to download.
abbrev failing : ℕ → Offer
failing free = record {
  manifest = some (record { version = some v116; files = some (firmware false ∷ www true ∷ []) });
  current = v115;
  heap = free;
  has_ip = true;
  heap_now = free;
  opens = true;
  opens_marker = true;
}

boots_tried :
    (trials (failing 200000 ∷ failing 90000 ∷ failing 200000 ∷ failing 200000 ∷ []) nvs_empty).0 ≡ 3
unfolding trials
boots_tried = refl
