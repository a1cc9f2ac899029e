-- ===== src/Ota/BootCheck.antt =====
-- main/update.c, the update check at boot: `ota_boot_check` and `updateFirmware`. The manifest and what
-- the downloads, the heap and the network give are the record `Offer`; waiting is left out.
pub mod Trials
use mathlib.Core.List.{List, [], ◌∷◌}
use mathlib.Core.Option.{Option, none, some}
use mathlib.Core.Bool.{Bool, true, false, not, ◌&&◌}
use rtkdata_fw.Base.{ℕ, if◌then◌else◌, ltb}
use rtkdata_fw.Ota.{Version, version_is_newer, Nvs, attempt_allowed, note_planned_reboot}
use rtkdata_fw.Ota.Install.{min_ota_heap}

-- An entry of "update_files_urls": not a string, or a file with whether its update succeeds.
pub data File : Type 0 where
  not_text : File
  firmware : Bool → File
  www : Bool → File

pub record Manifest : Type 0 where
  pub version : Option Version
  pub files : Option (List File)

-- The manifest if it was fetched, the running version, the heap before and after the configuration AP
-- may have been closed, whether there is an IP address then, and whether `nvs_open` succeeds for the
-- budget and for the marker of the restart.
pub record Offer : Type 0 where
  pub manifest : Option Manifest
  pub current : Version
  pub heap : ℕ
  pub has_ip : Bool
  pub heap_now : ℕ
  pub opens : Bool
  pub opens_marker : Bool

-- How the check ends: without an update, with the update put off or given up, with a restart into the
-- new image, or with a failed update.
pub data End : Type 0 where
  no_update deferred spent installed failed : End

-- The loop of `updateFirmware`: whether all files were applied.
unfoldable pub update_files : List File → Bool
update_files [] = true
update_files (not_text ∷ fs) = update_files fs
update_files (firmware applied ∷ fs) = let rest = update_files fs in if applied then rest else false
update_files (www applied ∷ fs) = let rest = update_files fs in if applied then rest else false

-- `updateFirmware` on an attempt that is booked.
unfoldable pub update : Offer → List File → Nvs → End × Nvs
unfolding update_files note_planned_reboot
update o files nvs =
    if update_files files
    then (installed, note_planned_reboot o.opens_marker nvs)
    else (failed, nvs)

-- `ota_boot_check` on a manifest with a version and files.
unfoldable pub check : Offer → Version → List File → Nvs → End × Nvs
unfolding version_is_newer attempt_allowed update
check o v files nvs =
    let tried = attempt_allowed o.opens v.text nvs in
    if not (version_is_newer v o.current)
    then (no_update, nvs)
    else if ltb o.heap min_ota_heap && not o.has_ip
    then (deferred, nvs)
    else if ltb o.heap_now min_ota_heap
    then (deferred, nvs)
    else if not tried.0
    then (spent, tried.1)
    else update o files tried.1

unfoldable pub check_manifest : Offer → Option Version → Option (List File) → Nvs → End × Nvs
unfolding check
check_manifest o (some v) (some files) nvs = check o v files nvs
check_manifest o _ _ nvs = (no_update, nvs)

-- `ota_boot_check`
unfoldable pub boot_check : Offer → Nvs → End × Nvs
unfolding check_manifest
boot_check o nvs = elim o.manifest [
  | none ↦ (no_update, nvs)
  | some m ↦ check_manifest o m.version m.files nvs
]
