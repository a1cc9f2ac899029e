-- ===== src/Ota.antt =====
-- main/update.c, the state that keeps an update from bricking the device: the version order, the
-- attempt budget per version, the boot-loop guard and its counter. The NVS namespace "ota" is one
-- record, a key that was never written is `none`, and a write into an opened handle succeeds.
pub mod Newer
pub mod Budget
pub mod Guard
pub mod Confirm
pub mod Steady
pub mod Contract
pub mod Install
pub mod BootCheck
use mathlib.Core.List.{List, [], ◌∷◌}
use mathlib.Core.Option.{Option, none, some}
use mathlib.Core.Bool.{Bool, true, false, not, ◌&&◌, ◌||◌}
use rtkdata_fw.Base.{ℕ, zero, suc, ◌+◌, if◌then◌else◌, ltb, leb, ◌==◌, u8, length}

-- A version text, with the fields that `sscanf` reads from it, at most three and not negative.
pub record Version : Type 0 where
  pub text : List ℕ
  pub fields : List ℕ

-- `strcmp(a, b) == 0`
unfoldable pub same_text : List ℕ → List ℕ → Bool
same_text [] [] = true
same_text [] (y ∷ ys) = false
same_text (x ∷ xs) [] = false
same_text (x ∷ xs) (y ∷ ys) = (x == y) && same_text xs ys

-- A field that was not read is 0.
abbrev pub field : List ℕ → ℕ → ℕ
field [] i = 0
field (x ∷ xs) zero = x
field (x ∷ xs) (suc i) = field xs i

-- The loop over the fields from `i` on, `n` of them left.
unfoldable pub newer_from : ℕ → ℕ → List ℕ → List ℕ → Bool
newer_from zero i ca cu = false
newer_from (suc n) i ca cu =
    let rest = newer_from n (i + 1) ca cu in
    if ltb (field cu i) (field ca i)
    then true
    else if ltb (field ca i) (field cu i)
    then false
    else rest

-- `ota_version_is_newer`
unfoldable pub version_is_newer : Version → Version → Bool
unfolding same_text newer_from
version_is_newer cand cur =
    if ltb (length cand.fields) 1 || ltb (length cur.fields) 1
    then not (same_text cand.text cur.text)
    else newer_from 3 0 cand.fields cur.fields

-- The keys fail_ver, fail_cnt, bootloop and planned_rb.
pub record Nvs : Type 0 where
  pub fail_ver : Option (List ℕ)
  pub fail_cnt : Option ℕ
  pub bootloop : Option ℕ
  pub planned_rb : Option ℕ

abbrev pub nvs_empty : Nvs
nvs_empty = record { fail_ver = none; fail_cnt = none; bootloop = none; planned_rb = none }

abbrev pub max_ota_attempts : ℕ
max_ota_attempts = 3

abbrev pub max_boot_loops : ℕ
max_boot_loops = 5

-- `nvs_get_u8` into a variable that holds 0.
abbrev pub get_u8 : Option ℕ → ℕ
get_u8 none = 0
get_u8 (some n) = n

-- `nvs_get_str` into `stored[24]`, then the comparison with `version`.
unfoldable pub stored_is : List ℕ → Option (List ℕ) → Bool
unfolding same_text
stored_is version none = false
stored_is version (some v) = leb (length v + 1) 24 && same_text v version

-- The failures that are booked for a version.
unfoldable pub booked : List ℕ → Nvs → ℕ
unfolding stored_is
booked version nvs = if stored_is version nvs.fail_ver then get_u8 nvs.fail_cnt else 0

-- `ota_attempt_allowed`; `opens` says whether `nvs_open` succeeds.
unfoldable pub attempt_allowed : Bool → List ℕ → Nvs → Bool × Nvs
unfolding booked
attempt_allowed opens version nvs =
    let cnt = booked version nvs in
    if not opens
    then (true, nvs)
    else if leb max_ota_attempts cnt
    then (false, nvs)
    else (true, record nvs { fail_ver = some version; fail_cnt = some (u8 (cnt + 1)) })

-- `ota_attempts_exhausted`
unfoldable pub attempts_exhausted : Bool → List ℕ → Nvs → Bool
unfolding booked
attempts_exhausted opens version nvs =
    if not opens then false else leb max_ota_attempts (booked version nvs)

-- `ota_note_planned_reboot`
unfoldable pub note_planned_reboot : Bool → Nvs → Nvs
note_planned_reboot opens nvs = if opens then record nvs { planned_rb = some 1 } else nvs

-- `esp_reset_reason_t`, as far as the guard tells the reasons apart.
pub data Reason : Type 0 where
  panic int_wdt task_wdt wdt brownout unknown software other : Reason

-- What the guard asks of the platform: the reason, whether the image is PENDING_VERIFY, whether
-- the running partition is the factory app, whether otadata exists and can be erased, and whether
-- `nvs_open` succeeds, the first and the later times.
pub record Boot : Type 0 where
  pub reason : Reason
  pub just_installed : Bool
  pub on_factory : Bool
  pub has_otadata : Bool
  pub erases : Bool
  pub opens : Bool
  pub reopens : Bool

-- `crash_like`
unfoldable pub crash_like : Boot → Bool → Bool
crash_like b planned = elim b.reason [
  | panic ↦ true
  | int_wdt ↦ true
  | task_wdt ↦ true
  | wdt ↦ true
  | brownout ↦ true
  | unknown ↦ true
  | software ↦ not planned && not b.just_installed
  | other ↦ false
]

-- The guard lets the boot go on, or restarts into the factory app.
pub data Guarded : Type 0 where
  boots into_factory : Guarded

-- Past the count: the fallback, when the streak is long enough and the platform lets it.
unfoldable pub fall_back : Boot → ℕ → Nvs → Nvs × Guarded
unfolding note_planned_reboot
fall_back b count nvs =
    if ltb count max_boot_loops || (b.on_factory || (not b.has_otadata || not b.erases))
    then (nvs, boots)
    else let cleared : Nvs = if b.reopens then record nvs { bootloop = some 0 } else nvs in
      (note_planned_reboot b.reopens cleared, into_factory)

-- What the guard does once it has read the marker and the counter.
unfoldable pub guard_with : Boot → Bool → ℕ → Nvs → Nvs × Guarded
unfolding crash_like fall_back
guard_with b planned count nvs =
    let a : Nvs = if planned then record nvs { planned_rb = some 0 } else nvs in
    if not b.opens
    then (nvs, boots)
    else if not (crash_like b planned)
    then (a, boots)
    else fall_back b count (record a { bootloop = some count })

-- `ota_boot_loop_guard`
unfoldable pub boot_loop_guard : Boot → Nvs → Nvs × Guarded
unfolding guard_with
boot_loop_guard b nvs =
    guard_with b (not (get_u8 nvs.planned_rb == 0)) (u8 (get_u8 nvs.bootloop + 1)) nvs

-- `ota_bootloop_clear_task`, after its delay.
unfoldable pub bootloop_clear : Bool → Nvs → Nvs
bootloop_clear opens nvs = if opens then record nvs { bootloop = some 0 } else nvs
