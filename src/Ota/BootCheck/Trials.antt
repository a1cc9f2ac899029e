-- ===== src/Ota/BootCheck/Trials.antt =====
-- The attempts of the boot check over many boots.
use mathlib.Core.List.{List, [], ◌∷◌}
use mathlib.Core.Option.{Option, some}
use rtkdata_fw.Base.{ℕ, ◌+◌, ◌≤◌, ◌<◌, ◌≡◌}
use rtkdata_fw.Base.{true}
use rtkdata_fw.Ota.{Version, version_is_newer, Nvs, booked}
use rtkdata_fw.Ota.Install.{min_ota_heap}
use rtkdata_fw.Ota.BootCheck.{Manifest, Offer, End, no_update, deferred, spent, installed, failed}
use rtkdata_fw.Ota.BootCheck.{boot_check}

-- Whether the check has tried to install.
unfoldable pub tries : End → ℕ
tries no_update = 0
tries deferred = 0
tries spent = 0
tries installed = 1
tries failed = 1

-- What an attempt asks for.
pub record Grounds (o : Offer) (v : Version) : Type 0 where
  pub newer : version_is_newer v o.current ≡ true
  pub room : min_ota_heap ≤ o.heap_now
  pub reached : o.heap < min_ota_heap → o.has_ip ≡ true

-- A check against the attempts that are booked for a text: it books an attempt for each try and for
-- nothing else, none beyond the third.
pub record Books (text : List ℕ) (nvs : Nvs) (r : End × Nvs) : Type 0 where
  pub count : booked text r.1 ≡ booked text nvs + tries r.0
  pub within : booked text nvs ≤ 3 → booked text r.1 ≤ 3

-- The budget can be opened, and a manifest that names a version names this text.
pub record Proposes (text : List ℕ) (o : Offer) : Type 0 where
  pub opens : o.opens ≡ true
  pub names :
      (m : Manifest) (v : Version) → o.manifest ≡ some m → m.version ≡ some v → v.text ≡ text

-- The tries of a series of boots, and the namespace after it.
unfoldable pub trials : List Offer → Nvs → ℕ × Nvs
unfolding boot_check tries
trials [] nvs = (0, nvs)
trials (o ∷ os) nvs = let r = boot_check o nvs in let q = trials os r.1 in (tries r.0 + q.0, q.1)

-- What there is when the check tries to install.
pub record Attempt (o : Offer) : Type 0 where
  pub manifest : Manifest
  pub version : Version
  pub fetched : o.manifest ≡ some manifest
  pub named : manifest.version ≡ some version
  pub grounds : Grounds o version
