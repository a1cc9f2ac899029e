-- ===== src/Ota/Guard.antt =====
-- The boot-loop guard of main/update.c over a run of boots.
use mathlib.Core.List.{List, [], ◌∷◌}
use mathlib.Core.Path.{subst}
use mathlib.Core.Option.{some}
use rtkdata_fw.Base.{ℕ, suc, ◌+◌, ◌<◌, ◌≡◌, refl, ap, ◌∙◌, inl, inr, arith, if◌then◌else◌}
use rtkdata_fw.Base.{Bool, true, false, not, ◌&&◌, ◌==◌, Bool-cases, u8, lt→ltb}
use rtkdata_fw.Ota.{Nvs, nvs_empty, max_boot_loops, get_u8, note_planned_reboot, bootloop_clear}
use rtkdata_fw.Ota.{Reason, panic, int_wdt, task_wdt, wdt, brownout, unknown, software, other, Boot}
use rtkdata_fw.Ota.{
  crash_like, Guarded, boots, into_factory, fall_back, guard_with, boot_loop_guard,
}

-- The count that is stored, and whether a planned restart is outstanding.
pub record Streak (k : ℕ) (planned : Bool) (nvs : Nvs) : Type 0 where
  pub count : get_u8 nvs.bootloop ≡ k
  pub marker : get_u8 nvs.planned_rb ≡ (if planned then 1 else 0)

-- A boot on which the platform does what the fallback needs.
pub record CanFallBack (b : Boot) : Type 0 where
  pub opens : b.opens ≡ true
  pub reopens : b.reopens ≡ true
  pub on_update : b.on_factory ≡ false
  pub has_otadata : b.has_otadata ≡ true
  pub erases : b.erases ≡ true

-- What is evidence against the image: a panic, a watchdog, a brownout, an unknown reset, or a restart
-- by software that was neither planned nor the first boot of an image that was just installed.
unfoldable pub evidence : Reason → Bool → Bool → Bool
evidence panic planned just_installed = true
evidence int_wdt planned just_installed = true
evidence task_wdt planned just_installed = true
evidence wdt planned just_installed = true
evidence brownout planned just_installed = true
evidence unknown planned just_installed = true
evidence software true just_installed = false
evidence software false true = false
evidence software false false = true
evidence other planned just_installed = false

abbrev against : Boot → Bool → Bool
against b planned = evidence b.reason planned b.just_installed

crash_like-evidence : (b : Boot) (planned : Bool) → crash_like b planned ≡ against b planned
unfolding crash_like evidence
crash_like-evidence b planned = go b.reason b.just_installed
  where
    restart : (p j : Bool) → (not p && not j) ≡ evidence software p j
    restart true j = refl
    restart false true = refl
    restart false false = refl

    go :
        (r : Reason) (j : Bool)
        → crash_like (record b { reason = r; just_installed = j }) planned ≡ evidence r planned j
    go panic j = refl
    go int_wdt j = refl
    go task_wdt j = refl
    go wdt j = refl
    go brownout j = refl
    go unknown j = refl
    go software j = restart planned j
    go other j = refl

-- What happens to a station: a boot, the counter cleared after a healthy run, a restart
-- announced.
pub data Event : Type 0 where
  booted : Boot → Event
  cleared : Event
  announced : Event

-- The count and the marker of the announcement that a run of events is worth: a boot that is evidence
-- counts, any boot uses up the announcement, and a healthy run starts anew.
unfoldable pub tally : List Event → ℕ → Bool → ℕ × Bool
tally [] k planned = (k, planned)
tally (booted b ∷ es) k planned = tally es (if against b planned then suc k else k) false
tally (cleared ∷ es) k planned = tally es 0 planned
tally (announced ∷ es) k planned = tally es k true

-- NVS opens at every boot, and the count stays below five.
unfoldable pub Calm : List Event → ℕ → Bool → Type 0
Calm [] k planned = Unit
Calm (booted b ∷ es) k planned =
    (b.opens ≡ true)
    × ((if against b planned then suc k else k) < 5)
    × Calm es (if against b planned then suc k else k) false
Calm (cleared ∷ es) k planned = Calm es 0 planned
Calm (announced ∷ es) k planned = Calm es k true

flip_if : {A : Type 0} (c : Bool) (x y : A) → (if not c then x else y) ≡ (if c then y else x)
flip_if true x y = refl
flip_if false x y = refl

abbrev unmarked : Bool → Nvs → Nvs
unmarked planned nvs = if planned then record nvs { planned_rb = some 0 } else nvs

-- The guard on a count below five.
guard_lem :
    (k : ℕ) (planned : Bool) (b : Boot) (nvs : Nvs)
    → b.opens ≡ true
    → k < 5
    → Streak k planned nvs
    → boot_loop_guard b nvs ≡ (
        if against b planned
        then fall_back b (suc k) (record (unmarked planned nvs) { bootloop = some (suc k) })
        else (unmarked planned nvs, boots))
unfolding boot_loop_guard guard_with
guard_lem k planned b nvs o small s =
    let marked : not (get_u8 nvs.planned_rb == 0) ≡ planned =
      ap (λ n. not (n == 0)) s.marker ∙ read planned in
    let count : u8 (get_u8 nvs.bootloop + 1) ≡ suc k = ap (λ n. u8 (n + 1)) s.count ∙ omega arith in
    let a = unmarked planned nvs in
    ap (λ p. guard_with b p (u8 (get_u8 nvs.bootloop + 1)) nvs) marked
    ∙ ap (λ n. guard_with b planned n nvs) count
    ∙ ap
        (λ p.
          if not p
          then (nvs, boots)
          else if not (crash_like b planned)
          then (a, boots)
          else fall_back b (suc k) (record a { bootloop = some (suc k) }))
        o
    ∙ flip_if (crash_like b planned) (a, boots)
        (fall_back b (suc k) (record a { bootloop = some (suc k) }))
    ∙ ap (λ c. if c then fall_back b (suc k) (record a { bootloop = some (suc k) }) else (a, boots))
        (crash_like-evidence b planned)
  where
    read : (p : Bool) → not ((if p then 1 else 0) == 0) ≡ p
    read true = refl
    read false = refl

unmarked-Streak :
    (k : ℕ) (planned : Bool) (nvs : Nvs)
    → Streak k planned nvs
    → Streak k false (unmarked planned nvs)
unmarked-Streak k true nvs s = record { count = s.count; marker = refl }
unmarked-Streak k false nvs s = s

fall_back-early : (b : Boot) (k : ℕ) (nvs : Nvs) → k < 5 → fall_back b k nvs ≡ (nvs, boots)
unfolding fall_back
fall_back-early b k nvs h = rw (lt→ltb k max_boot_loops h) refl

fall_back-due :
    (b : Boot) (nvs : Nvs)
    → CanFallBack b
    → fall_back b 5 nvs ≡ (record nvs { bootloop = some 0; planned_rb = some 1 }, into_factory)
unfolding fall_back note_planned_reboot
fall_back-due b nvs c = rw c.on_update (rw c.has_otadata (rw c.erases (rw c.reopens refl)))

-- One boot that does not fall back.
guard-step :
    (k : ℕ) (planned : Bool) (b : Boot) (nvs : Nvs)
    → b.opens ≡ true
    → Streak k planned nvs
    → (if against b planned then suc k else k) < 5
    → Streak (if against b planned then suc k else k) false (boot_loop_guard b nvs).0
      × ((boot_loop_guard b nvs).1 ≡ boots)
guard-step k planned b nvs o s room =
    let a = unmarked planned nvs in
    let u = unmarked-Streak k planned nvs s in
    let pick = λ (c : Bool).
      if c then fall_back b (suc k) (record a { bootloop = some (suc k) }) else (a, boots) in
    elim (Bool-cases (against b planned)) [
      | inl e ↦
          let small : suc k < 5 = subst (λ c. (if c then suc k else k) < 5) e room in
          let g =
            guard_lem k planned b nvs o (omega arith) s
            ∙ ap pick e
            ∙ fall_back-early b (suc k) (record a { bootloop = some (suc k) }) small in
          rw g (rw e (record { count = refl; marker = u.marker }, refl))
      | inr e ↦
          let small : k < 5 = subst (λ c. (if c then suc k else k) < 5) e room in
          let g = guard_lem k planned b nvs o small s ∙ ap pick e in rw g (rw e (u, refl))
    ]

-- The namespace after a run of events, and whether one of its boots went into the factory app, which
-- ends the run.
unfoldable pub run_on : List Event → Nvs × Guarded → Nvs × Bool
unfolding boot_loop_guard bootloop_clear note_planned_reboot
run_on es (nvs, into_factory) = (nvs, true)
run_on [] (nvs, boots) = (nvs, false)
run_on (booted b ∷ es) (nvs, boots) = run_on es (boot_loop_guard b nvs)
run_on (cleared ∷ es) (nvs, boots) = run_on es (bootloop_clear true nvs, boots)
run_on (announced ∷ es) (nvs, boots) = run_on es (note_planned_reboot true nvs, boots)

absurd_into : {A : Type 0} → into_factory ≡ boots → A
absurd_into h = ground arith

run_on-Streak :
    (es : List Event) (k : ℕ) (planned : Bool) (o : Nvs × Guarded)
    → Calm es k planned
    → o.1 ≡ boots
    → Streak k planned o.0
    → Streak (tally es k planned).0 (tally es k planned).1 (run_on es o).0
      × ((run_on es o).1 ≡ false)
unfolding run_on tally Calm
run_on-Streak es k planned (nvs, into_factory) h e s = absurd_into e
run_on-Streak [] k planned (nvs, boots) h e s = (s, refl)
run_on-Streak (booted b ∷ es) k planned (nvs, boots) h e s =
    let g = guard-step k planned b nvs h.0 s h.1 in
    run_on-Streak es (if against b planned then suc k else k) false (boot_loop_guard b nvs) h.2 g.1
      g.0
run_on-Streak (cleared ∷ es) k planned (nvs, boots) h e s =
    run_on-Streak es 0 planned (bootloop_clear true nvs, boots) h refl
      (unfold bootloop_clear in record { count = refl; marker = s.marker })
run_on-Streak (announced ∷ es) k planned (nvs, boots) h e s =
    run_on-Streak es k true (note_planned_reboot true nvs, boots) h refl
      (unfold note_planned_reboot in record { count = s.count; marker = refl })

-- From an empty store, over any boots, healthy runs and announced restarts: as long as NVS opens and the
-- evidence against the image since the last healthy run is less than five boots, no boot falls back, and
-- the counter holds the number of these boots. A panic, a watchdog, a brownout and an unknown reset are
-- evidence, and a software restart that was neither announced nor the first of a new image.
pub run_on-patient :
    (es : List Event)
    → Calm es 0 false
    → ((run_on es (nvs_empty, boots)).1 ≡ false)
      × (get_u8 (run_on es (nvs_empty, boots)).0.bootloop ≡ (tally es 0 false).0)
run_on-patient es h =
    let r =
      run_on-Streak es 0 false (nvs_empty, boots) h refl (record { count = refl; marker = refl }) in
    (r.1, r.0.count)

-- After such a run with four boots of evidence since the last healthy run, a fifth one goes into the
-- factory app, if the platform does what that needs, with the counter cleared and its own restart marked
-- as planned.
pub run_on-fifth :
    (es : List Event) (b : Boot)
    → Calm es 0 false
    → (tally es 0 false).0 ≡ 4
    → evidence b.reason (tally es 0 false).1 b.just_installed ≡ true
    → CanFallBack b
    → let o = boot_loop_guard b (run_on es (nvs_empty, boots)).0 in
      (o.1 ≡ into_factory) × ((get_u8 o.0.bootloop ≡ 0) × (get_u8 o.0.planned_rb ≡ 1))
run_on-fifth es b h four e c =
    let r =
      run_on-Streak es 0 false (nvs_empty, boots) h refl (record { count = refl; marker = refl }) in
    let nvs = (run_on es (nvs_empty, boots)).0 in
    let planned = (tally es 0 false).1 in
    let a = unmarked planned nvs in
    let s : Streak 4 planned nvs = subst (λ n. Streak n planned nvs) four r.0 in
    let g =
      guard_lem 4 planned b nvs c.opens (omega arith) s
      ∙ ap (λ x. if x then fall_back b 5 (record a { bootloop = some 5 }) else (a, boots)) e
      ∙ fall_back-due b (record a { bootloop = some 5 }) c in
    rw g (refl, (refl, refl))
