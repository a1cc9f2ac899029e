-- ===== src/Supervisor/Spacing.antt =====
-- The debounce of main/supervisor.c over whole runs: repeated recoveries keep their distance.
use mathlib.Core.List.{List, [], ◌∷◌}
use mathlib.Core.Path.{subst}
use rtkdata_fw.Base.{ℕ, ◌+◌, ◌*◌, ◌≤◌, ◌<◌, ◌≡◌, refl, sym, ◌∙◌}
use rtkdata_fw.Base.{◌⊎◌, inl, inr, arith, if◌then◌else◌, ltb, leb, not, Bool, true, false}
use rtkdata_fw.Base.{if-case, absurd_bool, and_right}
use rtkdata_fw.Supervisor.{Supervisor, Reading, Action, restart_heap, restart_wedge, restart_wifi}
use rtkdata_fw.Supervisor.{
  reconnect_caster, reset_gnss, age_s, note_gnss_rx, note_caster_tx, note_sta_ip,
}
use rtkdata_fw.Supervisor.{wedged, rungs, pass, count_heap, count_reboot, heap_spent, in_grace}
use rtkdata_fw.Supervisor.{deb_link_s, deb_caster_s, deb_gnss_s}
use rtkdata_fw.Supervisor.Run.{
  Event, gnss_rx, caster_tx, sta_ip, tick, step, same_action, asks, restarts, stamp, times,
}
use rtkdata_fw.Supervisor.Rungs.{due_wifi, due_caster, due_gnss, rungs-Fired}

-- The local variable that debounces a recovery, and its distance in microseconds.
unfoldable pub last_act : Action → Supervisor → ℕ
last_act restart_wifi s = s.last_link_act
last_act reconnect_caster s = s.last_caster_act
last_act reset_gnss s = s.last_gnss_act
last_act _ s = 0

unfoldable pub gap_us : Action → ℕ
gap_us restart_wifi = deb_link_s * 1000000
gap_us reconnect_caster = deb_caster_s * 1000000
gap_us reset_gnss = deb_gnss_s * 1000000
gap_us _ = 0

-- Each time is at least `gap` after the one before, the first after `t`.
unfoldable pub Spaced : ℕ → ℕ → List ℕ → Type 0
Spaced gap t [] = Unit
Spaced gap t (x ∷ xs) = (t + gap ≤ x) × Spaced gap x xs

age_s-lower : (d now t : ℕ) → 0 < d → leb d (age_s now t) ≡ true → t + d * 1000000 ≤ now
age_s-lower d now t p h = ground arith

-- What a pass does to the debounce of one action.
record Judged (a : Action) (r : Reading) (s : Supervisor) (o : Supervisor × List Action)
    : Type 0 where
  spaced : asks a o.1 ≡ true → last_act a s + gap_us a ≤ stamp a r
  moves : asks a o.1 ≡ true → (restarts o.1 ≡ true) ⊎ (last_act a o.0 ≡ stamp a r)
  stays : asks a o.1 ≡ false → last_act a o.0 ≡ last_act a s

stamped :
    (w : Bool) {x y z : ℕ} → z ≡ (if w then x else y) → (w ≡ true → z ≡ x) × (w ≡ false → z ≡ y)
stamped true e = ((λ _. e), (λ h. ground arith))
stamped false e = ((λ h. ground arith), (λ _. e))

rungs-Judged : (a : Action) (r : Reading) (s : Supervisor) → Judged a r s (rungs r s)
unfolding last_act gap_us stamp due_wifi due_caster due_gnss
rungs-Judged restart_wifi r s =
    let f = rungs-Fired r s in
    record {
      spaced = λ h.
          age_s-lower deb_link_s r.now_wifi s.last_link_act (omega arith)
            (and_right _ _ (and_right _ _ (sym f.wifi ∙ h)));
      moves = λ h. inr ((stamped _ f.link_act).0 (sym f.wifi ∙ h));
      stays = λ h. (stamped _ f.link_act).1 (sym f.wifi ∙ h);
    }
rungs-Judged reconnect_caster r s =
    let f = rungs-Fired r s in
    record {
      spaced = λ h.
          age_s-lower deb_caster_s r.now_caster s.last_caster_act (omega arith)
            (and_right _ _ (and_right _ _ (sym f.caster ∙ h)));
      moves = λ h. inr ((stamped _ f.caster_act).0 (sym f.caster ∙ h));
      stays = λ h. (stamped _ f.caster_act).1 (sym f.caster ∙ h);
    }
rungs-Judged reset_gnss r s =
    let f = rungs-Fired r s in
    record {
      spaced = λ h.
          age_s-lower deb_gnss_s r.now_gnss s.last_gnss_act (omega arith)
            (and_right _ _ (and_right _ _ (sym f.gnss ∙ h)));
      moves = λ h. inr ((stamped _ f.gnss_act).0 (sym f.gnss ∙ h));
      stays = λ h. (stamped _ f.gnss_act).1 (sym f.gnss ∙ h);
    }
rungs-Judged restart_heap r s =
    let f = rungs-Fired r s in
    record {
      spaced = λ h. omega arith;
      moves = λ h. absurd_bool (sym f.heap ∙ h);
      stays = λ h. refl;
    }
rungs-Judged restart_wedge r s =
    let f = rungs-Fired r s in
    record {
      spaced = λ h. omega arith;
      moves = λ h. absurd_bool (sym f.wedge ∙ h);
      stays = λ h. refl;
    }

-- A pass of the grace period, and one that ends in a restart.
quiet-Judged :
    (a : Action) (r : Reading) (s t : Supervisor)
    → last_act a t ≡ last_act a s
    → Judged a r s (t, [])
unfolding asks
quiet-Judged a r s t e = record {
  spaced = λ h. absurd_bool h;
  moves = λ h. absurd_bool h;
  stays = λ h. e;
}

asked_heap :
    (a : Action) (r : Reading) (s : Supervisor)
    → asks a (restart_heap ∷ []) ≡ true
    → last_act a s + gap_us a ≤ stamp a r
unfolding asks same_action last_act gap_us
asked_heap restart_heap r s h = omega arith
asked_heap restart_wedge r s h = absurd_bool h
asked_heap restart_wifi r s h = absurd_bool h
asked_heap reconnect_caster r s h = absurd_bool h
asked_heap reset_gnss r s h = absurd_bool h

heap-Judged :
    (a : Action) (r : Reading) (s t : Supervisor)
    → last_act a t ≡ last_act a s
    → Judged a r s (t, restart_heap ∷ [])
unfolding asks same_action restarts last_act gap_us
heap-Judged a r s t e = record { spaced = asked_heap a r s; moves = λ h. inl refl; stays = λ h. e }

asked_wedge :
    (a : Action) (r : Reading) (s : Supervisor)
    → asks a (restart_wedge ∷ []) ≡ true
    → last_act a s + gap_us a ≤ stamp a r
unfolding asks same_action last_act gap_us
asked_wedge restart_heap r s h = absurd_bool h
asked_wedge restart_wedge r s h = omega arith
asked_wedge restart_wifi r s h = absurd_bool h
asked_wedge reconnect_caster r s h = absurd_bool h
asked_wedge reset_gnss r s h = absurd_bool h

wedge-Judged :
    (a : Action) (r : Reading) (s t : Supervisor)
    → last_act a t ≡ last_act a s
    → Judged a r s (t, restart_wedge ∷ [])
unfolding asks same_action restarts last_act gap_us
wedge-Judged a r s t e = record {
  spaced = asked_wedge a r s;
  moves = λ h. inl refl;
  stays = λ h. e;
}

-- Nothing but the debounce of a rung changes when its own action is asked for.
last_act-count_heap :
    (a : Action) (r : Reading) (s : Supervisor) → last_act a (count_heap r s) ≡ last_act a s
unfolding last_act count_heap
last_act-count_heap restart_heap r s = refl
last_act-count_heap restart_wedge r s = refl
last_act-count_heap restart_wifi r s = refl
last_act-count_heap reconnect_caster r s = refl
last_act-count_heap reset_gnss r s = refl

last_act-count_reboot : (a : Action) (s : Supervisor) → last_act a (count_reboot s) ≡ last_act a s
unfolding last_act count_reboot
last_act-count_reboot restart_heap s = refl
last_act-count_reboot restart_wedge s = refl
last_act-count_reboot restart_wifi s = refl
last_act-count_reboot reconnect_caster s = refl
last_act-count_reboot reset_gnss s = refl

Judged-from :
    (a : Action) (r : Reading) (s t : Supervisor) {o : Supervisor × List Action}
    → last_act a t ≡ last_act a s
    → Judged a r t o
    → Judged a r s o
Judged-from a r s t e j = record {
  spaced = λ h. subst (λ k. k + gap_us a ≤ stamp a r) e (j.spaced h);
  moves = j.moves;
  stays = λ h. j.stays h ∙ e;
}

pass-Judged : (a : Action) (r : Reading) (s : Supervisor) → Judged a r s (pass r s)
unfolding pass
pass-Judged a r s =
    let t = count_heap r s in
    let e = last_act-count_heap a r s in
    let e' = last_act-count_reboot a t ∙ e in
    if-case (Judged a r s) (in_grace r) (λ g. quiet-Judged a r s s refl)
      (λ g.
        if-case (Judged a r s) (heap_spent r t) (λ h. heap-Judged a r s (count_reboot t) e')
          (λ h.
            if-case (Judged a r s) (wedged r.now t) (λ w. wedge-Judged a r s (count_reboot t) e')
              (λ w. Judged-from a r s t e (rungs-Judged a r t))))

last_act-note_gnss_rx :
    (a : Action) (now : ℕ) (s : Supervisor) → last_act a (note_gnss_rx now s) ≡ last_act a s
unfolding last_act note_gnss_rx
last_act-note_gnss_rx restart_heap now s = refl
last_act-note_gnss_rx restart_wedge now s = refl
last_act-note_gnss_rx restart_wifi now s = refl
last_act-note_gnss_rx reconnect_caster now s = refl
last_act-note_gnss_rx reset_gnss now s = refl

last_act-t_caster :
    (a : Action) (now : ℕ) (s : Supervisor)
    → last_act a (record s { t_caster = now; caster_seen = true }) ≡ last_act a s
unfolding last_act
last_act-t_caster restart_heap now s = refl
last_act-t_caster restart_wedge now s = refl
last_act-t_caster restart_wifi now s = refl
last_act-t_caster reconnect_caster now s = refl
last_act-t_caster reset_gnss now s = refl

last_act-note_caster_tx :
    (a : Action) (now bytes : ℕ) (s : Supervisor)
    → last_act a (note_caster_tx now bytes s) ≡ last_act a s
unfolding note_caster_tx
last_act-note_caster_tx a now bytes s =
    let t = record s { t_caster = now; caster_seen = true } in
    let e = last_act-t_caster a now s in
    if-case (λ u. last_act a u ≡ last_act a s) (ltb 0 bytes) (λ _. e)
      (λ _. if-case (λ u. last_act a u ≡ last_act a s) (not s.caster_seen) (λ _. e) (λ _. refl))

last_act-note_sta_ip :
    (a : Action) (now : ℕ) (up : Bool) (s : Supervisor)
    → last_act a (note_sta_ip now up s) ≡ last_act a s
unfolding last_act note_sta_ip
last_act-note_sta_ip restart_heap now true s = refl
last_act-note_sta_ip restart_heap now false s = refl
last_act-note_sta_ip restart_wedge now true s = refl
last_act-note_sta_ip restart_wedge now false s = refl
last_act-note_sta_ip restart_wifi now true s = refl
last_act-note_sta_ip restart_wifi now false s = refl
last_act-note_sta_ip reconnect_caster now true s = refl
last_act-note_sta_ip reconnect_caster now false s = refl
last_act-note_sta_ip reset_gnss now true s = refl
last_act-note_sta_ip reset_gnss now false s = refl

-- In every run, two reconnects are at least 15 s apart, two resets of the receiver 20 s, and two
-- restarts of the Wi-Fi driver 30 s, whatever notes arrive in between; the first of each comes no
-- earlier than that after its stored debounce time.
pub times-Spaced :
    (a : Action) (es : List Event) (s : Supervisor)
    → Spaced (gap_us a) (last_act a s) (times a es s)
unfolding Spaced times step
times-Spaced a [] s = tt
times-Spaced a (tick r ∷ es) s =
    let gap = gap_us a in
    let acts = (pass r s).1 in
    let t = (pass r s).0 in
    let rest = times a es t in
    let j = pass-Judged a r s in
    let ih = times-Spaced a es t in
    if-case (λ xs. Spaced gap (last_act a s) xs) (asks a acts)
      (λ h. (
        j.spaced h,
        if-case (λ xs. Spaced gap (stamp a r) xs) (restarts acts) (λ _. tt)
            (λ n. elim (j.moves h) [
              | inl k ↦ absurd_bool (sym n ∙ k)
              | inr k ↦ subst (λ l. Spaced gap l rest) k ih
            ]),
      ))
      (λ h.
        if-case (λ xs. Spaced gap (last_act a s) xs) (restarts acts) (λ _. tt)
          (λ n. subst (λ l. Spaced gap l rest) (j.stays h) ih))
times-Spaced a (gnss_rx now ∷ es) s =
    let t = note_gnss_rx now s in
    subst (λ l. Spaced (gap_us a) l (times a es t)) (last_act-note_gnss_rx a now s)
      (times-Spaced a es t)
times-Spaced a (caster_tx now bytes ∷ es) s =
    let t = note_caster_tx now bytes s in
    subst (λ l. Spaced (gap_us a) l (times a es t)) (last_act-note_caster_tx a now bytes s)
      (times-Spaced a es t)
times-Spaced a (sta_ip now up ∷ es) s =
    let t = note_sta_ip now up s in
    subst (λ l. Spaced (gap_us a) l (times a es t)) (last_act-note_sta_ip a now up s)
      (times-Spaced a es t)
