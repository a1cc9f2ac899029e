-- ===== src/Supervisor/Silence.antt =====
-- What main/supervisor.c makes of a caster that takes no bytes, and of one that was never reached.
use mathlib.Core.List.{List, [], ◌∷◌}
use mathlib.Core.Path.{subst}
use rtkdata_fw.Base.{ℕ, ◌+◌, ◌*◌, ◌^◌, ◌≤◌, ◌<◌, ◌≡◌, refl, sym, ◌∙◌}
use rtkdata_fw.Base.{
  arith, ltb, leb, not, ◌&&◌, ◌||◌, Bool, true, false, if-case, absurd_bool, or_left, or_right,
  and_true, and_false, le→leb, ◌⊎◌, and_left, and_right,
}
use rtkdata_fw.Base.{inl, inr}
use rtkdata_fw.Supervisor.{Supervisor, Reading, Action, restart_wedge, boot}
use rtkdata_fw.Supervisor.{
  reconnect_caster, age_s, note_caster_tx, note_gnss_rx, note_sta_ip, wedged, pass,
}
use rtkdata_fw.Supervisor.{gnss_silent_s, caster_silent_s, ip_down_s, caster_fault}
use rtkdata_fw.Supervisor.{
  th_wedge_s, th_caster_s, deb_caster_s, count_heap, heap_spent, count_reboot, in_grace,
}
use rtkdata_fw.Supervisor.Run.{
  Event, gnss_rx, caster_tx, sta_ip, tick, step, same_action, asks, restarts,
}
use rtkdata_fw.Supervisor.Heap.{replay}
use rtkdata_fw.Supervisor.Rungs.{rungs-Fired, due_caster}

-- The two fields of the caster's watchdog.
record SameWatch (s t : Supervisor) : Type 0 where
  tx_time : t.t_caster ≡ s.t_caster
  tx_seen : t.caster_seen ≡ s.caster_seen

pass-SameWatch : (r : Reading) (s : Supervisor) → SameWatch s (pass r s).0
unfolding pass count_heap count_reboot
pass-SameWatch r s =
    let t = count_heap r s in
    let P = λ (o : Supervisor × List Action). SameWatch s o.0 in
    if-case P (in_grace r) (λ _. record { tx_time = refl; tx_seen = refl })
      (λ _.
        if-case P (heap_spent r t) (λ _. record { tx_time = refl; tx_seen = refl })
          (λ _.
            if-case P (wedged r.now t) (λ _. record { tx_time = refl; tx_seen = refl })
              (λ _. record {
                tx_time = (rungs-Fired r t).tx_time;
                tx_seen = (rungs-Fired r t).tx_seen;
              })))

-- No event of the list gives the caster a byte; handshakes without bytes are free.
unfoldable pub moves_nothing : List Event → Bool
moves_nothing [] = true
moves_nothing (caster_tx now bytes ∷ past) = not (ltb 0 bytes) && moves_nothing past
moves_nothing (gnss_rx now ∷ past) = moves_nothing past
moves_nothing (sta_ip now up ∷ past) = moves_nothing past
moves_nothing (tick r ∷ past) = moves_nothing past

handshake :
    (now bytes : ℕ) (s : Supervisor)
    → ltb 0 bytes ≡ false
    → s.caster_seen ≡ true
    → note_caster_tx now bytes s ≡ s
unfolding note_caster_tx
handshake now bytes s h k = rw h (rw k refl)

SameWatch-trans : (s t u : Supervisor) → SameWatch s t → SameWatch t u → SameWatch s u
SameWatch-trans s t u a b = record {
  tx_time = b.tx_time ∙ a.tx_time;
  tx_seen = b.tx_seen ∙ a.tx_seen;
}

note_sta_ip-SameWatch : (now : ℕ) (up : Bool) (s : Supervisor) → SameWatch s (note_sta_ip now up s)
unfolding note_sta_ip
note_sta_ip-SameWatch now true s = record { tx_time = refl; tx_seen = refl }
note_sta_ip-SameWatch now false s = record { tx_time = refl; tx_seen = refl }

replay-SameWatch :
    (past : List Event) (s : Supervisor)
    → moves_nothing past ≡ true
    → s.caster_seen ≡ true
    → SameWatch s (replay past s)
unfolding replay step moves_nothing note_gnss_rx
replay-SameWatch [] s h k = record { tx_time = refl; tx_seen = refl }
replay-SameWatch (tick r ∷ past) s h k =
    let t = replay past s in
    SameWatch-trans s t _ (replay-SameWatch past s h k) (pass-SameWatch r t)
replay-SameWatch (gnss_rx now ∷ past) s h k =
    let w = replay-SameWatch past s h k in record { tx_time = w.tx_time; tx_seen = w.tx_seen }
replay-SameWatch (sta_ip now up ∷ past) s h k =
    let t = replay past s in
    SameWatch-trans s t _ (replay-SameWatch past s h k) (note_sta_ip-SameWatch now up t)
replay-SameWatch (caster_tx now bytes ∷ past) s h k =
    let w = replay-SameWatch past s (and_right _ _ h) k in
    let e =
      handshake now bytes (replay past s) (flip (ltb 0 bytes) (and_left _ _ h)) (w.tx_seen ∙ k) in
    subst (λ t. SameWatch s t) (sym e) w
  where
    flip : (b : Bool) → not b ≡ true → b ≡ false
    flip true h = sym h
    flip false h = refl

age_s-at_least :
    (d now t : ℕ) → t + d * 1000000 ≤ now → now < 2 ^ 32 * 1000000 → leb d (age_s now t) ≡ true
age_s-at_least d now t h b = ground arith

pass-restarts :
    (r : Reading) (s : Supervisor)
    → in_grace r ≡ false
    → wedged r.now (count_heap r s) ≡ true
    → restarts (pass r s).1 ≡ true
unfolding pass restarts asks same_action
pass-restarts r s g w =
    let t = count_heap r s in
    rw g (
      if-case (λ (o : Supervisor × List Action). restarts o.1 ≡ true) (heap_spent r t) (λ _. refl)
        (λ _. rw w refl))

-- The judgement of a silent caster, on the state that a pass judges.
silent :
    (d now : ℕ) (s : Supervisor)
    → s.caster_seen ≡ true
    → s.t_caster + d * 1000000 ≤ now
    → now < 2 ^ 32 * 1000000
    → leb d (caster_silent_s now s) ≡ true
unfolding caster_silent_s
silent d now s k h b = rw k (age_s-at_least d now s.t_caster h b)

wedged-silent :
    (now : ℕ) (s : Supervisor)
    → s.caster_seen ≡ true
    → s.t_caster + th_wedge_s * 1000000 ≤ now
    → now < 2 ^ 32 * 1000000
    → th_wedge_s ≤ gnss_silent_s now s ⊎ th_wedge_s ≤ ip_down_s now s
    → wedged now s ≡ true
unfolding wedged caster_fault
wedged-silent now s k h b cause =
    let c30 = silent th_caster_s now s k (omega arith) b in
    let c120 = silent th_wedge_s now s k h b in
    and_true _ _ (and_true _ _ k c30) (
      and_true _ _ c120
        (elim cause [ inl g ↦ or_left _ _ (le→leb _ _ g) | inr i ↦ or_right _ _ (le→leb _ _ i) ]))

-- Once the caster's watchdog is armed, handshakes alone never keep it alive: if 120 s pass with
-- no byte to the caster, whatever else happened, and the receiver has been silent or the link
-- down for 120 s too, the first pass past the grace period restarts the device.
pub pass-silent_path :
    (r : Reading) (past : List Event) (s : Supervisor)
    → s.caster_seen ≡ true
    → moves_nothing past ≡ true
    → s.t_caster + th_wedge_s * 1000000 ≤ r.now
    → r.now < 2 ^ 32 * 1000000
    → in_grace r ≡ false
    → th_wedge_s ≤ gnss_silent_s r.now (replay past s)
      ⊎ th_wedge_s ≤ ip_down_s r.now (replay past s)
    → restarts (pass r (replay past s)).1 ≡ true
unfolding count_heap gnss_silent_s ip_down_s
pass-silent_path r past s k q h b g cause =
    let t = replay past s in
    let w = replay-SameWatch past s q k in
    pass-restarts r t g (
      wedged-silent r.now (count_heap r t) (w.tx_seen ∙ k)
        (subst (λ x. x + th_wedge_s * 1000000 ≤ r.now) (sym w.tx_time) h) b cause)

pass_reconnects :
    (r : Reading) (s : Supervisor)
    → in_grace r ≡ false
    → due_caster r (count_heap r s) ≡ true
    → (restarts (pass r s).1 || asks reconnect_caster (pass r s).1) ≡ true
unfolding pass restarts asks same_action
pass_reconnects r s g d =
    let t = count_heap r s in
    let P = λ (o : Supervisor × List Action). (restarts o.1 || asks reconnect_caster o.1) ≡ true in
    rw g (
      if-case P (heap_spent r t) (λ _. refl)
        (λ _.
          if-case P (wedged r.now t) (λ _. refl)
            (λ _. or_right _ _ ((rungs-Fired r t).caster ∙ d))))

-- Once the watchdog is armed, a caster that takes no byte for 30 s is reconnected (or the device
-- restarted) by a pass past the grace period, if the last reconnect is 15 s old and one is registered.
pub pass-silent_caster :
    (r : Reading) (past : List Event) (s : Supervisor)
    → s.caster_seen ≡ true
    → moves_nothing past ≡ true
    → s.t_caster + th_caster_s * 1000000 ≤ r.now
    → r.now < 2 ^ 32 * 1000000
    → in_grace r ≡ false
    → (replay past s).recover_caster ≡ true
    → (replay past s).last_caster_act + deb_caster_s * 1000000 ≤ r.now_caster
    → r.now_caster < 2 ^ 32 * 1000000
    → (restarts (pass r (replay past s)).1 || asks reconnect_caster (pass r (replay past s)).1)
      ≡ true
unfolding count_heap due_caster caster_fault
pass-silent_caster r past s k q h b g reg old b' =
    let t = replay past s in
    let w = replay-SameWatch past s q k in
    let seen = w.tx_seen ∙ k in
    let h' = subst (λ x. x + th_caster_s * 1000000 ≤ r.now) (sym w.tx_time) h in
    pass_reconnects r t g (
      and_true _ _ (and_true _ _ seen (silent th_caster_s r.now (count_heap r t) seen h' b))
        (and_true _ _ reg (age_s-at_least deb_caster_s r.now_caster _ old b')))

-- No event of the list is a note of the caster.
unfoldable pub never_reached : List Event → Bool
never_reached [] = true
never_reached (caster_tx now bytes ∷ past) = false
never_reached (gnss_rx now ∷ past) = never_reached past
never_reached (sta_ip now up ∷ past) = never_reached past
never_reached (tick r ∷ past) = never_reached past

unreached :
    (past : List Event) (reboots : ℕ)
    → never_reached past ≡ true
    → (replay past (boot reboots)).caster_seen ≡ false
unfolding replay step never_reached note_gnss_rx
unreached [] reboots h = refl
unreached (tick r ∷ past) reboots h =
    (pass-SameWatch r (replay past (boot reboots))).tx_seen ∙ unreached past reboots h
unreached (gnss_rx now ∷ past) reboots h = unreached past reboots h
unreached (sta_ip now up ∷ past) reboots h =
    (note_sta_ip-SameWatch now up (replay past (boot reboots))).tx_seen ∙ unreached past reboots h
unreached (caster_tx now bytes ∷ past) reboots h = absurd_bool h

-- A caster that was never reached since the boot is neither reconnected nor held against the
-- device: no pass asks for the reconnect or for the restart of a wedged path.
pub pass-unreached :
    (r : Reading) (past : List Event) (reboots : ℕ)
    → never_reached past ≡ true
    → (asks reconnect_caster (pass r (replay past (boot reboots))).1 ≡ false)
      × (asks restart_wedge (pass r (replay past (boot reboots))).1 ≡ false)
unfolding pass asks same_action count_heap wedged caster_fault due_caster
pass-unreached r past reboots h =
    let s = replay past (boot reboots) in
    let t = count_heap r s in
    let e = unreached past reboots h in
    let P = λ (o : Supervisor × List Action).
      (asks reconnect_caster o.1 ≡ false) × (asks restart_wedge o.1 ≡ false) in
    if-case P (in_grace r) (λ _. (refl, refl))
      (λ _.
        if-case P (heap_spent r t) (λ _. (refl, refl))
          (λ _.
            if-case P (wedged r.now t) (λ w. absurd_bool (sym e ∙ and_left _ _ (and_left _ _ w)))
              (λ _. (
                (rungs-Fired r t).caster ∙ and_false _ _ (and_false _ _ e),
                (rungs-Fired r t).wedge,
              ))))
