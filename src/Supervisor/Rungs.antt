-- ===== src/Supervisor/Rungs.antt =====
-- When each rung of the escalation ladder of main/supervisor.c fires.
use mathlib.Core.List.{List, [], ◌∷◌, ◌++◌}
use mathlib.Core.Path.{subst}
use rtkdata_fw.Base.{◌+◌, ◌≡◌, refl, ap, sym, ◌∙◌}
use rtkdata_fw.Base.{if◌then◌else◌, leb, ◌&&◌, Bool, true, false}
use rtkdata_fw.Base.{u32}
use rtkdata_fw.Supervisor.{Supervisor, Reading, Action, restart_heap, restart_wedge, restart_wifi}
use rtkdata_fw.Supervisor.{reconnect_caster, reset_gnss, age_s}
use rtkdata_fw.Supervisor.{gnss_fault, caster_fault, link_fault, rung_wifi, rung_caster}
use rtkdata_fw.Supervisor.{rung_gnss, rungs, gnss_silent_s, caster_silent_s}
use rtkdata_fw.Supervisor.{deb_link_s, deb_caster_s, deb_gnss_s}
use rtkdata_fw.Supervisor.Run.{same_action, asks}

-- The three recoveries and what guards each.
unfoldable pub due_wifi : Reading → Supervisor → Bool
unfolding link_fault
due_wifi r s =
    link_fault r.now s && (s.recover_wifi && leb deb_link_s (age_s r.now_wifi s.last_link_act))

unfoldable pub due_caster : Reading → Supervisor → Bool
unfolding caster_fault
due_caster r s =
    caster_fault r.now s
    && (s.recover_caster && leb deb_caster_s (age_s r.now_caster s.last_caster_act))

unfoldable pub due_gnss : Reading → Supervisor → Bool
unfolding gnss_fault
due_gnss r s =
    gnss_fault r.now s && (s.recover_gnss && leb deb_gnss_s (age_s r.now_gnss s.last_gnss_act))

-- The ladder with its three decisions made in advance.
wifi_if : Bool → Reading → Supervisor → Supervisor × List Action
wifi_if w r s =
    if w
    then (
      record s { last_link_act = r.now_wifi; rec_wifi = u32 (s.rec_wifi + 1) },
      restart_wifi ∷ [],
    )
    else (s, [])

caster_if : Bool → Reading → Supervisor → Supervisor × List Action
caster_if c r s =
    if c
    then (
      record s { last_caster_act = r.now_caster; rec_caster = u32 (s.rec_caster + 1) },
      reconnect_caster ∷ [],
    )
    else (s, [])

gnss_if : Bool → Reading → Supervisor → Supervisor × List Action
gnss_if g r s =
    if g
    then (record s { last_gnss_act = r.now_gnss; rec_gnss = u32 (s.rec_gnss + 1) }, reset_gnss ∷ [])
    else (s, [])

ladder : Bool → Bool → Bool → Reading → Supervisor → Supervisor × List Action
unfolding wifi_if caster_if gnss_if
ladder w c g r s =
    let (s1, a1) = wifi_if w r s in
    let (s2, a2) = caster_if c r s1 in let (s3, a3) = gnss_if g r s2 in (s3, a1 ++ (a2 ++ a3))

due_caster-wifi_if :
    (w : Bool) (r : Reading) (s : Supervisor) → due_caster r (wifi_if w r s).0 ≡ due_caster r s
unfolding due_caster wifi_if caster_fault caster_silent_s
due_caster-wifi_if true r s = refl
due_caster-wifi_if false r s = refl

due_gnss-wifi_if :
    (w : Bool) (r : Reading) (s : Supervisor) → due_gnss r (wifi_if w r s).0 ≡ due_gnss r s
unfolding due_gnss wifi_if gnss_fault gnss_silent_s
due_gnss-wifi_if true r s = refl
due_gnss-wifi_if false r s = refl

due_gnss-caster_if :
    (c : Bool) (r : Reading) (s : Supervisor) → due_gnss r (caster_if c r s).0 ≡ due_gnss r s
unfolding due_gnss caster_if gnss_fault gnss_silent_s
due_gnss-caster_if true r s = refl
due_gnss-caster_if false r s = refl

rungs-ladder :
    (r : Reading) (s : Supervisor)
    → rungs r s ≡ ladder (due_wifi r s) (due_caster r s) (due_gnss r s) r s
unfolding rungs rung_wifi rung_caster rung_gnss ladder wifi_if caster_if gnss_if due_wifi due_caster
    due_gnss
rungs-ladder r s =
    let w = due_wifi r s in
    let s1 = (wifi_if w r s).0 in
    let c1 = due_caster r s1 in
    let g = due_gnss-caster_if c1 r s1 ∙ due_gnss-wifi_if w r s in
    ap (λ g'. ladder w c1 g' r s) g
    ∙ ap (λ c'. ladder w c' (due_gnss r s) r s) (due_caster-wifi_if w r s)

pub record Fired (w c g : Bool) (r : Reading) (s : Supervisor) (o : Supervisor × List Action)
    : Type 0 where
  pub wifi : asks restart_wifi o.1 ≡ w
  pub caster : asks reconnect_caster o.1 ≡ c
  pub gnss : asks reset_gnss o.1 ≡ g
  pub heap : asks restart_heap o.1 ≡ false
  pub wedge : asks restart_wedge o.1 ≡ false
  pub link_act : o.0.last_link_act ≡ (if w then r.now_wifi else s.last_link_act)
  pub caster_act : o.0.last_caster_act ≡ (if c then r.now_caster else s.last_caster_act)
  pub gnss_act : o.0.last_gnss_act ≡ (if g then r.now_gnss else s.last_gnss_act)
  pub streak : o.0.heap_low_streak ≡ s.heap_low_streak
  pub tx_time : o.0.t_caster ≡ s.t_caster
  pub tx_seen : o.0.caster_seen ≡ s.caster_seen
  pub ip_seen : o.0.ip_seen ≡ s.ip_seen

ladder-Fired : (w c g : Bool) (r : Reading) (s : Supervisor) → Fired w c g r s (ladder w c g r s)
unfolding ladder wifi_if caster_if gnss_if asks same_action
ladder-Fired true true true r s = record {
  wifi = refl;
  caster = refl;
  gnss = refl;
  heap = refl;
  wedge = refl;
  link_act = refl;
  caster_act = refl;
  gnss_act = refl;
  streak = refl;
  tx_time = refl;
  tx_seen = refl;
  ip_seen = refl;
}
ladder-Fired true true false r s = record {
  wifi = refl;
  caster = refl;
  gnss = refl;
  heap = refl;
  wedge = refl;
  link_act = refl;
  caster_act = refl;
  gnss_act = refl;
  streak = refl;
  tx_time = refl;
  tx_seen = refl;
  ip_seen = refl;
}
ladder-Fired true false true r s = record {
  wifi = refl;
  caster = refl;
  gnss = refl;
  heap = refl;
  wedge = refl;
  link_act = refl;
  caster_act = refl;
  gnss_act = refl;
  streak = refl;
  tx_time = refl;
  tx_seen = refl;
  ip_seen = refl;
}
ladder-Fired true false false r s = record {
  wifi = refl;
  caster = refl;
  gnss = refl;
  heap = refl;
  wedge = refl;
  link_act = refl;
  caster_act = refl;
  gnss_act = refl;
  streak = refl;
  tx_time = refl;
  tx_seen = refl;
  ip_seen = refl;
}
ladder-Fired false true true r s = record {
  wifi = refl;
  caster = refl;
  gnss = refl;
  heap = refl;
  wedge = refl;
  link_act = refl;
  caster_act = refl;
  gnss_act = refl;
  streak = refl;
  tx_time = refl;
  tx_seen = refl;
  ip_seen = refl;
}
ladder-Fired false true false r s = record {
  wifi = refl;
  caster = refl;
  gnss = refl;
  heap = refl;
  wedge = refl;
  link_act = refl;
  caster_act = refl;
  gnss_act = refl;
  streak = refl;
  tx_time = refl;
  tx_seen = refl;
  ip_seen = refl;
}
ladder-Fired false false true r s = record {
  wifi = refl;
  caster = refl;
  gnss = refl;
  heap = refl;
  wedge = refl;
  link_act = refl;
  caster_act = refl;
  gnss_act = refl;
  streak = refl;
  tx_time = refl;
  tx_seen = refl;
  ip_seen = refl;
}
ladder-Fired false false false r s = record {
  wifi = refl;
  caster = refl;
  gnss = refl;
  heap = refl;
  wedge = refl;
  link_act = refl;
  caster_act = refl;
  gnss_act = refl;
  streak = refl;
  tx_time = refl;
  tx_seen = refl;
  ip_seen = refl;
}

pub rungs-Fired :
    (r : Reading) (s : Supervisor)
    → Fired (due_wifi r s) (due_caster r s) (due_gnss r s) r s (rungs r s)
rungs-Fired r s =
    let w = due_wifi r s in
    let c = due_caster r s in
    let g = due_gnss r s in
    subst (λ o. Fired w c g r s o) (sym (rungs-ladder r s)) (ladder-Fired w c g r s)
