-- ===== src/Supervisor/Report.antt =====
-- The health snapshot of main/supervisor.c against the judgements of the task.
use rtkdata_fw.Base.{
  ℕ, ◌≡◌, refl, ltb, leb, not, ◌&&◌, ◌||◌, Bool, true, false, arith, if◌then◌else◌,
}
use rtkdata_fw.Supervisor.{Supervisor, health, gnss_silent_s, caster_silent_s, ip_down_s}
use rtkdata_fw.Supervisor.{gnss_fault, caster_fault, link_fault, th_gnss_s, th_caster_s}

pub record Reported (now : ℕ) (s : Supervisor) : Type 0 where
  pub gnss_silent : (health now s).gnss_silent_s ≡ gnss_silent_s now s
  pub caster_silent : (health now s).caster_silent_s ≡ caster_silent_s now s
  pub ip_down : (health now s).ip_down_s ≡ ip_down_s now s
  pub gnss : (health now s).gnss_ok ≡ (s.gnss_seen && not (gnss_fault now s))
  pub caster : (health now s).caster_ok ≡ not (caster_fault now s)
  pub link : (link_fault now s && (health now s).link_ok) ≡ false

not-leb : (a b : ℕ) → ltb a b ≡ not (leb b a)
not-leb a b = ground arith

caster_flag : (seen : Bool) (n m : ℕ) → (not seen || ltb n m) ≡ not (seen && leb m n)
caster_flag true n m = not-leb n m
caster_flag false n m = refl

gnss_flag : (seen : Bool) (n m : ℕ) → (seen && ltb n m) ≡ (seen && not (leb m n))
gnss_flag true n m = not-leb n m
gnss_flag false n m = refl

ip_flag :
    (up seen : Bool) (n : ℕ)
    → (if up then 0 else if seen then n else 0) ≡ (if not up && seen then n else 0)
ip_flag true seen n = refl
ip_flag false seen n = refl

link_flag : (up seen c : Bool) → ((seen && (not up && c)) && (up || not seen)) ≡ false
link_flag true true c = refl
link_flag false true true = refl
link_flag false true false = refl
link_flag true false c = refl
link_flag false false c = refl

-- The snapshot and the task agree: the same silences, the receiver is reported well exactly if it
-- was seen and is not at fault, the caster exactly if it is not at fault, and a link at fault is
-- reported down.
pub health-Reported : (now : ℕ) (s : Supervisor) → Reported now s
unfolding health gnss_silent_s caster_silent_s ip_down_s gnss_fault caster_fault link_fault
health-Reported now s = record {
  gnss_silent = refl;
  caster_silent = refl;
  ip_down = ip_flag s.link_up s.ip_seen _;
  gnss = gnss_flag s.gnss_seen _ th_gnss_s;
  caster = caster_flag s.caster_seen _ th_caster_s;
  link = link_flag s.link_up s.ip_seen _;
}
