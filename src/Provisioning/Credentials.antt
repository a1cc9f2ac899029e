-- ===== src/Provisioning/Credentials.antt =====
-- The caster's credentials: what a reply with a "config_delta" leaves stored. Every write to the
-- configuration is taken to succeed.
use mathlib.Core.List.{List}
use mathlib.Core.Option.{Option, none, some}
use rtkdata_fw.Base.{ℕ, ◌+◌, ◌≡◌, refl, ap, ◌∙◌, inl, inr, arith, Bool, false}
use rtkdata_fw.Base.{if◌then◌else◌, u16, Bool-cases, true, not, ◌||◌, ◌⊎◌, ◌%◌, ◌^◌, sym}
use rtkdata_fw.Text.{eq_text}
use rtkdata_fw.Text.Compare.{eq_text_refl, eq_of_eq_text}
use rtkdata_fw.Provisioning.{Device, Json, Caster, Reply, Client, text_or, number_or, write_caster}
use rtkdata_fw.Provisioning.{text_differs, port_differs, caster_differs, apply_delta, apply_reply}
use rtkdata_fw.Provisioning.{
  apply_position, persist_state, wanted_position, note_status, state_number,
}

or-false : (a b : Bool) → (a || b) ≡ false → (a ≡ false) × (b ≡ false)
or-false true b h = absurd (ground arith)
or-false false b h = (refl, h)

not-false : (b : Bool) → not b ≡ false → b ≡ true
not-false true h = refl
not-false false h = absurd (ground arith)

true-not-false : true ≡ false → ⊥
true-not-false h = ground arith

module _ {D : Type 0} where
  written_text :
      (j : Json D) (old : Option (List ℕ)) → text_differs D j (text_or D j some old) ≡ false
  unfolding text_differs text_or
  written_text (Json.string s) old = rw (eq_text_refl s) refl
  written_text Json.missing old = refl
  written_text (Json.number n d) old = refl
  written_text (Json.bool b) old = refl
  written_text Json.other old = refl

  written_port : (j : Json D) (old : ℕ) → port_differs D j (number_or D j u16 old) ≡ false
  unfolding port_differs number_or
  written_port (Json.number n d) old = ground arith
  written_port (Json.string s) old = refl
  written_port Json.missing old = refl
  written_port (Json.bool b) old = refl
  written_port Json.other old = refl

  -- What was written does not differ.
  write_caster-agrees :
      (k : Caster D) (dev : Device) → caster_differs D k (write_caster D k dev) ≡ false
  unfolding caster_differs write_caster
  write_caster-agrees k dev = rw (written_text k.host dev.host) (
      rw (written_text k.mountpoint dev.mountpoint) (
        rw (written_text k.username dev.username)
          (rw (written_text k.password dev.password) (written_port k.port dev.port))))

  -- An item of the reply and the stored value: a text is stored byte for byte, a number as a `uint16_t`;
  -- an item that is missing, or of another kind, asks for nothing.
  abbrev pub TextAgrees : Json D → Option (List ℕ) → Type 0
  TextAgrees (Json.string s) cur = cur ≡ some s
  TextAgrees Json.missing cur = Unit
  TextAgrees (Json.number n d) cur = Unit
  TextAgrees (Json.bool b) cur = Unit
  TextAgrees Json.other cur = Unit

  abbrev pub PortAgrees : Json D → ℕ → Type 0
  PortAgrees (Json.number n d) cur = cur ≡ n % 2 ^ 16
  PortAgrees (Json.string s) cur = Unit
  PortAgrees Json.missing cur = Unit
  PortAgrees (Json.bool b) cur = Unit
  PortAgrees Json.other cur = Unit

  -- The stored credentials agree with all five items of the reply.
  pub record Agrees (k : Caster D) (dev : Device) : Type 0 where
    pub host : TextAgrees k.host dev.host
    pub port : PortAgrees k.port dev.port
    pub mountpoint : TextAgrees k.mountpoint dev.mountpoint
    pub username : TextAgrees k.username dev.username
    pub password : TextAgrees k.password dev.password

  text_agrees :
      (j : Json D) (cur : Option (List ℕ)) → text_differs D j cur ≡ false → TextAgrees j cur
  unfolding text_differs
  text_agrees (Json.string s) (some cur) h =
      ap some (eq_of_eq_text cur s (not-false (eq_text cur s) h))
  text_agrees (Json.string s) none h = absurd (ground arith)
  text_agrees Json.missing cur h = tt
  text_agrees (Json.number n d) cur h = tt
  text_agrees (Json.bool b) cur h = tt
  text_agrees Json.other cur h = tt

  agreed_text :
      (j : Json D) (cur : Option (List ℕ)) → TextAgrees j cur → text_differs D j cur ≡ false
  unfolding text_differs
  agreed_text (Json.string s) cur h = rw h (rw (eq_text_refl s) refl)
  agreed_text Json.missing cur h = refl
  agreed_text (Json.number n d) cur h = refl
  agreed_text (Json.bool b) cur h = refl
  agreed_text Json.other cur h = refl

  port_agrees : (j : Json D) (cur : ℕ) → port_differs D j cur ≡ false → PortAgrees j cur
  unfolding port_differs
  port_agrees (Json.number n d) cur h = ground arith
  port_agrees (Json.string s) cur h = tt
  port_agrees Json.missing cur h = tt
  port_agrees (Json.bool b) cur h = tt
  port_agrees Json.other cur h = tt

  agreed_port : (j : Json D) (cur : ℕ) → PortAgrees j cur → port_differs D j cur ≡ false
  unfolding port_differs
  agreed_port (Json.number n d) cur h = ground arith
  agreed_port (Json.string s) cur h = refl
  agreed_port Json.missing cur h = refl
  agreed_port (Json.bool b) cur h = refl
  agreed_port Json.other cur h = refl

  -- The comparison of the code decides whether they agree.
  Agrees-of_same : (k : Caster D) (dev : Device) → caster_differs D k dev ≡ false → Agrees k dev
  unfolding caster_differs
  Agrees-of_same k dev h =
      let a = or-false (text_differs D k.host dev.host) _ h in
      let b = or-false (text_differs D k.mountpoint dev.mountpoint) _ a.1 in
      let c = or-false (text_differs D k.username dev.username) _ b.1 in
      let d = or-false (text_differs D k.password dev.password) _ c.1 in
      record {
        host = text_agrees k.host dev.host a.0;
        port = port_agrees k.port dev.port d.1;
        mountpoint = text_agrees k.mountpoint dev.mountpoint b.0;
        username = text_agrees k.username dev.username c.0;
        password = text_agrees k.password dev.password d.0;
      }

  same_of_Agrees : (k : Caster D) (dev : Device) → Agrees k dev → caster_differs D k dev ≡ false
  unfolding caster_differs
  same_of_Agrees k dev g = rw (agreed_text k.host dev.host g.host) (
      rw (agreed_text k.mountpoint dev.mountpoint g.mountpoint) (
        rw (agreed_text k.username dev.username g.username) (
          rw (agreed_text k.password dev.password g.password)
            (agreed_port k.port dev.port g.port))))

  -- The effect of a "config_delta" on the client: the stored credentials agree with it, and the NTRIP
  -- server is asked once to reconnect if they did not agree before, else not.
  pub record Settled (k : Caster D) (c c' : Client D) : Type 0 where
    pub agrees : Agrees k c'.device
    pub asked :
        (Agrees k c.device × (c'.reconnects ≡ c.reconnects))
        ⊎ ((¬ Agrees k c.device) × (c'.reconnects ≡ c.reconnects + 1))

  asked-cases :
      (k : Caster D) (c : Client D) (n : ℕ)
      → n ≡ (if caster_differs D k c.device then c.reconnects + 1 else c.reconnects)
      → (Agrees k c.device × (n ≡ c.reconnects)) ⊎ ((¬ Agrees k c.device) × (n ≡ c.reconnects + 1))
  asked-cases k c n e = elim (Bool-cases (caster_differs D k c.device)) [
    | inl new ↦ inr (
      λ (g : Agrees k c.device). absurd (true-not-false (sym new ∙ same_of_Agrees k c.device g)),
      e ∙ rw new refl,
    )
    | inr same ↦ inl (Agrees-of_same k c.device same, e ∙ rw same refl)
  ]

  -- The same as equations of the comparison.
  record Compared (k : Caster D) (c c' : Client D) : Type 0 where
    agrees : caster_differs D k c'.device ≡ false
    asked : c'.reconnects ≡ (if caster_differs D k c.device then c.reconnects + 1 else c.reconnects)

  apply_delta-Compared : (k : Caster D) (c : Client D) → Compared k c (apply_delta D (some k) c)
  unfolding apply_delta
  apply_delta-Compared k c = elim (Bool-cases (caster_differs D k c.device)) [
    | inl new ↦ rw new (record { agrees = write_caster-agrees k c.device; asked = rw new refl })
    | inr same ↦ rw same (record { agrees = same; asked = rw same refl })
  ]

  -- Nothing but the delta looks at the credentials or asks for a reconnect.
  differs-persist :
      (k : Caster D) (j : Json D) (c : Client D)
      → caster_differs D k (persist_state D j c).device ≡ caster_differs D k c.device
  unfolding persist_state caster_differs
  differs-persist k j c = refl

  position-device :
      (a : Bool) (o : Option (D × D × D)) (c : Client D)
      → ((apply_position D a o c).device ≡ c.device)
        × ((apply_position D a o c).reconnects ≡ c.reconnects)
  unfolding apply_position
  position-device a none c = (refl, refl)
  position-device a (some p) c = (refl, refl)

  -- The client when the delta is looked at.
  before_delta : Bool → Reply D → Client D → Client D
  before_delta a r c =
      apply_position D a (wanted_position D r.position)
        (record c { status = note_status D r c.status })

  apply_reply-Compared :
      (a : Bool) (r : Reply D) (k : Caster D) (c : Client D)
      → r.caster ≡ some k
      → Compared k c (apply_reply D a r c)
  unfolding apply_reply before_delta
  apply_reply-Compared a r k c e =
      let placed = before_delta a r c in
      let same =
        position-device a (wanted_position D r.position)
          (record c { status = note_status D r c.status }) in
      let s = apply_delta-Compared k placed in
      rw e (record {
        agrees = differs-persist k r.state (apply_delta D (some k) placed) ∙ s.agrees;
        asked =
            unfold persist_state in
            s.asked
            ∙ ap
                (λ (d : Device).
                  if caster_differs D k d then placed.reconnects + 1 else placed.reconnects)
                same.0
            ∙ ap (λ (n : ℕ). if caster_differs D k c.device then n + 1 else n) same.1;
      })

  text_or-again :
      (j : Json D) (f : List ℕ → ℕ) (old : ℕ)
      → text_or D j f (text_or D j f old) ≡ text_or D j f old
  unfolding text_or
  text_or-again (Json.string s) f old = refl
  text_or-again Json.missing f old = refl
  text_or-again (Json.number n d) f old = refl
  text_or-again (Json.bool b) f old = refl
  text_or-again Json.other f old = refl

  -- A state that is already stored is stored once more.
  persist-again :
      (j : Json D) (c c' : Client D)
      → c'.device ≡ (persist_state D j c).device
      → (persist_state D j c').device ≡ (persist_state D j c).device
  unfolding persist_state
  persist-again j c c' e =
      ap (λ (d : Device). record d { state = text_or D j state_number d.state }) e
      ∙ ap (λ (n : ℕ). record c.device { state = n }) (text_or-again j state_number c.device.state)

  unchanged_delta :
      (k : Caster D) (c : Client D)
      → caster_differs D k c.device ≡ false
      → apply_delta D (some k) c ≡ c
  unfolding apply_delta
  unchanged_delta k c e = rw e refl

  apply_reply-again :
      (a a' : Bool) (r : Reply D) (k : Caster D) (c : Client D)
      → r.caster ≡ some k
      → let c' = apply_reply D a r c in
        ((apply_reply D a' r c').device ≡ c'.device)
        × ((apply_reply D a' r c').reconnects ≡ c'.reconnects)
  unfolding before_delta
  apply_reply-again a a' r k c e =
      let c' = apply_reply D a r c in
      let second = before_delta a' r c' in
      let same =
        position-device a' (wanted_position D r.position)
          (record c' { status = note_status D r c'.status }) in
      let agreed : caster_differs D k second.device ≡ false =
        ap (caster_differs D k) same.0 ∙ (apply_reply-Compared a r k c e).agrees in
      let still : apply_reply D a' r c' ≡ persist_state D r.state second =
        unfold apply_reply in
        ap (λ (o : Option (Caster D)). persist_state D r.state (apply_delta D o second)) e
        ∙ ap (persist_state D r.state) (unchanged_delta k second agreed) in
      (
        ap (λ (x : Client D). x.device) still
            ∙ unfold apply_reply in
              persist-again r.state (apply_delta D r.caster (before_delta a r c)) second same.0,
        ap (λ (x : Client D). x.reconnects) still ∙ unfold persist_state in same.1,
      )

  -- A reply that carries credentials, where every write to the configuration succeeds: afterwards each
  -- item of the stored credentials is the one of the reply (a text byte for byte, the port as a
  -- uint16_t; items that the reply does not name ask for nothing), and the NTRIP server was asked once
  -- to reconnect if some item was different before, and not at all if none was. The same reply once
  -- more, whatever the GNSS module answers, changes nothing stored and asks for nothing.
  pub apply_reply-credentials :
      (a a' : Bool) (r : Reply D) (k : Caster D) (c : Client D)
      → r.caster ≡ some k
      → let c' = apply_reply D a r c in
        Settled k c c'
        × ((apply_reply D a' r c').device ≡ c'.device)
        × ((apply_reply D a' r c').reconnects ≡ c'.reconnects)
  apply_reply-credentials a a' r k c e =
      let again = apply_reply-again a a' r k c e in
      let s = apply_reply-Compared a r k c e in
      (
        record {
          agrees = Agrees-of_same k (apply_reply D a r c).device s.agrees;
          asked = asked-cases k c (apply_reply D a r c).reconnects s.asked;
        },
        again.0,
        again.1,
      )
