-- ===== src/Provisioning/Rollout.antt =====
-- The states of a station: runs of `provisioning_task`.
use mathlib.Core.List.{List, [], ◌∷◌}
use mathlib.Core.Option.{Option, none, some}
use rtkdata_fw.Base.{ℕ, ◌≤◌, ◌≡◌, refl, sym, ◌∙◌, ◌⊎◌, inl, inr, arith}
use rtkdata_fw.Base.{Bool, true, false, ltb, Bool-cases, if-case, take}
use rtkdata_fw.Base.{option-case, ◌==◌, le→leb}
use rtkdata_fw.Provisioning.{
  Device, Json, Caster, Reply, EnrollReply, Client, Pass, Status, text_or,
}
use rtkdata_fw.Provisioning.{state_number, apply_delta, apply_position, persist_state, apply_reply}
use rtkdata_fw.Provisioning.{
  caster_differs, write_caster, heartbeat, enroll, enrolled_by, join, pass, start,
}
use rtkdata_fw.Provisioning.{note_status, wanted_position}

-- A state that a reply names is one of the three.
state_number-bounds : (s : List ℕ) → (1 ≤ state_number s) × (state_number s ≤ 3)
unfolding state_number
state_number-bounds s = ground arith

module _ {D : Type 0} where
  unfoldable pub run : List (Pass D) → Client D → Client D
  run [] c = c
  run (e ∷ es) c = run es (pass D e c).0

  -- What an enrolled client and its heartbeats agree on.
  pub record Enrolled (token : List ℕ) (c : Client D) : Type 0 where
    pub task : c.task_state ≡ c.device.state
    pub low : 1 ≤ c.device.state
    pub high : c.device.state ≤ 3
    pub same_token : c.token ≡ token
    pub flag : c.status.enrolled ≡ true

  named_state :
      (j : Json D) (old : ℕ)
      → 1 ≤ old
      → old ≤ 3
      → (1 ≤ text_or D j state_number old) × (text_or D j state_number old ≤ 3)
  unfolding text_or
  named_state (Json.string s) old l h = state_number-bounds s
  named_state Json.missing old l h = (l, h)
  named_state (Json.number n d) old l h = (l, h)
  named_state (Json.bool b) old l h = (l, h)
  named_state Json.other old l h = (l, h)

  -- The parts of a reply that leave token, state and flag.
  record Keeps (c c' : Client D) : Type 0 where
    state : c'.device.state ≡ c.device.state
    token : c'.token ≡ c.token
    flag : c'.status.enrolled ≡ c.status.enrolled

  delta-Keeps : (o : Option (Caster D)) (c : Client D) → Keeps c (apply_delta D o c)
  unfolding apply_delta write_caster
  delta-Keeps none c = record { state = refl; token = refl; flag = refl }
  delta-Keeps (some k) c =
      if-case (Keeps c) (caster_differs D k c.device)
        (λ _. record { state = refl; token = refl; flag = refl })
        (λ _. record { state = refl; token = refl; flag = refl })

  position-Keeps :
      (a : Bool) (o : Option (D × D × D)) (c : Client D) → Keeps c (apply_position D a o c)
  unfolding apply_position
  position-Keeps a none c = record { state = refl; token = refl; flag = refl }
  position-Keeps a (some p) c = record { state = refl; token = refl; flag = refl }

  status-enrolled : (r : Reply D) (st : Status D) → (note_status D r st).enrolled ≡ st.enrolled
  unfolding note_status
  status-enrolled r st = refl

  -- A pass of an enrolled client that ends in a heartbeat, before the local state is read again.
  record Beaten (token : List ℕ) (c : Client D) : Type 0 where
    low : 1 ≤ c.device.state
    high : c.device.state ≤ 3
    same_token : c.token ≡ token
    flag : c.status.enrolled ≡ true

  reply-Beaten :
      (token : List ℕ) (a : Bool) (r : Reply D) (c : Client D)
      → Beaten token c
      → Beaten token (apply_reply D a r c)
  unfolding apply_reply
  reply-Beaten token a r c b =
      let noted : Client D = record c { status = note_status D r c.status } in
      let placed = apply_position D a (wanted_position D r.position) noted in
      let changed = apply_delta D r.caster placed in
      let p = position-Keeps a (wanted_position D r.position) noted in
      let d = delta-Keeps r.caster placed in
      let same : changed.device.state ≡ c.device.state = d.state ∙ p.state in
      let s =
        named_state r.state changed.device.state (omega (arith, same, b.low))
          (omega (arith, same, b.high)) in
      unfold persist_state in
      record {
        low = s.0;
        high = s.1;
        same_token = d.token ∙ p.token ∙ b.same_token;
        flag = d.flag ∙ p.flag ∙ status-enrolled r c.status ∙ b.flag;
      }

  heartbeat-Beaten :
      (token : List ℕ) (fits a : Bool) (o : Option (Reply D)) (c : Client D)
      → Beaten token c
      → Beaten token (heartbeat D fits a o c)
  unfolding heartbeat
  heartbeat-Beaten token false a o c b = b
  heartbeat-Beaten token true a none c b = b
  heartbeat-Beaten token true a (some r) c b = reply-Beaten token a r c b

  -- Once enrolled, always enrolled, with the token of the enrolment.
  pass-Enrolled :
      (token : List ℕ) (e : Pass D) (c : Client D)
      → Enrolled token c
      → Enrolled token (pass D e c).0
  unfolding pass
  pass-Enrolled token e c v =
      let past : ltb c.task_state 1 ≡ false = ground arith in
      let b =
        heartbeat-Beaten token e.fits e.applied e.reply c
          (record { low = v.low; high = v.high; same_token = v.same_token; flag = v.flag }) in
      rw past (record {
        task = refl;
        low = b.low;
        high = b.high;
        same_token = b.same_token;
        flag = b.flag;
      })

  pub run-Enrolled :
      (token : List ℕ) (es : List (Pass D)) (c : Client D)
      → Enrolled token c
      → Enrolled token (run es c)
  unfolding run
  run-Enrolled token [] c v = v
  run-Enrolled token (e ∷ es) c v = run-Enrolled token es (pass D e c).0 (pass-Enrolled token e c v)

  -- An enrolment that fails leaves the client as it was; one that succeeds stores the token it keeps.
  record Joined (c' : Client D) : Type 0 where
    state : c'.device.state ≡ 1
    stored : c'.device.station_token ≡ c'.token

  abbrev Outcome : Client D → Client D × Bool → Type 0
  Outcome c o = ((o.1 ≡ false) × (o.0 ≡ c)) ⊎ ((o.1 ≡ true) × Joined o.0)

  join-Outcome :
      (j : Json D) (k : Caster D) (poll : Json D) (c : Client D) → Outcome c (join D j k poll c)
  unfolding join
  join-Outcome (Json.string s) k poll c = inr (refl, record { state = refl; stored = refl })
  join-Outcome Json.missing k poll c = inl (refl, refl)
  join-Outcome (Json.number n d) k poll c = inl (refl, refl)
  join-Outcome (Json.bool b) k poll c = inl (refl, refl)
  join-Outcome Json.other k poll c = inl (refl, refl)

  enrolled_by-Outcome : (r : EnrollReply D) (c : Client D) → Outcome c (enrolled_by D r c)
  unfolding enrolled_by
  enrolled_by-Outcome r c =
      option-case (Outcome c) r.caster (λ _. inl (refl, refl))
        (λ k _. join-Outcome r.station_token k r.ie_poll_s c)

  enroll-Outcome :
      (has_key : Bool) (o : Option (EnrollReply D)) (c : Client D)
      → Outcome c (enroll D has_key o c)
  unfolding enroll
  enroll-Outcome false o c = inl (refl, refl)
  enroll-Outcome true none c = inl (refl, refl)
  enroll-Outcome true (some r) c = enrolled_by-Outcome r c

  pass-unclaimed :
      (e : Pass D) (c : Client D)
      → c.task_state ≡ 0
      → ((pass D e c).0 ≡ c) ⊎ ((token : List ℕ) × Enrolled token (pass D e c).0)
  unfolding pass
  pass-unclaimed e c z =
      let before : ltb c.task_state 1 ≡ true = ground arith in
      elim (enroll-Outcome e.has_key e.enrolled c) [
        | inl (failed, same) ↦ rw before (rw failed (inl same))
        | inr (done, j) ↦
            let n = (enroll D e.has_key e.enrolled c).0 in
            rw before (
              rw done (
                inr (
                  n.token,
                  record {
                    task = sym j.state;
                    low = omega (arith, j.state);
                    high = omega (arith, j.state);
                    same_token = refl;
                    flag = refl;
                  },
                )))
      ]

  run-unclaimed :
      (es : List (Pass D)) (c : Client D)
      → c.task_state ≡ 0
      → (run es c ≡ c) ⊎ ((token : List ℕ) × Enrolled token (run es c))
  unfolding run
  run-unclaimed [] c z = inl refl
  run-unclaimed (e ∷ es) c z = elim (pass-unclaimed e c z) [
    | inl same ↦ rw same (run-unclaimed es c z)
    | inr (token, v) ↦ inr (token, run-Enrolled token es (pass D e c).0 v)
  ]

  start-Enrolled :
      (dev : Device)
      → dev.state ≤ 3
      → 1 ≤ dev.state
      → Enrolled (take 95 dev.station_token) (start D dev)
  unfolding start
  start-Enrolled dev h l = record {
    task = refl;
    low = l;
    high = h;
    same_token = refl;
    flag = le→leb 1 dev.state l;
  }

  -- A station that starts in one of the four states is, after any passes, either untouched and still
  -- unclaimed, or enrolled: its stored state is one of the three beyond and the one its task goes by,
  -- it shows itself as enrolled, and from then on no pass takes it back or replaces its token.
  pub run-start :
      (dev : Device) (es : List (Pass D))
      → dev.state ≤ 3
      → ((run es (start D dev) ≡ start D dev) × (dev.state ≡ 0))
        ⊎ ((token : List ℕ) × Enrolled token (run es (start D dev))
            × ((more : List (Pass D)) → Enrolled token (run more (run es (start D dev)))))
  run-start dev es h = elim (Bool-cases (dev.state == 0)) [
    | inl new ↦
        let zero_state : dev.state ≡ 0 = ground arith in
        elim (run-unclaimed es (start D dev) (unfold start in zero_state)) [
          | inl same ↦ inl (same, zero_state)
          | inr (token, v) ↦
              inr (token, v, λ more. run-Enrolled token more (run es (start D dev)) v)
        ]
    | inr old ↦
        let v = start-Enrolled dev h (ground arith) in
        let w = run-Enrolled (take 95 dev.station_token) es (start D dev) v in
        inr (
          take 95 dev.station_token,
          w,
          λ more. run-Enrolled (take 95 dev.station_token) more (run es (start D dev)) w,
        )
  ]
