-- ===== src/Ingest/KeepAlive.antt =====
-- The keep-alive of main/interface/ntrip_server.c: ten seconds without a frame close a mountpoint
-- for reconnects, and a frame opens it again.
use rtkdata_fw.Base.{ℕ, zero, suc, ◌*◌, ◌≡◌, refl, ap, sym, ◌∙◌, arith, min, ltb, leb, ◌&&◌}
use rtkdata_fw.Base.{Bool, true, false, if-case, and_right, absurd_bool}
use rtkdata_fw.Ingest.{Instance, keep_alive_threshold, update_data_state, update_keep_alive_counter}
use rtkdata_fw.Ingest.{handle_keep_alive_timeout, sleep_pass, wake}

pub sleep_passes : ℕ → Instance → Instance
sleep_passes zero i = i
sleep_passes (suc n) i = sleep_pass (sleep_passes n i)

-- The instance after `n` passes since its last frame.
record Quiet (n : ℕ) (i : Instance) : Type 0 where
  counter : i.data_keep_alive ≡ min 10000 (1000 * n)
  event : i.has_ev ≡ true
  bit : i.data_ready ≡ ltb n 10

counted :
    (n : ℕ) (i : Instance)
    → Quiet n i
    → (update_keep_alive_counter i).data_keep_alive ≡ min 10000 (1000 * suc n)
unfolding update_keep_alive_counter
counted n i q =
    let c = q.counter in
    if-case (λ (j : Instance). j.data_keep_alive ≡ min 10000 (1000 * suc n))
      (ltb i.data_keep_alive keep_alive_threshold) (λ h. ground arith) (λ h. ground arith)

kept :
    (i : Instance)
    → ((update_keep_alive_counter i).has_ev ≡ i.has_ev)
      × ((update_keep_alive_counter i).data_ready ≡ i.data_ready)
unfolding update_keep_alive_counter
kept i =
    if-case (λ (j : Instance). (j.has_ev ≡ i.has_ev) × (j.data_ready ≡ i.data_ready))
      (ltb i.data_keep_alive keep_alive_threshold) (λ _. (refl, refl)) (λ _. (refl, refl))

bit_after :
    (n c : ℕ) → c ≡ min 10000 (1000 * suc n) → leb 10000 c ≡ false → ltb n 10 ≡ ltb (suc n) 10
bit_after n c e h = ground arith

bit_cleared : (n c : ℕ) → c ≡ min 10000 (1000 * suc n) → leb 10000 c ≡ true → false ≡ ltb (suc n) 10
bit_cleared n c e h = ground arith

sleep_pass-Quiet : (n : ℕ) (i : Instance) → Quiet n i → Quiet (suc n) (sleep_pass i)
unfolding sleep_pass handle_keep_alive_timeout
sleep_pass-Quiet n i q =
    let u = update_keep_alive_counter i in
    let c = counted n i q in
    let ev = (kept i).0 ∙ q.event in
    if-case (λ j. Quiet (suc n) j) (u.has_ev && leb keep_alive_threshold u.data_keep_alive)
      (λ h. record {
        counter = c;
        event = ev;
        bit = bit_cleared n u.data_keep_alive c (and_right _ _ h);
      })
      (λ h. record {
        counter = c;
        event = ev;
        bit =
            (kept i).1
            ∙ q.bit
            ∙ bit_after n u.data_keep_alive c
                (sym (ap (λ b. b && leb 10000 u.data_keep_alive) ev) ∙ h);
      })

sleep_passes-Quiet : (n : ℕ) (i : Instance) → Quiet 0 i → Quiet n (sleep_passes n i)
unfolding sleep_passes
sleep_passes-Quiet zero i q = q
sleep_passes-Quiet (suc n) i q = sleep_pass-Quiet n (sleep_passes n i) (sleep_passes-Quiet n i q)

update_data_state-Quiet : (i : Instance) → i.has_ev ≡ true → Quiet 0 (update_data_state i).0
unfolding update_data_state
update_data_state-Quiet i e =
    let P = λ (o : Instance × Bool). Quiet 0 o.0 in
    if-case P i.has_ev
      (λ _.
        if-case P i.caster_ready (λ _. record { counter = refl; event = e; bit = refl })
          (λ _. record { counter = refl; event = e; bit = refl }))
      (λ f. absurd_bool (sym f ∙ e))

wake-Quiet : (i : Instance) → i.has_ev ≡ true → Quiet 0 (wake i)
unfolding wake
wake-Quiet i e =
    let (j, sends) = update_data_state i in
    let q = update_data_state-Quiet i e in
    if-case (λ k. Quiet 0 k) i.has_ev
      (λ _.
        if-case (λ k. Quiet 0 k) (sends && j.has_task)
          (λ _. record { counter = q.counter; event = q.event; bit = q.bit }) (λ _. q))
      (λ f. absurd_bool (sym f ∙ e))

-- An instance that a frame has just woken is open for reconnects through nine seconds without a
-- frame and closed from the tenth on, and its counter never passes the threshold.
pub wake-keep_alive :
    (n : ℕ) (i : Instance)
    → i.has_ev ≡ true
    → ((sleep_passes n (wake i)).data_ready ≡ ltb n 10)
      × ((sleep_passes n (wake i)).data_keep_alive ≡ min 10000 (1000 * n))
wake-keep_alive n i e = let q = sleep_passes-Quiet n (wake i) (wake-Quiet i e) in (q.bit, q.counter)
