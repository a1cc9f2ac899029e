-- ===== src/Parser/Callback.antt =====
-- The parser does not look at the state of the callback: a map between two callbacks carries over to
-- what a chunk does to their states.
use mathlib.Core.List.{List, [], ◌∷◌, ◌++◌}
use rtkdata_fw.Base.{ℕ, zero, suc, ◌-◌, bit_and}
use rtkdata_fw.Base.{◌≡◌, refl, ap, sym, ◌∙◌, inl, inr, Bool-cases}
use rtkdata_fw.Base.{if◌then◌else◌, ltb, ◌==◌, length, get_or, take, drop, sub32}
use rtkdata_fw.Crc.{rtcm_crc24q}
use rtkdata_fw.Parser.{Parser, preamble, frame_need, carried_crc, target, hunt_in_input, consume}
use rtkdata_fw.Parser.{Pass, stop, again, process_pass, process_loop, process}
use rtkdata_fw.Parser.{top_up, feed_round, feed_loop, feed}

module _ {S T : Type 0} (cb : List ℕ → ℕ → S → S) (cb2 : List ℕ → ℕ → T → T) (now : ℕ) (g : T → S)
    (carries : (f : List ℕ) (t : T) → g (cb2 f now t) ≡ cb f now (g t)) where
  map_pass : Pass T → Pass S
  map_pass (stop q t) = stop q (g t)
  map_pass (again q t) = again q (g t)

  process_pass-map :
      (p : Parser) (t : T) → process_pass cb now p (g t) ≡ map_pass (process_pass cb2 now p t)
  unfolding process_pass map_pass
  process_pass-map p t = elim (Bool-cases (ltb (length p.buf) 3)) [
    | inl few ↦ rw few refl
    | inr many ↦ rw many (elim (Bool-cases (bit_and (get_or p.buf 1 0) 0xFC == 0)) [
      | inr bad ↦ rw bad refl
      | inl good ↦ rw good (elim (Bool-cases (ltb (length p.buf) (frame_need p.buf))) [
        | inl wait ↦ rw wait refl
        | inr full ↦
            rw full
              (elim (Bool-cases (
                rtcm_crc24q (take (frame_need p.buf - 3) p.buf)
                == carried_crc p.buf (frame_need p.buf))) [
                  | inr wrong ↦ rw wrong refl
                  | inl ok ↦ rw ok (
                      ap (λ (s : S). again (consume p (frame_need p.buf)) s)
                        (sym (carries (take (frame_need p.buf) p.buf) t)))
                ])
      ])
    ])
  ]

  process_loop-map :
      (f : ℕ) (p : Parser) (t : T)
      → process_loop cb now f p (g t) ≡ (let r = process_loop cb2 now f p t in (r.0, g r.1))
  unfolding process_loop map_pass
  process_loop-map zero p t = refl
  process_loop-map (suc f) p t =
      ap
        (λ (x : Pass S). elim x as (λ _. Parser × S) [
          | stop q s ↦ (q, s)
          | again q s ↦ process_loop cb now f q s
        ])
        (process_pass-map p t)
      ∙ go (process_pass cb2 now p t) (process_loop-map f)
    where
      go :
          (pass : Pass T)
          → ((q : Parser) (u : T)
              → process_loop cb now f q (g u)
                ≡ (let r = process_loop cb2 now f q u in (r.0, g r.1)))
          → elim (map_pass pass) as (λ _. Parser × S) [
            | stop q s ↦ (q, s)
            | again q s ↦ process_loop cb now f q s
          ]
            ≡ (let r = elim pass as (λ _. Parser × T) [
              | stop q u ↦ (q, u)
              | again q u ↦ process_loop cb2 now f q u
            ] in
                (r.0, g r.1))
      go (stop q u) ih = refl
      go (again q u) ih = ih q u

  top_up-map :
      (p : Parser) (input : List ℕ) (t : T)
      → top_up cb now p input (g t) ≡ (let r = top_up cb2 now p input t in (r.0, g r.1, r.2))
  unfolding top_up process
  top_up-map p input t =
      let want = sub32 (target p) (length p.buf) in
      let n = if ltb want (length input) then want else length input in
      let q : Parser = record p { buf = p.buf ++ take n input } in
      elim (Bool-cases (length (p.buf ++ take n input) == target p)) [
        | inl due ↦ rw due (
            ap (λ (r : Parser × S). (r.0, r.1, drop n input))
              (process_loop-map (suc (length q.buf)) q t))
        | inr early ↦ rw early refl
      ]

  feed_round-map :
      (p : Parser) (input : List ℕ) (t : T)
      → feed_round cb now p input (g t)
        ≡ (let r = feed_round cb2 now p input t in (r.0, g r.1, r.2))
  unfolding feed_round
  feed_round-map p input t = elim (Bool-cases (length p.buf == 0)) [
    | inl out ↦ rw out (found (hunt_in_input p input).0 (hunt_in_input p input).1)
    | inr held ↦ rw held (top_up-map p input t)
  ]
    where
      found :
          (q : Parser) (rest : List ℕ)
          → elim rest as (λ _. Parser × S × List ℕ) [
            | [] ↦ (q, g t, [])
            | x ∷ xs ↦ top_up cb now (record q { buf = preamble ∷ [] }) xs (g t)
          ]
            ≡ (let r = elim rest as (λ _. Parser × T × List ℕ) [
              | [] ↦ (q, t, [])
              | x ∷ xs ↦ top_up cb2 now (record q { buf = preamble ∷ [] }) xs t
            ] in
                (r.0, g r.1, r.2))
      found q [] = refl
      found q (x ∷ xs) = top_up-map (record q { buf = preamble ∷ [] }) xs t

  feed_loop-map :
      (f : ℕ) (p : Parser) (input : List ℕ) (t : T)
      → feed_loop cb now f p input (g t) ≡ (let r = feed_loop cb2 now f p input t in (r.0, g r.1))
  unfolding feed_loop
  feed_loop-map zero p input t = refl
  feed_loop-map (suc f) p [] t = refl
  feed_loop-map (suc f) p (x ∷ xs) t =
      let r = feed_round cb2 now p (x ∷ xs) t in
      ap (λ (o : Parser × S × List ℕ). feed_loop cb now f o.0 o.2 o.1) (feed_round-map p (x ∷ xs) t)
      ∙ feed_loop-map f r.0 r.2 r.1

  pub feed-map :
      (p : Parser) (input : List ℕ) (t : T)
      → feed cb now p input (g t) ≡ (let r = feed cb2 now p input t in (r.0, g r.1))
  unfolding feed
  feed-map p input t = feed_loop-map (length input) p input t
