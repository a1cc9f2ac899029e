-- ===== src/Provisioning/Body.antt =====
-- `http_post_json` of main/provisioning.c: the body of a reply is read into a buffer that grows. The
-- HTTP client is the interface `Source`, with the contract of `esp_http_client_read`: a read fails, or it
-- hands out the next bytes of the body, no more than it is asked for, and none only at the end; after
-- a read that failed the loop ends with what it has. The capacity is a natural number, and so is the
-- `int` of the source as long as it stays below 2^31.
use mathlib.Core.List.{List, [], ◌++◌, append-nil, append_assoc}
use mathlib.Core.Option.{Option, none, some}
use rtkdata_fw.Base.{ℕ, zero, suc, ◌+◌, ◌-◌, ◌*◌, ◌≤◌, ◌<◌, ◌≡◌, ap, sym, ◌∙◌, inl, inr, arith}
use rtkdata_fw.Base.{
  Bool, true, false, not, ◌&&◌, ◌||◌, if◌then◌else◌, leb, ltb, ◌==◌, length, Bool-cases,
}
use rtkdata_fw.Base.{length-append}
use mathlib.Core.Path.{subst}

-- A read is whether it did not fail, the bytes (if it did not fail) and the connection after it.
pub record Source : Type 1 where
  pub Conn : Type 0
  pub read : Conn → ℕ → Bool × List ℕ × Conn
  pub left : Conn → List ℕ
  pub in_order : (w : Conn) (room : ℕ) → (read w room).1 ++ left (read w room).2 ≡ left w
  pub within : (w : Conn) (room : ℕ) → length (read w room).1 ≤ room
  pub ends_late :
      (w : Conn) (room : ℕ)
      → 0 < room
      → (read w room).0 ≡ true
      → length (read w room).1 ≡ 0
      → left w ≡ []

module _ (source : Source) where
  open source use {Conn, read, left, in_order, within, ends_late}

  -- The loop, on fuel: the capacity and the body, none if `realloc` fails; `grows` says whether it
  -- finds that many bytes.
  unfoldable pub read_loop : ℕ → (ℕ → Bool) → ℕ → List ℕ → Conn → Option (ℕ × List ℕ)
  read_loop zero grows cap body w = some (cap, body)
  read_loop (suc fuel) grows cap body w =
      let full = leb cap (length body + 1) in
      let cap' = if full then cap * 2 else cap in
      let (good, chunk, w') = read w (cap' - length body - 1) in
      let rest = read_loop fuel grows cap' (body ++ chunk) w' in
      if full && not (grows cap')
      then none
      else if not good || (length chunk == 0)
      then some (cap', body)
      else rest

  -- From `malloc` on; `content_length` is what the headers announce, 0 if nothing.
  unfoldable pub read_body : ℕ → (ℕ → Bool) → ℕ → Conn → Option (ℕ × List ℕ)
  unfolding read_loop
  read_body fuel grows content_length w =
      let cap = if ltb 0 content_length then content_length + 1 else 512 in
      if grows cap then read_loop fuel grows cap [] w else none

  -- The body fits, and a byte is left for the final 0.
  abbrev pub Whole : List ℕ → Option (ℕ × List ℕ) → Type 0
  Whole all none = ⊥
  Whole all (some (cap, body)) = (body ≡ all) × (length body < cap)

  read_loop-Whole :
      (fuel : ℕ) (grows : ℕ → Bool) (limit cap : ℕ) (body : List ℕ) (w : Conn)
      → ((v : Conn) (room : ℕ) → (read v room).0 ≡ true)
      → ((n : ℕ) → n ≤ limit → grows n ≡ true)
      → cap ≤ limit
      → 2 * (length body + length (left w) + 1) ≤ limit
      → length body < cap
      → length (left w) < fuel
      → Whole (body ++ left w) (read_loop fuel grows cap body w)
  unfolding read_loop
  read_loop-Whole zero grows limit cap body w sound g k m c h = absurd (omega arith)
  read_loop-Whole (suc fuel) grows limit cap body w sound g k m c h =
      let full = leb cap (length body + 1) in
      let cap' = if full then cap * 2 else cap in
      let room = cap' - length body - 1 in
      let wide : length body + 1 < cap' = ground arith in
      let low : cap' ≤ limit = ground arith in
      let chunk = (read w room).1 in
      let w' = (read w room).2 in
      let held : (full && not (grows cap')) ≡ false = rw (g cap' low) (ground arith) in
      let sum : length chunk + length (left w') ≡ length (left w) =
        sym (length-append chunk (left w')) ∙ ap length (in_order w room) in
      let longer = length-append body chunk in
      rw held (
        rw (sound w room) (elim (Bool-cases (length chunk == 0)) [
          | inl done ↦
              let nothing = ends_late w room (omega arith) (sound w room) (ground arith) in
              rw done
                (sym (append-nil body) ∙ ap (λ (l : List ℕ). body ++ l) (sym nothing), omega arith)
          | inr more ↦ rw more (
              subst (λ (all : List ℕ). Whole all (read_loop fuel grows cap' (body ++ chunk) w'))
                (append_assoc body chunk (left w')
                  ∙ ap (λ (l : List ℕ). body ++ l) (in_order w room))
                (read_loop-Whole fuel grows limit cap' (body ++ chunk) w' sound g low
                  (omega (arith, longer, sum, m)) (omega (arith, longer, within w room, wide))
                  (ground (arith, sum))))
        ]))

  -- Whatever length the headers announce, too little, too much or none, and however the client cuts
  -- the body: where no read fails, `malloc` and `realloc` find what is announced and 512 bytes and
  -- twice the length of the body, and the loop may go on for a round more than the body has bytes, the
  -- whole body is read, within the buffer and with a byte to spare.
  pub read_body-Whole :
      (fuel : ℕ) (grows : ℕ → Bool) (content_length : ℕ) (w : Conn)
      → ((v : Conn) (room : ℕ) → (read v room).0 ≡ true)
      → ((n : ℕ) → n ≤ content_length + 512 + 2 * length (left w) → grows n ≡ true)
      → length (left w) < fuel
      → Whole (left w) (read_body fuel grows content_length w)
  unfolding read_body
  read_body-Whole fuel grows content_length w sound g h =
      let cap = if ltb 0 content_length then content_length + 1 else 512 in
      let limit = content_length + 512 + 2 * length (left w) in
      let low : cap ≤ limit = ground arith in
      rw (g cap low)
        (read_loop-Whole fuel grows limit cap [] w sound g low (omega arith) (ground arith) h)
