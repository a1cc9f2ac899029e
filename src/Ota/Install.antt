-- ===== src/Ota/Install.antt =====
-- `ota_update_firmware` of main/update.c: the download of a firmware file into the update slot.
-- What the HTTP client and the platform answer is a record; a length or a read below 0 is `none`.
use mathlib.Core.List.{List, [], ◌∷◌}
use mathlib.Core.Option.{Option, none, some}
use rtkdata_fw.Base.{ℕ, ◌+◌, ◌*◌, ◌<◌, ◌≤◌, ◌≡◌, ◌≢◌, sym, ◌∙◌, arith, ltb, ◌==◌, if◌then◌else◌}
use rtkdata_fw.Base.{Bool, true, false, not, ◌||◌, if-case, option-case, absurd_bool}

-- `MIN_OTA_HEAP`
abbrev pub min_ota_heap : ℕ
min_ota_heap = 110 * 1024

-- `reads` are the sizes of the chunks, each with the success of its `esp_ota_write`;
-- `read_fails` says that the last read was below 0.
pub record Download : Type 0 where
  pub free_heap : ℕ
  pub has_client : Bool
  pub connects : Bool
  pub has_partition : Bool
  pub status : ℕ
  pub content_length : Option ℕ
  pub begins : Bool
  pub reads : List (ℕ × Bool)
  pub read_fails : Bool
  pub ends : Bool
  pub sets_boot : Bool

-- What became of the update slot: never begun, given up, refused by `esp_ota_end`, or closed and
-- (not) made the boot slot.
pub data Slot : Type 0 where
  untouched aborted invalid closed bootable : Slot

-- The loop of the download: `total_file_write` after it, and whether a write broke it off.
unfoldable pub write_loop : List (ℕ × Bool) → ℕ → ℕ × Bool
write_loop [] total = (total, false)
write_loop ((n, ok) ∷ reads) total =
    let rest = write_loop reads (total + n) in if ok then rest else (total, true)

-- The slot after the loop.
unfoldable pub close_slot : Download → ℕ → ℕ → Bool → Slot
close_slot d expected total broke =
    if d.read_fails || broke
    then aborted
    else if not (total == expected)
    then aborted
    else if not d.ends
    then invalid
    else if d.sets_boot
    then bootable
    else closed

-- The body from `esp_ota_begin` on.
unfoldable pub fetch : Download → ℕ → ℕ → ℕ × Slot
unfolding write_loop close_slot
fetch d expected total =
    let (total', broke) = write_loop d.reads total in (total', close_slot d expected total' broke)

-- `ota_update_firmware` at this `total_file_write`. It returns `ESP_OK` exactly when it leaves the
-- slot bootable.
unfoldable pub update_firmware : Download → ℕ → ℕ × Slot
unfolding fetch
update_firmware d total =
    if ltb d.free_heap min_ota_heap
    then (total, untouched)
    else if not d.has_client || (not d.connects || not d.has_partition)
    then (total, untouched)
    else if not (d.status == 200)
    then (total, untouched)
    else elim d.content_length [
      | none ↦ (total, untouched)
      | some n ↦ if (n == 0) || not d.begins then (total, untouched) else fetch d n total
    ]

-- The bytes that the server sent.
unfoldable pub sent : List (ℕ × Bool) → ℕ
sent [] = 0
sent (r ∷ reads) = r.0 + sent reads

write_loop-sent :
    (reads : List (ℕ × Bool)) (total : ℕ)
    → (write_loop reads total).1 ≡ false
    → (write_loop reads total).0 ≡ total + sent reads
unfolding write_loop sent
write_loop-sent [] total h = omega arith
write_loop-sent ((n, true) ∷ reads) total h = write_loop-sent reads (total + n) h ∙ omega arith
write_loop-sent ((n, false) ∷ reads) total h = absurd_bool (sym h)

-- What a bootable slot says of the download.
pub record Complete (d : Download) (total : ℕ) : Type 0 where
  pub heap : min_ota_heap ≤ d.free_heap
  pub status : d.status ≡ 200
  pub length : ℕ
  pub announced : d.content_length ≡ some length
  pub bytes : total + sent d.reads ≡ length
  pub written : (write_loop d.reads total).1 ≡ false

close_slot-bootable :
    (d : Download) (n total : ℕ) (broke : Bool)
    → close_slot d n total broke ≡ bootable
    → (broke ≡ false) × (total ≡ n)
unfolding close_slot
close_slot-bootable d n total broke h =
    let P = λ (s : Slot). s ≡ bootable → (broke ≡ false) × (total ≡ n) in
    if-case P (d.read_fails || broke) (λ _ k. ground arith)
      (λ f.
        if-case P (not (total == n)) (λ _ k. ground arith)
          (λ e.
            if-case P (not d.ends) (λ _ k. ground arith)
              (λ _ _. (second d.read_fails broke f, same e))))
      h
  where
    second : (a b : Bool) → (a || b) ≡ false → b ≡ false
    second true b h = absurd_bool (sym h)
    second false b h = h

    same : not (total == n) ≡ false → total ≡ n
    same e = ground arith

-- The slot becomes bootable only if the bytes sent, with what earlier files of the same update wrote,
-- are the announced length.
update_firmware_bootable :
    (d : Download) (total : ℕ) → (update_firmware d total).1 ≡ bootable → Complete d total
unfolding update_firmware fetch
update_firmware_bootable d total h =
    let P = λ (o : ℕ × Slot). o.1 ≡ bootable → Complete d total in
    let w = write_loop d.reads total in
    if-case P (ltb d.free_heap min_ota_heap) (λ _ k. ground arith)
      (λ heap.
        if-case P (not d.has_client || (not d.connects || not d.has_partition))
          (λ _ k. ground arith)
          (λ _.
            if-case P (not (d.status == 200)) (λ _ k. ground arith)
              (λ st.
                option-case P d.content_length (λ _ k. ground arith)
                  (λ n len.
                    if-case P ((n == 0) || not d.begins) (λ _ k. ground arith)
                      (λ _ k.
                        let c = close_slot-bootable d n w.0 w.1 k in
                        record {
                          heap = ground arith;
                          status = ground arith;
                          length = n;
                          announced = len;
                          bytes = sym (write_loop-sent d.reads total c.0) ∙ c.1;
                          written = c.0;
                        })))))
      h

-- A firmware file that is sent in full is given up if an earlier file of the same update has
-- written anything: the slot does not become bootable.
pub update_firmware-later_file :
    (d : Download) (total : ℕ)
    → 0 < total
    → d.content_length ≡ some (sent d.reads)
    → (update_firmware d total).1 ≢ bootable
update_firmware-later_file d total p len h =
    let c = update_firmware_bootable d total h in
    let e : sent d.reads ≡ c.length = some_inj (sym len ∙ c.announced) in
    absurd (omega (arith, c.bytes, e, p))
  where
    some_inj : {i k : ℕ} → some i ≡ some k → i ≡ k
    some_inj h = ground arith
