-- ===== src/Parser/Frame.antt =====
-- The RTCM3 frame as the standard writes it (preamble, ten bits of length, payload, CRC-24Q), and
-- that the tests of `parser_process` recognise exactly these.
use mathlib.Core.List.{List, [], ◌∷◌, ◌++◌}
use rtkdata_fw.Base.{ℕ, zero, suc, ◌+◌, ◌-◌, ◌*◌, ◌/◌, ◌%◌, ◌^◌, ◌≤◌, ◌<◌, bit_and, bit_or}
use rtkdata_fw.Base.{◌≡◌, refl, ap, sym, ◌∙◌, true, arith, ==_iff}
use rtkdata_fw.Base.{◌==◌, ltb, length, get_or, take, All, IsByte}
use rtkdata_fw.Base.{
  length-append, length-take, All-append, All-take, take-append_exact, get_or-append_right,
}
use rtkdata_fw.Base.Bits.{bit_and-lowest, bit_and_mask, bit_or_fields}
use rtkdata_fw.Crc.{rtcm_crc24q}
use rtkdata_fw.Crc.Serial.{rtcm_crc24q-eq-serial_from}
use rtkdata_fw.Parser.{preamble, frame_need, carried_crc}
use rtkdata_fw.Parser.Settle.{HeadOk, get_or-IsByte, frame_need_lem}

-- The header and the payload: what the CRC is computed over.
unfoldable pub frame_body : List ℕ → List ℕ
frame_body payload = preamble ∷ (length payload / 256) ∷ (length payload % 256) ∷ payload

pub crc_bytes : ℕ → List ℕ
crc_bytes crc = (crc / 2 ^ 16) ∷ (crc / 2 ^ 8 % 2 ^ 8) ∷ (crc % 2 ^ 8) ∷ []

-- The frame that carries `payload`.
unfoldable pub frame : List ℕ → List ℕ
unfolding frame_body crc_bytes
frame payload = frame_body payload ++ crc_bytes (rtcm_crc24q (frame_body payload))

pub record IsPayload (payload : List ℕ) : Type 0 where
  pub bytes : All IsByte payload
  pub fits : length payload ≤ 1023

-- A mask that clears the two lowest bits of a byte.
bit_and-upper_six : (x : ℕ) → x < 256 → bit_and x 0xFC ≡ x / 4 * 4
bit_and-upper_six x small =
    omega (arith, bit_and-lowest x 0xFC, bit_and-lowest (x / 2) 126, bit_and_mask 6 (x / 2 / 2))

-- The six reserved bits are zero exactly when the length's high byte is below 4.
pub reserved_lem : (x : ℕ) → x < 256 → (bit_and x 0xFC == 0) ≡ ltb x 4
reserved_lem x small = let upper = bit_and-upper_six x small in rw upper (ground arith)

pub frame_body-IsByte : (payload : List ℕ) → IsPayload payload → All IsByte (frame_body payload)
unfolding frame_body
frame_body-IsByte payload v = (omega arith, (omega (arith, v.fits), (omega arith, v.bytes)))

pub length-frame : (payload : List ℕ) → length (frame payload) ≡ length payload + 6
unfolding frame
length-frame payload =
    omega (arith, length-append payload (crc_bytes (rtcm_crc24q (frame_body payload))))

pub frame-IsByte : (payload : List ℕ) → IsPayload payload → All IsByte (frame payload)
unfolding frame
frame-IsByte payload v =
    let c = rtcm_crc24q (frame_body payload) in
    let small = (rtcm_crc24q-eq-serial_from (frame_body payload) (frame_body-IsByte payload v)).1 in
    All-append IsByte (frame_body payload) (crc_bytes c) (frame_body-IsByte payload v)
      (omega arith, (omega arith, (omega arith, tt)))

-- Three bytes joined by shifts are a sum.
join_bytes :
    (x y z : ℕ)
    → y < 256
    → z < 256
    → bit_or (bit_or (x * 2 ^ 16) (y * 2 ^ 8)) z ≡ x * 2 ^ 16 + y * 2 ^ 8 + z
join_bytes x y z p q =
    let e : x * 2 ^ 16 + y * 2 ^ 8 ≡ (x * 2 ^ 8 + y) * 2 ^ 8 = omega arith in
    ap (λ (t : ℕ). bit_or t z) (bit_or_fields 16 x (y * 2 ^ 8) (omega arith) ∙ e)
    ∙ bit_or_fields 8 (x * 2 ^ 8 + y) z (omega arith)
    ∙ omega arith

-- The CRC that a frame carries is the one that was put there.
carried :
    (body : List ℕ) (c : ℕ) → c < 2 ^ 24 → carried_crc (body ++ crc_bytes c) (length body + 3) ≡ c
unfolding crc_bytes
carried body c h =
    let at : (k : ℕ) → get_or (body ++ crc_bytes c) (length body + k) 0 ≡ get_or (crc_bytes c) k 0 =
      λ k. get_or-append_right body (crc_bytes c) k 0 in
    let e0 : length body + 3 - 3 ≡ length body + 0 = omega arith in
    let e1 : length body + 3 - 2 ≡ length body + 1 = omega arith in
    let e2 : length body + 3 - 1 ≡ length body + 2 = omega arith in
    rw (e0, e1, e2)
      (rw (at 0, at 1, at 2)
        (join_bytes (c / 2 ^ 16) (c / 2 ^ 8 % 2 ^ 8) (c % 2 ^ 8) (omega arith) (omega arith)
          ∙ omega arith))

-- What the tests of one pass find at a buffer that is exactly a frame.
pub record Recognised (payload : List ℕ) : Type 0 where
  pub announced : frame_need (frame payload) ≡ length payload + 6
  pub reserved : (bit_and (get_or (frame payload) 1 0) 0xFC == 0) ≡ true
  pub checked :
      (rtcm_crc24q (take (length payload + 6 - 3) (frame payload))
        == carried_crc (frame payload) (length payload + 6))
      ≡ true

pub frame-Recognised : (payload : List ℕ) → IsPayload payload → Recognised payload
unfolding frame
frame-Recognised payload v =
    let body = frame_body payload in
    let c = rtcm_crc24q body in
    let small = (rtcm_crc24q-eq-serial_from body (frame_body-IsByte payload v)).1 in
    let len : length body ≡ length payload + 3 = unfold frame_body in omega arith in
    let e3 : length payload + 6 - 3 ≡ length body = omega arith in
    let e6 : length payload + 6 ≡ length body + 3 = omega arith in
    record {
      announced =
          frame_need_lem (frame payload) (frame-IsByte payload v)
          ∙ unfold frame_body in omega (arith, v.fits);
      reserved =
          reserved_lem (length payload / 256) (omega (arith, v.fits)) ∙ ground (arith, v.fits);
      checked = (==_iff _ _).1 (
          ap (λ k. rtcm_crc24q (take k (frame payload))) e3
          ∙ ap rtcm_crc24q (take-append_exact body (crc_bytes c))
          ∙ sym (ap (carried_crc (frame payload)) e6 ∙ carried body c small));
    }

-- The three bytes behind the first `n`.
three :
    (n : ℕ) (r : List ℕ)
    → n + 3 ≤ length r
    → take (n + 3) r ≡ take n r ++ (get_or r n 0 ∷ get_or r (n + 1) 0 ∷ get_or r (n + 2) 0 ∷ [])
three zero [] h = absurd (omega arith)
three zero (x ∷ []) h = absurd (omega arith)
three zero (x ∷ y ∷ []) h = absurd (omega arith)
three zero (x ∷ y ∷ z ∷ r) h = refl
three (suc n) [] h = absurd (omega arith)
three (suc n) (x ∷ r) h =
    let e1 : suc n + 1 ≡ suc (n + 1) = omega arith in
    let e2 : suc n + 2 ≡ suc (n + 2) = omega arith in
    let e3 : suc n + 3 ≡ suc (n + 3) = omega arith in
    rw (e1, e2, e3) (ap (λ l. x ∷ l) (three n r (omega arith)))

-- A buffer that passes every test of one pass holds a frame.
IsFrame_of_tests :
    (h l : ℕ) (r : List ℕ)
    → All IsByte (preamble ∷ h ∷ l ∷ r)
    → h < 4
    → h * 256 + l + 3 ≤ length r
    → (let n = h * 256 + l in
        rtcm_crc24q (preamble ∷ h ∷ l ∷ take n r)
        ≡ get_or r n 0 * 2 ^ 16 + get_or r (n + 1) 0 * 2 ^ 8 + get_or r (n + 2) 0)
    → let n = h * 256 + l in
      IsPayload (take n r) × (preamble ∷ h ∷ l ∷ take (n + 3) r ≡ frame (take n r))
unfolding frame
IsFrame_of_tests h l r b hs fits crc =
    let n = h * 256 + l in
    let pl = take n r in
    let len : length pl ≡ n = omega (arith, length-take n r) in
    let hi : h ≡ length pl / 256 = omega (arith, b.1.1.0) in
    let lo : l ≡ length pl % 256 = omega (arith, b.1.1.0) in
    let x = get_or r n 0 in
    let y = get_or r (n + 1) 0 in
    let z = get_or r (n + 2) 0 in
    let yb : y < 256 = get_or-IsByte r (n + 1) b.1.1.1 in
    let zb : z < 256 = get_or-IsByte r (n + 2) b.1.1.1 in
    let body : preamble ∷ h ∷ l ∷ pl ≡ frame_body pl =
      unfold frame_body in
      ap (λ u. preamble ∷ u ∷ l ∷ pl) hi ∙ ap (λ u. preamble ∷ (length pl / 256) ∷ u ∷ pl) lo in
    let c : rtcm_crc24q (frame_body pl) ≡ x * 2 ^ 16 + y * 2 ^ 8 + z =
      sym (ap rtcm_crc24q body) ∙ crc in
    let tail : x ∷ y ∷ z ∷ [] ≡ crc_bytes (rtcm_crc24q (frame_body pl)) =
      unfold crc_bytes in ground arith in
    (
      record { bytes = All-take IsByte n r b.1.1.1; fits = omega (arith, b.1.1.0) },
      ap (λ u. preamble ∷ h ∷ l ∷ u) (three n r fits)
          ∙ ap (λ u. u ++ (x ∷ y ∷ z ∷ [])) body
          ∙ ap (λ u. frame_body pl ++ u) tail,
    )

-- What `parser_process` hands to the callback is a frame of the standard.
pub take-need-frame :
    (buf : List ℕ)
    → HeadOk buf
    → All IsByte buf
    → 3 ≤ length buf
    → (bit_and (get_or buf 1 0) 0xFC == 0) ≡ true
    → frame_need buf ≤ length buf
    → rtcm_crc24q (take (frame_need buf - 3) buf) ≡ carried_crc buf (frame_need buf)
    → (payload : List ℕ) × IsPayload payload × (take (frame_need buf) buf ≡ frame payload)
take-need-frame [] h b k res fits crc = absurd (omega arith)
take-need-frame (d ∷ []) h b k res fits crc = absurd (omega arith)
take-need-frame (d ∷ x ∷ []) h b k res fits crc = absurd (omega arith)
take-need-frame (d ∷ x ∷ y ∷ r) h b k res fits crc =
    let buf = d ∷ x ∷ y ∷ r in
    let small : x < 4 = ground (arith, reserved_lem x b.1.0) in
    let n = x * 256 + y in
    let need : frame_need buf ≡ suc (suc (suc (n + 3))) = omega (arith, frame_need_lem buf b) in
    let need3 : frame_need buf - 3 ≡ suc (suc (suc n)) = omega arith in
    let i1 : frame_need buf - 2 ≡ suc (suc (suc (n + 1))) = omega arith in
    let i2 : frame_need buf - 1 ≡ suc (suc (suc (n + 2))) = omega arith in
    let yb : get_or r (n + 1) 0 < 256 = get_or-IsByte r (n + 1) b.1.1.1 in
    let zb : get_or r (n + 2) 0 < 256 = get_or-IsByte r (n + 2) b.1.1.1 in
    let joined = join_bytes (get_or r n 0) (get_or r (n + 1) 0) (get_or r (n + 2) 0) yb zb in
    let sum : carried_crc buf (frame_need buf)
        ≡ get_or r n 0 * 2 ^ 16 + get_or r (n + 1) 0 * 2 ^ 8 + get_or r (n + 2) 0 =
      ap
        (λ k.
          bit_or (bit_or (get_or buf k 0 * 2 ^ 16) (get_or buf (frame_need buf - 2) 0 * 2 ^ 8))
            (get_or buf (frame_need buf - 1) 0))
        need3
      ∙ ap
          (λ k.
            bit_or (bit_or (get_or r n 0 * 2 ^ 16) (get_or buf k 0 * 2 ^ 8))
              (get_or buf (frame_need buf - 1) 0))
          i1
      ∙ ap
          (λ k.
            bit_or (bit_or (get_or r n 0 * 2 ^ 16) (get_or r (n + 1) 0 * 2 ^ 8)) (get_or buf k 0))
          i2
      ∙ joined in
    let over : rtcm_crc24q (take (frame_need buf - 3) buf)
        ≡ rtcm_crc24q (preamble ∷ x ∷ y ∷ take n r) =
      ap (λ k. rtcm_crc24q (take k buf)) need3 ∙ ap (λ e. rtcm_crc24q (e ∷ x ∷ y ∷ take n r)) h in
    let f = IsFrame_of_tests x y r (omega arith, b.1) small (omega arith) (sym over ∙ crc ∙ sum) in
    (take n r, f.0, ap (λ k. take k buf) need ∙ ap (λ e. e ∷ x ∷ y ∷ take (n + 3) r) h ∙ f.1)
