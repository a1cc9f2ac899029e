-- ===== src/Tests/Receiver.antt =====
-- The answers of the receiver and the freshness of its messages on short inputs.
use mathlib.Core.List.{List, [], ◌∷◌, ◌++◌}
use rtkdata_fw.Base.{ℕ, ◌≡◌, refl, arith, false, All, length, u32}
use rtkdata_fw.GnssAck.{ack_ok, ack_rejected, ack_none, prefix, response, gnss_ack_scan}
use rtkdata_fw.GnssAck.Sound.{
  Answered, Accepted, Refused, gnss_ack_scan-Accepted, gnss_ack_scan-Refused,
}
use rtkdata_fw.Freshness.{no_evidence, Age, epoch_reset, msg_freshness}
use rtkdata_fw.Freshness.Epoch.{Stamped, Before, note_all, epoch_reset-stale, note_all-half_turn}

-- The command "VERSIONA", and the answer that the receiver gave to it, with its checksum 45.
abbrev versiona : List ℕ
versiona = 86 ∷ 69 ∷ 82 ∷ 83 ∷ 73 ∷ 79 ∷ 78 ∷ 65 ∷ []

abbrev versiona_ok : List ℕ
versiona_ok = prefix ++ (versiona ++ (response ++ (32 ∷ 79 ∷ 75 ∷ 42 ∷ 52 ∷ 53 ∷ [])))

-- The command "rtcm1230,com1,10" and the captured rejection, with its checksum 11.
abbrev rtcm1230 : List ℕ
rtcm1230 = 114 ∷ 116 ∷ 99 ∷ 109 ∷ 49 ∷ 50 ∷ 51 ∷ 48 ∷ 44 ∷ 99 ∷ 111 ∷ 109 ∷ 49 ∷ 44 ∷ 49 ∷ 48 ∷ []

abbrev rtcm1230_rejected : List ℕ
rtcm1230_rejected =
    prefix
    ++ (rtcm1230
        ++ (response
            ++ (32 ∷ 80 ∷ 65 ∷ 82 ∷ 83 ∷ 73 ∷ 78 ∷ 71 ∷ 32 ∷ 70 ∷ 65 ∷ 73 ∷ 76 ∷ 68 ∷ 32 ∷ 78 ∷ 79
                ∷ 32 ∷ 77 ∷ 65 ∷ 84 ∷ 67 ∷ 72 ∷ 73 ∷ 78 ∷ 71 ∷ 32 ∷ 70 ∷ 85 ∷ 78 ∷ 67 ∷ 32 ∷ 32 ∷ 82
                ∷ 84 ∷ 67 ∷ 77 ∷ 49 ∷ 50 ∷ 51 ∷ 48 ∷ 42 ∷ 49 ∷ 49 ∷ [])))

versiona_scan : gnss_ack_scan versiona_ok (length versiona_ok) versiona ≡ ack_ok
unfolding gnss_ack_scan
versiona_scan = refl

-- Without the last digit of the checksum the record is still arriving.
versiona_truncated : gnss_ack_scan versiona_ok 32 versiona ≡ ack_none
unfolding gnss_ack_scan
versiona_truncated = refl

rtcm1230_scan : gnss_ack_scan rtcm1230_rejected (length rtcm1230_rejected) rtcm1230 ≡ ack_rejected
unfolding gnss_ack_scan
rtcm1230_scan = refl

gnss_ack_scan-Accepted_example :
    Answered versiona_ok (length versiona_ok) (λ body end. Accepted versiona_ok body end versiona)
gnss_ack_scan-Accepted_example =
    gnss_ack_scan-Accepted versiona_ok (length versiona_ok) versiona versiona_scan

gnss_ack_scan-Refused_example :
    Answered rtcm1230_rejected
      (length rtcm1230_rejected)
      (λ body end. Refused rtcm1230_rejected body end rtcm1230)
gnss_ack_scan-Refused_example =
    gnss_ack_scan-Refused rtcm1230_rejected (length rtcm1230_rejected) rtcm1230 rtcm1230_scan

-- A frame of type 1005, noted after a reset but completed before it.
abbrev early_1005 : Stamped
early_1005 = record { frame = 0xD3 ∷ 0 ∷ 2 ∷ 62 ∷ 208 ∷ 0 ∷ 0 ∷ 0 ∷ []; at = 5000 }

epoch_reset-stale_example :
    All
      (λ (a : Age). a.fresh ≡ false)
      (msg_freshness 6200 2 (note_all (early_1005 ∷ []) (epoch_reset (u32 6000) no_evidence))).types
epoch_reset-stale_example =
    let zero_ms : Before 6000 0 = record {
      real = 0;
      shown = refl;
      past = omega arith;
      recent = omega arith;
    } in
    epoch_reset-stale 6000 6200 2 (early_1005 ∷ []) no_evidence
      (zero_ms, (zero_ms, (zero_ms, (zero_ms, tt))))
      (record { real = 5000; shown = refl; past = omega arith; recent = omega arith }, tt)

note_all-half_turn_example :
    All
      (λ (a : Age). a.fresh ≡ false)
      (msg_freshness 2147600000 1
        (note_all (record early_1005 { at = 2147599990 } ∷ []) no_evidence)).types
note_all-half_turn_example =
    note_all-half_turn 2147600000 1 (record early_1005 { at = 2147599990 } ∷ []) (omega arith)
      (omega arith) (omega arith, tt)
