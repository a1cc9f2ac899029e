-- ===== src/Ingest/Restart.antt =====
-- `ntrip_server_ingest_uart` (main/interface/ntrip_server.c) before it parses: a receiver reset is
-- honoured.
use mathlib.Core.Option.{Option}
use rtkdata_fw.Base.{ℕ, ◌≡◌, refl}
use rtkdata_fw.Base.{Bool, true, false, if◌then◌else◌, inl, inr, Bool-cases}
use rtkdata_fw.Base.{if-case}
use rtkdata_fw.Parser.{Parser, parser_init}
use rtkdata_fw.Parser.Settle.{IsSettled}
use rtkdata_fw.Parser.Account.{parser_init-IsSettled}
use rtkdata_fw.Supervisor.{Supervisor}
use rtkdata_fw.Ring.History.{History}
use rtkdata_fw.Ingest.{Station, honour_reset}
use rtkdata_fw.Ingest.Calls.{Recorded}

pub honour_reset-parser :
    (st : Station)
    → (honour_reset st).parser ≡ (if st.sink.evidence.reset_req then parser_init else st.parser)
unfolding honour_reset
honour_reset-parser st = elim (Bool-cases st.sink.evidence.reset_req) [
  | inl on ↦ rw on refl
  | inr off ↦ rw off refl
]

pub honour_reset-ready : (st : Station) → (honour_reset st).ready ≡ st.ready
unfolding honour_reset
honour_reset-ready st = elim (Bool-cases st.sink.evidence.reset_req) [
  | inl on ↦ rw on refl
  | inr off ↦ rw off refl
]

pub honour_reset-due : (st : Station) → (honour_reset st).sink.evidence.reset_req ≡ false
unfolding honour_reset
honour_reset-due st = elim (Bool-cases st.sink.evidence.reset_req) [
  | inl on ↦ rw on refl
  | inr off ↦ rw off refl
]

pub honour_reset-Recorded :
    (s0 : Supervisor) (frames : History) (last : Option ℕ) (st : Station)
    → Recorded s0 frames last st.sink
    → Recorded s0 frames last (honour_reset st).sink
unfolding honour_reset
honour_reset-Recorded s0 frames last st r =
    if-case (λ (x : Station). Recorded s0 frames last x.sink) st.sink.evidence.reset_req
      (λ _. record { bytes = r.bytes; valid = r.valid; held = r.held; alive = r.alive }) (λ _. r)

pub restart-IsSettled :
    (due : Bool) (p : Parser) → IsSettled p → IsSettled (if due then parser_init else p)
restart-IsSettled true p v = parser_init-IsSettled
restart-IsSettled false p v = v
