-- ===== src/Dns.antt =====
-- main/dns_server.c, the captive DNS: what `dns_task` does with one datagram. The datagram is the list
-- of its bytes, at most `dns_rx_max` of them; `none` is `continue`, no reply. The socket and the task
-- are left out.
pub mod Bytes
pub mod Reply
pub mod Query
use mathlib.Core.List.{List, [], ◌∷◌, ◌++◌}
use mathlib.Core.Option.{Option, none, some}
use mathlib.Core.Bool.{Bool, true, false, not, ◌&&◌}
use rtkdata_fw.Base.{ℕ, zero, suc, ◌+◌, ◌-◌, ◌*◌, ◌/◌, ◌%◌, ◌^◌, bit_and, bit_or}
use rtkdata_fw.Base.{if◌then◌else◌, ltb, leb, ◌==◌, u16, length, take, drop, get_or}

-- `DNS_RX_MAX` and `DNS_TX_MAX`
abbrev pub dns_rx_max : ℕ
dns_rx_max = 512

abbrev pub dns_tx_max : ℕ
dns_tx_max = dns_rx_max + 16

-- `sizeof(dns_header_t)`
abbrev pub header_len : ℕ
header_len = 12

-- `ntohs` of the header's field at byte `i`, and the store of `htons(v)` there.
unfoldable pub get16 : List ℕ → ℕ → ℕ
get16 buf i = get_or buf i 0 * 256 + get_or buf (i + 1) 0

unfoldable pub put16 : ℕ → ℕ → List ℕ → List ℕ
put16 i v buf = take i buf ++ (v / 256) ∷ (v % 256) ∷ drop (i + 2) buf

-- The walk over the QNAME from `p`: where it ends, `none` on a compressed or reserved label. On fuel:
-- every round advances.
unfoldable pub walk : ℕ → List ℕ → ℕ → Option ℕ
walk zero rx p = some p
walk (suc fuel) rx p =
    let rest = walk fuel rx (p + get_or rx p 0 + 1) in
    if ltb p (length rx) && not (get_or rx p 0 == 0)
    then (if not (bit_and (get_or rx p 0) 0xC0 == 0) then none else rest)
    else some p

-- The answer record: a pointer to the question, A, IN, 30 seconds, and the address of the AP.
unfoldable pub answer : List ℕ → List ℕ
answer ip = 0xC0 ∷ 0x0C ∷ 0x00 ∷ 0x01 ∷ 0x00 ∷ 0x01 ∷ 0x00 ∷ 0x00 ∷ 0x00 ∷ 0x1E ∷ 0x00 ∷ 0x04 ∷ ip

-- The reply to a question that ends at `qend`.
unfoldable pub reply : List ℕ → List ℕ → ℕ → ℕ → List ℕ
unfolding put16 answer
reply ip rx qend qtype =
    let tx = put16 10 0 (put16 8 0 (put16 4 1 (put16 2 0x8180 (take qend rx)))) in
    if qtype == 1 then put16 6 1 tx ++ answer ip else put16 6 0 tx

-- From the end of the name on, at `p`.
unfoldable pub respond_at : List ℕ → List ℕ → ℕ → Option (List ℕ)
unfolding reply
respond_at ip rx p =
    if leb (length rx) p
    then none
    else if ltb (length rx) (p + 1 + 4)
    then none
    else if ltb dns_tx_max (p + 1 + 4 + 16)
    then none
    else some
        (reply ip rx (p + 1 + 4) (u16 (bit_or (get_or rx (p + 1) 0 * 2 ^ 8) (get_or rx (p + 2) 0))))

-- A pass of the loop over this datagram; `ip` are the four bytes of the AP's address.
unfoldable pub respond : List ℕ → List ℕ → Option (List ℕ)
unfolding walk respond_at get16
respond ip rx =
    if ltb (length rx) header_len
    then none
    else if not (bit_and (get16 rx 2) 0x8000 == 0)
    then none
    else if not (get16 rx 4 == 1)
    then none
    else elim (walk (length rx) rx header_len) [ none ↦ none | some p ↦ respond_at ip rx p ]
