-- ===== src/Crc.antt =====
-- main/interface/ntrip_tx_core.c, the CRC-24Q of RTCM3: the table-driven routine as written,
-- and the bit-serial register that it stands for.
pub mod Linear
pub mod Serial
pub mod Detect
use mathlib.Core.List.{List, [], ◌∷◌}
use rtkdata_fw.Base.{ℕ, zero, suc, ◌*◌, ◌/◌, ◌%◌, ◌^◌, bit_and, bit_xor}
use rtkdata_fw.Base.{if◌then◌else◌, ◌==◌, u32}

-- `CRC24Q_POLY`
abbrev pub poly : ℕ
poly = 0x1864CFB

-- One round of the inner loop of `crc24q_build_table`.
pub shift_once : ℕ → ℕ
shift_once crc = let c = u32 (crc * 2) in if bit_and c 0x1000000 == 0 then c else bit_xor c poly

pub shift_times : ℕ → ℕ → ℕ
shift_times zero crc = crc
shift_times (suc n) crc = shift_times n (shift_once crc)

-- `s_crc24q_table[i]`: the table is a cache of this function, filled before its first use.
pub table_entry : ℕ → ℕ
unfolding shift_times shift_once
table_entry i = bit_and (shift_times 8 (u32 (i * 2 ^ 16))) 0xFFFFFF

-- The loop body of `rtcm_crc24q`.
pub crc_byte : ℕ → ℕ → ℕ
unfolding table_entry
crc_byte crc byte =
    bit_xor (bit_and (u32 (crc * 2 ^ 8)) 0xFFFFFF)
      (table_entry (bit_and (bit_xor (crc / 2 ^ 16) byte) 0xFF))

pub crc_from : ℕ → List ℕ → ℕ
unfolding crc_byte
crc_from crc [] = crc
crc_from crc (byte ∷ rest) = crc_from (crc_byte crc byte) rest

unfoldable pub rtcm_crc24q : List ℕ → ℕ
unfolding crc_from
rtcm_crc24q bytes = crc_from 0 bytes

-- The register of the standard: a byte is added at the top, then eight shifts divide by the
-- polynomial, one bit at a time, with no table.
pub serial_byte : ℕ → ℕ → ℕ
unfolding shift_times shift_once
serial_byte crc byte = shift_times 8 (bit_xor crc (byte * 2 ^ 16))

pub serial_from : ℕ → List ℕ → ℕ
unfolding serial_byte
serial_from crc [] = crc
serial_from crc (byte ∷ rest) = serial_from (serial_byte crc byte) rest
