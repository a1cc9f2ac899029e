-- ===== src/Dns/Bytes.antt =====
-- What the tests of `dns_task` on header and label bytes mean.
use rtkdata_fw.Base.{ℕ, ◌*◌, ◌/◌, ◌^◌, ◌<◌, ◌≡◌, bit_and, arith, ltb, ◌==◌, true}
use rtkdata_fw.Base.Bits.{bit_and-lowest, bit_and_mask, bit_and_single}

-- The two highest bits of a byte.
top_bits : (x : ℕ) → x < 256 → bit_and x 0xC0 ≡ x / 64 * 64
top_bits x small = omega (
  arith,
  bit_and-lowest x 0xC0,
  bit_and-lowest (x / 2) 0x60,
  bit_and-lowest (x / 2 / 2) 0x30,
  bit_and-lowest (x / 2 / 2 / 2) 0x18,
  bit_and-lowest (x / 2 / 2 / 2 / 2) 0x0C,
  bit_and-lowest (x / 2 / 2 / 2 / 2 / 2) 0x06,
  bit_and_mask 2 (x / 2 / 2 / 2 / 2 / 2 / 2),
)

-- A length byte below 64 is a plain label.
pub plain_label : (x : ℕ) → x < 64 → (bit_and x 0xC0 == 0) ≡ true
plain_label x small = ground (arith, top_bits x)

-- The response bit is the top bit of the flags.
pub response_bit : (flags : ℕ) → flags < 2 ^ 16 → (bit_and flags 0x8000 == 0) ≡ ltb flags 0x8000
response_bit flags small = ground (arith, bit_and_single 15 flags)
