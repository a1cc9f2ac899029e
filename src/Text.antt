-- ===== src/Text.antt =====
-- What the sources use of the C library on texts: `strcmp`, `strtol`, `strtoul` and `printf` of a
-- number. A text is the list of its bytes, without the final 0; a `long` has 32 bits.
pub mod Decimal
pub mod Compare
use mathlib.Core.List.{List, [], ◌∷◌, ◌++◌}
use mathlib.Core.Option.{Option, none, some}
use mathlib.Core.Bool.{Bool, true, false, ◌&&◌, ◌||◌}
use rtkdata_fw.Base.{ℕ, zero, suc, ◌+◌, ◌-◌, ◌*◌, ◌/◌, ◌%◌, ◌^◌, if◌then◌else◌, ltb, leb, ◌==◌}

-- `strcmp(a, b) == 0`
unfoldable pub eq_text : List ℕ → List ℕ → Bool
eq_text [] [] = true
eq_text [] (y ∷ ys) = false
eq_text (x ∷ xs) [] = false
eq_text (x ∷ xs) (y ∷ ys) = (x == y) && eq_text xs ys

unfoldable pub starts_with_text : List ℕ → List ℕ → Bool
starts_with_text [] text = true
starts_with_text (p ∷ ps) [] = false
starts_with_text (p ∷ ps) (x ∷ xs) = (p == x) && starts_with_text ps xs

-- The value of a digit, 36 for any other byte.
unfoldable pub digit_value : ℕ → ℕ
digit_value c =
    if leb b'0' c && leb c b'9'
    then c - b'0'
    else if leb b'a' c && leb c b'z'
    then c - b'a' + 10
    else if leb b'A' c && leb c b'Z'
    then c - b'A' + 10
    else 36

-- The number that the leading digits spell.
unfoldable pub scan_digits : ℕ → List ℕ → ℕ → ℕ
unfolding digit_value
scan_digits base [] acc = acc
scan_digits base (c ∷ text) acc =
    let rest = scan_digits base text (acc * base + digit_value c) in
    if ltb (digit_value c) base then rest else acc

-- `isspace`
unfoldable pub is_space : ℕ → Bool
is_space c = c == 32 || (leb 9 c && leb c 13)

unfoldable pub skip_space : List ℕ → List ℕ
unfolding is_space
skip_space [] = []
skip_space (c ∷ text) = if is_space c then skip_space text else c ∷ text

-- The sign and the magnitude behind it.
unfoldable pub signed : ℕ → List ℕ → Bool × ℕ
unfolding scan_digits
signed base [] = (false, 0)
signed base (c ∷ text) =
    if c == b'-'
    then (true, scan_digits base text 0)
    else if c == b'+'
    then (false, scan_digits base text 0)
    else (false, scan_digits base (c ∷ text) 0)

-- `strtoul(text, NULL, 10)`: a value that does not fit is `ULONG_MAX`, a negative one wraps.
unfoldable pub strtoul : List ℕ → ℕ
unfolding signed skip_space
strtoul text =
    let (minus, m) = signed 10 (skip_space text) in
    if ltb (2 ^ 32 - 1) m then 2 ^ 32 - 1 else if minus then (2 ^ 32 - m) % 2 ^ 32 else m

-- Behind the sign: `0x` before a hexadecimal digit is skipped in base 16.
unfoldable pub hex_prefix : List ℕ → List ℕ
unfolding digit_value
hex_prefix [] = []
hex_prefix (a ∷ []) = a ∷ []
hex_prefix (a ∷ b ∷ []) = a ∷ b ∷ []
hex_prefix (a ∷ b ∷ c ∷ text) =
    if a == b'0' && ((b == b'x' || b == b'X') && ltb (digit_value c) 16)
    then c ∷ text
    else a ∷ b ∷ c ∷ text

unfoldable pub signed_hex : List ℕ → Bool × ℕ
unfolding scan_digits hex_prefix
signed_hex [] = (false, 0)
signed_hex (c ∷ text) =
    if c == b'-'
    then (true, scan_digits 16 (hex_prefix text) 0)
    else if c == b'+'
    then (false, scan_digits 16 (hex_prefix text) 0)
    else (false, scan_digits 16 (hex_prefix (c ∷ text)) 0)

-- `strtoul(text, NULL, 16)`
unfoldable pub strtoul_hex : List ℕ → ℕ
unfolding signed_hex skip_space
strtoul_hex text =
    let (minus, m) = signed_hex (skip_space text) in
    if ltb (2 ^ 32 - 1) m then 2 ^ 32 - 1 else if minus then (2 ^ 32 - m) % 2 ^ 32 else m

-- `strtol(text, NULL, 10)` in two's complement of 64 bits, and whether it set `errno`.
unfoldable pub strtol : List ℕ → ℕ × Bool
unfolding signed skip_space
strtol text =
    let (minus, m) = signed 10 (skip_space text) in
    if minus
    then (if ltb (2 ^ 31) m then (2 ^ 64 - 2 ^ 31, true) else ((2 ^ 64 - m) % 2 ^ 64, false))
    else if ltb (2 ^ 31 - 1) m
    then (2 ^ 31 - 1, true)
    else (m, false)

-- `%u` and `%llu`; twenty digits are enough for 64 bits.
unfoldable pub print_digits : ℕ → ℕ → List ℕ
print_digits zero n = []
print_digits (suc room) n =
    let high = print_digits room (n / 10) in
    if ltb n 10 then (b'0' + n) ∷ [] else high ++ ((b'0' + n % 10) ∷ [])

unfoldable pub print_nat : ℕ → List ℕ
unfolding print_digits
print_nat n = print_digits 20 n

-- `%lld` of 64 bits.
unfoldable pub print_int64 : ℕ → List ℕ
unfolding print_nat
print_int64 n = if ltb n (2 ^ 63) then print_nat n else b'-' ∷ print_nat (2 ^ 64 - n)

-- `%02x` of a byte.
unfoldable pub hex_digit : ℕ → ℕ
hex_digit d = if ltb d 10 then b'0' + d else b'a' + (d - 10)

unfoldable pub print_hex2 : ℕ → List ℕ
unfolding hex_digit
print_hex2 b = hex_digit (b / 16) ∷ hex_digit (b % 16) ∷ []
