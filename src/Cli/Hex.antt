-- ===== src/Cli/Hex.antt =====
-- cli/src/lib.rs: the data of a block in hexadecimal, and how it is read back.
use ipfs_embed.Prelude.{
  ℕ, [], ◌∷◌, false, ◌&&◌, ◌==◌, leb, ltb, if◌then◌else◌, ◌≡◌, refl, arith, All, Option, none, some,
  ◌+◌, ◌-◌, ◌*◌, ◌/◌, ◌%◌, ◌<◌,
}
use ipfs_embed.Network.State.{Bytes}
use ipfs_embed.Cli.Words.{Text, NoWhitespace, IsWord, is_whitespace}

hex_digit : ℕ → ℕ
hex_digit n = if ltb n 10 then 48 + n else 87 + n

-- `{:02x}` for each byte
unfoldable pub print_hex : Bytes → Text
unfolding hex_digit
print_hex [] = []
print_hex (b ∷ data_) = hex_digit (b / 16) ∷ hex_digit (b % 16) ∷ print_hex data_

-- a digit of either case
hex_value : ℕ → Option ℕ
hex_value c =
    if leb 48 c && leb c 57
    then some (c - 48)
    else if leb 97 c && leb c 102
    then some (c - 87)
    else if leb 65 c && leb c 70
    then some (c - 55)
    else none

two_digits : Option ℕ → Option ℕ → Option ℕ
two_digits (some h) (some l) = some (h * 16 + l)
two_digits _ _ = none

-- `u8::from_str_radix` on a chunk of two: a plus sign is read over.
from_pair : ℕ → ℕ → Option ℕ
unfolding hex_value two_digits
from_pair c d = if c == 43 then hex_value d else two_digits (hex_value c) (hex_value d)

pushed : Option ℕ → Option Bytes → Option Bytes
pushed (some b) (some data_) = some (b ∷ data_)
pushed _ _ = none

-- The loop over chunks of two bytes, the last of which may be one. A code point that is more than
-- one byte is no digit, wherever the chunks divide it.
unfoldable pub parse_hex : Text → Option Bytes
unfolding hex_value from_pair pushed
parse_hex [] = some []
parse_hex (c ∷ []) = pushed (hex_value c) (some [])
parse_hex (c ∷ d ∷ t) = pushed (from_pair c d) (parse_hex t)

hex_value-hex_digit : (n : ℕ) → n < 16 → hex_value (hex_digit n) ≡ some n
unfolding hex_value hex_digit
hex_value-hex_digit n h = ground arith

hex_digit_plain : (n : ℕ) → n < 16 → is_whitespace (hex_digit n) ≡ false
unfolding hex_digit
hex_digit_plain n h = ground arith

pair_lem : (n m : ℕ) → n < 16 → m < 16 → from_pair (hex_digit n) (hex_digit m) ≡ some (n * 16 + m)
unfolding from_pair hex_value hex_digit two_digits
pair_lem n m hn hm = ground arith

nibbles : (b : ℕ) → b / 16 * 16 + b % 16 ≡ b
nibbles b = omega arith

pub parse_hex-print_hex :
    (data_ : Bytes) → All (λ b. b < 256) data_ → parse_hex (print_hex data_) ≡ some data_
unfolding parse_hex print_hex pushed
parse_hex-print_hex [] h = refl
parse_hex-print_hex (b ∷ data_) h = ground (
  arith,
  pair_lem (b / 16) (b % 16) (omega (arith, h.0)) (omega arith),
  parse_hex-print_hex data_ h.1,
  nibbles b,
)

plain_hex : (data_ : Bytes) → All (λ b. b < 256) data_ → NoWhitespace (print_hex data_)
unfolding print_hex
plain_hex [] h = tt
plain_hex (b ∷ data_) h =
    let low : NoWhitespace (hex_digit (b % 16) ∷ print_hex data_) =
      (hex_digit_plain (b % 16) (omega arith), plain_hex data_ h.1) in
    (hex_digit_plain (b / 16) (omega (arith, h.0)), low)

pub print_hex-IsWord :
    (b : ℕ) (data_ : Bytes) → All (λ b. b < 256) (b ∷ data_) → IsWord (print_hex (b ∷ data_))
unfolding print_hex
print_hex-IsWord b data_ h = plain_hex (b ∷ data_) h
