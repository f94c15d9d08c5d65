-- ===== src/Hex/Digits.antt =====
-- The codec of one byte.
use gdbserver.Base.{
  ℕ, ◌+◌, ◌*◌, ◌/◌, ◌%◌, ◌<◌, ◌≤◌, bit_and, bit_or, true, some, ◌≡◌, ◌⊎◌, refl, ◌==◌, ◌&&◌, IsByte,
  check_range, in_range, ==_iff, arith,
}
use gdbserver.Hex.{hex_char_to_byte, half_byte_to_hex_char, decode_byte_string}

-- The characters that the encoder writes.
abbrev pub IsHexChar : ℕ → Type 0
IsHexChar c = ((b'0' ≤ c) × (c ≤ b'9')) ⊎ ((b'a' ≤ c) × (c ≤ b'f'))

and_table : check_range (λ b. bit_and b 0x0f == b % 16) 256 ≡ true
unfolding check_range
and_table = refl

pub low_nibble : (b : ℕ) → b < 256 → bit_and b 0x0f ≡ b % 16
low_nibble b h = (==_iff _ _).0 (in_range _ 256 and_table b h)

or_table : check_range (λ b. bit_or (b % 16) (b / 16 * 16) == b) 256 ≡ true
unfolding check_range
or_table = refl

pub join_nibbles : (b : ℕ) → b < 256 → bit_or (b % 16) (b / 16 * 16) ≡ b
join_nibbles b h = (==_iff _ _).0 (in_range _ 256 or_table b h)

pub half_byte-IsHexChar : (d : ℕ) → d < 16 → IsHexChar (half_byte_to_hex_char d)
unfolding half_byte_to_hex_char
half_byte-IsHexChar d h = ground arith

pub hex_char-half_byte : (d : ℕ) → d < 16 → hex_char_to_byte (half_byte_to_hex_char d) ≡ some d
unfolding hex_char_to_byte half_byte_to_hex_char
hex_char-half_byte d h = ground arith

-- A digit that is read lies below 16, and a lower-case digit is written back as it was.
pub hex_char_bound : (c d : ℕ) → hex_char_to_byte c ≡ some d → d < 16
unfolding hex_char_to_byte
hex_char_bound c d h = ground arith

pub half_byte-hex_char :
    (c d : ℕ) → IsHexChar c → hex_char_to_byte c ≡ some d → half_byte_to_hex_char d ≡ c
unfolding hex_char_to_byte half_byte_to_hex_char
half_byte-hex_char c d i h = ground arith

pub decode-encode_byte :
    (b : ℕ)
    → IsByte b
    → decode_byte_string (half_byte_to_hex_char (b / 16)) (half_byte_to_hex_char (bit_and b 0x0f))
      ≡ some b
unfolding decode_byte_string
decode-encode_byte b h =
    rw
      (
        low_nibble b h,
        hex_char-half_byte (b / 16) (omega arith),
        hex_char-half_byte (b % 16) (omega arith),
        join_nibbles b h,
      )
      (ground arith)

-- Reading two lower-case digits and writing the byte gives the digits back.
split_table :
    check_range
      (λ k.
        (bit_or (k % 16) (k / 16 * 16) % 256) / 16 == k / 16
        && bit_and (bit_or (k % 16) (k / 16 * 16) % 256) 0x0f == k % 16)
      256
    ≡ true
unfolding check_range
split_table = refl

split_at :
    (k : ℕ)
    → k < 256
    → ((bit_or (k % 16) (k / 16 * 16) % 256) / 16 ≡ k / 16)
      × (bit_and (bit_or (k % 16) (k / 16 * 16) % 256) 0x0f ≡ k % 16)
split_at k h = ground (arith, in_range _ 256 split_table k h)

pub split_nibbles :
    (m l : ℕ)
    → m < 16
    → l < 16
    → ((bit_or l (m * 16) % 256) / 16 ≡ m) × (bit_and (bit_or l (m * 16) % 256) 0x0f ≡ l)
split_nibbles m l hm hl =
    let high : (m * 16 + l) / 16 ≡ m = omega arith in
    let low : (m * 16 + l) % 16 ≡ l = omega arith in
    rw (high, low) at (split_at (m * 16 + l) (omega arith))
