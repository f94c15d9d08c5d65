-- ===== src/Scanf.antt =====
-- sscanf of the C library (musl), for the conversions that lib/debugger-utils uses: %s, %[^@], %u and
-- %x, white space and literals. A parser takes the text that is left, and gives what it reads and the rest.
use gdbserver.Base.{
  ◌||◌, ℕ, ◌+◌, ◌*◌, ◌-◌, ◌%◌, ◌^◌, Bool, true, false, ◌&&◌, Option, none, some, [], ◌∷◌, Bytes,
  ◌==◌, ltb, min, if◌then◌else◌, ◌>>=◌, is_empty,
}
use gdbserver.Argv.{skip_spaces, word, after_word}
use gdbserver.Hex.{hex_char_to_byte}

-- %s
unfoldable pub scan_word : Bytes → Option (Bytes × Bytes)
scan_word s = elim (skip_spaces s) [ [] ↦ none | c ∷ rest ↦ some (c ∷ word rest, after_word rest) ]

-- A literal.
unfoldable pub scan_literal : Bytes → Bytes → Option Bytes
scan_literal [] s = some s
scan_literal (c ∷ literal) [] = none
scan_literal (c ∷ literal) (d ∷ s) = if c == d then scan_literal literal s else none

-- %[^@]: one byte at least.
unfoldable pub up_to_at : Bytes → Bytes × Bytes
up_to_at [] = ([], [])
up_to_at (c ∷ s) =
    let (before, rest) = up_to_at s in if c == b'@' then ([], c ∷ s) else (c ∷ before, rest)

unfoldable pub scan_prefix : Bytes → Option (Bytes × Bytes)
scan_prefix s =
    let (before, rest) = up_to_at s in if is_empty before then none else some (before, rest)

-- Digits in a base: the number, and the rest behind the last digit.
unfoldable pub scan_digits : ℕ → ℕ → Bytes → ℕ × Bytes
scan_digits base n [] = (n, [])
scan_digits base n (c ∷ s) = elim (hex_char_to_byte c) [
  | none ↦ (n, c ∷ s)
  | some d ↦ if ltb d base then scan_digits base (n * base + d) s else (n, c ∷ s)
]

unfoldable pub starts_digit : ℕ → Bytes → Bool
starts_digit base [] = false
starts_digit base (c ∷ s) = elim (hex_char_to_byte c) [ none ↦ false | some d ↦ ltb d base ]

-- A number without a sign. One that is too large is the largest, 2 ^ 64 - 1.
unfoldable pub scan_unsigned : ℕ → Bytes → Option (ℕ × Bytes)
scan_unsigned base s =
    let (n, rest) = scan_digits base 0 s in
    if starts_digit base s then some (min n (2 ^ 64 - 1), rest) else none

-- A sign, of which `-` gives the negative number as a uint64_t.
unfoldable pub scan_sign : ℕ → Bytes → Option (ℕ × Bytes)
scan_sign base [] = none
scan_sign base (c ∷ s) =
    if c == b'-'
    then (do (n, rest) ← scan_unsigned base s; some ((2 ^ 64 - n) % 2 ^ 64, rest))
    else if c == b'+'
    then scan_unsigned base s
    else scan_unsigned base (c ∷ s)

-- %u and %lu, for a variable of `bits` bits.
unfoldable pub scan_decimal : ℕ → Bytes → Option (ℕ × Bytes)
scan_decimal bits s = do (n, rest) ← scan_sign 10 (skip_spaces s); some (n % 2 ^ bits, rest)

-- The prefix 0x of %x, which a digit must follow.
unfoldable pub scan_hex_unsigned : Bytes → Option (ℕ × Bytes)
scan_hex_unsigned [] = none
scan_hex_unsigned (c ∷ []) = scan_unsigned 16 (c ∷ [])
scan_hex_unsigned (c ∷ x ∷ s) =
    if c == b'0' && (x == b'x' || x == b'X')
    then scan_unsigned 16 s
    else scan_unsigned 16 (c ∷ x ∷ s)

-- %lx, for a variable of 64 bits.
unfoldable pub scan_hex : Bytes → Option (ℕ × Bytes)
scan_hex s = elim (skip_spaces s) [
  | [] ↦ none
  | c ∷ rest ↦
      if c == b'-'
      then (do (n, left) ← scan_hex_unsigned rest; some ((2 ^ 64 - n) % 2 ^ 64, left))
      else if c == b'+'
      then scan_hex_unsigned rest
      else scan_hex_unsigned (c ∷ rest)
]

-- strstr, as a test.
unfoldable pub has_text : Bytes → Bytes → Bool
has_text needle [] = is_empty needle
has_text needle (c ∷ s) =
    let later = has_text needle s in
    elim (scan_literal needle (c ∷ s)) [ some rest ↦ true | none ↦ later ]
