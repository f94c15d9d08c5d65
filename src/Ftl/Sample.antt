-- ===== src/Ftl/Sample.antt =====
-- Number conversions that satisfy `FtlLaws`, which shows that the laws can hold.
use gdbserver.Ftl.Split.{cut, non_empty, cut_two, non_empty_two, cut-join}
use gdbserver.Ipt.Numerals.{digit_byte, scan_digits-decimal, decimal_digits-first}
use gdbserver.Elf.BuildId.{decimal_digits}
use gdbserver.Scanf.{starts_digit, scan_digits, scan_unsigned}
use native.Mathlib.Nat.{pow-suc}
use gdbserver.Base.{
  is_empty, ◌∙◌, ap, ℕ, zero, suc, ◌+◌, ◌*◌, ◌/◌, ◌%◌, ◌^◌, ◌<◌, ◌≤◌, true, false, Option, none,
  some, [], ◌∷◌, Bytes, ◌≡◌, refl, ltb, ◌==◌, if◌then◌else◌, ◌>>=◌, ◌>>◌, guard, ℤ, pos, negsuc,
  length, All, arith, Bool-cases, inl, inr,
}
use gdbserver.Hex.{hex_char_to_byte, half_byte_to_hex_char}
use gdbserver.Hex.Digits.{IsHexChar, half_byte-IsHexChar, hex_char-half_byte}
use gdbserver.Ftl.{Ftl, FtlLaws}

-- The digits of `n` in front of `out`, one at least and `fuel` at most.
hex_loop : ℕ → ℕ → Bytes → Bytes
hex_loop zero n out = out
hex_loop (suc fuel) n out =
    let digit = half_byte_to_hex_char (n % 16) in
    let more = hex_loop fuel (n / 16) (digit ∷ out) in if n / 16 == 0 then digit ∷ out else more

sample_to_hex : ℕ → Bytes
unfolding hex_loop half_byte_to_hex_char
sample_to_hex n = hex_loop 16 n []

-- Digits behind the number `n`, below a limit.
read_hex : ℕ → ℕ → Bytes → Option ℕ
read_hex limit n [] = some n
read_hex limit n (c ∷ s) = do
  d ← hex_char_to_byte c
  guard (ltb (n * 16 + d) limit)
  read_hex limit (n * 16 + d) s

read_some : ℕ → Bytes → Option ℕ
unfolding read_hex hex_char_to_byte
read_some limit [] = none
read_some limit (c ∷ s) = read_hex limit 0 (c ∷ s)

-- The number `-n`.
minus : ℕ → ℤ
minus zero = pos 0
minus (suc n) = negsuc n

read_signed : ℕ → Bytes → Option ℤ
unfolding read_some minus
read_signed limit [] = none
read_signed limit (c ∷ s) = elim (c == b'-') [
  | true ↦ do n ← read_some (limit + 1) s; some (minus n)
  | false ↦ do n ← read_some limit (c ∷ s); some (pos n)
]

-- Digits in base ten and nothing else, of a number below a limit.
read_decimal : ℕ → Bytes → Option ℕ
read_decimal limit s = do
  (n, rest) ← scan_unsigned 10 s
  guard (is_empty rest)
  guard (ltb n limit)
  some n

unfoldable pub sample : Ftl
unfolding read_decimal sample_to_hex read_signed read_some cut non_empty
sample = record {
  string_to_i64 = read_signed (2 ^ 63);
  string_to_u64 = read_some (2 ^ 64);
  string_to_int = read_signed (2 ^ 31);
  decimal_to_int = read_signed (2 ^ 31);
  number_to_hex = sample_to_hex;
  decimal_to_u64 = read_decimal (2 ^ 64);
  decimal_to_u32 = read_decimal (2 ^ 32);
  number_to_decimal = λ n. decimal_digits 20 n [];
  int_to_decimal = λ i. [];
  split_non_empty = λ s sep. non_empty (cut sep s []);
  split_all = λ s sep. cut sep s [];
  split_trimmed = λ s sep. non_empty (cut sep s []);
}

decimal_digits-IsHexChar :
    (k n : ℕ) (out : Bytes) → All IsHexChar out → All IsHexChar (decimal_digits k n out)
unfolding decimal_digits
decimal_digits-IsHexChar zero n out h = h
decimal_digits-IsHexChar (suc k) n out h = elim (Bool-cases (ltb n 10)) [
  | inl l ↦ let small : n < 10 = ground arith in rw l (inl (omega arith, omega arith), h)
  | inr l ↦ rw l (decimal_digits-IsHexChar k (n / 10) _ (inl (omega arith, omega arith), h))
]

read_decimal-digits : (n : ℕ) → n < 2 ^ 32 → read_decimal (2 ^ 32) (decimal_digits 20 n []) ≡ some n
unfolding read_decimal scan_unsigned scan_digits starts_digit hex_char_to_byte
read_decimal-digits n h =
    let (d, tail, small, e) = decimal_digits-first 20 n [] (omega arith) (omega arith) in
    let value = scan_digits-decimal 20 n [] (omega arith) (omega arith) in
    ground (arith, value, e, digit_byte d small)

hex_loop-IsHexChar :
    (fuel n : ℕ) (out : Bytes) → All IsHexChar out → All IsHexChar (hex_loop fuel n out)
unfolding hex_loop
hex_loop-IsHexChar zero n out h = h
hex_loop-IsHexChar (suc fuel) n out h =
    let digit = half_byte-IsHexChar (n % 16) (omega arith) in
    elim (Bool-cases (n / 16 == 0)) [
      | inl e ↦ rw e (digit, h)
      | inr e ↦ rw e (hex_loop-IsHexChar fuel (n / 16) _ (digit, h))
    ]

length-hex_loop :
    (fuel n : ℕ) (out : Bytes)
    → (length out ≤ length (hex_loop fuel n out))
      × (length (hex_loop fuel n out) ≤ length out + fuel)
unfolding hex_loop
length-hex_loop zero n out = omega arith
length-hex_loop (suc fuel) n out =
    ground (arith, length-hex_loop fuel (n / 16) (half_byte_to_hex_char (n % 16) ∷ out))

hex_loop_some : (n : ℕ) (out : Bytes) → 0 < length (hex_loop 16 n out)
unfolding hex_loop
hex_loop_some n out =
    ground (arith, length-hex_loop 15 (n / 16) (half_byte_to_hex_char (n % 16) ∷ out))

read_digit :
    (limit n : ℕ) (out : Bytes)
    → n < limit
    → read_hex limit (n / 16) (half_byte_to_hex_char (n % 16) ∷ out) ≡ read_hex limit n out
unfolding read_hex
read_digit limit n out l =
    let whole : n / 16 * 16 + n % 16 ≡ n = omega arith in
    ground (arith, hex_char-half_byte (n % 16) (omega arith), whole)

read-hex_loop :
    (limit fuel n : ℕ) (out : Bytes)
    → n < 16 ^ fuel
    → n < limit
    → read_hex limit 0 (hex_loop fuel n out) ≡ read_hex limit n out
unfolding hex_loop
read-hex_loop limit zero n out b l = let z : n ≡ 0 = omega arith in rw z refl
read-hex_loop limit (suc fuel) n out b l =
    let digit = half_byte_to_hex_char (n % 16) in
    let bound : n / 16 < 16 ^ fuel = omega (arith, pow-suc 16 fuel) in
    elim (Bool-cases (n / 16 == 0)) [
      | inl e ↦ ground (arith, read_digit limit n out l)
      | inr e ↦ ground (
        arith,
        read_digit limit n out l,
        read-hex_loop limit fuel (n / 16) (digit ∷ out) bound (omega arith),
      )
    ]

hex_chars_sample : (n : ℕ) → All IsHexChar (sample_to_hex n)
unfolding sample_to_hex
hex_chars_sample n = hex_loop-IsHexChar 16 n [] tt

hex_some_sample : (n : ℕ) → 0 < length (sample_to_hex n)
unfolding sample_to_hex
hex_some_sample n = hex_loop_some n []

read_some-hex : (limit n : ℕ) → n < 2 ^ 64 → n < limit → read_some limit (sample_to_hex n) ≡ some n
unfolding sample_to_hex read_some
read_some-hex limit n h l =
    go (sample_to_hex n) (hex_some_sample n) (read-hex_loop limit 16 n [] h l)
  where
    go : (s : Bytes) → 0 < length s → read_hex limit 0 s ≡ some n → read_some limit s ≡ some n
    go [] p e = absurd (omega arith)
    go (c ∷ s) p e = e

read_signed-hex :
    (limit n : ℕ) → n < 2 ^ 64 → n < limit → read_signed limit (sample_to_hex n) ≡ some (pos n)
unfolding read_signed
read_signed-hex limit n h l =
    go (sample_to_hex n) (hex_chars_sample n) (hex_some_sample n) (read_some-hex limit n h l)
  where
    go :
        (s : Bytes)
        → All IsHexChar s
        → 0 < length s
        → read_some limit s ≡ some n
        → read_signed limit s ≡ some (pos n)
    go [] i p e = absurd (omega arith)
    go (c ∷ s) (i, _) p e = ground arith

pub sample_laws : FtlLaws sample
unfolding sample sample_to_hex
sample_laws = record {
  hex_chars = hex_chars_sample;
  hex_some = λ n e. omega (arith, hex_some_sample n, ap length e);
  hex_length = λ n h. omega (arith, length-hex_loop 16 n []);
  i64_hex = λ n h. read_signed-hex (2 ^ 63) n (omega arith) h;
  u64_hex = λ n h. read_some-hex (2 ^ 64) n h h;
  i64_empty = refl;
  u64_semicolon = λ s. refl;
  split_non_empty_two =
      λ sep a b ha hb na nb. ap non_empty (cut_two sep a b ha hb) ∙ non_empty_two a b na nb;
  split_all_two = cut_two;
  split_trimmed_join = cut-join;
  decimal_chars = λ n. decimal_digits-IsHexChar 20 n [] tt;
  u32_decimal = read_decimal-digits;
}
