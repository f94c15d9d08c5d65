-- ===== src/Ipt/Numerals.antt =====
-- Decimal numerals: those of printf, and those of sscanf.
use gdbserver.Base.{
  ℕ, zero, suc, ◌+◌, ◌*◌, ◌/◌, ◌%◌, ◌^◌, ◌<◌, ◌≡◌, ◌≢◌, true, false, some, ◌∷◌, Bytes, ltb, arith,
  refl, All, ap, ◌∙◌, Bool-cases, inl, inr,
}
use gdbserver.Hex.{hex_char_to_byte}
use gdbserver.Argv.{is_space, skip_spaces}
use gdbserver.Scanf.{scan_digits, starts_digit, scan_unsigned, scan_sign, scan_decimal}
use gdbserver.Elf.BuildId.{decimal_digits}

-- A byte of a name: neither white space nor a null byte.
abbrev pub IsPlain : ℕ → Type 0
IsPlain c = (c ≢ 0) × (is_space c ≡ false)

pub digit_byte : (d : ℕ) → d < 10 → hex_char_to_byte (b'0' + d) ≡ some d
unfolding hex_char_to_byte
digit_byte d h = ground arith

-- The numbers with at most k digits.
abbrev pub ten_to : ℕ → ℕ
ten_to zero = 1
ten_to (suc k) = 10 * ten_to k

-- The first byte of a number is a digit.
pub decimal_digits-first :
    (k n : ℕ) (out : Bytes)
    → 0 < k
    → n < ten_to k
    → (d : ℕ) × (rest : Bytes) × (d < 10) × (decimal_digits k n out ≡ (b'0' + d) ∷ rest)
unfolding decimal_digits
decimal_digits-first zero n out p h = absurd (omega arith)
decimal_digits-first (suc zero) n out p h =
    let l : ltb n 10 ≡ true = ground arith in (n, out, omega arith, rw l refl)
decimal_digits-first (suc (suc k)) n out p h = elim (Bool-cases (ltb n 10)) [
  | inl l ↦ (n, out, ground arith, rw l refl)
  | inr l ↦
      let small : n / 10 < ten_to (suc k) = omega arith in
      let (d, rest, less, e) =
        decimal_digits-first (suc k) (n / 10) ((b'0' + n % 10) ∷ out) (omega arith) small in
      (d, rest, less, rw l e)
]

-- All of its bytes are plain.
pub decimal_digits-All :
    (k n : ℕ) (out : Bytes)
    → 0 < k
    → n < ten_to k
    → All IsPlain out
    → All IsPlain (decimal_digits k n out)
unfolding decimal_digits
decimal_digits-All zero n out p h a = absurd (omega arith)
decimal_digits-All (suc zero) n out p h a =
    let l : ltb n 10 ≡ true = ground arith in rw l ((omega arith, ground arith), a)
decimal_digits-All (suc (suc k)) n out p h a = elim (Bool-cases (ltb n 10)) [
  | inl l ↦ let small : n < 10 = ground arith in rw l ((omega arith, ground arith), a)
  | inr l ↦
      let small : n / 10 < ten_to (suc k) = omega arith in
      rw l (
        decimal_digits-All (suc k) (n / 10) ((b'0' + n % 10) ∷ out) (omega arith) small
          ((omega arith, ground arith), a))
]

scan_digits_digit :
    (m d : ℕ) (out : Bytes)
    → d < 10
    → scan_digits 10 m ((b'0' + d) ∷ out) ≡ scan_digits 10 (m * 10 + d) out
unfolding scan_digits
scan_digits_digit m d out h =
    let b = digit_byte d h in
    let l : ltb d 10 ≡ true = ground arith in rw (b, scan_digits) (rw l refl)

-- Its digits are scanned as the number, whatever stands behind it.
pub scan_digits-decimal :
    (k n : ℕ) (out : Bytes)
    → 0 < k
    → n < ten_to k
    → scan_digits 10 0 (decimal_digits k n out) ≡ scan_digits 10 n out
unfolding decimal_digits
scan_digits-decimal zero n out p h = absurd (omega arith)
scan_digits-decimal (suc zero) n out p h =
    let l : ltb n 10 ≡ true = ground arith in
    rw l (scan_digits_digit 0 n out (omega arith) ∙ ap (λ m. scan_digits 10 m out) (omega arith))
scan_digits-decimal (suc (suc k)) n out p h = elim (Bool-cases (ltb n 10)) [
  | inl l ↦
      rw l (scan_digits_digit 0 n out (ground arith) ∙ ap (λ m. scan_digits 10 m out) (omega arith))
  | inr l ↦
      let small : n / 10 < ten_to (suc k) = omega arith in
      let later =
        scan_digits-decimal (suc k) (n / 10) ((b'0' + n % 10) ∷ out) (omega arith) small in
      let e : n / 10 * 10 + n % 10 ≡ n = omega arith in
      rw l (
        later
        ∙ (scan_digits_digit (n / 10) (n % 10) out (omega arith)
            ∙ ap (λ m. scan_digits 10 m out) e))
]

-- A number and a space are read back by %llu.
pub scan_decimal-decimal :
    (n : ℕ) (rest : Bytes)
    → n < 2 ^ 64
    → scan_decimal 64 (decimal_digits 20 n (b' ' ∷ rest)) ≡ some (n, b' ' ∷ rest)
unfolding scan_decimal scan_sign scan_unsigned skip_spaces starts_digit scan_digits hex_char_to_byte
scan_decimal-decimal n rest h =
    let (d, tail, small, e) = decimal_digits-first 20 n (b' ' ∷ rest) (omega arith) (omega arith) in
    let value = scan_digits-decimal 20 n (b' ' ∷ rest) (omega arith) (omega arith) in
    ground (arith, value, e, digit_byte d small)
