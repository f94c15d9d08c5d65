-- ===== src/Registers/Text.antt =====
-- The registers as text.
use gdbserver.Base.{
  ℕ, zero, suc, ◌*◌, ◌+◌, ◌<◌, ◌≡◌, some, List, [], ◌∷◌, ◌++◌, Bytes, length, drop, take, substr,
  get_elem?, All, arith, refl, take-append, drop-append, drop_all, append_assoc, ◌∙◌, ap, sym,
}
use gdbserver.Hex.{encode_byte_array_string, encode_byte_string}
use gdbserver.Registers.{
  Gregs, get_regset_as_string, set_regset_from_string, get_register_as_string, bytes_of, le_bytes,
  num_registers,
}
use gdbserver.Registers.Words.{
  le_bytes-IsByte, IsWord, length-bytes_of, length-le_bytes, bytes_of-IsByte, words_of-bytes_of,
}
use gdbserver.Hex.RoundTrip.{decode-encode}

-- The text of all 18 registers, each below 2^64, read back, gives the registers.
set-get_regset :
    (gregs : Gregs)
    → length gregs ≡ num_registers
    → All IsWord gregs
    → set_regset_from_string (get_regset_as_string gregs) ≡ some gregs
unfolding set_regset_from_string get_regset_as_string
set-get_regset gregs n h =
    let (back, _) = decode-encode (bytes_of gregs) (bytes_of-IsByte gregs) in
    ground (arith, back, length-bytes_of gregs, rw n at (words_of-bytes_of gregs h))

encode-append :
    (a b : Bytes)
    → encode_byte_array_string (a ++ b) ≡ encode_byte_array_string a ++ encode_byte_array_string b
unfolding encode_byte_array_string
encode-append [] b = refl
encode-append (x ∷ a) b = ground (
  arith,
  encode-append a b,
  append_assoc (encode_byte_string x) (encode_byte_array_string a) (encode_byte_array_string b),
)

-- The 16 digits of one word.
digits_of : ℕ → Bytes
digits_of w = encode_byte_array_string (le_bytes 8 w)

length-digits_of : (w : ℕ) → length (digits_of w) ≡ 16
unfolding digits_of
length-digits_of w =
    let (_, n) = decode-encode (le_bytes 8 w) (le_bytes-IsByte 8 w) in
    omega (arith, n, length-le_bytes 8 w)

text_of : Gregs → Bytes
text_of ws = encode_byte_array_string (bytes_of ws)

text_of-step : (w : ℕ) (ws : Gregs) → text_of (w ∷ ws) ≡ digits_of w ++ text_of ws
unfolding text_of digits_of bytes_of
text_of-step w ws = encode-append (le_bytes 8 w) (bytes_of ws)

drop_add : (k n m : ℕ) (xs : Bytes) → k ≡ n + m → drop k xs ≡ drop m (drop n xs)
drop_add k zero m xs e = ap (λ i. drop i xs) (omega arith)
drop_add k (suc n) zero [] e = drop_all k [] (omega arith)
drop_add k (suc n) (suc m) [] e = drop_all k [] (omega arith)
drop_add zero (suc n) m (x ∷ xs) e = absurd (omega arith)
drop_add (suc k) (suc n) m (x ∷ xs) e = drop_add k n m xs (omega arith)

slice :
    (n w : ℕ) (ws : Gregs) → get_elem? ws n ≡ some w → substr (text_of ws) (n * 16) 16 ≡ digits_of w
slice n w [] e = absurd (ground arith)
slice zero w (v ∷ ws) e =
    rw (text_of-step v ws)
      (take-append 16 (digits_of v) (text_of ws) (sym (length-digits_of v)) ∙ ground arith)
slice (suc n) w (v ∷ ws) e = rw (text_of-step v ws) (
    ap (take 16) (
      drop_add (suc n * 16) 16 (n * 16) (digits_of v ++ text_of ws) (omega arith)
      ∙ ap (drop (n * 16)) (drop-append 16 (digits_of v) (text_of ws) (sym (length-digits_of v))))
    ∙ slice n w ws e)

pub in_bounds :
    {A : Type 0} (n : ℕ) (xs : List A) → n < length xs → (x : A) × (get_elem? xs n ≡ some x)
in_bounds n [] h = absurd (omega arith)
in_bounds zero (x ∷ xs) h = (x, refl)
in_bounds (suc n) (x ∷ xs) h = in_bounds n xs (omega arith)

-- The text of one of the 18 registers is the register's part of the text of all registers: 16
-- digits from 16 times its number on.
get_register-slice :
    (regno : ℕ) (gregs : Gregs)
    → length gregs ≡ num_registers
    → regno < num_registers
    → get_register_as_string regno gregs ≡ substr (get_regset_as_string gregs) (regno * 16) 16
unfolding get_register_as_string get_regset_as_string text_of digits_of
get_register-slice regno gregs n h =
    let (w, e) = in_bounds regno gregs (omega arith) in ground (arith, slice regno w gregs e)
