-- ===== src/Hex/RoundTrip.antt =====
-- Decoding an encoded byte array.
use gdbserver.Base.{
  ℕ, ◌*◌, ◌%◌, some, [], ◌∷◌, ◌≡◌, refl, ◌==◌, true, length, All, Bytes, IsByte, arith, ==_iff,
}
use gdbserver.Hex.{
  encode_byte_string, encode_byte_array_string, decode_byte_array_string, decode_pairs,
}
use gdbserver.Hex.Digits.{IsHexChar, decode-encode_byte, half_byte-IsHexChar, low_nibble}

pub length-encode : (bs : Bytes) → length (encode_byte_array_string bs) ≡ 2 * length bs
unfolding encode_byte_array_string
length-encode [] = refl
length-encode (b ∷ bs) = omega (arith, length-encode bs)

decode_pairs-encode :
    (bs : Bytes) → All IsByte bs → decode_pairs (encode_byte_array_string bs) ≡ some bs
unfolding decode_pairs encode_byte_array_string
decode_pairs-encode [] h = refl
decode_pairs-encode (b ∷ bs) (hb, h) = rw (decode-encode_byte b hb, decode_pairs-encode bs h) refl

pub encode-IsHexChar : (bs : Bytes) → All IsByte bs → All IsHexChar (encode_byte_array_string bs)
unfolding encode_byte_array_string
encode-IsHexChar [] h = tt
encode-IsHexChar (b ∷ bs) (hb, h) = (
  half_byte-IsHexChar _ (omega arith),
  (half_byte-IsHexChar _ (omega (arith, low_nibble b hb)), encode-IsHexChar bs h),
)

pub encode_byte-IsHexChar : (b : ℕ) → IsByte b → All IsHexChar (encode_byte_string b)
unfolding encode_byte_string
encode_byte-IsHexChar b h = (
  half_byte-IsHexChar _ (omega arith),
  (half_byte-IsHexChar _ (omega (arith, low_nibble b h)), tt),
)

pub even_encode : (bs : Bytes) → (length (encode_byte_array_string bs) % 2 == 0) ≡ true
even_encode bs = (==_iff _ _).1 (omega (arith, length-encode bs))

-- Decoding the encoding of a byte array gives the array back, and the encoding has two
-- characters for each byte.
pub decode-encode :
    (bs : Bytes)
    → All IsByte bs
    → (decode_byte_array_string (encode_byte_array_string bs) ≡ bs)
      × (length (encode_byte_array_string bs) ≡ 2 * length bs)
unfolding decode_byte_array_string
decode-encode bs h = (rw (even_encode bs, decode_pairs-encode bs h) refl, length-encode bs)
