-- ===== src/Hex/Decoded.antt =====
-- What the decoder returns for any text, and encoding a decoded text.
use gdbserver.Hex.Digits.{half_byte-hex_char, hex_char_bound, split_nibbles, IsHexChar}
use gdbserver.Base.{
  refl, bit_or, bit_and, ◌+◌, ◌%◌, ◌-◌, ◌*◌, inr, inl, ◌⊎◌, Option-cases, ℕ, ◌/◌, some, [], ◌∷◌,
  ◌≡◌, length, All, Bytes, IsByte, arith,
}
use gdbserver.Hex.{
  half_byte_to_hex_char, hex_char_to_byte, decode_byte_array_string, encode_byte_array_string,
  decode_pairs, decode_byte_string,
}

decode-IsByte : (h l b : ℕ) → decode_byte_string h l ≡ some b → IsByte b
unfolding decode_byte_string
decode-IsByte h l b e = ground arith

decode_pairs_shape :
    (s bs : Bytes) → decode_pairs s ≡ some bs → All IsByte bs × (length bs ≡ length s / 2)
unfolding decode_pairs
decode_pairs_shape [] bs e = ground arith
decode_pairs_shape (h ∷ []) bs e = ground arith
decode_pairs_shape (h ∷ l ∷ rest) bs e = elim (Option-cases (decode_byte_string h l)) [
  | inl p ↦ ground arith
  | inr (b, p) ↦ elim (Option-cases (decode_pairs rest)) [
    | inl q ↦ ground arith
    | inr (r, q) ↦ ground (arith, decode-IsByte h l b p, decode_pairs_shape rest r q)
  ]
]

-- The result of a decoding holds bytes only, and is empty or has one byte for each two characters
-- of a text of even length.
pub decode_shape :
    (s : Bytes)
    → All IsByte (decode_byte_array_string s)
      × ((decode_byte_array_string s ≡ []) ⊎ (2 * length (decode_byte_array_string s) ≡ length s))
unfolding decode_byte_array_string
decode_shape s = elim (Option-cases (decode_pairs s)) [
  | inl p ↦ ground arith
  | inr (r, p) ↦ ground (arith, decode_pairs_shape s r p)
]

hex_char_total : (c : ℕ) → IsHexChar c → (d : ℕ) × (hex_char_to_byte c ≡ some d)
unfolding hex_char_to_byte
hex_char_total c (inl h) = (c - b'0', ground arith)
hex_char_total c (inr h) = (c - b'a' + 10, ground arith)

encode_two :
    (h l : ℕ)
    → IsHexChar h
    → IsHexChar l
    → (b : ℕ) × (decode_byte_string h l ≡ some b)
      × (half_byte_to_hex_char (b / 16) ≡ h)
      × (half_byte_to_hex_char (bit_and b 0x0f) ≡ l)
unfolding decode_byte_string
encode_two h l ih il =
    let (m, p) = hex_char_total h ih in
    let (k, q) = hex_char_total l il in
    let (high, low) = split_nibbles m k (hex_char_bound h m p) (hex_char_bound l k q) in
    (
      bit_or k (m * 16) % 256,
      rw (p, q) refl,
      rw high (half_byte-hex_char h m ih p),
      rw low (half_byte-hex_char l k il q),
    )

encode-decode_pairs :
    (s : Bytes)
    → All IsHexChar s
    → length s % 2 ≡ 0
    → (r : Bytes) × (decode_pairs s ≡ some r) × (encode_byte_array_string r ≡ s)
unfolding decode_pairs encode_byte_array_string
encode-decode_pairs [] i e = ([], refl, refl)
encode-decode_pairs (h ∷ []) i e = absurd (omega arith)
encode-decode_pairs (h ∷ l ∷ rest) (ih, (il, i)) e =
    let (b, p, high, low) = encode_two h l ih il in
    let (r, q, back) = encode-decode_pairs rest i (omega arith) in
    (b ∷ r, rw (p, q) refl, rw (high, low, back) refl)

-- A text of lower-case hexadecimal digits and even length is what its decoding is encoded to.
pub encode-decode :
    (s : Bytes)
    → All IsHexChar s
    → length s % 2 ≡ 0
    → encode_byte_array_string (decode_byte_array_string s) ≡ s
unfolding decode_byte_array_string
encode-decode s i e = let (r, q, back) = encode-decode_pairs s i e in rw (e, q) back
