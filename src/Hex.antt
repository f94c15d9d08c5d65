-- ===== src/Hex.antt =====
-- lib/debugger-utils/util.cc, the hexadecimal codec of the protocol.
pub mod Digits
pub mod RoundTrip
pub mod Decoded
use gdbserver.Base.{
  ℕ, ◌+◌, ◌-◌, ◌*◌, ◌/◌, ◌%◌, bit_and, bit_or, Bool, ◌&&◌, Option, none, some, List, [], ◌∷◌, Bytes,
  leb, ltb, ◌==◌, if◌then◌else◌, ◌>>=◌, length, ◌≡◌, refl, codes,
}

-- HexCharToByte
unfoldable pub hex_char_to_byte : ℕ → Option ℕ
hex_char_to_byte c =
    if leb b'a' c && leb c b'f'
    then some (c - b'a' + 10)
    else if leb b'0' c && leb c b'9'
    then some (c - b'0')
    else if leb b'A' c && leb c b'F'
    then some (c - b'A' + 10)
    else none

-- HalfByteToHexChar
unfoldable pub half_byte_to_hex_char : ℕ → ℕ
half_byte_to_hex_char byte = if ltb byte 10 then b'0' + byte else b'a' + byte % 10

-- DecodeByteString: `lsb | (msb << 4)`, stored in a uint8_t.
unfoldable pub decode_byte_string : ℕ → ℕ → Option ℕ
decode_byte_string hex0 hex1 = do
  msb ← hex_char_to_byte hex0
  lsb ← hex_char_to_byte hex1
  some (bit_or lsb (msb * 16) % 256)

-- EncodeByteString: the two characters that `out_hex` receives.
unfoldable pub encode_byte_string : ℕ → Bytes
encode_byte_string byte =
    half_byte_to_hex_char (byte / 16) ∷ half_byte_to_hex_char (bit_and byte 0x0f) ∷ []

-- The loop of EncodeByteArrayString: two characters for each byte, in order.
unfoldable pub encode_byte_array_string : Bytes → Bytes
encode_byte_array_string [] = []
encode_byte_array_string (b ∷ bs) =
    half_byte_to_hex_char (b / 16)
    ∷ half_byte_to_hex_char (bit_and b 0x0f)
    ∷ encode_byte_array_string bs

-- EncodeString
abbrev pub encode_string : Bytes → Bytes
encode_string s = encode_byte_array_string s

-- The loop of DecodeByteArrayString: `none` is the return from inside the loop.
unfoldable pub decode_pairs : Bytes → Option Bytes
decode_pairs [] = some []
decode_pairs (h ∷ []) = some []
decode_pairs (h ∷ l ∷ rest) = do b ← decode_byte_string h l; bs ← decode_pairs rest; some (b ∷ bs)

-- What is left of a failed decoding: the empty vector.
abbrev pub or_empty : Option Bytes → Bytes
or_empty none = []
or_empty (some bs) = bs

-- DecodeByteArrayString: an odd length and a bad digit both give the empty vector.
unfoldable pub decode_byte_array_string : Bytes → Bytes
decode_byte_array_string s = if length s % 2 == 0 then or_empty (decode_pairs s) else []

-- DecodeString
abbrev pub decode_string : Bytes → Bytes
decode_string s = decode_byte_array_string s

run_encode : encode_byte_array_string (0xde ∷ 0x0a ∷ []) ≡ codes "de0a"
unfolding encode_byte_array_string half_byte_to_hex_char
run_encode = refl

run_decode : decode_byte_array_string (codes "DE0a") ≡ 0xde ∷ 0x0a ∷ []
unfolding decode_byte_array_string decode_pairs decode_byte_string hex_char_to_byte
run_decode = refl
