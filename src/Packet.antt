-- ===== src/Packet.antt =====
-- bin/debugserver/util.cc: packets of the protocol, with their framing, escapes and checksum.
pub mod Scan
pub mod Verify
pub mod Parameters
use gdbserver.Base.{
  not, guard, ◌>>◌, ℕ, ◌+◌, ◌-◌, ◌%◌, Bool, true, false, ◌≡◌, refl, Option, none, some, List, [],
  ◌∷◌, Bytes, ltb, ◌==◌, if◌then◌else◌, ◌>>=◌, length, is_empty, substr, drop, take, get_elem?,
  foldl, codes,
}
use gdbserver.Hex.{decode_byte_string, hex_char_to_byte}

-- kEscapeChar
abbrev pub escape_char : ℕ
escape_char = b'}'

-- The loop of FindUnescapedChar: the bytes from `packet[i]` on, `in_escape`, and `i`.
unfoldable pub scan : ℕ → Bytes → Bool → ℕ → Option ℕ
scan val [] in_escape i = none
scan val (c ∷ s) true i = scan val s false (i + 1)
scan val (c ∷ s) false i =
    let enter = scan val s true (i + 1) in
    let next = scan val s false (i + 1) in
    if c == escape_char then enter else if c == val then some i else next

-- FindUnescapedChar
unfoldable pub find_unescaped_char : ℕ → Bytes → Option ℕ
find_unescaped_char val packet = scan val packet false 0

-- The checksum loops of VerifyPacket and PostWriteTask: a sum in a uint8_t.
unfoldable pub checksum : Bytes → ℕ
checksum packet_data = foldl (λ sum byte. (sum + byte) % 256) 0 packet_data

-- VerifyPacket, once `packet` starts at the dollar sign.
unfoldable pub verify_from_dollar : Bytes → Option Bytes
verify_from_dollar packet = do
  guard (not (ltb (length packet) 4))
  pound ← find_unescaped_char b'#' packet
  let packet_data = substr packet 1 (pound - 1)
  guard (length packet - length packet_data == 4)
  h ← get_elem? packet (pound + 1)
  l ← get_elem? packet (pound + 2)
  received_checksum ← decode_byte_string h l
  guard (checksum packet_data == received_checksum)
  some packet_data

-- VerifyPacket
unfoldable pub verify_packet : Bytes → Option Bytes
verify_packet packet = do
  guard (not (is_empty packet))
  dollar_sign ← find_unescaped_char b'$' packet
  verify_from_dollar (drop dollar_sign packet)

-- The loop of ExtractParameters: the index of the first colon, or the size.
unfoldable pub colon_index : Bytes → ℕ
colon_index [] = 0
colon_index (c ∷ s) = if c == b':' then 0 else colon_index s + 1

-- ExtractParameters: the prefix and the parameters.
unfoldable pub extract_parameters : Bytes → Bytes × Bytes
extract_parameters packet =
    let colon = colon_index packet in
    (
      substr packet 0 colon,
      substr packet (colon + 1) (if length packet == colon then 0 else length packet - colon - 1),
    )

run_verify : verify_packet (codes "++$foo#44") ≡ some (codes "foo")
unfolding verify_packet verify_from_dollar find_unescaped_char scan checksum decode_byte_string
    hex_char_to_byte
run_verify = refl

run_bad_checksum : verify_packet (codes "$foo#45") ≡ none
unfolding verify_packet verify_from_dollar find_unescaped_char scan checksum decode_byte_string
    hex_char_to_byte
run_bad_checksum = refl

run_extract : extract_parameters (codes "Xfer:auxv:") ≡ (codes "Xfer", codes "auxv:")
unfolding extract_parameters colon_index
run_extract = refl
