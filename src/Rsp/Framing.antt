-- ===== src/Rsp/Framing.antt =====
-- The framing of PostWriteTask against VerifyPacket.
use gdbserver.Base.{
  refl, ℕ, ◌+◌, ◌%◌, ◌<◌, ◌≡◌, ◌≢◌, some, none, false, [], ◌∷◌, ◌++◌, Bytes, foldl, arith, bit_and,
  ◌/◌,
}
use gdbserver.Hex.{encode_byte_string, half_byte_to_hex_char}
use gdbserver.Hex.Digits.{decode-encode_byte}
use gdbserver.Packet.{checksum, verify_packet}
use gdbserver.Packet.Scan.{Skips, nil}
use gdbserver.Packet.Verify.{verify_framed, verify_iff}
use gdbserver.Rsp.{frame}

pub total : Bytes → ℕ
total [] = 0
total (b ∷ s) = b + total s

sum_bytes :
    (sum : ℕ) (s : Bytes) → sum < 256 → foldl (λ a b. (a + b) % 256) sum s ≡ (sum + total s) % 256
unfolding total
sum_bytes sum [] h = omega arith
sum_bytes sum (b ∷ s) h = omega (arith, sum_bytes ((sum + b) % 256) s (omega arith))

-- The checksum is the sum of the bytes modulo 256.
pub checksum-total : (s : Bytes) → checksum s ≡ total s % 256
unfolding checksum
checksum-total s = omega (arith, sum_bytes 0 s (omega arith))

total-append : (s t : Bytes) → total (s ++ t) ≡ total s + total t
unfolding total
total-append [] t = omega arith
total-append (b ∷ s) t = omega (arith, total-append s t)

-- What PostWriteTask writes for a packet, not for a notification, whose payload has no unescaped
-- pound sign, is accepted by VerifyPacket, with that payload.
pub verify-frame :
    (payload : Bytes) → Skips b'#' payload → verify_packet (frame false payload) ≡ some payload
unfolding frame encode_byte_string
verify-frame payload s = (verify_iff _ payload).1 (record {
  junk = [];
  h = half_byte_to_hex_char (checksum payload / 16);
  l = half_byte_to_hex_char (bit_and (checksum payload) 0x0f);
  layout = refl;
  no_dollar = nil;
  no_pound = s;
  sum = decode-encode_byte (checksum payload) (omega (arith, checksum-total payload));
})

-- A payload in which one byte was changed to another, and no unescaped pound sign stands, is
-- refused under the checksum of the original.
pub verify_corrupted :
    (pre post : Bytes) (x y : ℕ)
    → x < 256
    → y < 256
    → x ≢ y
    → Skips b'#' (pre ++ y ∷ post)
    → verify_packet
        (b'$' ∷ ((pre ++ y ∷ post) ++ b'#' ∷ encode_byte_string (checksum (pre ++ x ∷ post))))
      ≡ none
unfolding encode_byte_string total
verify_corrupted pre post x y hx hy ne s =
    let sum = checksum (pre ++ x ∷ post) in
    let differ : checksum (pre ++ y ∷ post) ≢ sum = omega (
      arith,
      checksum-total (pre ++ x ∷ post),
      checksum-total (pre ++ y ∷ post),
      total-append pre (x ∷ post),
      total-append pre (y ∷ post),
    ) in
    ground (
      arith,
      verify_framed (pre ++ y ∷ post) (half_byte_to_hex_char (sum / 16))
          (half_byte_to_hex_char (bit_and sum 0x0f)) [] nil s,
      decode-encode_byte sum (omega (arith, checksum-total (pre ++ x ∷ post))),
    )
