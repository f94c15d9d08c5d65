-- ===== src/Registers/Words.antt =====
-- The bytes of 64-bit words.
use gdbserver.Base.{
  ℕ, zero, suc, ◌*◌, ◌/◌, ◌^◌, ◌<◌, [], ◌∷◌, ◌++◌, Bytes, ◌≡◌, refl, length, All, IsByte, arith,
  length-append,
}
use gdbserver.Registers.{le_bytes, le_word, bytes_of, words_of, Gregs}

abbrev pub IsWord : ℕ → Type 0
IsWord w = w < 2 ^ 64

pub length-le_bytes : (n w : ℕ) → length (le_bytes n w) ≡ n
unfolding le_bytes
length-le_bytes zero w = refl
length-le_bytes (suc n) w = omega (arith, length-le_bytes n (w / 256))

pub le_bytes-IsByte : (n w : ℕ) → All IsByte (le_bytes n w)
unfolding le_bytes
le_bytes-IsByte zero w = tt
le_bytes-IsByte (suc n) w = (omega arith, le_bytes-IsByte n (w / 256))

-- The value below 256 ^ n comes back from its n bytes.
pub le_word-le_bytes : (w : ℕ) → IsWord w → le_word (le_bytes 8 w) ≡ w
unfolding le_word le_bytes
le_word-le_bytes w h = omega arith

pub length-bytes_of : (ws : Gregs) → length (bytes_of ws) ≡ 8 * length ws
unfolding bytes_of
length-bytes_of [] = refl
length-bytes_of (w ∷ ws) =
    ground
      (arith, length-append (le_bytes 8 w) (bytes_of ws), length-le_bytes 8 w, length-bytes_of ws)

All-append_bytes : (a b : Bytes) → All IsByte a → All IsByte b → All IsByte (a ++ b)
All-append_bytes [] b p q = q
All-append_bytes (x ∷ a) b (h, p) q = (h, All-append_bytes a b p q)

pub bytes_of-IsByte : (ws : Gregs) → All IsByte (bytes_of ws)
unfolding bytes_of
bytes_of-IsByte [] = tt
bytes_of-IsByte (w ∷ ws) =
    All-append_bytes (le_bytes 8 w) (bytes_of ws) (le_bytes-IsByte 8 w) (bytes_of-IsByte ws)

pub words_of-bytes_of : (ws : Gregs) → All IsWord ws → words_of (length ws) (bytes_of ws) ≡ ws
unfolding bytes_of words_of le_bytes
words_of-bytes_of [] a = refl
words_of-bytes_of (w ∷ ws) (h, a) = ground (arith, le_word-le_bytes w h, words_of-bytes_of ws a)
