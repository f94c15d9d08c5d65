-- ===== src/Handlers/RegistersWritten.antt =====
-- The packet G, and the packet g behind it.
use gdbserver.Base.{
  ℕ, ◌*◌, zero, suc, true, some, [], ◌∷◌, Bytes, ◌≡◌, refl, arith, length, All, IsByte, ap,
}
use gdbserver.Ftl.{Ftl}
use gdbserver.Hex.{decode_byte_array_string}
use gdbserver.Hex.Digits.{IsHexChar}
use gdbserver.Hex.RoundTrip.{length-encode}
use gdbserver.Hex.Decoded.{encode-decode, decode_shape}
use gdbserver.Registers.{
  Gregs, get_regset_as_string, set_regset_from_string, bytes_of, words_of, le_bytes, le_word,
}
use gdbserver.Thread.{Thread, write_general_registers}
use gdbserver.Process.{ProcessCalls, is_attached}
use gdbserver.Process.ThreadMap.{find_thread}
use gdbserver.Process.Found.{find-put_thread_self}
use gdbserver.Handlers.{Stub, reply_ok, respond_with, get_current_thread, put_back}
use gdbserver.Handlers.RegisterPackets.{handle_g, handle_upper_g, set_registers}

le_bytes-le_word :
    (a b c d e f g h : ℕ)
    → IsByte a
    → IsByte b
    → IsByte c
    → IsByte d
    → IsByte e
    → IsByte f
    → IsByte g
    → IsByte h
    → le_bytes 8 (le_word (a ∷ b ∷ c ∷ d ∷ e ∷ f ∷ g ∷ h ∷ [])) ≡ a ∷ b ∷ c ∷ d ∷ e ∷ f ∷ g ∷ h ∷ []
unfolding le_bytes le_word
le_bytes-le_word a b c d e f g h ha hb hc hd he hf hg hh = ground arith

pub bytes_of-words_of :
    (n : ℕ) (bs : Bytes) → length bs ≡ n * 8 → All IsByte bs → bytes_of (words_of n bs) ≡ bs
unfolding bytes_of words_of
bytes_of-words_of zero [] l h = refl
bytes_of-words_of zero (x ∷ bs) l h = absurd (omega arith)
bytes_of-words_of (suc n) (a ∷ b ∷ c ∷ d ∷ e ∷ f ∷ g ∷ h ∷ bs) l
      (ha, (hb, (hc, (hd, (he, (hf, (hg, (hh, hs)))))))) =
    ground (
      arith,
      le_bytes-le_word a b c d e f g h ha hb hc hd he hf hg hh,
      bytes_of-words_of n bs (omega arith) hs,
    )
bytes_of-words_of (suc n) bs l h = absurd (omega arith)

set_regset_lem :
    (text : Bytes)
    → All IsHexChar text
    → length text ≡ 288
    → (gregs : Gregs) × (set_regset_from_string text ≡ some gregs)
      × (get_regset_as_string gregs ≡ text)
unfolding set_regset_from_string get_regset_as_string
set_regset_lem text h n =
    let bytes = decode_byte_array_string text in
    let (good, _) = decode_shape text in
    let back = encode-decode text h (omega arith) in
    let size : length bytes ≡ 144 = omega (arith, length-encode bytes, ap length back) in
    (
      words_of 18 bytes,
      ground arith,
      ground (arith, bytes_of-words_of 18 bytes (omega arith) good, back),
    )

module _ {W : Type 0} (calls : ProcessCalls W) (f : Ftl) where
  -- The packet G with a text of 288 lower-case digits, where a thread is current and the kernel takes
  -- the registers, is answered with OK; then the packet g is answered with that text.
  pub handle_g-handle_upper_g :
      (text : Bytes) (id : ℕ) (t : Thread) (v : Stub W)
      → All IsHexChar text
      → length text ≡ 288
      → is_attached v.system.process ≡ some true
      → v.current_thread ≡ some id
      → find_thread id v.system.process.threads ≡ some t
      → t.id ≡ id
      → ((gregs : Gregs) → (calls.thread.write_state t.handle gregs v.system.world).1 ≡ true)
      → (v' : Stub W) × (handle_upper_g calls f text v ≡ reply_ok v')
        × (handle_g calls f v' ≡ respond_with text v')
  unfolding handle_upper_g handle_g set_registers get_current_thread put_back
      write_general_registers is_attached
  handle_g-handle_upper_g text id t v h n at current found same ok =
      let (gregs, set, back) = set_regset_lem text h n in
      let after = record t { gregs = gregs } in
      let again = find-put_thread_self id after v.system.process.threads in
      (
        put_back (after, (calls.thread.write_state t.handle gregs v.system.world).0) v,
        ground (arith, set, ok gregs),
        ground (arith, back, again),
      )
