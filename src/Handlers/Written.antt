-- ===== src/Handlers/Written.antt =====
-- Memory and registers that a debugger writes and reads back.
use gdbserver.Base.{
  All-append, ℕ, ◌<◌, ◌^◌, true, some, [], ◌∷◌, ◌++◌, Bytes, ◌≡◌, ◌≢◌, arith, length, All, All-map,
  IsByte, Lacks,
}
use gdbserver.Ftl.{Ftl, FtlLaws}
use gdbserver.Hex.{encode_byte_array_string}
use gdbserver.Hex.Digits.{IsHexChar}
use gdbserver.Hex.RoundTrip.{decode-encode, encode-IsHexChar}
use gdbserver.ThreadId.RoundTrip.{hex-Lacks}
use gdbserver.Breakpoints.{MemoryCalls, BlockLaws, read, write}
use gdbserver.Process.{is_attached}
use gdbserver.Handlers.{Stub, reply_ok, respond_with}
use gdbserver.Handlers.MemoryPackets.{
  handle_m, handle_upper_m, read_attached, read_reply, write_params, write_reply, two,
}

module _ {W : Type 0} (memory : MemoryCalls W) (blocks : BlockLaws memory) (f : Ftl)
    (laws : FtlLaws f) where
  -- The first parameter of both packets: `addr,length`.
  abbrev pub place : ℕ → ℕ → Bytes
  place addr n = f.number_to_hex addr ++ b',' ∷ f.number_to_hex n

  split_place :
      (addr n : ℕ)
      → f.split_non_empty (place addr n) b',' ≡ f.number_to_hex addr ∷ f.number_to_hex n ∷ []
  split_place addr n =
      laws.split_non_empty_two b',' (f.number_to_hex addr) (f.number_to_hex n)
        (hex-Lacks f laws b',' (λ h. ground arith) addr)
        (hex-Lacks f laws b',' (λ h. ground arith) n) (laws.hex_some addr) (laws.hex_some n)

  place-Lacks : (addr n : ℕ) → Lacks b':' (place addr n)
  place-Lacks addr n =
      All-append (λ c. c ≢ b':') (f.number_to_hex addr) (b',' ∷ f.number_to_hex n)
        (hex-Lacks f laws b':' (λ h. ground arith) addr)
        (omega arith, hex-Lacks f laws b':' (λ h. ground arith) n)

  text-Lacks : (bs : Bytes) → All IsByte bs → Lacks b':' (encode_byte_array_string bs)
  text-Lacks bs h =
      All-map {Q = λ c. c ≢ b':'} (λ c (d : IsHexChar c). ground arith)
        (encode_byte_array_string bs) (encode-IsHexChar bs h)

  -- Where a write of bytes, one at least, succeeds in the memory of an attached process: the packet
  -- M with the address, the length and the bytes in hexadecimal digits is answered with OK, and then
  -- the packet m with the same address and length with the same digits.
  pub handle_m-handle_upper_m :
      (addr : ℕ) (b : ℕ) (bs : Bytes) (v : Stub W) (w : W)
      → addr < 2 ^ 64
      → length (b ∷ bs) < 2 ^ 64
      → All IsByte (b ∷ bs)
      → is_attached v.system.process ≡ some true
      → memory.write_memory addr (b ∷ bs) v.system.world ≡ some w
      → let payload = encode_byte_array_string (b ∷ bs) in
        let v' = record v { system = record v.system { world = w } } in
        (handle_upper_m memory f (place addr (length (b ∷ bs)) ++ b':' ∷ payload) v ≡ reply_ok v')
        × (handle_m memory f (place addr (length (b ∷ bs))) v' ≡ respond_with payload v')
  unfolding handle_m handle_upper_m read_attached read_reply write_params write_reply two read write
      is_attached
  handle_m-handle_upper_m addr b bs v w ha hn h at wrote =
      let n = length (b ∷ bs) in
      let (back, _) = decode-encode (b ∷ bs) h in
      let payload = encode_byte_array_string (b ∷ bs) in
      let cut =
        laws.split_all_two b':' (place addr n) payload (place-Lacks addr n)
          (text-Lacks (b ∷ bs) h) in
      let parts = split_place addr n in
      let a = laws.u64_hex addr ha in
      let l = laws.u64_hex n hn in
      (
        ground (arith, cut, parts, a, l, back),
        ground (arith, parts, a, l, blocks.read_block addr (b ∷ bs) v.system.world w wrote),
      )
