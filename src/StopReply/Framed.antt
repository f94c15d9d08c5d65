-- ===== src/StopReply/Framed.antt =====
-- Stop replies in the framing of the server.
use gdbserver.Base.{ℕ, [], ◌∷◌, Bytes, ◌≢◌, All, All-append, All-map, arith}
use gdbserver.Ftl.{Ftl, FtlLaws}
use gdbserver.Hex.Digits.{IsHexChar}
use gdbserver.ThreadId.{encode_thread_id}
use gdbserver.Packet.{escape_char}
use gdbserver.Packet.Scan.{Skips, nil, plain}
use gdbserver.StopReply.Printed.{Field}

-- A byte that needs no escape.
abbrev pub IsPlain : ℕ → Type 0
IsPlain c = (c ≢ b'#') × (c ≢ escape_char)

pub IsPlain-Skips : (s : Bytes) → All IsPlain s → Skips b'#' s
IsPlain-Skips [] h = nil
IsPlain-Skips (c ∷ s) ((hp, he), h) = plain c he hp (IsPlain-Skips s h)

pub IsHexChar-IsPlain : (s : Bytes) → All IsHexChar s → All IsPlain s
IsHexChar-IsPlain = All-map (λ c h. ground arith)

abbrev PlainField : Field → Type 0
PlainField x = All IsPlain x.key × All IsPlain x.value

module _ (f : Ftl) (laws : FtlLaws f) where
  pub encode_thread_id-IsPlain : (pid tid : ℕ) → All IsPlain (encode_thread_id f pid tid)
  unfolding encode_thread_id
  encode_thread_id-IsPlain pid tid = (
    omega arith,
    All-append IsPlain (f.number_to_hex pid) _ (IsHexChar-IsPlain _ (laws.hex_chars pid))
        (omega arith, IsHexChar-IsPlain _ (laws.hex_chars tid)),
  )
