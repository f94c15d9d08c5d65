-- ===== src/ThreadId.antt =====
-- bin/debugserver/util.cc: thread ids of the protocol, and error packets.
pub mod RoundTrip
use gdbserver.Base.{
  ℕ, ◌+◌, ◌-◌, ◌%◌, ◌^◌, Bool, true, false, Option, none, some, [], ◌∷◌, ◌++◌, Bytes, ◌==◌, take,
  drop, if◌then◌else◌, ◌>>=◌, find, substr, ℤ, negsuc, length, codes,
}
use gdbserver.Ftl.{Ftl}

-- The out parameters of ParseThreadId; `pid` is `none` where it is left as it was.
pub record ThreadId : Type 0 where
  pub has_pid : Bool
  pub pid : Option ℤ
  pub tid : ℤ

module _ (f : Ftl) where
  -- ParseThreadId behind the `p`: `rest` is `bytes` from index 1 on. Where there is no dot the code
  -- reads `dot`, which nothing has set; `uninit` is the value it holds then.
  unfoldable pub parse_with_pid : ℕ → Bytes → Option ThreadId
  parse_with_pid uninit rest = elim (find b'.' rest) [
    | none ↦ do
      pid ← f.string_to_i64 (take ((uninit + 2 ^ 64 - 1) % 2 ^ 64) rest)
      some (record { has_pid = true; pid = some pid; tid = negsuc 0 })
    | some dot ↦ do
      pid ← f.string_to_i64 (take dot rest)
      tid ← f.string_to_i64 (drop (dot + 1) rest)
      some (record { has_pid = true; pid = some pid; tid = tid })
  ]

  -- ParseThreadId
  unfoldable pub parse_thread_id : ℕ → Bytes → Option ThreadId
  parse_thread_id uninit [] = none
  parse_thread_id uninit (c ∷ rest) = if c == b'p' then parse_with_pid uninit rest else (do
    tid ← f.string_to_i64 (c ∷ rest)
    some (record { has_pid = false; pid = none; tid = tid }))

  -- EncodeThreadId
  unfoldable pub encode_thread_id : ℕ → ℕ → Bytes
  encode_thread_id pid tid = b'p' ∷ (f.number_to_hex pid ++ b'.' ∷ f.number_to_hex tid)

  -- BuildErrorPacket
  unfoldable pub build_error_packet : ℕ → Bytes
  build_error_packet error_code =
      let errstr = f.number_to_decimal error_code in
      b'E' ∷ (if length errstr == 1 then b'0' ∷ errstr else errstr)
