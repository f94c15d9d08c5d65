-- ===== src/Handlers/MemoryPackets.antt =====
-- The packets m and M (cmd-handler.cc).
use gdbserver.Base.{ℕ, Option, none, some, List, [], ◌∷◌, Bytes, ◌==◌, if◌then◌else◌, ◌>>=◌, length}
use gdbserver.Ftl.{Ftl}
use gdbserver.Hex.{encode_byte_array_string, decode_byte_array_string}
use gdbserver.Breakpoints.{MemoryCalls, read, write}
use gdbserver.Process.{is_attached}
use gdbserver.Handlers.{Stub, Answer, perm, noent, inval, reply_ok, reply_with_error, respond_with}

-- Two parameters, and nothing else.
unfoldable pub two : List Bytes → Option (Bytes × Bytes)
two (a ∷ b ∷ []) = some (a, b)
two _ = none

module _ {W : Type 0} (memory : MemoryCalls W) (f : Ftl) where
  -- Handle_m, once the parameters are read.
  unfoldable pub read_reply : ℕ → ℕ → Stub W → Answer W
  read_reply addr length v = elim (read memory v.system.process.handle addr length v.system.world) [
    | none ↦ reply_with_error f perm v
    | some buffer ↦ respond_with (encode_byte_array_string buffer) v
  ]

  -- Handle_m, of a process that is attached.
  unfoldable pub read_attached : Bytes → Stub W → Answer W
  read_attached packet v = elim (two (f.split_non_empty packet b',')) [
    | none ↦ reply_with_error f inval v
    | some params ↦ elim (f.string_to_u64 params.0) [
      | none ↦ reply_with_error f noent v
      | some addr ↦ elim (f.string_to_u64 params.1) [
        | none ↦ reply_with_error f noent v
        | some length ↦ read_reply addr length v
      ]
    ]
  ]

  -- Handle_m
  unfoldable pub handle_m : Bytes → Stub W → Answer W
  handle_m packet v = do
    attached ← is_attached v.system.process
    if attached then read_attached packet v else reply_with_error f noent v

  -- Handle_M, once the parameters are read.
  unfoldable pub write_reply : ℕ → ℕ → Bytes → Stub W → Answer W
  write_reply addr len payload v =
      let data_bytes = decode_byte_array_string payload in
      if length data_bytes == len
      then (if len == 0
          then reply_ok v
          else elim (write memory v.system.process.handle addr data_bytes v.system.world) [
            | none ↦ reply_with_error f perm v
            | some w ↦ reply_ok (record v { system = record v.system { world = w } })
          ])
      else reply_with_error f inval v

  -- Handle_M, from the address and the length on.
  unfoldable pub write_params : Bytes → Bytes → Stub W → Answer W
  write_params place payload v = elim (two (f.split_non_empty place b',')) [
    | none ↦ reply_with_error f inval v
    | some params ↦ elim (f.string_to_u64 params.0) [
      | none ↦ reply_with_error f inval v
      | some addr ↦ elim (f.string_to_u64 params.1) [
        | none ↦ reply_with_error f inval v
        | some len ↦ write_reply addr len payload v
      ]
    ]
  ]

  -- Handle_M
  unfoldable pub handle_upper_m : Bytes → Stub W → Answer W
  handle_upper_m packet v = do
    attached ← is_attached v.system.process
    if attached
        then (elim (two (f.split_all packet b':')) [
          | none ↦ reply_with_error f inval v
          | some params ↦ write_params params.0 params.1 v
        ])
        else reply_with_error f noent v
