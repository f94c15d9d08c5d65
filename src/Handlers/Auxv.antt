-- ===== src/Handlers/Auxv.antt =====
-- HandleQueryXfer of bin/debugserver/cmd-handler.cc: the auxiliary vector.
use gdbserver.Base.{
  ℕ, zero, suc, ◌+◌, ◌*◌, ◌-◌, ◌^◌, ◌%◌, Option, none, some, [], ◌∷◌, ◌++◌, Bytes, ltb,
  if◌then◌else◌, codes, substr, length, get_elem?,
}
use gdbserver.Dso.{Dso, dso_get_main_exec}
use gdbserver.Ftl.{Ftl}
use gdbserver.Registers.{le_bytes}
use gdbserver.Handlers.{Stub, Answer, starts_with, inval, reply_with_error, respond_with, unhandled}
use gdbserver.Handlers.MemoryPackets.{two}

-- An entry: two words of eight bytes.
unfoldable pub entry_bytes : ℕ → ℕ → Bytes
entry_bytes key value = le_bytes 8 key ++ le_bytes 8 value

-- The entries that are set: AT_BASE, four of the program once its DSO is known, and AT_NULL.
unfoldable pub exec_entries : Option Dso → Bytes
exec_entries none = []
exec_entries (some exec) =
    entry_bytes 9 exec.entry
    ++ (entry_bytes 3 exec.phdr ++ (entry_bytes 4 exec.phentsize ++ entry_bytes 5 exec.phnum))

unfoldable pub auxv_bytes : ℕ → Option Dso → Bytes
auxv_bytes base exec = entry_bytes 7 base ++ (exec_entries exec ++ entry_bytes 0 0)

-- Memory from the array on: the bytes of the entries that are set, and what the stack holds behind.
unfoldable pub stack_byte : Bytes → (ℕ → ℕ) → ℕ → ℕ
stack_byte auxv behind k = elim (get_elem? auxv k) [ none ↦ behind (k - length auxv) | some b ↦ b ]

unfoldable pub copy_bytes : Bytes → (ℕ → ℕ) → ℕ → ℕ → Bytes
copy_bytes auxv behind zero from = []
copy_bytes auxv behind (suc n) from =
    stack_byte auxv behind from ∷ copy_bytes auxv behind n (suc from)

-- `std::min(end - offset, length)`, where the difference is a size_t.
unfoldable pub response_length : ℕ → ℕ → ℕ → ℕ
response_length end offset length =
    let rest = (end + 2 ^ 64 - offset) % 2 ^ 64 in if ltb length rest then length else rest

-- The end of HandleQueryXfer: `auxv + offset` steps over entries of 16 bytes. The array has 10.
unfoldable pub auxv_reply : {W : Type 0} → Ftl → Bytes → (ℕ → ℕ) → ℕ → ℕ → Stub W → Answer W
auxv_reply f auxv behind offset size v =
    if ltb 160 offset
    then reply_with_error f inval v
    else respond_with
        (b'l' ∷ copy_bytes auxv behind (response_length (length auxv) offset size) (16 * offset)) v

-- HandleQueryXfer. `behind` is the stack's contents.
unfoldable pub query_xfer : {W : Type 0} → Ftl → (ℕ → ℕ) → Bytes → Stub W → Answer W
query_xfer f behind params v =
    if starts_with params (codes "auxv:read::")
    then (elim (two (f.split_non_empty (substr params 11 (length params)) b',')) [
      | none ↦ reply_with_error f inval v
      | some args ↦ elim (f.string_to_u64 args.0) [
        | none ↦ reply_with_error f inval v
        | some offset ↦ elim (f.string_to_u64 args.1) [
          | none ↦ reply_with_error f inval v
          | some size ↦
              auxv_reply f
                (auxv_bytes v.system.process.base_address (dso_get_main_exec v.system.process.dsos))
                behind offset size v
        ]
      ]
    ])
    else unhandled v
