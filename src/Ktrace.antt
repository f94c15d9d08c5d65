-- ===== src/Ktrace.antt =====
-- lib/debugger-utils/ktrace-reader.{h,cc}: reading a kernel trace record by record.
pub mod Records
use gdbserver.Base.{
  ℕ, zero, suc, ◌+◌, ◌-◌, Bool, true, false, Option, none, some, List, [], ◌∷◌, ◌++◌, Bytes, ◌==◌,
  ltb, if◌then◌else◌, length, take, drop,
}
use gdbserver.Elf.{field_at}

-- magenta/ktrace.h: sizeof(ktrace_header_t), whose first field is the tag of four bytes, and
-- KTRACE_LEN.
pub record KtraceFormat : Type 0 where
  pub header_size : ℕ
  pub len_of : ℕ → ℕ

-- A RecordReader, with the state behind its argument: its result is zero to go on.
abbrev pub RecordReader : Type 0 → Type 0
RecordReader A = Bytes → A → ℕ × A

-- The loop of ReadFile, on what is left of the file. Each round takes a header at least.
unfoldable pub read_records : {A : Type 0} → KtraceFormat → RecordReader A → ℕ → Bytes → A → ℕ × A
read_records format reader zero file arg = (0, arg)
read_records format reader (suc fuel) file arg =
    let header = take format.header_size file in
    let tag = field_at 0 4 header in
    let len = format.len_of tag in
    let rest = drop format.header_size file in
    let payload = take (len - format.header_size) rest in
    let (rc, arg') = reader (header ++ payload) arg in
    let later = read_records format reader fuel (drop (len - format.header_size) rest) arg' in
    if length header == format.header_size
    then (if tag == 0
        then (0, arg)
        else if ltb len format.header_size
        then (0, arg)
        else if length payload == len - format.header_size
        then (if rc == 0 then later else (rc, arg'))
        else (0, arg))
    else (0, arg)

-- ReadFile
unfoldable pub read_file : {A : Type 0} → KtraceFormat → RecordReader A → Bytes → A → ℕ × A
read_file format reader file arg = read_records format reader (suc (length file)) file arg
