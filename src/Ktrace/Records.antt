-- ===== src/Ktrace/Records.antt =====
-- Traces that are written record by record (lib/debugger-utils/ktrace-reader.cc).
use gdbserver.Base.{
  take-nil, sym, ℕ, zero, suc, ◌+◌, ◌-◌, ◌<◌, ◌≡◌, ◌≢◌, List, [], ◌∷◌, ◌++◌, Bytes, ◌==◌,
  if◌then◌else◌, length, arith, refl, take-append, drop-append, length-append,
}
use gdbserver.Elf.{field_at}
use gdbserver.Ktrace.{KtraceFormat, RecordReader, read_records, read_file}

-- A record as it stands in a trace: a header, whose tag is not zero, and a payload of the length that the tag
-- gives for both.
pub record KtraceRecord (format : KtraceFormat) : Type 0 where
  pub header : Bytes
  pub payload : Bytes
  pub full : length header ≡ format.header_size
  pub tagged : field_at 0 4 header ≢ 0
  pub long : format.len_of (field_at 0 4 header) ≡ format.header_size + length payload

unfoldable pub trace_bytes : {format : KtraceFormat} → List (KtraceRecord format) → Bytes
trace_bytes [] = []
trace_bytes (r ∷ rs) = r.header ++ (r.payload ++ trace_bytes rs)

-- The reader is called with the records in their order, until it does not return zero.
unfoldable pub read_each :
    {format : KtraceFormat} {A : Type 0} → RecordReader A → List (KtraceRecord format) → A → ℕ × A
read_each reader [] arg = (0, arg)
read_each reader (r ∷ rs) arg =
    let (rc, arg') = reader (r.header ++ r.payload) arg in
    let later = read_each reader rs arg' in if rc == 0 then later else (rc, arg')

module _ (format : KtraceFormat) (pos : 0 < format.header_size) {A : Type 0}
    (reader : RecordReader A) where
  read_records-trace :
      (rs : List (KtraceRecord format)) (fuel : ℕ) (arg : A)
      → length (trace_bytes rs) < fuel
      → read_records format reader fuel (trace_bytes rs) arg ≡ read_each reader rs arg
  unfolding read_records trace_bytes read_each
  read_records-trace rs zero arg h = absurd (omega arith)
  read_records-trace [] (suc fuel) arg h = rw (take-nil format.header_size) (ground arith)
  read_records-trace (r ∷ rs) (suc fuel) arg h =
      let left = r.payload ++ trace_bytes rs in
      let e1 = take-append format.header_size r.header left (sym r.full) in
      let e2 = drop-append format.header_size r.header left (sym r.full) in
      let n : format.len_of (field_at 0 4 r.header) - format.header_size ≡ length r.payload =
        omega (arith, r.long) in
      let e3 = take-append (length r.payload) r.payload (trace_bytes rs) refl in
      let e4 = drop-append (length r.payload) r.payload (trace_bytes rs) refl in
      let l1 = length-append r.header left in
      let l2 = length-append r.payload (trace_bytes rs) in
      rw e1 (
        rw e2 (
          rw n (
            rw e3 (
              rw e4 (
                rw (read_records-trace rs fuel (reader (r.header ++ r.payload) arg).1 (omega arith))
                  (ground arith))))))

  -- Of a trace that is written record by record, each with a header of the right size, a tag that is not zero,
  -- and the length that its tag gives: ReadFile calls the reader with the records, whole and in their
  -- order, up to the first for which the reader does not return zero, and returns what it returned.
  pub read_file-trace :
      (rs : List (KtraceRecord format)) (arg : A)
      → read_file format reader (trace_bytes rs) arg ≡ read_each reader rs arg
  unfolding read_file
  read_file-trace rs arg = read_records-trace rs (suc (length (trace_bytes rs))) arg (omega arith)
