-- ===== src/Ipt/Listed.antt =====
-- The list of trace files: DumpPerf in bin/ipt/control.cc, and ReadPtListFile in lib/intel-pt-decode/sideband.cc.
use gdbserver.Base.{
  append-nil, subst, All-map, ℕ, zero, suc, ◌+◌, ◌/◌, ◌%◌, ◌^◌, ◌<◌, ◌≤◌, ◌≡◌, ◌≢◌, true, false,
  some, List, [], ◌∷◌, ◌++◌, Bytes, ◌==◌, ltb, arith, refl, length, codes, All, All-append,
  append_assoc, sym, ap, ◌∙◌, bytes_eq, Bool-cases, inl, inr,
}
use gdbserver.Argv.{skip_spaces, word, after_word}
use gdbserver.ByteBlock.{c_string}
use gdbserver.BuildIds.{strip_newline, max_line_len}
use gdbserver.Scanf.{scan_decimal, scan_word}
use gdbserver.Elf.BuildId.{decimal_digits}
use gdbserver.Decoder.{absolute, PtFile, DecoderState, add_pt_file}
use gdbserver.Decoder.Sideband.{read_pt_list_file, read_pt_line, read_pt_lines}
use gdbserver.Ipt.Dump.{decimal, get_cpu_pt_file_name, pt_list_line, pt_list_lines}
use gdbserver.Ipt.Numerals.{IsPlain, decimal_digits-first, decimal_digits-All, scan_decimal-decimal}

decimal_digits-append :
    (k n : ℕ) (out more : Bytes) → decimal_digits k n (out ++ more) ≡ decimal_digits k n out ++ more
unfolding decimal_digits
decimal_digits-append zero n out more = refl
decimal_digits-append (suc k) n out more = elim (Bool-cases (ltb n 10)) [
  | inl l ↦ rw l refl
  | inr l ↦ rw l (decimal_digits-append k (n / 10) ((b'0' + n % 10) ∷ out) more)
]

c_string-plain : (s : Bytes) → All (λ c. c ≢ 0) s → c_string s ≡ s
unfolding c_string
c_string-plain [] h = refl
c_string-plain (c ∷ s) (n, h) =
    let z : (c == 0) ≡ false = ground arith in rw z (ap (◌∷◌ c) (c_string-plain s h))

strip_newline-append : (s : Bytes) → strip_newline (s ++ 10 ∷ []) ≡ s
unfolding strip_newline
strip_newline-append [] = refl
strip_newline-append (c ∷ []) = ground arith
strip_newline-append (c ∷ d ∷ s) = ground (arith, strip_newline-append (d ∷ s))

word-plain : (s : Bytes) → All IsPlain s → word s ≡ s
unfolding word
word-plain [] h = refl
word-plain (c ∷ s) ((n, p), h) = rw p (ap (◌∷◌ c) (word-plain s h))

scan_word-plain :
    (c : ℕ) (s : Bytes)
    → All IsPlain (c ∷ s)
    → (rest : Bytes) × (scan_word (b' ' ∷ c ∷ s) ≡ some (c ∷ s, rest))
unfolding scan_word skip_spaces
scan_word-plain c s ((n, p), h) = (after_word s, rw (p, scan_word) (rw (word-plain s h) refl))

-- A name of a trace file is plain if its prefix is.
get_cpu_pt_file_name-All :
    (prefix : Bytes) (cpu : ℕ)
    → cpu < 2 ^ 64
    → All IsPlain prefix
    → All IsPlain (get_cpu_pt_file_name prefix cpu)
unfolding get_cpu_pt_file_name
get_cpu_pt_file_name-All prefix cpu h a =
    let digits = decimal_digits-All 20 cpu [] (omega arith) (omega arith) tt in
    let dot_cpu : All IsPlain (codes ".cpu") = ground arith in
    let dot_pt : All IsPlain (codes ".pt") = ground arith in
    All-append IsPlain prefix _ a (
      All-append IsPlain (codes ".cpu") _ dot_cpu
        (All-append IsPlain (decimal cpu) _ digits dot_pt))

-- The trace files of the cpus from `cpu` on, of which there are `count`.
abbrev pub listed : Bytes → Bytes → ℕ → ℕ → List PtFile
listed dir prefix cpu zero = []
listed dir prefix cpu (suc count) =
    record { id = cpu; file = absolute dir (get_cpu_pt_file_name prefix cpu) }
    ∷ listed dir prefix (cpu + 1) count

module _ (c : ℕ) (prefix : Bytes) (plain : All IsPlain (c ∷ prefix)) where
  abbrev name : ℕ → Bytes
  name cpu = get_cpu_pt_file_name (c ∷ prefix) cpu

  -- A line without its newline.
  abbrev text : ℕ → Bytes
  text cpu = decimal_digits 20 cpu (b' ' ∷ name cpu)

  stripped :
      (cpu : ℕ) → cpu < 2 ^ 64 → strip_newline (c_string (pt_list_line (c ∷ prefix) cpu)) ≡ text cpu
  unfolding pt_list_line
  stripped cpu h =
      let a = decimal_digits-append 20 cpu [] (b' ' ∷ name cpu) in
      let line : pt_list_line (c ∷ prefix) cpu ≡ text cpu ++ 10 ∷ [] =
        sym (append_assoc (decimal cpu) (b' ' ∷ name cpu) (10 ∷ []))
        ∙ ap (λ t. t ++ 10 ∷ []) (sym a) in
      let digits = decimal_digits-All 20 cpu [] (omega arith) (omega arith) tt in
      let named = get_cpu_pt_file_name-All (c ∷ prefix) cpu h plain in
      let whole : All (λ b. b ≢ 0) (decimal cpu ++ b' ' ∷ name cpu) =
        All-append (λ b. b ≢ 0) (decimal cpu) (b' ' ∷ name cpu)
          (All-map (λ b q. q.0) (decimal cpu) digits)
          (omega arith, All-map (λ b q. q.0) (name cpu) named) in
      let all =
        All-append (λ b. b ≢ 0) (text cpu) (10 ∷ []) (subst (λ t. All (λ b. b ≢ 0) t) (sym a) whole)
          (omega arith, tt) in
      ap (λ t. strip_newline (c_string t)) line
      ∙ (ap strip_newline (c_string-plain (text cpu ++ 10 ∷ []) all)
          ∙ strip_newline-append (text cpu))

  module _ {I S D : Type 0} (dir : Bytes) where
    read_pt_line-scanned :
        (x : ℕ) (rest : Bytes) (id : ℕ) (r path left : Bytes) (s : DecoderState I S D)
        → x ≢ 10
        → x ≢ b'#'
        → scan_decimal 64 (x ∷ rest) ≡ some (id, r)
        → scan_word r ≡ some (path, left)
        → read_pt_line dir (x ∷ rest) s ≡ add_pt_file dir id path s
    unfolding read_pt_line bytes_eq
    read_pt_line-scanned x rest id r path left s n m e w =
        let f : (x == 10) ≡ false = ground arith in
        let g : (x == b'#') ≡ false = ground arith in rw (f, read_pt_line) (rw g (rw e (rw w refl)))

    read_pt_line-text :
        (cpu : ℕ) (s : DecoderState I S D)
        → cpu < 2 ^ 64
        → read_pt_line dir (text cpu) s ≡ add_pt_file dir cpu (name cpu) s
    unfolding get_cpu_pt_file_name
    read_pt_line-text cpu s h =
        let (d, rest, small, e) =
          decimal_digits-first 20 cpu (b' ' ∷ name cpu) (omega arith) (omega arith) in
        let n = scan_decimal-decimal cpu (name cpu) h in
        let (left, w) = scan_word-plain c _ (get_cpu_pt_file_name-All (c ∷ prefix) cpu h plain) in
        ap (λ t. read_pt_line dir t s) e
        ∙ read_pt_line-scanned (b'0' + d) rest cpu (b' ' ∷ name cpu) (name cpu) left s (omega arith)
            (omega arith) (rw e at n) w

    read_pt_lines-listed :
        (grow : ℕ → ℕ → ℕ) (size cpu count : ℕ) (s : DecoderState I S D)
        → ((size cpu : ℕ)
            → size ≤ max_line_len
            → cpu < 2 ^ 64
            → grow size (length (pt_list_line (c ∷ prefix) cpu)) ≤ max_line_len)
        → size ≤ max_line_len
        → cpu + count ≤ 2 ^ 64
        → read_pt_lines grow dir size (pt_list_lines (c ∷ prefix) cpu count) s
          ≡ record s { pt_files = s.pt_files ++ listed dir (c ∷ prefix) cpu count }
    unfolding read_pt_lines pt_list_lines add_pt_file
    read_pt_lines-listed grow size cpu zero s fits small h =
        ap (λ files. record s { pt_files = files }) (sym (append-nil s.pt_files))
    read_pt_lines-listed grow size cpu (suc count) s fits small h =
        let next = grow size (length (pt_list_line (c ∷ prefix) cpu)) in
        let b = fits size cpu small (omega arith) in
        let t : ltb max_line_len next ≡ false = ground arith in
        let one =
          ap (λ t. read_pt_line dir t s) (stripped cpu (omega arith))
          ∙ read_pt_line-text cpu s (omega arith) in
        let rest =
          read_pt_lines-listed grow next (cpu + 1) count (add_pt_file dir cpu (name cpu) s) fits b
            (omega arith) in
        rw (t, read_pt_lines, pt_list_lines)
          (ap (λ s'. read_pt_lines grow dir next (pt_list_lines (c ∷ prefix) (cpu + 1) count) s')
              one
            ∙ (rest
                ∙ ap (λ files. record s { pt_files = files })
                    (append_assoc s.pt_files
                      (record { id = cpu; file = absolute dir (name cpu) } ∷ [])
                      (listed dir (c ∷ prefix) (cpu + 1) count))))

-- The list of the trace files of up to 2 ^ 64 cpus, which bin/ipt writes for a prefix that is not empty, without white space and null bytes, and
-- whose lines fit in the buffer of getline while that is no larger than MAX_LINE_LEN: the decoder reads it back, as one
-- entry for each cpu, in their order, with the number of the cpu and the path of its file.
pub read_pt_list_file-listed :
    {I S D : Type 0} (grow : ℕ → ℕ → ℕ) (dir : Bytes) (c : ℕ) (prefix : Bytes) (count : ℕ)
    (s : DecoderState I S D)
    → All IsPlain (c ∷ prefix)
    → ((size cpu : ℕ)
        → size ≤ max_line_len
        → cpu < 2 ^ 64
        → grow size (length (pt_list_line (c ∷ prefix) cpu)) ≤ max_line_len)
    → count ≤ 2 ^ 64
    → read_pt_list_file grow dir (some (pt_list_lines (c ∷ prefix) 0 count)) s
      ≡ (record s { pt_files = s.pt_files ++ listed dir (c ∷ prefix) 0 count }, true)
unfolding read_pt_list_file
read_pt_list_file-listed grow dir c prefix count s plain fits h =
    ap (λ s'. (s', true))
      (read_pt_lines-listed c prefix plain dir grow 0 0 count s fits (omega arith) (omega arith))
