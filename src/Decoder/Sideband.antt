-- ===== src/Decoder/Sideband.antt =====
-- lib/intel-pt-decode/sideband.cc: what the decoder reads besides the trace: the kernel trace, load maps, build
-- ids, the list of trace files, and ELF files.
use gdbserver.Base.{
  ℕ, ◌+◌, ◌*◌, ◌^◌, ◌%◌, Bool, true, false, ◌||◌, Option, none, some, List, [], ◌∷◌, ◌++◌, Bytes,
  ◌==◌, bytes_eq, ltb, if◌then◌else◌, length, codes, take, ◌>>=◌,
}
use gdbserver.Elf.{field_at}
use gdbserver.ByteBlock.{c_string}
use gdbserver.Scanf.{scan_word, scan_decimal}
use gdbserver.BuildIds.{max_line_len, strip_newline, read_ids_file}
use gdbserver.LoadMaps.{read_log_listener_output}
use gdbserver.Ktrace.{KtraceFormat, RecordReader, read_file}
use gdbserver.Decoder.{
  Libraries, DecoderState, tables_of, add_process, mark_process_exited, add_pt_file,
}

-- magenta/ktrace.h and magenta/ktrace-def.h: the format of the records, the tags that are read, and where the time
-- stamp and the four words of ktrace_rec_32b are in a record. A tag holds the length of its records, so that they
-- all have these fields.
pub record Layout : Type 0 where
  pub format : KtraceFormat
  pub tag_ipt_start : ℕ
  pub tag_ipt_cpu_info : ℕ
  pub tag_ipt_stop : ℕ
  pub tag_ipt_process_create : ℕ
  pub tag_proc_exit : ℕ
  pub ts_at : ℕ
  pub a_at : ℕ
  pub b_at : ℕ
  pub c_at : ℕ
  pub d_at : ℕ

-- `low | ((uint64_t)high << 32)`
abbrev pub joined : ℕ → ℕ → ℕ
joined low high = low + high * 2 ^ 32

module _ (layout : Layout) where
  abbrev pub tag_of : Bytes → ℕ
  tag_of rec = field_at 0 4 rec

  abbrev pub ts : Bytes → ℕ
  ts rec = field_at layout.ts_at 8 rec

  -- The words a and b, and c and d, of a record as numbers of 64 bits.
  abbrev pub pid_of : Bytes → ℕ
  pid_of rec = joined (field_at layout.a_at 4 rec) (field_at layout.b_at 4 rec)

  abbrev pub cr3_of : Bytes → ℕ
  cr3_of rec = joined (field_at layout.c_at 4 rec) (field_at layout.d_at 4 rec)

  module _ {I S D : Type 0} where
    -- The cases TAG_IPT_START and TAG_IPT_CPU_INFO of ProcessKtraceRecord.
    unfoldable pub ipt_start : Bytes → DecoderState I S D → DecoderState I S D
    ipt_start rec s = record s {
      config = record s.config { nom_freq = field_at layout.a_at 4 rec % 2 ^ 8 };
      kernel_cr3 = cr3_of rec;
    }

    unfoldable pub ipt_cpu_info : Bytes → DecoderState I S D → DecoderState I S D
    ipt_cpu_info rec s = record s {
      config = record s.config {
        family = field_at layout.b_at 4 rec;
        model = field_at layout.c_at 4 rec;
        stepping = field_at layout.d_at 4 rec;
      };
    }

    -- What ProcessKtraceRecord does with a record.
    unfoldable pub apply_record : Bytes → DecoderState I S D → DecoderState I S D
    apply_record rec s =
        if tag_of rec == layout.tag_ipt_start
        then ipt_start rec s
        else if tag_of rec == layout.tag_ipt_cpu_info
        then ipt_cpu_info rec s
        else if tag_of rec == layout.tag_ipt_stop
        then s
        else if tag_of rec == layout.tag_ipt_process_create
        then add_process (pid_of rec) (cr3_of rec) (ts rec) s
        else if tag_of rec == layout.tag_proc_exit
        then record s { processes = mark_process_exited (pid_of rec) (ts rec) s.processes }
        else s

    -- ProcessKtraceRecord
    unfoldable pub process_ktrace_record : RecordReader (DecoderState I S D)
    process_ktrace_record rec s = (0, apply_record rec s)

    -- ReadKtraceFile; `none` is a file that cannot be opened.
    unfoldable pub read_ktrace_file : Option Bytes → DecoderState I S D → DecoderState I S D × Bool
    read_ktrace_file none s = (s, false)
    read_ktrace_file (some file) s =
        let (rc, s') = read_file layout.format process_ktrace_record file s in (s', rc == 0)

module _ {I S D : Type 0} where
  -- ReadMapFile; `none` is a write behind the end of a buffer.
  unfoldable pub read_map_file :
      Option (List Bytes × Bool) → DecoderState I S D → Option (DecoderState I S D × Bool)
  read_map_file file s = do
    (maps, read) ← read_log_listener_output file s.load_maps
    some (record s { load_maps = maps }, read)

  -- DecoderState::ReadIdsFile
  unfoldable pub read_ids :
      (ℕ → ℕ → ℕ) → Bytes → Option (List Bytes) → DecoderState I S D → DecoderState I S D × Bool
  read_ids grow abs_file_dir file s =
      let (build_ids, read) = read_ids_file grow abs_file_dir file s.build_ids in
      (record s { build_ids = build_ids }, read)

  -- A line of the list of trace files, without its newline: "%llu %s".
  unfoldable pub read_pt_line : Bytes → Bytes → DecoderState I S D → DecoderState I S D
  read_pt_line abs_file_dir text s =
      if bytes_eq text (10 ∷ []) || bytes_eq (take 1 text) (codes "#")
      then s
      else elim (scan_decimal 64 text) [
        | none ↦ s
        | some (id, rest) ↦ elim (scan_word rest) [
          | none ↦ s
          | some (path, _) ↦ add_pt_file abs_file_dir id path s
        ]
      ]

  -- The loop of ReadPtListFile, with the size of getline's buffer as in ReadIdsFile.
  unfoldable pub read_pt_lines :
      (ℕ → ℕ → ℕ) → Bytes → ℕ → List Bytes → DecoderState I S D → DecoderState I S D
  read_pt_lines grow abs_file_dir linelen [] s = s
  read_pt_lines grow abs_file_dir linelen (line ∷ lines) s =
      read_pt_lines grow abs_file_dir (grow linelen (length line)) lines (
        if ltb max_line_len (grow linelen (length line))
        then s
        else read_pt_line abs_file_dir (strip_newline (c_string line)) s)

  -- ReadPtListFile
  unfoldable pub read_pt_list_file :
      (ℕ → ℕ → ℕ) → Bytes → Option (List Bytes) → DecoderState I S D → DecoderState I S D × Bool
  read_pt_list_file grow abs_file_dir none s = (s, false)
  read_pt_list_file grow abs_file_dir (some lines) s =
      (read_pt_lines grow abs_file_dir 0 lines s, true)

-- ReadKernelElf; `none` is a failed FTL_DCHECK. A table of dynamic symbols is dropped.
module _ {I S D R : Type 0} (lib : Libraries I S D R) where
  unfoldable pub read_kernel_elf :
      Bytes → ℕ → DecoderState I S D → Option (DecoderState I S D × Bool)
  read_kernel_elf file cr3 s = elim s.image [
    | none ↦ none
    | some image ↦
        let (image', tables) = lib.read_non_pic_elf file cr3 image in
        let s' = record s { image = some image' } in
        elim tables [
          | none ↦ some (s', false)
          | some (symtab, dynsym) ↦
              some (record s' { symtabs = s.symtabs ++ tables_of (symtab, none) }, true)
        ]
  ]
