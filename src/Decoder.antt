-- ===== src/Decoder.antt =====
-- lib/intel-pt-decode/decoder.{h,cc}: what the decoder of a Processor Trace knows of processes, maps and
-- files, and how it finds the code at an address. Decoder.Sideband is about sideband.cc.
pub mod Sideband
pub mod Creation
pub mod Found
pub mod Callback
pub mod Processes
use gdbserver.Base.{
  ℕ, zero, suc, ◌+◌, ◌-◌, ◌^◌, ◌%◌, Bool, true, false, ◌&&◌, ◌||◌, Option, none, some, List, [],
  ◌∷◌, ◌++◌, Bytes, ◌==◌, bytes_eq, if◌then◌else◌, length, codes, is_empty, take,
}
use gdbserver.BuildIds.{BuildId, lookup_build_id}
use gdbserver.LoadMaps.{LoadMap, lookup_load_map}

-- The parts of pt_config that the code sets; `trace` is the file between `begin` and `end`.
pub record Config : Type 0 where
  pub nom_freq : ℕ
  pub family : ℕ
  pub model : ℕ
  pub stepping : ℕ
  pub errata : Bytes
  pub trace : Option Bytes

-- libipt and simple-pt. An image is filled by reading ELF files, which also give two symbol tables each, as far as
-- they have them; `none` is a failure. `pt_image_read_for_callback` reads `size` bytes of an image, and its
-- result R is the buffer with what the call returns; `nomap` is -pte_nomap with the buffer as it was.
pub record Libraries (I S D R : Type 0) : Type 0 where
  pub no_cr3 : ℕ
  pub nomap : R
  pub pt_image_alloc : Bytes → I
  pub pt_image_read_for_callback : I → ℕ → ℕ → ℕ → R
  pub read_elf : Bytes → ℕ → ℕ → ℕ → ℕ → I → I × Option (Option S × Option S)
  pub read_non_pic_elf : Bytes → ℕ → I → I × Option (Option S × Option S)
  pub pt_cpu_errata : ℕ → ℕ → ℕ → Bytes
  pub pt_insn_alloc_decoder : Config → Option D

-- Process; an end time of 0 is unknown.
pub record Process : Type 0 where
  pub pid : ℕ
  pub cr3 : ℕ
  pub start_time : ℕ
  pub end_time : ℕ

-- PtFile
pub record PtFile : Type 0 where
  pub id : ℕ
  pub file : Bytes

-- DecoderState; `none` is a null pointer. The set of unknown cr3s is a list without repetitions.
pub record DecoderState (I S D : Type 0) : Type 0 where
  pub config : Config
  pub image : Option I
  pub decoder : Option D
  pub kernel_cr3 : ℕ
  pub processes : List Process
  pub load_maps : List LoadMap
  pub build_ids : List BuildId
  pub pt_files : List PtFile
  pub unknown_cr3s : List ℕ
  pub symtabs : List S

-- LookupProcessByPid
unfoldable pub lookup_process_by_pid : List Process → ℕ → Option Process
lookup_process_by_pid [] pid = none
lookup_process_by_pid (p ∷ processes) pid =
    let later = lookup_process_by_pid processes pid in if p.pid == pid then some p else later

-- The loop of LookupProcessByCr3, where there are `size` processes.
unfoldable pub process_by_cr3 : ℕ → ℕ → List Process → ℕ → Option Process
process_by_cr3 no_cr3 size [] cr3 = none
process_by_cr3 no_cr3 size (p ∷ processes) cr3 =
    let later = process_by_cr3 no_cr3 size processes cr3 in
    if p.cr3 == cr3 then some p else if cr3 == no_cr3 && size == 1 then some p else later

-- LookupProcessByCr3
unfoldable pub lookup_process_by_cr3 : ℕ → List Process → ℕ → Option Process
lookup_process_by_cr3 no_cr3 processes cr3 = process_by_cr3 no_cr3 (length processes) processes cr3

-- `unknown_cr3s_.emplace(cr3)`
unfoldable pub emplace : ℕ → List ℕ → List ℕ
emplace cr3 [] = cr3 ∷ []
emplace cr3 (c ∷ cr3s) = let rest = emplace cr3 cr3s in if c == cr3 then c ∷ cr3s else c ∷ rest

-- MarkProcessExited, for the first process with the id. It always returns true.
unfoldable pub mark_process_exited : ℕ → ℕ → List Process → List Process
mark_process_exited pid end_time [] = []
mark_process_exited pid end_time (p ∷ processes) =
    let rest = mark_process_exited pid end_time processes in
    if p.pid == pid then record p { end_time = end_time } ∷ processes else p ∷ rest

-- The path of AddPtFile; `abs_file_dir` is what lib/ftl makes of the directory.
unfoldable pub absolute : Bytes → Bytes → Bytes
absolute abs_file_dir [] = abs_file_dir ++ codes "/"
absolute abs_file_dir (c ∷ path) =
    if c == b'/' then c ∷ path else abs_file_dir ++ (codes "/" ++ c ∷ path)

-- The symbol tables that a file has, in the order in which they are added.
unfoldable pub tables_of {ℓ} : {S : Type ℓ} → Option S × Option S → List S
tables_of (none, none) = []
tables_of (none, some dynsym) = dynsym ∷ []
tables_of (some symtab, none) = symtab ∷ []
tables_of (some symtab, some dynsym) = symtab ∷ dynsym ∷ []

module _ {I S D : Type 0} where
  -- AddProcess
  unfoldable pub add_process : ℕ → ℕ → ℕ → DecoderState I S D → DecoderState I S D
  add_process pid cr3 start_time s = record s {
    processes =
        s.processes ++ record { pid = pid; cr3 = cr3; start_time = start_time; end_time = 0 } ∷ [];
  }

  -- AddPtFile
  unfoldable pub add_pt_file : Bytes → ℕ → Bytes → DecoderState I S D → DecoderState I S D
  add_pt_file abs_file_dir id path s = record s {
    pt_files = s.pt_files ++ record { id = id; file = absolute abs_file_dir path } ∷ [];
  }

  -- FreeDecoder; `none` is a failed FTL_DCHECK. The trace stays mapped.
  unfoldable pub free_decoder : DecoderState I S D → Option (DecoderState I S D)
  free_decoder s = elim s.decoder [ none ↦ none | some d ↦ some (record s { decoder = none }) ]

module _ {I S D R : Type 0} (lib : Libraries I S D R) where
  -- ReadElf (sideband.cc); `none` is a failed FTL_DCHECK.
  unfoldable pub read_elf :
      Bytes → ℕ → ℕ → ℕ → ℕ → DecoderState I S D → Option (DecoderState I S D × Bool)
  read_elf file base cr3 file_off map_len s = elim s.image [
    | none ↦ none
    | some image ↦
        let (image', tables) = lib.read_elf file base cr3 file_off map_len image in
        let s' = record s { image = some image' } in
        elim tables [
          | none ↦ some (s', false)
          | some pair ↦ some (record s' { symtabs = s.symtabs ++ tables_of pair }, true)
        ]
  ]

  -- The end of ReadMemCallback: the ELF file of a map is read, then the image.
  unfoldable pub read_from_file :
      ℕ → ℕ → ℕ → LoadMap → Bytes → DecoderState I S D → Option (DecoderState I S D × R)
  read_from_file size cr3 addr map file s =
      if is_empty file
      then some (s, lib.nomap)
      else elim (read_elf file map.base_addr cr3 0
          ((map.end_addr + 2 ^ 64 - map.load_addr) % 2 ^ 64) s) [
            | none ↦ none
            | some (s', false) ↦ some (s', lib.nomap)
            | some (s', true) ↦ elim s'.image [
              | none ↦ none
              | some image ↦ some (s', lib.pt_image_read_for_callback image size cr3 addr)
            ]
          ]

  -- ReadMemCallback: `size` bytes at an address in the address space of `cr3`.
  unfoldable pub read_mem_callback :
      ℕ → ℕ → ℕ → DecoderState I S D → Option (DecoderState I S D × R)
  read_mem_callback size cr3 addr s = elim (lookup_process_by_cr3 lib.no_cr3 s.processes cr3) [
    | none ↦ some (record s { unknown_cr3s = emplace cr3 s.unknown_cr3s }, lib.nomap)
    | some proc ↦ elim (lookup_load_map s.load_maps proc.pid addr) [
      | none ↦ some (s, lib.nomap)
      | some map ↦ elim (lookup_build_id s.build_ids map.build_id) [
        | none ↦ some (s, lib.nomap)
        | some bid ↦ read_from_file size cr3 addr map bid.file s
      ]
    ]
  ]

  -- AllocImage; `none` is a failed FTL_DCHECK.
  unfoldable pub alloc_image : Bytes → DecoderState I S D → Option (DecoderState I S D)
  alloc_image name s = elim s.image [
    | none ↦ some (record s { image = some (lib.pt_image_alloc name) })
    | some image ↦ none
  ]

  -- The errata of the cpu: all are set if none of the first four bytes is.
  unfoldable pub errata_of : Config → Bytes
  errata_of config =
      let errata = lib.pt_cpu_errata config.family config.model config.stepping in
      if bytes_eq (take 4 errata) (0 ∷ 0 ∷ 0 ∷ 0 ∷ []) then all_set errata else errata
    where
      all_set : Bytes → Bytes
      all_set [] = []
      all_set (b ∷ bytes) = 0xff ∷ all_set bytes

  -- AllocDecoder, on the file that MmapFile maps, or not. `none` is a failed FTL_DCHECK.
  unfoldable pub alloc_decoder :
      Option Bytes → DecoderState I S D → Option (DecoderState I S D × Bool)
  alloc_decoder file s =
      let s' = record s { config = record s.config { errata = errata_of s.config } } in
      elim s.decoder [
        | some d ↦ none
        | none ↦ elim file [
          | none ↦ some (s', false)
          | some trace ↦
              let s'' = record s' { config = record s'.config { trace = some trace } } in
              elim (lib.pt_insn_alloc_decoder s''.config) [
                | none ↦ some (s'', false)
                | some d ↦ some (record s'' { decoder = some d }, true)
              ]
        ]
      ]
