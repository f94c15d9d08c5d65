-- ===== src/Decoder/Creation.antt =====
-- DecoderState::Create (lib/intel-pt-decode/decoder.cc): the order in which the files are read.
use gdbserver.Base.{
  then_step, ◌-◌, ◌^◌, ℕ, Bool, true, false, Option, none, some, List, [], ◌∷◌, Bytes, codes,
  is_empty, ◌&&◌, if◌then◌else◌,
}
use gdbserver.Decoder.{Libraries, DecoderState, Config, alloc_image, read_elf, add_pt_file}
use gdbserver.Decoder.Sideband.{
  Layout, read_ktrace_file, read_map_file, read_ids, read_pt_list_file, read_kernel_elf,
}

-- DecoderConfig
pub record DecoderConfig : Type 0 where
  pub kernel_file_name : Bytes
  pub kernel_cr3 : ℕ
  pub pt_file_name : Bytes
  pub pt_list_file_name : Bytes
  pub ktrace_file_name : Bytes
  pub elf_file_names : List Bytes
  pub ids_file_names : List Bytes
  pub map_file_names : List Bytes

-- The files, by their names: the bytes of one, and its lines, with whether they end at the end of the
-- file; getline's buffer; and what lib/ftl makes of the directory of a file.
pub record Files : Type 0 where
  pub bytes : Bytes → Option Bytes
  pub lines : Bytes → Option (List Bytes × Bool)
  pub grow : ℕ → ℕ → ℕ
  pub current_directory : Bytes
  pub directory : Bytes → Bytes

-- PtFile::kIdUnset
abbrev pub id_unset : ℕ
id_unset = 2 ^ 64 - 1

-- The lines that a loop over getline sees.
abbrev pub lines_read : Option (List Bytes × Bool) → Option (List Bytes)
lines_read file = elim file [ none ↦ none | some (lines, whole) ↦ some lines ]

module _ {I S D R : Type 0} (lib : Libraries I S D R) (layout : Layout) (files : Files) where
  -- A step of Create: the state, and whether it is to go on. `none` is a stop of the program.
  abbrev pub Step : Type 0
  Step = DecoderState I S D → Option (DecoderState I S D × Bool)

  -- A step for each name, in their order.
  unfoldable pub for_each : (Bytes → Step) → List Bytes → Step
  for_each step [] s = some (s, true)
  for_each step (name ∷ names) s = then_step (for_each step names) (step name s)

  abbrev pub read_map : Bytes → Step
  read_map name s = read_map_file (files.lines name) s

  abbrev pub read_ids_of : Bytes → Step
  read_ids_of name s =
      some (read_ids files.grow (files.directory name) (lines_read (files.lines name)) s)

  -- The trace file, or the list of trace files.
  unfoldable pub read_pt_files : DecoderConfig → Step
  read_pt_files config s =
      if is_empty config.pt_file_name
      then some (
          read_pt_list_file files.grow (files.directory config.pt_list_file_name)
            (lines_read (files.lines config.pt_list_file_name)) s)
      else some (add_pt_file files.current_directory id_unset config.pt_file_name s, true)

  abbrev pub read_elf_of : Bytes → Step
  read_elf_of name s = read_elf lib name 0 0 0 0 s

  -- The kernel, if it is given.
  unfoldable pub read_kernel : DecoderConfig → Step
  read_kernel config s =
      if is_empty config.kernel_file_name
      then some (s, true)
      else read_kernel_elf lib config.kernel_file_name config.kernel_cr3
          (record s { kernel_cr3 = config.kernel_cr3 })

  -- A new state, whose configuration is as pt_config_init leaves it.
  abbrev pub fresh : Config → DecoderState I S D
  fresh config = record {
    config = config;
    image = none;
    decoder = none;
    kernel_cr3 = lib.no_cr3;
    processes = [];
    load_maps = [];
    build_ids = [];
    pt_files = [];
    unknown_cr3s = [];
    symtabs = [];
  }

  -- All that Create reads, from the kernel trace on.
  unfoldable pub read_all : DecoderConfig → Step
  read_all config s = then_step (read_kernel config) (
      then_step (for_each read_elf_of config.elf_file_names) (
        then_step (read_pt_files config) (
          then_step (for_each read_ids_of config.ids_file_names) (
            then_step (for_each read_map config.map_file_names)
              (some (read_ktrace_file layout (files.bytes config.ktrace_file_name) s))))))

  -- Create. The result is `some none` for a null pointer, and `none` if a check fails.
  unfoldable pub create : Config → DecoderConfig → Option (Option (DecoderState I S D))
  create init config =
      if is_empty config.pt_file_name && is_empty config.pt_list_file_name
      then none
      else if is_empty config.ktrace_file_name
      then none
      else elim (alloc_image lib (codes "ipt-dump") (fresh init)) [
        | none ↦ none
        | some s ↦ elim (read_all config s) [
          | none ↦ none
          | some (s', false) ↦ some none
          | some (s', true) ↦ some (some s')
        ]
      ]
