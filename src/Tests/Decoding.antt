-- ===== src/Tests/Decoding.antt =====
-- The decoder of traces at concrete inputs.
use gdbserver.Base.{
  if◌then◌else◌, ◌-◌, ◌^◌, bytes_eq, ℕ, ◌+◌, ◌*◌, ◌%◌, ◌≡◌, true, none, some, List, [], ◌∷◌, ◌++◌,
  Bytes, refl, arith, codes,
}
use gdbserver.Registers.{le_bytes, le_word}
use gdbserver.Ktrace.{KtraceFormat}
use gdbserver.Ktrace.Records.{KtraceRecord, trace_bytes}
use gdbserver.Decoder.{
  Libraries, DecoderState, Process, lookup_process_by_pid, read_mem_callback, lookup_process_by_cr3,
  process_by_cr3, read_from_file, read_elf, tables_of,
}
use gdbserver.Decoder.Sideband.{Layout, read_ktrace_file}
use gdbserver.Decoder.Processes.{event, IsDistinct, lifetime, last_cr3, read_ktrace_file-trace}
use gdbserver.Decoder.Callback.{Answer, Ends, read_mem_callback-Answer}
use gdbserver.BuildIds.{lookup_build_id}
use gdbserver.LoadMaps.{lookup_load_map}

abbrev format : KtraceFormat
format = record { header_size = 16; len_of = λ tag. tag % 16 * 8 }

abbrev layout : Layout
layout = record {
  format = format;
  tag_ipt_start = 0x104;
  tag_ipt_cpu_info = 0x204;
  tag_ipt_stop = 0x302;
  tag_ipt_process_create = 0x404;
  tag_proc_exit = 0x504;
  ts_at = 8;
  a_at = 16;
  b_at = 20;
  c_at = 24;
  d_at = 28;
}

abbrev distinct : IsDistinct layout
distinct = record {
  create_start = omega arith;
  create_cpu = omega arith;
  create_stop = omega arith;
  exit_start = omega arith;
  exit_cpu = omega arith;
  exit_stop = omega arith;
  exit_create = omega arith;
}

-- A record with a tag, a time, and two numbers of 64 bits.
abbrev header : ℕ → ℕ → Bytes
header tag time = le_bytes 8 tag ++ le_bytes 8 time

abbrev payload : ℕ → ℕ → Bytes
payload low high = le_bytes 8 low ++ le_bytes 8 high

started : KtraceRecord format
unfolding le_bytes le_word
started = record {
  header = header 0x104 1;
  payload = payload 3 0x5000;
  full = refl;
  tagged = omega arith;
  long = refl;
}

created : KtraceRecord format
unfolding le_bytes le_word
created = record {
  header = header 0x404 5;
  payload = payload 7 0x9000;
  full = refl;
  tagged = omega arith;
  long = refl;
}

exited : KtraceRecord format
unfolding le_bytes le_word
exited = record {
  header = header 0x504 9;
  payload = payload 7 0;
  full = refl;
  tagged = omega arith;
  long = refl;
}

abbrev records : List (KtraceRecord format)
records = started ∷ created ∷ exited ∷ []

abbrev process : Process
process = record { pid = 7; cr3 = 0x9000; start_time = 5; end_time = 9 }

-- An image counts the files that were read; the file `gone` cannot be read.
abbrev lib : Libraries ℕ ℕ ℕ Bytes
lib = record {
  no_cr3 = 2 ^ 64 - 1;
  nomap = [];
  pt_image_alloc = λ name. 0;
  pt_image_read_for_callback = λ image size cr3 addr. image ∷ size ∷ addr ∷ [];
  read_elf = λ file base cr3 off size image.
      if bytes_eq file (codes "gone") then (image, none) else (image + 1, some (some base, none));
  read_non_pic_elf = λ file cr3 image. (image, none);
  pt_cpu_errata = λ family model stepping. [];
  pt_insn_alloc_decoder = λ config. some 0;
}

abbrev empty : DecoderState ℕ ℕ ℕ
empty = record {
  config = record { nom_freq = 0; family = 0; model = 0; stepping = 0; errata = []; trace = none };
  image = some 0;
  decoder = none;
  kernel_cr3 = 2 ^ 64 - 1;
  processes = [];
  load_maps = [];
  build_ids = [];
  pt_files = [];
  unknown_cr3s = [];
  symtabs = [];
}

read_ktrace_file-trace_example :
    (read_ktrace_file layout (some (trace_bytes records)) empty).1 ≡ true
    × (lookup_process_by_pid
          (read_ktrace_file layout (some (trace_bytes records)) empty).0.processes
          7
        ≡ lifetime layout 7 records (lookup_process_by_pid [] 7))
    × ((read_ktrace_file layout (some (trace_bytes records)) empty).0.kernel_cr3
        ≡ last_cr3 layout records (2 ^ 64 - 1))
read_ktrace_file-trace_example =
    read_ktrace_file-trace layout distinct (omega arith) 7 records empty

process_read : lifetime layout 7 records (lookup_process_by_pid [] 7) ≡ some process
unfolding lookup_process_by_pid lifetime event started created exited le_bytes le_word
process_read = refl

cr3_read : last_cr3 layout records (2 ^ 64 - 1) ≡ 0x5000
unfolding last_cr3 started created exited le_bytes le_word
cr3_read = refl

-- One process with one map, whose file is known.
abbrev known : DecoderState ℕ ℕ ℕ
known = record empty {
  processes = process ∷ [];
  load_maps =
      record {
        pid = 7;
        base_addr = 0x1000;
        load_addr = 0x1000;
        end_addr = 0x3000;
        name = codes "n";
        so_name = codes "s";
        build_id = codes "12";
      }
      ∷ [];
  build_ids = record { build_id = codes "12"; file = codes "/a" } ∷ [];
}

read_mem_callback-Answer_example :
    Ends (Answer lib 4 0x9000 0x2000 known) (read_mem_callback lib 4 0x9000 0x2000 known)
read_mem_callback-Answer_example = read_mem_callback-Answer lib 4 0x9000 0x2000 known 0 refl

code_read :
    read_mem_callback lib 4 0x9000 0x2000 known
    ≡ some (record known { image = some 1; symtabs = 0x1000 ∷ [] }, 1 ∷ 4 ∷ 0x2000 ∷ [])
unfolding read_mem_callback lookup_process_by_cr3 process_by_cr3 lookup_load_map lookup_build_id
    read_from_file read_elf tables_of bytes_eq
code_read = refl
