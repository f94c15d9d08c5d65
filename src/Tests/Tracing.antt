-- ===== src/Tests/Tracing.antt =====
-- Tracing a program at concrete inputs.
use gdbserver.BuildIds.{max_line_len}
use gdbserver.Elf.BuildId.{decimal_digits}
use gdbserver.Base.{
  zero, suc, append_assoc, ◌/◌, inr, inl, length-append, Bool-cases, ◌≤◌, length, ltb, ◌^◌, ◌%◌,
  sym, ℕ, ◌+◌, ◌<◌, ◌≡◌, Bool, true, false, not, none, some, List, [], ◌∷◌, ◌++◌, Bytes, ◌==◌,
  if◌then◌else◌, codes, take, drop, refl, arith,
}
use gdbserver.Decoder.{DecoderState, absolute}
use gdbserver.Decoder.Sideband.{read_pt_list_file}
use gdbserver.Ipt.Listed.{listed, read_pt_list_file-listed}
use gdbserver.Ipt.Dump.{pt_list_line, pt_list_lines, get_cpu_pt_file_name, decimal}
use mathlib.Core.Option.{some-injective}
use gdbserver.Ipt.{Devices, BufferConfig}
use gdbserver.Ipt.Config.{
  IptConfig, AddrRange, default_config, ctl_msr, field, flag, filter_number, ctl_msr_fields,
}
use gdbserver.Ipt.Control.{
  set_perf_mode, init_cpu_perf, init_perf_pre_process, start_cpu_perf, stop_cpu_perf, stop_perf,
  reset_cpu_perf, reset_perf,
}
use gdbserver.Ipt.Closed.{DescriptorLaws, without}
use gdbserver.Ipt.Kept.{KeepsIf, world_of, control-Keeps}
use gdbserver.Ipt.Dump.{int_to_size, write_buffer_data, write_buffers, write_bytes, finish_file}
use gdbserver.Ipt.Copied.{CopyLaws}
use gdbserver.Ipt.Written.{EndsWith, write_buffer_data-EndsWith}

-- The open descriptors, and the file that is written.
abbrev pub World : Type 0
World = List ℕ × Bytes

abbrev pub buffer_config : Bool → BufferConfig
buffer_config is_circular = record {
  num_buffers = 2;
  buffer_order = 1;
  is_circular = is_circular;
  ctl = 0;
  cr3_match = 0;
  begin0 = 0;
  end0 = 0;
  begin1 = 0;
  end1 = 0;
}

-- Two buffers of two pages of two bytes.
abbrev pub buffer : ℕ → Bytes
buffer vmo = (vmo + 1) ∷ (vmo + 2) ∷ (vmo + 3) ∷ (vmo + 4) ∷ []

-- All calls succeed, but that a handle of a buffer can only be had if `present`. 4 bytes were traced at most.
abbrev pub devices_with : Bool → Bool → Devices World
devices_with is_circular present = record {
  open_ipt = λ w. ((5 ∷ w.0, w.1), some 5);
  open_ktrace = λ w. ((6 ∷ w.0, w.1), some 6);
  create_file = λ path w. ((7 ∷ w.0, []), some 7);
  close = λ fd w. (without fd w.0, w.1);
  get_ktrace_handle = λ fd w. (w, some 8);
  close_handle = λ handle w. w;
  duplicate_handle = λ handle w. (w, some 9);
  set_mode = λ fd mode w. (w, true);
  alloc_buffer = λ fd config w. (w, some 0);
  free_buffer = λ fd descriptor w. (w, true);
  cpu_mode_alloc = λ fd w. (w, true);
  cpu_mode_start = λ fd w. (w, false);
  cpu_mode_stop = λ fd w. (w, true);
  cpu_mode_free = λ fd w. (w, true);
  assign_buffer_thread = λ fd descriptor thread w. (w, true);
  release_buffer_thread = λ fd descriptor thread w. (w, true);
  ktrace_control = λ handle action w. (w, true);
  get_buffer_config = λ fd descriptor w. (w, some (buffer_config is_circular));
  get_buffer_info = λ fd descriptor w. (w, some 5);
  get_buffer_handle = λ fd descriptor i w. (w, if present then some (10 + i) else none);
  vmo_read = λ vmo offset n w. (w, some (take n (drop offset (buffer vmo))));
  read = λ fd n w. (w, some []);
  write = λ fd buf w. ((w.0, w.1 ++ buf), true);
}

abbrev pub devices : Devices World
devices = devices_with false true

abbrev pub descriptor_laws : DescriptorLaws devices
descriptor_laws = record {
  fds = λ w. w.0;
  open_ipt = λ w. refl;
  open_ktrace = λ w. refl;
  close = λ fd w. refl;
  get_ktrace_handle = λ fd w. refl;
  close_handle = λ handle w. refl;
  set_mode = λ fd mode w. refl;
  alloc_buffer = λ fd config w. refl;
  cpu_mode_alloc = λ fd w. refl;
  cpu_mode_start = λ fd w. refl;
  cpu_mode_stop = λ fd w. refl;
  cpu_mode_free = λ fd w. refl;
  ktrace_control = λ handle action w. refl;
}

abbrev pub range : AddrRange
range = record { elf = []; begin = 0; end = 0 }

abbrev pub config : IptConfig
config = default_config 2 range range

control-Keeps_example :
    ((set_perf_mode devices config ([], [])).0.0 ≡ [])
    × KeepsIf devices descriptor_laws
        (world_of devices descriptor_laws (init_cpu_perf devices config ([], [])))
        ([], [])
    × ((init_perf_pre_process devices ([], [])).0.0 ≡ [])
    × KeepsIf devices descriptor_laws
        (world_of devices descriptor_laws (start_cpu_perf devices config ([], [])))
        ([], [])
    × KeepsIf devices descriptor_laws (stop_cpu_perf devices config ([], [])) ([], [])
    × ((stop_perf devices ([], [])).0 ≡ [])
    × KeepsIf devices descriptor_laws (reset_cpu_perf devices config ([], [])) ([], [])
    × ((reset_perf devices ([], [])).0 ≡ [])
control-Keeps_example = control-Keeps devices descriptor_laws config ([], [])

abbrev copy_laws : CopyLaws devices 5 7 0
copy_laws = record {
  buffer = λ i. buffer (10 + i);
  vmo_bytes = buffer;
  file = λ w. w.1;
  get_buffer_handle = λ i w. (10 + i, refl, refl);
  handle_file = λ i w. refl;
  vmo_read = λ vmo offset n buf w h. sym (some-injective _ _ h);
  read_file = λ vmo offset n w. refl;
  write = λ buf w h. refl;
  close_handle = λ vmo w. refl;
  close_file = λ w. refl;
}

write_buffer_data-EndsWith_example :
    EndsWith devices 5 7 0 copy_laws 4
      (λ i. refl)
      2
      5
      (write_buffer_data devices 2 (codes "/t") 5 0 ([], []))
write_buffer_data-EndsWith_example =
    write_buffer_data-EndsWith devices 5 7 0 copy_laws 2 (codes "/t") (buffer_config false) 5
      ([], []) refl refl refl refl (omega arith) (omega arith) (λ i. refl)

-- Of eight bytes the five that were traced are written.
file_written :
    write_buffer_data devices 2 (codes "/t") 5 0 ([], [])
    ≡ some (([], 11 ∷ 12 ∷ 13 ∷ 14 ∷ 12 ∷ []), true)
unfolding write_buffer_data write_buffers write_bytes finish_file without int_to_size
file_written = refl

ctl_msr_fields_example :
    (field 1 1 (ctl_msr config) ≡ flag config.cyc 0)
    × (field 2 1 (ctl_msr config) ≡ flag config.os 0)
    × (field 3 1 (ctl_msr config) ≡ flag config.user 0)
    × (field 7 1 (ctl_msr config) ≡ flag (not (config.cr3_match == 0)) 0)
    × (field 9 1 (ctl_msr config) ≡ flag config.mtc 0)
    × (field 10 1 (ctl_msr config) ≡ flag config.tsc 0)
    × (field 11 1 (ctl_msr config) ≡ flag (not config.retc) 0)
    × (field 13 1 (ctl_msr config) ≡ flag config.branch 0)
    × (field 14 4 (ctl_msr config) ≡ config.mtc_freq % 16)
    × (field 19 4 (ctl_msr config) ≡ config.cyc_thresh % 16)
    × (field 24 4 (ctl_msr config) ≡ config.psb_freq % 16)
    × (field 32 4 (ctl_msr config) ≡ filter_number config.addr0)
    × (field 36 4 (ctl_msr config) ≡ filter_number config.addr1)
    × (field 0 1 (ctl_msr config) ≡ 0)
    × (field 4 3 (ctl_msr config) ≡ 0)
    × (field 8 1 (ctl_msr config) ≡ 0)
    × (field 12 1 (ctl_msr config) ≡ 0)
    × (field 18 1 (ctl_msr config) ≡ 0)
    × (field 23 1 (ctl_msr config) ≡ 0)
    × (field 28 4 (ctl_msr config) ≡ 0)
    × (ctl_msr config < 2 ^ 40)
ctl_msr_fields_example = ctl_msr_fields config

-- Branches, tsc, user and os are traced by default.
msr_default : ctl_msr config ≡ 0x240c
unfolding ctl_msr flag filter_number default_config
msr_default = refl

-- The digits of a number, and its line in the list.
length-decimal_digits : (k n : ℕ) (out : Bytes) → length (decimal_digits k n out) ≤ k + length out
unfolding decimal_digits
length-decimal_digits zero n out = omega arith
length-decimal_digits (suc k) n out = elim (Bool-cases (ltb n 10)) [
  | inl l ↦ rw l (omega arith)
  | inr l ↦ rw l (omega (arith, length-decimal_digits k (n / 10) ((b'0' + n % 10) ∷ out)))
]

-- A buffer that grows to what is needed.
abbrev grow : ℕ → ℕ → ℕ
grow size n = if ltb n size then size else n + 1

fits :
    (size cpu : ℕ)
    → size ≤ max_line_len
    → cpu < 2 ^ 64
    → grow size (length (pt_list_line (codes "/t") cpu)) ≤ max_line_len
unfolding pt_list_line get_cpu_pt_file_name
fits size cpu small h =
    let digits = length-decimal_digits 20 cpu [] in
    let a = length-append (decimal cpu) (codes " /t.cpu" ++ (decimal cpu ++ codes ".pt\n")) in
    let b = length-append (decimal cpu) (codes ".pt\n") in
    let e : codes ".pt" ++ codes "\n" ≡ codes ".pt\n" = refl in
    let f = append_assoc (decimal cpu) (codes ".pt") (codes "\n") in
    let short : length (pt_list_line (codes "/t") cpu) ≤ 60 = rw f (omega (arith, a, b, digits)) in
    ground (arith, short)

abbrev empty : DecoderState ℕ ℕ ℕ
empty = record {
  config = record { nom_freq = 0; family = 0; model = 0; stepping = 0; errata = []; trace = none };
  image = none;
  decoder = none;
  kernel_cr3 = 0;
  processes = [];
  load_maps = [];
  build_ids = [];
  pt_files = [];
  unknown_cr3s = [];
  symtabs = [];
}

read_pt_list_file-listed_example :
    read_pt_list_file grow (codes "/d") (some (pt_list_lines (codes "/t") 0 2)) empty
    ≡ (record empty { pt_files = listed (codes "/d") (codes "/t") 0 2 }, true)
read_pt_list_file-listed_example =
    read_pt_list_file-listed grow (codes "/d") b'/' (codes "t") 2 empty (ground arith) fits
      (omega arith)

two_listed :
    listed (codes "/d") (codes "/t") 0 2
    ≡ record { id = 0; file = codes "/t.cpu0.pt" }
      ∷ record { id = 1; file = codes "/t.cpu1.pt" }
      ∷ []
unfolding absolute get_cpu_pt_file_name decimal_digits
two_listed = refl
