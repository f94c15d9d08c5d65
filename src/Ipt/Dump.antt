-- ===== src/Ipt/Dump.antt =====
-- bin/ipt/control.cc: writing the trace buffers to files (WriteBufferData, DumpCpuPerf, DumpThreadPerf), and the
-- list of the files (DumpPerf).
use gdbserver.Base.{
  ℕ, zero, suc, ◌+◌, ◌*◌, ◌-◌, ◌^◌, ◌%◌, Bool, true, false, ◌||◌, Option, none, some, List, [], ◌∷◌,
  ◌++◌, Bytes, ◌==◌, ltb, min, if◌then◌else◌, codes, is_empty,
}
use gdbserver.Elf.BuildId.{decimal_digits}
use gdbserver.Ipt.{BufferConfig, Devices, Opened, with_devices, with_ipt}
use gdbserver.Ipt.Config.{IptConfig}
use gdbserver.Ipt.Control.{is_cpus}

-- A number of at most 64 bits as printf writes it.
abbrev pub decimal : ℕ → Bytes
decimal n = decimal_digits 20 n []

-- GetCpuPtFileName and GetThreadPtFileName
unfoldable pub get_cpu_pt_file_name : Bytes → ℕ → Bytes
get_cpu_pt_file_name prefix id = prefix ++ (codes ".cpu" ++ (decimal id ++ codes ".pt"))

unfoldable pub get_thread_pt_file_name : Bytes → ℕ → Bytes
get_thread_pt_file_name prefix id = prefix ++ (codes ".thr" ++ (decimal id ++ codes ".pt"))

-- The list of the trace files of the cpus from `cpu` on, as DumpPerf writes it, line by line.
unfoldable pub pt_list_line : Bytes → ℕ → Bytes
pt_list_line prefix cpu =
    decimal cpu ++ (codes " " ++ (get_cpu_pt_file_name prefix cpu ++ codes "\n"))

unfoldable pub pt_list_lines : Bytes → ℕ → ℕ → List Bytes
pt_list_lines prefix cpu zero = []
pt_list_lines prefix cpu (suc count) =
    pt_list_line prefix cpu ∷ pt_list_lines prefix (cpu + 1) count

-- How the loops of WriteBufferData end: with the bytes that are left, or at the label Fail, with whether the
-- status is NO_ERROR.
pub data Outcome : Type 0 where
  finished : ℕ → Outcome
  failed : Bool → Outcome

-- `buf`, the bytes that are copied at a time.
abbrev pub buf_size : ℕ
buf_size = 4096

-- An int of 32 bits, from a product of ints that wraps around, as a size_t.
unfoldable pub int_to_size : ℕ → ℕ
int_to_size n = let int = n % 2 ^ 32 in if ltb int (2 ^ 31) then int else 2 ^ 64 - 2 ^ 32 + int

-- The text of a file that is written line by line.
unfoldable pub concat : List Bytes → Bytes
concat [] = []
concat (line ∷ lines) = line ++ concat lines

module _ {W : Type 0} (devices : Devices W) where
  -- The inner loop, over the bytes of one buffer: each round copies one at least, so that as much fuel as bytes
  -- remain is enough.
  unfoldable pub write_bytes : ℕ → ℕ → ℕ → ℕ → ℕ → ℕ → W → W × Outcome
  write_bytes zero fd vmo offset remaining left w = (w, finished left)
  write_bytes (suc fuel) fd vmo offset remaining left w =
      let to_write = min (min buf_size remaining) left in
      let (w1, bytes) = devices.vmo_read vmo offset to_write w in
      if remaining == 0 || left == 0 then (w, finished left) else elim bytes [
        | none ↦ (w1, failed false)
        | some buf ↦
            let (w2, written) = devices.write fd buf w1 in
            let later =
              write_bytes fuel fd vmo (offset + to_write) (remaining - to_write) (left - to_write)
                w2 in
            if written then later else (w2, failed false)
      ]

  -- The loop over the buffers from `i` on, of which `count` are left. Where the handle of a buffer cannot be had, the
  -- status is still NO_ERROR.
  unfoldable pub write_buffers : ℕ → ℕ → ℕ → ℕ → ℕ → ℕ → ℕ → W → W × Outcome
  write_buffers zero ipt_fd fd descriptor size i left w = (w, finished left)
  write_buffers (suc count) ipt_fd fd descriptor size i left w =
      if left == 0
      then (w, finished left)
      else (let (w1, handle) = devices.get_buffer_handle ipt_fd descriptor i w in
          elim handle [
            | none ↦ (w1, failed true)
            | some vmo ↦
                let (w2, outcome) = write_bytes size fd vmo 0 size left w1 in
                let w3 = devices.close_handle vmo w2 in
                elim outcome [
                  | failed status ↦ (w3, failed status)
                  | finished left' ↦ write_buffers count ipt_fd fd descriptor size (i + 1) left' w3
                ]
          ])

  -- The end of WriteBufferData: whether the status is NO_ERROR; `none` is a failed assert.
  unfoldable pub finish_file : ℕ → W × Outcome → Option (W × Bool)
  finish_file fd (w, failed status) = some (devices.close fd w, status)
  finish_file fd (w, finished left) = if left == 0 then some (devices.close fd w, true) else none

  module _ (page_size : ℕ) where
    -- The size of a buffer is an int, here one of 32 bits that wraps around, and then a size_t.
    abbrev pub buffer_size : BufferConfig → ℕ
    buffer_size config = int_to_size (2 ^ config.buffer_order * page_size)

    -- The size of what is to be written.

    abbrev pub bytes_left : BufferConfig → ℕ → ℕ
    bytes_left config capture_end =
        if config.is_circular then config.num_buffers * buffer_size config % 2 ^ 64 else capture_end

    -- WriteBufferData, for the file of a path.
    unfoldable pub write_buffer_data : Bytes → ℕ → ℕ → W → Option (W × Bool)
    write_buffer_data path ipt_fd descriptor w =
        let (w1, config) = devices.get_buffer_config ipt_fd descriptor w in
        elim config [
          | none ↦ some (w1, false)
          | some config ↦
              let (w2, info) = devices.get_buffer_info ipt_fd descriptor w1 in
              elim info [
                | none ↦ some (w2, false)
                | some capture_end ↦
                    let (w3, file) = devices.create_file path w2 in
                    elim file [
                      | none ↦ some (w3, false)
                      | some fd ↦ finish_file fd (
                          write_buffers config.num_buffers ipt_fd fd descriptor (buffer_size config)
                            0 (bytes_left config capture_end) w3)
                    ]
              ]
        ]

    -- The loop of DumpCpuPerf over the cpus from `cpu` on, whatever the results are.
    unfoldable pub dump_cpus : Bytes → ℕ → ℕ → ℕ → W → Option W
    dump_cpus prefix ipt_fd cpu zero w = some w
    dump_cpus prefix ipt_fd cpu (suc count) w =
        elim (write_buffer_data (get_cpu_pt_file_name prefix cpu) ipt_fd cpu w) [
          | none ↦ none
          | some (w', status) ↦ dump_cpus prefix ipt_fd (cpu + 1) count w'
        ]

    -- The end of the scope of the descriptor, if the program has not stopped.
    abbrev pub or_stop : Option W → W → W × Option Bool
    or_stop result w = elim result [ none ↦ (w, none) | some w' ↦ (w', some true) ]

    -- DumpCpuPerf; a failed check or assert stops the program, here and below.
    unfoldable pub dump_cpu_perf : IptConfig → W → Option W
    dump_cpu_perf config w =
        if is_cpus config.mode
        then (let (w', ended) =
              with_ipt devices (some false)
                (λ fd w. or_stop (dump_cpus config.output_path_prefix fd 0 config.num_cpus w) w)
                w in
            elim ended [ none ↦ none | some _ ↦ some w' ])
        else none

    -- DumpThreadPerf, for the thread with an id and its buffer.
    unfoldable pub dump_thread_perf : IptConfig → ℕ → Option ℕ → W → Option W
    dump_thread_perf config id none w = if is_cpus config.mode then none else some w
    dump_thread_perf config id (some descriptor) w =
        if is_cpus config.mode
        then none
        else (let (w', ended) =
              with_ipt devices (some false)
                (λ fd w.
                  elim (write_buffer_data (get_thread_pt_file_name config.output_path_prefix id) fd
                    descriptor w) [ none ↦ (w, none) | some (w', status) ↦ (w', some true) ])
                w in
            elim ended [ none ↦ none | some _ ↦ some w' ])

  -- The loop of DumpPerf that copies the records of ktrace. It ends when nothing is read, but goes on after an error:
  -- `none` is that the fuel ran out. A failed write is only logged.
  unfoldable pub copy_ktrace : ℕ → ℕ → ℕ → W → Option W
  copy_ktrace zero ktrace_fd dest_fd w = none
  copy_ktrace (suc fuel) ktrace_fd dest_fd w =
      let (w', bytes) = devices.read ktrace_fd 1024 w in
      elim bytes [
        | none ↦ copy_ktrace fuel ktrace_fd dest_fd w'
        | some buf ↦
            let later = copy_ktrace fuel ktrace_fd dest_fd (devices.write dest_fd buf w').0 in
            if is_empty buf then some w' else later
      ]

  -- A file with some bytes, if it can be created.
  unfoldable pub write_file : Bytes → Bytes → W → W
  write_file path bytes w =
      let (w', file) = devices.create_file path w in
      elim file [ none ↦ w' | some fd ↦ devices.close fd (devices.write fd bytes w').0 ]

  -- The first part of DumpPerf, once ktrace is open.
  unfoldable pub dump_ktrace : ℕ → Bytes → Opened → W → W × Option Bool
  dump_ktrace fuel prefix fds w = elim fds.ktrace_fd [
    | none ↦ (w, none)
    | some ktrace_fd ↦
        let (w', file) = devices.create_file (prefix ++ codes ".ktrace") w in
        elim file [
          | none ↦ (w', some true)
          | some dest_fd ↦ elim (copy_ktrace fuel ktrace_fd dest_fd w') [
            | none ↦ (w', none)
            | some w'' ↦ (devices.close dest_fd w'', some true)
          ]
        ]
  ]

  -- The rest of DumpPerf: the file of the cpu, which begins with what DumpArch prints, and the list of the trace files.
  unfoldable pub dump_texts : Bytes → IptConfig → W → W
  dump_texts arch_text config w =
      let prefix = config.output_path_prefix in
      let mtc_freq = codes "mtc_freq: " ++ (decimal config.mtc_freq ++ codes "\n") in
      let w' = write_file (prefix ++ codes ".cpuid") (arch_text ++ mtc_freq) w in
      if is_cpus config.mode
      then write_file (prefix ++ codes ".ptlist") (concat (pt_list_lines prefix 0 config.num_cpus))
          w'
      else w'

  -- DumpPerf
  unfoldable pub dump_perf : ℕ → Bytes → IptConfig → W → Option W
  dump_perf fuel arch_text config w =
      let (w', copied) =
        with_devices devices false true false (some false)
          (dump_ktrace fuel config.output_path_prefix) w in
      elim copied [
        | none ↦ none
        | some false ↦ some w'
        | some true ↦ some (dump_texts arch_text config w')
      ]
