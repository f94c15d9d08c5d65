-- ===== src/Decoder/Processes.antt =====
-- What the decoder knows of processes after it has read a kernel trace (lib/intel-pt-decode/sideband.cc).
use gdbserver.Base.{
  ap, ◌∙◌, ℕ, ◌<◌, ◌≡◌, ◌≢◌, true, Option, none, some, List, [], ◌∷◌, ◌++◌, Bytes, ◌==◌,
  if◌then◌else◌, arith, refl,
}
use gdbserver.Ktrace.Records.{KtraceRecord, trace_bytes, read_each, read_file-trace}
use gdbserver.Decoder.{
  Process, DecoderState, lookup_process_by_pid, mark_process_exited, add_process,
}
use gdbserver.Decoder.Sideband.{
  Layout, tag_of, pid_of, cr3_of, ts, ipt_start, ipt_cpu_info, apply_record, process_ktrace_record,
  read_ktrace_file,
}

lookup-append :
    (processes : List Process) (p : Process) (pid : ℕ)
    → lookup_process_by_pid (processes ++ p ∷ []) pid ≡ elim (lookup_process_by_pid processes pid) [
      | some q ↦ some q
      | none ↦ if p.pid == pid then some p else none
    ]
unfolding lookup_process_by_pid
lookup-append [] p pid = ground arith
lookup-append (q ∷ processes) p pid = ground (arith, lookup-append processes p pid)

lookup-mark :
    (gone end pid : ℕ) (processes : List Process)
    → lookup_process_by_pid (mark_process_exited gone end processes) pid
      ≡ elim (lookup_process_by_pid processes pid) [
        | some q ↦ some (if gone == pid then record q { end_time = end } else q)
        | none ↦ none
      ]
unfolding lookup_process_by_pid mark_process_exited
lookup-mark gone end pid [] = refl
lookup-mark gone end pid (q ∷ processes) = ground (arith, lookup-mark gone end pid processes)

-- The tags of created and exited processes are not those of the cases before them in ProcessKtraceRecord.
pub record IsDistinct (layout : Layout) : Type 0 where
  pub create_start : layout.tag_ipt_process_create ≢ layout.tag_ipt_start
  pub create_cpu : layout.tag_ipt_process_create ≢ layout.tag_ipt_cpu_info
  pub create_stop : layout.tag_ipt_process_create ≢ layout.tag_ipt_stop
  pub exit_start : layout.tag_proc_exit ≢ layout.tag_ipt_start
  pub exit_cpu : layout.tag_proc_exit ≢ layout.tag_ipt_cpu_info
  pub exit_stop : layout.tag_proc_exit ≢ layout.tag_ipt_stop
  pub exit_create : layout.tag_proc_exit ≢ layout.tag_ipt_process_create

-- What a record means for one process: nothing before it is created, and then it may exit.
unfoldable pub event : Layout → ℕ → Bytes → Option Process → Option Process
event layout pid rec (some p) =
    if tag_of layout rec == layout.tag_proc_exit
    then some (if pid_of layout rec == pid then record p { end_time = ts layout rec } else p)
    else some p
event layout pid rec none =
    if tag_of layout rec == layout.tag_ipt_process_create
    then (if pid_of layout rec == pid
        then some (record {
          pid = pid;
          cr3 = cr3_of layout rec;
          start_time = ts layout rec;
          end_time = 0;
        })
        else none)
    else none

unfoldable pub lifetime :
    (layout : Layout) → ℕ → List (KtraceRecord layout.format) → Option Process → Option Process
lifetime layout pid [] p = p
lifetime layout pid (r ∷ rs) p = lifetime layout pid rs (event layout pid (r.header ++ r.payload) p)

-- The cr3 of the kernel that the last record of a start gives.
unfoldable pub last_cr3 : (layout : Layout) → List (KtraceRecord layout.format) → ℕ → ℕ
last_cr3 layout [] cr3 = cr3
last_cr3 layout (r ∷ rs) cr3 = last_cr3 layout rs (
    if tag_of layout (r.header ++ r.payload) == layout.tag_ipt_start
    then cr3_of layout (r.header ++ r.payload)
    else cr3)

module _ (layout : Layout) (distinct : IsDistinct layout) {I S D : Type 0} where
  apply-lookup :
      (pid : ℕ) (rec : Bytes) (s : DecoderState I S D)
      → lookup_process_by_pid (apply_record layout rec s).processes pid
        ≡ event layout pid rec (lookup_process_by_pid s.processes pid)
  unfolding apply_record ipt_start ipt_cpu_info add_process event
  apply-lookup pid rec s =
      let a =
        lookup-append s.processes
          (record {
            pid = pid_of layout rec;
            cr3 = cr3_of layout rec;
            start_time = ts layout rec;
            end_time = 0;
          })
          pid in
      let m = lookup-mark (pid_of layout rec) (ts layout rec) pid s.processes in
      let d = distinct in
      ground (
        arith, a, m, d.create_start, d.create_cpu, d.create_stop, d.exit_start, d.exit_cpu,
        d.exit_stop, d.exit_create,
      )

  apply-kernel_cr3 :
      (rec : Bytes) (s : DecoderState I S D)
      → (apply_record layout rec s).kernel_cr3
        ≡ (if tag_of layout rec == layout.tag_ipt_start then cr3_of layout rec else s.kernel_cr3)
  unfolding apply_record ipt_start ipt_cpu_info add_process
  apply-kernel_cr3 rec s = ground arith

  -- The reader of a kernel trace has read its records, and knows this of a process and of the kernel.
  abbrev Knows :
      ℕ → List (KtraceRecord layout.format) → DecoderState I S D → ℕ × DecoderState I S D → Type 0
  Knows pid rs s r =
      (r.0 ≡ 0)
      × (lookup_process_by_pid r.1.processes pid
          ≡ lifetime layout pid rs (lookup_process_by_pid s.processes pid))
      × (r.1.kernel_cr3 ≡ last_cr3 layout rs s.kernel_cr3)

  read_each-Knows :
      (pid : ℕ) (rs : List (KtraceRecord layout.format)) (s : DecoderState I S D)
      → Knows pid rs s (read_each (process_ktrace_record layout) rs s)
  unfolding read_each process_ktrace_record lifetime last_cr3
  read_each-Knows pid [] s = (refl, refl, refl)
  read_each-Knows pid (r ∷ rs) s =
      let rec = r.header ++ r.payload in
      let (a, b, c) = read_each-Knows pid rs (apply_record layout rec s) in
      (
        a,
        b ∙ ap (lifetime layout pid rs) (apply-lookup pid rec s),
        c ∙ ap (last_cr3 layout rs) (apply-kernel_cr3 rec s),
      )

  -- Of a kernel trace that is written record by record: ReadKtraceFile succeeds; what LookupProcessByPid then gives
  -- for an id is the first process that was created with the id, before or in the trace, with the time of the last exit
  -- that follows, if any; and the kernel's cr3 is that of the last start of the trace, or as it was.
  pub read_ktrace_file-trace :
      0 < layout.format.header_size
      → (pid : ℕ) (rs : List (KtraceRecord layout.format)) (s : DecoderState I S D)
      → (read_ktrace_file layout (some (trace_bytes rs)) s).1 ≡ true
        × (lookup_process_by_pid (read_ktrace_file layout (some (trace_bytes rs)) s).0.processes pid
            ≡ lifetime layout pid rs (lookup_process_by_pid s.processes pid))
        × ((read_ktrace_file layout (some (trace_bytes rs)) s).0.kernel_cr3
            ≡ last_cr3 layout rs s.kernel_cr3)
  unfolding read_ktrace_file
  read_ktrace_file-trace pos pid rs s =
      let whole = read_file-trace layout.format pos (process_ktrace_record layout) rs s in
      rw whole (let (a, b, c) = read_each-Knows pid rs s in (rw a refl, b, c))
