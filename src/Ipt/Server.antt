-- ===== src/Ipt/Server.antt =====
-- bin/ipt/server.cc: the server that starts the program, traces its threads, and dumps the results.
use gdbserver.Base.{
  ℕ, Bool, true, false, not, Option, none, some, Bytes, if◌then◌else◌, ◌>>=◌, ◌>>◌, guard,
  then_step,
}
use gdbserver.Thread.{Thread, resume, resume_for_exit}
use gdbserver.Process.{ProcessCalls, ProcessState, System, is_attached, is_live}
use gdbserver.Process.Launch.{initialize}
use gdbserver.Process.Control.{attach, start}
use gdbserver.Ipt.{Devices}
use gdbserver.Ipt.Config.{IptConfig}
use gdbserver.Ipt.Control.{
  is_cpus, set_perf_mode, init_cpu_perf, init_perf_pre_process, start_cpu_perf, stop_cpu_perf,
  stop_perf, reset_cpu_perf, reset_perf,
}
use gdbserver.Ipt.Threads.{init_thread_perf, start_thread_perf, stop_thread_perf, reset_thread_perf}
use gdbserver.Ipt.Dump.{dump_cpu_perf, dump_thread_perf, dump_perf}

module _ {W : Type 0} (devices : Devices W) (calls : ProcessCalls W) where
  -- A step on the process and the world.
  abbrev pub Step : Type 0
  Step = System W → Option (System W × Bool)

  -- A step that changes only the world; `none` is a failed check.
  unfoldable pub on_world : (W → Option (W × Bool)) → Step
  on_world step s = elim (step s.world) [
    | none ↦ none
    | some (w, done) ↦ some (record s { world = w }, done)
  ]

  -- A step that is only taken if cpus are traced.
  unfoldable pub if_cpus : IptConfig → Step → Step
  if_cpus config step s = if is_cpus config.mode then step s else some (s, true)

  -- Process::Attach, between the checks that the process is not attached, and is.
  unfoldable pub attach_checked : Step
  attach_checked s = do
    attached ← is_attached s.process
    guard (not attached)
    (s', done) ← attach calls s
    attached' ← is_attached s'.process
    if done then (if attached' then some (s', true) else none) else some (s', false)

  -- StartCpuPerf, and ResetPerf if it fails.
  unfoldable pub start_tracing : IptConfig → Step
  start_tracing config s =
      on_world
        (λ w. elim (start_cpu_perf devices config w) [
          | none ↦ none
          | some (w', true) ↦ some (w', true)
          | some (w', false) ↦ some (reset_perf devices w', false)
        ])
        s

  -- Process::Start, between the checks that the process is not live, and is.
  unfoldable pub start_checked : Step
  start_checked s = do
    guard (not (is_live s.process.state))
    (s', done) ← start calls s
    if done then (if is_live s'.process.state then some (s', true) else none) else some (s', false)

  -- StartInferior
  unfoldable pub start_inferior : IptConfig → Step
  start_inferior config s = then_step start_checked (
      then_step (if_cpus config (start_tracing config)) (
        then_step attach_checked (
          then_step (initialize calls) (
            then_step (on_world (λ w. some (init_perf_pre_process devices w))) (
              then_step (if_cpus config (on_world (init_cpu_perf devices config)))
                (on_world (λ w. some (set_perf_mode devices config w)) s))))))

  -- DumpResults, which always returns true; `none` is a failed check or assert, or that the fuel for copying
  -- ktrace's records ran out.
  unfoldable pub dump_results : ℕ → ℕ → Bytes → IptConfig → W → Option W
  dump_results page_size fuel arch_text config w =
      if is_cpus config.mode
      then (do
        w1 ← stop_cpu_perf devices config w
        w2 ← dump_cpu_perf devices page_size config (stop_perf devices w1)
        w3 ← dump_perf devices fuel arch_text config w2
        w4 ← reset_cpu_perf devices config w3
        some (reset_perf devices w4))
      else (do
        w1 ← dump_perf devices fuel arch_text config (stop_perf devices w)
        some (reset_perf devices w1))

  -- A thread, the buffer of its trace, and the world.
  abbrev pub TracedThread : Type 0
  TracedThread = Thread × Option ℕ × W

  -- The trace of a thread that starts. If it cannot be started, its buffer is freed.
  unfoldable pub trace_thread : IptConfig → ℕ → Option ℕ × W → Option (Option ℕ × W)
  trace_thread config handle x = do
    (x1, allocated) ← init_thread_perf devices config x
    if allocated
        then (do
          (x2, started) ← start_thread_perf devices config handle x1
          if started then some x2 else reset_thread_perf devices config x2)
        else some x1

  -- OnThreadStarting, in a process that is starting or running.
  unfoldable pub on_thread_starting : IptConfig → ProcessState → TracedThread → Option TracedThread
  on_thread_starting config state (t, buffer, w) =
      if is_live state
      then (do
        (buffer', w') ←
            if is_cpus config.mode
            then some (buffer, w)
            else trace_thread config t.handle (buffer, w)
        let ((t', w''), _) = resume calls.thread (t, w')
        some (t', buffer', w''))
      else none

  -- The end of the trace of a thread that has a buffer.
  unfoldable pub end_trace : ℕ → IptConfig → Thread → ℕ → W → Option (Option ℕ × W)
  end_trace page_size config t descriptor w = do
    (buffer, w1) ← stop_thread_perf devices config t.handle (some descriptor, w)
    w2 ← dump_thread_perf devices page_size config t.id buffer w1
    reset_thread_perf devices config (buffer, w2)

  -- OnThreadExiting
  unfoldable pub on_thread_exiting : ℕ → IptConfig → TracedThread → Option TracedThread
  on_thread_exiting page_size config (t, none, w) =
      let (t', w') = resume_for_exit calls.thread (t, w) in some (t', none, w')
  on_thread_exiting page_size config (t, some descriptor, w) = do
    (buffer, w1) ←
        if is_cpus config.mode
        then some (some descriptor, w)
        else end_trace page_size config t descriptor w
    let (t', w') = resume_for_exit calls.thread (t, w1)
    some (t', buffer, w')
