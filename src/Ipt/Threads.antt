-- ===== src/Ipt/Threads.antt =====
-- bin/ipt/control.cc: the trace of one thread.
use gdbserver.Base.{ℕ, Bool, true, false, Option, none, some, if◌then◌else◌}
use gdbserver.Ipt.{Devices, with_ipt}
use gdbserver.Ipt.Config.{IptConfig, init_ipt_buffer_config}
use gdbserver.Ipt.Control.{is_cpus}

module _ {W : Type 0} (devices : Devices W) where
  -- The buffer of a thread (Thread::ipt_buffer), -1 being `none`, with the rest of the world.
  abbrev pub Traced : Type 0
  Traced = Option ℕ × W

  -- InitThreadPerf: the buffer, and the result. A failed check of the mode stops the program, here and below.
  unfoldable pub init_thread_perf : IptConfig → Traced → Option (Traced × Bool)
  init_thread_perf config (buffer, w) =
      if is_cpus config.mode
      then none
      else (let (w', allocated) =
            with_ipt devices none
              (λ fd w. devices.alloc_buffer fd (init_ipt_buffer_config config) w) w in
          elim allocated [
            | none ↦ some ((buffer, w'), false)
            | some descriptor ↦ some ((some descriptor, w'), true)
          ])

  -- A call that hands the buffer to the thread with a handle, or takes it back.
  unfoldable pub with_duplicate : (ℕ → ℕ → ℕ → W → W × Bool) → ℕ → ℕ → W → W × Bool
  with_duplicate call handle descriptor w =
      with_ipt devices false
        (λ fd w.
          let (w', copy) = devices.duplicate_handle handle w in
          elim copy [ none ↦ (w', false) | some thread ↦ call fd descriptor thread w' ])
        w

  -- StartThreadPerf
  unfoldable pub start_thread_perf : IptConfig → ℕ → Traced → Option (Traced × Bool)
  start_thread_perf config handle (none, w) =
      if is_cpus config.mode then none else some ((none, w), true)
  start_thread_perf config handle (some descriptor, w) =
      if is_cpus config.mode
      then none
      else (let (w', started) = with_duplicate devices.assign_buffer_thread handle descriptor w in
          some ((some descriptor, w'), started))

  -- StopThreadPerf
  unfoldable pub stop_thread_perf : IptConfig → ℕ → Traced → Option Traced
  stop_thread_perf config handle (none, w) = if is_cpus config.mode then none else some (none, w)
  stop_thread_perf config handle (some descriptor, w) =
      if is_cpus config.mode
      then none
      else some
          (some descriptor, (with_duplicate devices.release_buffer_thread handle descriptor w).0)

  -- ResetThreadPerf: the thread keeps its buffer if the device cannot be opened.
  unfoldable pub reset_thread_perf : IptConfig → Traced → Option Traced
  reset_thread_perf config (none, w) = if is_cpus config.mode then none else some (none, w)
  reset_thread_perf config (some descriptor, w) =
      if is_cpus config.mode
      then none
      else (let (w', buffer) =
            with_ipt devices (some descriptor)
              (λ fd w. ((devices.free_buffer fd descriptor w).0, none)) w in
          some (buffer, w'))
