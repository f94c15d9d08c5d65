-- ===== src/Ipt/Control.antt =====
-- bin/ipt/control.cc: setting up, starting, stopping and resetting the trace of the cpus, and ktrace.
use gdbserver.Base.{ℕ, zero, suc, Bool, true, false, Option, none, some, if◌then◌else◌}
use gdbserver.Ipt.{
  Mode, cpus, threads, Devices, Opened, start_action, stop_action, with_devices, with_ipt,
}
use gdbserver.Ipt.Config.{IptConfig, init_ipt_buffer_config}

-- The checks at the beginning of the functions.
abbrev pub is_cpus : Mode → Bool
is_cpus cpus = true
is_cpus threads = false

module _ {W : Type 0} (devices : Devices W) where
  -- SetPerfMode
  unfoldable pub set_perf_mode : IptConfig → W → W × Bool
  set_perf_mode config w = with_ipt devices false (λ fd w. devices.set_mode fd config.mode w) w

  -- The loop of InitCpuPerf, over `count` cpus.
  unfoldable pub alloc_buffers : IptConfig → ℕ → ℕ → W → W × Bool
  alloc_buffers config fd zero w = (w, true)
  alloc_buffers config fd (suc count) w =
      let (w', descriptor) = devices.alloc_buffer fd (init_ipt_buffer_config config) w in
      elim descriptor [ none ↦ (w', false) | some _ ↦ alloc_buffers config fd count w' ]

  -- InitCpuPerf; a failed check of the mode stops the program, here and below.
  unfoldable pub init_cpu_perf : IptConfig → W → Option (W × Bool)
  init_cpu_perf config w =
      if is_cpus config.mode
      then some (
          with_ipt devices false
            (λ fd w.
              let (w', done) = alloc_buffers config fd config.num_cpus w in
              if done then devices.cpu_mode_alloc fd w' else (w', false))
            w)
      else none

  -- The handle of ktrace, for a function that uses only that.
  unfoldable pub with_ktrace : (ℕ → W → W × Bool) → W → W × Bool
  with_ktrace body w =
      with_devices devices false false true false
        (λ fds w'. elim fds.ktrace_handle [ none ↦ (w', false) | some handle ↦ body handle w' ]) w

  -- InitPerfPreProcess
  unfoldable pub init_perf_pre_process : W → W × Bool
  init_perf_pre_process w =
      with_ktrace
        (λ handle w.
          let (w', started) = devices.ktrace_control handle start_action w in
          if started then (w', true) else (
            (devices.ktrace_control handle start_action
                (devices.ktrace_control handle stop_action w').0).0,
            false,
          ))
        w

  -- StartCpuPerf
  unfoldable pub start_cpu_perf : IptConfig → W → Option (W × Bool)
  start_cpu_perf config w =
      if is_cpus config.mode
      then some (
          with_ipt devices false
            (λ fd w.
              let (w', started) = devices.cpu_mode_start fd w in
              if started then (w', true) else ((devices.cpu_mode_free fd w').0, false))
            w)
      else none

  -- StopCpuPerf; a failure is only logged, here and below.
  unfoldable pub stop_cpu_perf : IptConfig → W → Option W
  stop_cpu_perf config w =
      if is_cpus config.mode
      then some (with_ipt devices false (λ fd w. devices.cpu_mode_stop fd w) w).0
      else none

  -- StopPerf
  unfoldable pub stop_perf : W → W
  stop_perf w = (with_ktrace (λ handle w. devices.ktrace_control handle stop_action w) w).0

  -- ResetCpuPerf
  unfoldable pub reset_cpu_perf : IptConfig → W → Option W
  reset_cpu_perf config w =
      if is_cpus config.mode
      then some (with_ipt devices false (λ fd w. devices.cpu_mode_free fd w) w).0
      else none

  -- The body of ResetPerf.
  unfoldable pub reset_mode : Opened → W → W × Bool
  reset_mode fds w = elim fds.ipt_fd [
    | none ↦ (w, false)
    | some fd ↦ elim fds.ktrace_handle [
      | none ↦ (w, false)
      | some handle ↦
          let w1 = (devices.set_mode fd cpus w).0 in
          let w2 = (devices.ktrace_control handle stop_action w1).0 in
          devices.ktrace_control handle start_action w2
    ]
  ]

  -- ResetPerf
  unfoldable pub reset_perf : W → W
  reset_perf w = (with_devices devices true false true false reset_mode w).0
