-- ===== src/Ipt/Kept.antt =====
-- bin/ipt/control.cc: the descriptors that its functions for the whole trace and for the cpus open and close.
use gdbserver.Base.{
  ℕ, zero, suc, ◌≡◌, Bool, true, false, Option, none, some, List, if◌then◌else◌, refl, ◌∙◌,
  Bool-cases, inl, inr,
}
use gdbserver.Ipt.{
  Devices, cpus, start_action, stop_action, Opened, open_devices, close_devices, with_devices,
  with_ipt,
}
use gdbserver.Ipt.Config.{IptConfig, init_ipt_buffer_config}
use gdbserver.Ipt.Control.{
  is_cpus, set_perf_mode, alloc_buffers, init_cpu_perf, init_perf_pre_process, start_cpu_perf,
  stop_cpu_perf, stop_perf, reset_cpu_perf, reset_mode, reset_perf, with_ktrace,
}
use gdbserver.Ipt.Closed.{DescriptorLaws, Extends, open_devices-Extends, close_devices-fds}

module _ {W : Type 0} (devices : Devices W) (laws : DescriptorLaws devices) where
  -- A function leaves the open descriptors as they were.
  abbrev pub Keeps : {A : Type 0} → (W → W × A) → Type 0
  Keeps f = (w : W) → laws.fds (f w).0 ≡ laws.fds w

  -- The same of a function whose check of the mode may fail.
  abbrev pub KeepsIf : Option W → W → Type 0
  KeepsIf none w = Unit {0}
  KeepsIf (some w') w = laws.fds w' ≡ laws.fds w

  abbrev runs : {A : Type 0} → A → (Opened → W → W × A) → W → Option Opened → W × A
  runs {A} failed body w opened = elim opened as (λ _. W × A) [
    | none ↦ (w, failed)
    | some o ↦ let (w', result) = body o w in (close_devices devices o w', result)
  ]

  runs-fds :
      {A : Type 0} (failed : A) (body : Opened → W → W × A) (l : List ℕ) (w : W)
      (opened : Option Opened)
      → ((o : Opened) → Keeps (body o))
      → Extends devices laws l opened (laws.fds w)
      → laws.fds (runs failed body w opened).0 ≡ l
  runs-fds failed body l w none k h = h
  runs-fds failed body l w (some o) k h =
      close_devices-fds devices laws o l (body o w).0 (k o w ∙ h)

  with_devices-Keeps :
      {A : Type 0} (i t h : Bool) (failed : A) (body : Opened → W → W × A)
      → ((o : Opened) → Keeps (body o))
      → Keeps (with_devices devices i t h failed body)
  unfolding with_devices
  with_devices-Keeps i t h failed body k w =
      let r = open_devices devices i t h w in
      runs-fds failed body (laws.fds w) r.0 r.1 k (open_devices-Extends devices laws i t h w)

  with_ipt-Keeps :
      {A : Type 0} (failed : A) (body : ℕ → W → W × A)
      → ((fd : ℕ) → Keeps (body fd))
      → Keeps (with_ipt devices failed body)
  unfolding with_ipt
  with_ipt-Keeps {A} failed body k =
      with_devices-Keeps true false false failed _ (λ o w. for_fd o.ipt_fd w)
    where
      for_fd :
          (fd : Option ℕ) (w : W)
          → laws.fds (elim fd as (λ _. W × A) [ none ↦ (w, failed) | some fd ↦ body fd w ]).0
            ≡ laws.fds w
      for_fd none w = refl
      for_fd (some fd) w = k fd w

  with_ktrace-Keeps :
      (body : ℕ → W → W × Bool)
      → ((handle : ℕ) → Keeps (body handle))
      → Keeps (with_ktrace devices body)
  unfolding with_ktrace
  with_ktrace-Keeps body k =
      with_devices-Keeps false false true false _ (λ o w. for_handle o.ktrace_handle w)
    where
      for_handle :
          (handle : Option ℕ) (w : W)
          → laws.fds
              (elim handle as (λ _. W × Bool) [ none ↦ (w, false) | some handle ↦ body handle w ]).0
            ≡ laws.fds w
      for_handle none w = refl
      for_handle (some handle) w = k handle w

  -- A step, and another one if it has succeeded or failed.
  after_step :
      (ok : Bool) (a b : W × Bool) (w : W)
      → laws.fds a.0 ≡ laws.fds w
      → laws.fds b.0 ≡ laws.fds w
      → laws.fds (if ok then a else b).0 ≡ laws.fds w
  after_step true a b w p q = p
  after_step false a b w p q = q

  alloc_buffers-Keeps :
      (config : IptConfig) (fd count : ℕ) → Keeps (alloc_buffers devices config fd count)
  unfolding alloc_buffers
  alloc_buffers-Keeps config fd zero w = refl
  alloc_buffers-Keeps config fd (suc count) w =
      let a = devices.alloc_buffer fd (init_ipt_buffer_config config) w in
      go a.0 a.1 (alloc_buffers-Keeps config fd count)
        (laws.alloc_buffer fd (init_ipt_buffer_config config) w)
    where
      go :
          (w' : W) (descriptor : Option ℕ)
          → Keeps (alloc_buffers devices config fd count)
          → laws.fds w' ≡ laws.fds w
          → laws.fds
              (elim descriptor as (λ _. W × Bool) [
                | none ↦ (w', false)
                | some _ ↦ alloc_buffers devices config fd count w'
              ]).0
            ≡ laws.fds w
      go w' none k h = h
      go w' (some d) k h = k w' ∙ h

  reset_mode-Keeps : (o : Opened) → Keeps (reset_mode devices o)
  unfolding reset_mode
  reset_mode-Keeps o w = go o.ipt_fd o.ktrace_handle
    where
      go :
          (fd handle : Option ℕ)
          → laws.fds
              (elim fd as (λ _. W × Bool) [
                | none ↦ (w, false)
                | some fd ↦ elim handle as (λ _. W × Bool) [
                  | none ↦ (w, false)
                  | some handle ↦
                      let w1 = (devices.set_mode fd cpus w).0 in
                      let w2 = (devices.ktrace_control handle stop_action w1).0 in
                      devices.ktrace_control handle start_action w2
                ]
              ]).0
            ≡ laws.fds w
      go none handle = refl
      go (some fd) none = refl
      go (some fd) (some handle) =
          laws.ktrace_control handle start_action _
          ∙ (laws.ktrace_control handle stop_action _ ∙ laws.set_mode fd cpus w)

  -- The world after a function, if its check has not failed.
  abbrev pub world_of : Option (W × Bool) → Option W
  world_of none = none
  world_of (some (w, done)) = some w

  -- A function that checks the mode first.
  checked-Keeps :
      (config : IptConfig) (body : ℕ → W → W × Bool) (w : W)
      → ((fd : ℕ) → Keeps (body fd))
      → KeepsIf (if is_cpus config.mode then some (with_ipt devices false body w).0 else none) w
        × KeepsIf
            (world_of (if is_cpus config.mode then some (with_ipt devices false body w) else none))
            w
  checked-Keeps config body w k = elim (Bool-cases (is_cpus config.mode)) [
    | inl e ↦ rw e (with_ipt-Keeps false body k w, with_ipt-Keeps false body k w)
    | inr e ↦ rw e (tt, tt)
  ]

  -- The bodies of InitCpuPerf and StartCpuPerf.
  abbrev init_body : IptConfig → ℕ → W → W × Bool
  init_body config fd w =
      let (w', done) = alloc_buffers devices config fd config.num_cpus w in
      if done then devices.cpu_mode_alloc fd w' else (w', false)

  init_body-Keeps : (config : IptConfig) (fd : ℕ) → Keeps (init_body config fd)
  init_body-Keeps config fd w =
      let a = alloc_buffers devices config fd config.num_cpus w in
      let k = alloc_buffers-Keeps config fd config.num_cpus w in
      after_step a.1 _ _ w (laws.cpu_mode_alloc fd a.0 ∙ k) k

  abbrev start_body : ℕ → W → W × Bool
  start_body fd w =
      let (w', started) = devices.cpu_mode_start fd w in
      if started then (w', true) else ((devices.cpu_mode_free fd w').0, false)

  start_body-Keeps : (fd : ℕ) → Keeps (start_body fd)
  start_body-Keeps fd w =
      let a = devices.cpu_mode_start fd w in
      let k = laws.cpu_mode_start fd w in after_step a.1 _ _ w k (laws.cpu_mode_free fd a.0 ∙ k)

  -- Whatever the calls answer, and wherever a function returns: each of SetPerfMode, InitCpuPerf, InitPerfPreProcess,
  -- StartCpuPerf, StopCpuPerf, StopPerf, ResetCpuPerf and ResetPerf leaves exactly the descriptors open that were open
  -- before, unless its check of the mode stops the program.
  pub control-Keeps :
      (config : IptConfig) (w : W)
      → (laws.fds (set_perf_mode devices config w).0 ≡ laws.fds w)
        × KeepsIf (world_of (init_cpu_perf devices config w)) w
        × (laws.fds (init_perf_pre_process devices w).0 ≡ laws.fds w)
        × KeepsIf (world_of (start_cpu_perf devices config w)) w
        × KeepsIf (stop_cpu_perf devices config w) w
        × (laws.fds (stop_perf devices w) ≡ laws.fds w)
        × KeepsIf (reset_cpu_perf devices config w) w
        × (laws.fds (reset_perf devices w) ≡ laws.fds w)
  unfolding set_perf_mode init_cpu_perf init_perf_pre_process start_cpu_perf stop_cpu_perf stop_perf
      reset_cpu_perf reset_perf
  control-Keeps config w = (
    with_ipt-Keeps false _ (λ fd w. laws.set_mode fd config.mode w) w,
    (checked-Keeps config (init_body config) w (init_body-Keeps config)).1,
    with_ktrace-Keeps _
        (λ handle w.
          let a = devices.ktrace_control handle start_action w in
          let k = laws.ktrace_control handle start_action w in
          after_step a.1 _ _ w k (
            laws.ktrace_control handle start_action _
            ∙ (laws.ktrace_control handle stop_action _ ∙ k)))
        w,
    (checked-Keeps config start_body w start_body-Keeps).1,
    (checked-Keeps config devices.cpu_mode_stop w laws.cpu_mode_stop).0,
    with_ktrace-Keeps _ (λ handle w. laws.ktrace_control handle stop_action w) w,
    (checked-Keeps config devices.cpu_mode_free w laws.cpu_mode_free).0,
    with_devices-Keeps true false true false _ reset_mode-Keeps w,
  )
