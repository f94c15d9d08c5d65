-- ===== src/Ipt/Actions.antt =====
-- bin/ipt/main.cc: the actions of --control (ControlIpt).
use gdbserver.Base.{
  ℕ, Bool, true, false, Option, none, some, List, [], ◌∷◌, Bytes, bytes_eq, if◌then◌else◌, codes,
  then_step,
}
use gdbserver.Ipt.{Devices}
use gdbserver.Ipt.Config.{IptConfig}
use gdbserver.Ipt.Control.{
  is_cpus, set_perf_mode, init_cpu_perf, init_perf_pre_process, start_cpu_perf, stop_cpu_perf,
  stop_perf, reset_cpu_perf, reset_perf,
}
use gdbserver.Ipt.Dump.{dump_cpu_perf, dump_perf}

-- The actions, with what is none.
pub data ControlAction : Type 0 where
  init_trace start_trace stop_trace dump_trace reset_trace unrecognized : ControlAction

unfoldable pub parse_action : Bytes → ControlAction
parse_action action =
    if bytes_eq action (codes "init")
    then init_trace
    else if bytes_eq action (codes "start")
    then start_trace
    else if bytes_eq action (codes "stop")
    then stop_trace
    else if bytes_eq action (codes "dump")
    then dump_trace
    else if bytes_eq action (codes "reset")
    then reset_trace
    else unrecognized

-- Two calls, the second if the first has not stopped the program; the answer is ignored.
abbrev pub then_call : {W : Type 0} → Option W → (W → Option W) → Option (W × Bool)
then_call none call = none
then_call (some w) call = elim (call w) [ none ↦ none | some w' ↦ some (w', true) ]

module _ {W : Type 0} (devices : Devices W) (page_size fuel : ℕ) (arch_text : Bytes)
    (config : IptConfig) where
  -- The body of the loop of ControlIpt: whether it goes on; `none` is a stop of the program in one of the calls.
  unfoldable pub run_action : ControlAction → W → Option (W × Bool)
  run_action init_trace w =
      then_step (λ w2. some (init_perf_pre_process devices w2))
        (then_step (init_cpu_perf devices config) (some (set_perf_mode devices config w)))
  run_action start_trace w = start_cpu_perf devices config w
  run_action stop_trace w =
      then_call (stop_cpu_perf devices config w) (λ w1. some (stop_perf devices w1))
  run_action dump_trace w =
      then_call (dump_cpu_perf devices page_size config w) (dump_perf devices fuel arch_text config)
  run_action reset_trace w =
      then_call (reset_cpu_perf devices config w) (λ w1. some (reset_perf devices w1))
  run_action unrecognized w = some (w, false)

  -- The loop of ControlIpt.
  unfoldable pub run_actions : List Bytes → W → Option (W × Bool)
  run_actions [] w = some (w, true)
  run_actions (action ∷ actions) w =
      then_step (run_actions actions) (run_action (parse_action action) w)

  -- ControlIpt
  unfoldable pub control_ipt : List Bytes → W → Option (W × Bool)
  control_ipt actions w = if is_cpus config.mode then run_actions actions w else some (w, false)
