-- ===== src/Tests/Inferior.antt =====
-- Registers and a thread over a kernel whose world is one register set.
use gdbserver.Base.{Bool, true, some, [], ◌∷◌, ◌≡◌, refl, arith, All}
use gdbserver.Registers.{Gregs, zero_gregs, get_register, get_int_register, set_single_step}
use gdbserver.Registers.Words.{IsWord}
use gdbserver.Thread.{
  Thread, ThreadCalls, Context, new_thread, stopped, general, step, refresh_general_registers,
  insert_single_step_breakpoint, set_rflags_tf, write_general_registers,
}
use gdbserver.Thread.Stepping.{Stepped, step-Stepped}
use gdbserver.Thread.Lifecycle.{Inv, bare, run, run-Inv, resumes, steps, excepts, exits}

gregs-IsWord : All IsWord zero_gregs
gregs-IsWord = omega arith

abbrev pub thread_calls : ThreadCalls Gregs
thread_calls = record {
  read_state = λ handle k. some k;
  write_state = λ handle g k. (g, true);
  resume = λ handle k. (k, true);
  close = λ handle k. k;
}

abbrev stopped_thread : Thread
stopped_thread = record (new_thread 7 8) { state = stopped }

abbrev stepped : (Thread × Gregs) × Bool
stepped = step thread_calls (stopped_thread, zero_gregs)

step-Stepped_example : Stepped thread_calls stopped_thread zero_gregs stepped.0.0 stepped.0.1
step-Stepped_example =
    step-Stepped thread_calls stopped_thread stepped.0.0 zero_gregs stepped.0.1 ran
  where
    ran : step thread_calls (stopped_thread, zero_gregs) ≡ (stepped.0, true)
    ran =
        unfold step refresh_general_registers insert_single_step_breakpoint set_rflags_tf
          write_general_registers get_int_register get_register set_single_step in
        refl

abbrev pub trap_at : Context
trap_at = record { tid = 8; vector = 1 }

run-Inv_example :
    Inv
      (run thread_calls
        (steps ∷ excepts general refl trap_at ∷ resumes ∷ exits trap_at ∷ [])
        (stopped_thread, zero_gregs)).0
run-Inv_example =
    run-Inv thread_calls (steps ∷ excepts general refl trap_at ∷ resumes ∷ exits trap_at ∷ [])
      stopped_thread zero_gregs (bare refl refl)
