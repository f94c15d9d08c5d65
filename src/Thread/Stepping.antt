-- ===== src/Thread/Stepping.antt =====
-- Single-stepping: Thread::Step, Thread::OnException and the breakpoint of the thread.
use gdbserver.Base.{ℕ, true, some, ◌≡◌, inl, inr, refl, arith, Option-cases, Bool-cases}
use gdbserver.Registers.{Gregs, set_single_step, get_pc}
use gdbserver.Thread.{
  ThreadCalls, Thread, ThreadState, new, stopped, running, stepping, exiting, gone, is_stopped,
  refresh_general_registers, write_general_registers, set_rflags_tf, insert_single_step_breakpoint,
  step,
}

module _ {K : Type 0} (calls : ThreadCalls K) where
  -- What a successful Step from `t` to `u` has asked of the kernel, and its result.
  pub record Stepped (t : Thread) (k : K) (u : Thread) (after : K) : Type 0 where
    pub gregs : Gregs
    pub pc : ℕ
    pub between : K
    pub was_stopped : t.state ≡ stopped
    pub read : calls.read_state t.handle k ≡ some gregs
    pub at_pc : get_pc gregs ≡ some pc
    pub wrote : calls.write_state t.handle (set_single_step true gregs) k ≡ (between, true)
    pub resumed : calls.resume t.handle between ≡ (after, true)
    pub stepping_now : u.state ≡ stepping
    pub breakpoint : u.single_step_breakpoint ≡ some (record { address = pc; inserted = true })

  is_stopped_eq : (s : ThreadState) → is_stopped s ≡ true → s ≡ stopped
  is_stopped_eq stopped h = refl
  is_stopped_eq new h = absurd (ground arith)
  is_stopped_eq running h = absurd (ground arith)
  is_stopped_eq stepping h = absurd (ground arith)
  is_stopped_eq exiting h = absurd (ground arith)
  is_stopped_eq gone h = absurd (ground arith)

  -- If Step returns true, the thread was stopped; the registers that the kernel read were written
  -- back changed by SetSingleStep alone, and the thread was resumed, both with success; and the
  -- thread is stepping, with a breakpoint recorded as inserted at the program counter.
  pub step-Stepped :
      (t u : Thread) (k after : K) → step calls (t, k) ≡ ((u, after), true) → Stepped t k u after
  unfolding step insert_single_step_breakpoint set_rflags_tf refresh_general_registers
      write_general_registers
  step-Stepped t u k after h = elim (Bool-cases (is_stopped t.state)) [
    | inr n ↦ absurd (ground arith)
    | inl n ↦
        let at : t.state ≡ stopped = is_stopped_eq t.state n in
        elim (Option-cases t.single_step_breakpoint) [
          | inr (b, p) ↦ absurd (ground arith)
          | inl p ↦ elim (Option-cases (calls.read_state t.handle k)) [
            | inl r ↦ absurd (ground arith)
            | inr (gregs, r) ↦ elim (Option-cases (get_pc gregs)) [
              | inl c ↦ absurd (ground arith)
              | inr (pc, c) ↦
                  let w = calls.write_state t.handle (set_single_step true gregs) k in
                  elim (Bool-cases w.1) [
                    | inr f ↦ absurd (ground arith)
                    | inl ok ↦ elim (Bool-cases (calls.resume t.handle w.0).1) [
                      | inr f ↦ absurd (ground arith)
                      | inl ok' ↦ record {
                        gregs = gregs;
                        pc = pc;
                        between = w.0;
                        was_stopped = at;
                        read = r;
                        at_pc = c;
                        wrote = ground arith;
                        resumed = ground arith;
                        stepping_now = ground arith;
                        breakpoint = ground arith;
                      }
                    ]
                  ]
            ]
          ]
        ]
  ]
