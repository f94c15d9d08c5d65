-- ===== src/Thread.antt =====
-- lib/inferior-control: a thread of the debugged process (thread.{h,cc}), the cached registers behind
-- the kernel's calls (registers.cc), and single-stepping (breakpoint.cc, breakpoint-amd64.cc).
pub mod Signals
pub mod Stepping
pub mod Lifecycle
use gdbserver.Base.{
  ℕ, Bool, true, false, not, ◌&&◌, ◌||◌, Option, none, some, ◌==◌, if◌then◌else◌, is_none,
}
use gdbserver.Registers.{Gregs, zero_gregs, set_single_step, get_pc}

-- The kernel's calls on a thread's handle: mx_thread_read_state of regset 0 (`none` is an error),
-- mx_thread_write_state and mx_task_resume (`false` is an error), mx_handle_close. `K` is all that
-- the calls depend on and change.
pub record ThreadCalls (K : Type 0) : Type 0 where
  pub read_state : ℕ → K → Option Gregs
  pub write_state : ℕ → Gregs → K → K × Bool
  pub resume : ℕ → K → K × Bool
  pub close : ℕ → K → K

-- Thread::State
pub data ThreadState : Type 0 where
  new : ThreadState
  stopped : ThreadState
  running : ThreadState
  stepping : ThreadState
  exiting : ThreadState
  gone : ThreadState

-- The parts of mx_exception_context_t that the code reads.
pub record Context : Type 0 where
  pub tid : ℕ
  pub vector : ℕ

-- The exception types that the code tells apart, and the architectural ones.
pub data ExceptionType : Type 0 where
  general : ExceptionType
  fatal_page_fault : ExceptionType
  undefined_instruction : ExceptionType
  sw_breakpoint : ExceptionType
  hw_breakpoint : ExceptionType
  thread_starting : ExceptionType
  thread_exiting : ExceptionType
  process_gone : ExceptionType
  unrecognized : ExceptionType

-- SingleStepBreakpoint
pub record SingleStepBreakpoint : Type 0 where
  pub address : ℕ
  pub inserted : Bool

-- Thread. The handle 0 is MX_HANDLE_INVALID.
pub record Thread : Type 0 where
  pub handle : ℕ
  pub id : ℕ
  pub state : ThreadState
  pub gregs : Gregs
  pub single_step_breakpoint : Option SingleStepBreakpoint
  pub exception_context : Option Context

-- Thread::Thread
abbrev pub new_thread : ℕ → ℕ → Thread
new_thread handle id = record {
  handle = handle;
  id = id;
  state = new;
  gregs = zero_gregs;
  single_step_breakpoint = none;
  exception_context = none;
}

abbrev pub is_new : ThreadState → Bool
is_new new = true
is_new _ = false

abbrev pub is_gone : ThreadState → Bool
is_gone gone = true
is_gone _ = false

abbrev pub is_stopped : ThreadState → Bool
is_stopped stopped = true
is_stopped _ = false

abbrev pub is_stepping : ThreadState → Bool
is_stepping stepping = true
is_stepping _ = false

abbrev pub is_exiting_exception : ExceptionType → Bool
is_exiting_exception thread_exiting = true
is_exiting_exception _ = false

-- Thread::IsLive
abbrev pub is_live : ThreadState → Bool
is_live new = true
is_live stopped = true
is_live running = true
is_live stepping = true
is_live _ = false

module _ {K : Type 0} (calls : ThreadCalls K) where
  -- RefreshRegsetHelper: zeros for a new thread, what the kernel reads otherwise.
  unfoldable pub refresh_general_registers : Thread × K → (Thread × K) × Bool
  refresh_general_registers (t, k) =
      if is_new t.state
      then ((record t { gregs = zero_gregs }, k), true)
      else elim (calls.read_state t.handle k) [
        | none ↦ ((t, k), false)
        | some gregs ↦ ((record t { gregs = gregs }, k), true)
      ]

  -- WriteRegsetHelper
  unfoldable pub write_general_registers : Thread × K → (Thread × K) × Bool
  write_general_registers (t, k) =
      let (k', ok) = calls.write_state t.handle t.gregs k in ((t, k'), ok)

  -- SetRflagsTF. SetSingleStep does not fail on amd64.
  unfoldable pub set_rflags_tf : Bool → Thread × K → (Thread × K) × Bool
  set_rflags_tf enable s =
      let ((t, k), refreshed) = refresh_general_registers s in
      if refreshed
      then write_general_registers (record t { gregs = set_single_step enable t.gregs }, k)
      else ((t, k), false)

  -- InsertSingleStepBreakpoint, with SingleStepBreakpoint::Insert of the new breakpoint.
  unfoldable pub insert_single_step_breakpoint : ℕ → Thread × K → (Thread × K) × Bool
  insert_single_step_breakpoint address (t, k) =
      if is_none t.single_step_breakpoint
      then (let ((t', k'), ok) = set_rflags_tf true (t, k) in
          if ok
          then (
            (
              record t' {
                single_step_breakpoint = some (record { address = address; inserted = true });
              },
              k',
            ),
            true,
          )
          else ((t', k'), false))
      else ((t, k), false)

  -- RemoveSingleStepBreakpoint: the breakpoint is destroyed, and the destructor removes it if it is
  -- inserted, whatever comes of that.
  unfoldable pub remove_single_step_breakpoint : Thread × K → (Thread × K) × Bool
  remove_single_step_breakpoint (t, k) = elim t.single_step_breakpoint [
    | none ↦ ((t, k), false)
    | some b ↦
        let (t', k') = if b.inserted then (set_rflags_tf false (t, k)).0 else (t, k) in
        ((record t' { single_step_breakpoint = none }, k'), true)
  ]

  -- Thread::OnException
  unfoldable pub on_exception : ExceptionType → Context → Thread × K → Thread × K
  on_exception type context (t, k) =
      let t' = record t { exception_context = some context; state = stopped } in
      if is_stepping t.state && not (is_exiting_exception type)
      then (remove_single_step_breakpoint (t', k)).0
      else (t', k)

  -- Thread::Resume
  unfoldable pub resume : Thread × K → (Thread × K) × Bool
  resume (t, k) =
      if is_stopped t.state || is_new t.state
      then (let (k', ok) = calls.resume t.handle k in
          if ok then ((record t { state = running }, k'), true) else ((t, k'), false))
      else ((t, k), false)

  -- Thread::Clear
  unfoldable pub clear : Thread × K → Thread × K
  clear (t, k) = (record t { handle = 0 }, if t.handle == 0 then k else calls.close t.handle k)

  -- Thread::ResumeForExit. A failure is only logged; the state must be new, stopped or exiting.
  unfoldable pub resume_for_exit : Thread × K → Thread × K
  resume_for_exit (t, k) =
      let (k', _) = calls.resume t.handle k in clear (record t { state = gone }, k')

  -- Thread::Step
  unfoldable pub step : Thread × K → (Thread × K) × Bool
  step (t, k) =
      if is_stopped t.state
      then (let ((t1, k1), refreshed) = refresh_general_registers (t, k) in
          elim (get_pc t1.gregs) [
            | none ↦ ((t1, k1), false)
            | some pc ↦
                if refreshed
                then (let ((t2, k2), inserted) = insert_single_step_breakpoint pc (t1, k1) in
                    let (k3, ok) = calls.resume t2.handle k2 in
                    if inserted
                    then (if ok
                        then ((record t2 { state = stepping }, k3), true)
                        else ((remove_single_step_breakpoint (t2, k3)).0, false))
                    else ((t2, k2), false))
                else ((t1, k1), false)
          ])
      else ((t, k), false)
