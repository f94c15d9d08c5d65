-- ===== src/Exceptions.antt =====
-- What becomes of an exception: Process::OnException (process.cc) and the delegate of the server that
-- it calls (server.cc).
pub mod Reports
pub mod Gone
use gdbserver.Base.{
  ℕ, Bool, true, false, not, ◌||◌, Option, none, some, List, [], ◌∷◌, Bytes, ◌==◌, if◌then◌else◌,
  ◌>>=◌, ◌>>◌, guard, ℤ, pos, negsuc, is_none, codes,
}
use gdbserver.Ftl.{Ftl}
use gdbserver.Rsp.{RspServer, queue_stop_notification, post_packet_write_task}
use gdbserver.Registers.{Gregs, get_register_as_string, rbp, rsp, rip}
use gdbserver.StopReply.{
  StopType, received_signal, process_exited, thread_exited, stop_reply_packet, set_signal_number,
  set_thread_id, set_stop_reason, add_register_values, build,
}
use gdbserver.Thread.{
  Thread, Context, ExceptionType, general, fatal_page_fault, undefined_instruction, sw_breakpoint,
  hw_breakpoint, thread_starting, thread_exiting, process_gone, unrecognized, is_new, on_exception,
  refresh_general_registers, resume_for_exit,
}
use gdbserver.Thread.Signals.{GdbSignal, get_gdb_signal, signal_value}
use gdbserver.Process.{
  ProcessCalls, Process, System, ProcessState, new, starting, running, gone, set_state,
  clear_process,
}
use gdbserver.Breakpoints.{MemoryCalls}
use gdbserver.Process.Control.{detach}
use gdbserver.Process.Dsos.{dsos_loaded, try_build_loaded_dsos_list}
use gdbserver.Process.ThreadMap.{find_thread, find_thread_by_id, put_thread}

-- The RSP server with its process. `current_thread` is the id that the weak pointer stands for.
pub record Server (W : Type 0) : Type 0 where
  pub rsp : RspServer
  pub system : System W
  pub current_thread : Option ℕ

-- kDefaultTimeoutSeconds
abbrev pub default_timeout : ℕ
default_timeout = 30

-- The thread `t` of the process replaced.
unfoldable pub store_thread : {W : Type 0} → Thread → W → System W → System W
store_thread t w s = record s {
  process = record s.process { threads = put_thread t.id t s.process.threads };
  world = w;
}

module _ {W : Type 0} (calls : ProcessCalls W) (f : Ftl) where
  -- QueueStopNotification of a packet, as the notification at `address`.
  unfoldable pub queue_packet : ℕ → Bytes → Server W → Server W
  queue_packet address packet v = record v {
    rsp = queue_stop_notification address packet default_timeout v.rsp;
  }

  -- RspServer::OnThreadStarting
  unfoldable pub on_thread_starting : ℕ → Context → Server W → Option (Server W)
  on_thread_starting address context v = do
    named ←
        set_thread_id f v.system.process.id context.tid
          (set_signal_number 5 (stop_reply_packet received_signal))
    reply ← set_stop_reason (codes "create") named
    packet ← build reply
    elim v.system.process.state [
      | starting ↦ (do
        p ← set_state running v.system.process
        some (record v {
          rsp = post_packet_write_task packet v.rsp;
          system = record v.system { process = p };
        }))
      | running ↦ some (queue_packet address packet v)
      | new ↦ none
      | gone ↦ none
    ]

  -- RspServer::OnThreadExiting: the thread is resumed, and gone.
  unfoldable pub on_thread_exiting : ℕ → Thread → Server W → Option (Server W)
  on_thread_exiting address t v = do
    reply ←
        set_thread_id f v.system.process.id t.id
          (set_signal_number 0 (stop_reply_packet thread_exited))
    packet ← build reply
    let queued = queue_packet address packet v
    let (t', w) = resume_for_exit calls.thread (t, queued.system.world)
    some (record queued { system = store_thread t' w queued.system })

  -- Process::ExitCode, in the uint8_t that the stop reply takes: -1 where it is not known.
  unfoldable pub exit_code : System W → ℕ
  exit_code s = elim (calls.return_code s.process.handle s.world) [ none ↦ 255 | some code ↦ code ]

  -- RspServer::OnProcessExit
  unfoldable pub on_process_exit : ℕ → Server W → Option (Server W)
  on_process_exit address v = do
    packet ← build (set_signal_number (exit_code v.system) (stop_reply_packet process_exited))
    some (queue_packet address packet (record v { current_thread = none }))

  -- The registers that OnArchitecturalException reports.
  abbrev pub reported_registers : Gregs → List (ℕ × Bytes)
  reported_registers gregs =
      (rbp, get_register_as_string rbp gregs)
      ∷ (rsp, get_register_as_string rsp gregs)
      ∷ (rip, get_register_as_string rip gregs)
      ∷ []

  -- RspServer::OnArchitecturalException. An unsupported signal is not reported.
  unfoldable pub on_architectural_exception : ℕ → Context → Thread → Server W → Option (Server W)
  on_architectural_exception address context t v = elim (signal_value (get_gdb_signal t)) [
    | negsuc _ ↦ some v
    | pos signal ↦ (do
      let ((t', w), refreshed) = refresh_general_registers calls.thread (t, v.system.world)
      let registers : List (ℕ × Bytes) = if refreshed then reported_registers t'.gregs else []
      named ←
          set_thread_id f v.system.process.id context.tid
            (set_signal_number signal (stop_reply_packet received_signal))
      reply ← add_register_values registers named
      packet ← build reply
      some (queue_packet address packet (record v { system = store_thread t' w v.system })))
  ]

  -- Process::OnException, for a thread: Thread::OnException, and then the delegate. A thread that
  -- starts must be new.
  unfoldable pub on_thread_exception :
      ℕ → ExceptionType → Context → Thread → Server W → Option (Server W)
  on_thread_exception address type context t v =
      let (t', w) = on_exception calls.thread type context (t, v.system.world) in
      let stored = record v { system = store_thread t' w v.system } in
      elim type [
        | thread_starting ↦
            if is_new t.state then on_thread_starting address context stored else none
        | thread_exiting ↦ on_thread_exiting address t' stored
        | process_gone ↦ none
        | unrecognized ↦ none
        | general ↦ on_architectural_exception address context t' stored
        | fatal_page_fault ↦ on_architectural_exception address context t' stored
        | undefined_instruction ↦ on_architectural_exception address context t' stored
        | sw_breakpoint ↦ on_architectural_exception address context t' stored
        | hw_breakpoint ↦ on_architectural_exception address context t' stored
      ]

  -- Process::OnException, MX_EXCP_GONE: the process is reported, and detached from.
  unfoldable pub on_process_gone : ℕ → Server W → Option (Server W)
  on_process_gone address v = do
    p ← set_state gone v.system.process
    reported ← on_process_exit address (record v { system = record v.system { process = p } })
    (s, detached) ← detach calls reported.system
    s' ← if detached then some s else clear_process calls s
    some (record reported { system = s' })

  -- The thread of an exception, where it names one.
  unfoldable pub exception_thread : Context → Server W → Option (Server W × Option Thread)
  exception_thread context v = if context.tid == 0 then some (v, none) else (do
    (s, found) ← find_thread_by_id calls context.tid v.system
    some (record v { system = s }, found))

  -- The list of DSOs at a software breakpoint, for as long as there is none and no try has failed.
  unfoldable pub build_dsos :
      MemoryCalls W → (ℕ → W → Option ℕ) → ℕ → Thread → Server W → Option (Server W × Thread)
  build_dsos memory debug_addr fuel t v =
      let p = v.system.process in
      if dsos_loaded p || p.dsos_build_failed then some (v, t) else (do
        (t', s) ← try_build_loaded_dsos_list calls memory debug_addr fuel t v.system
        some (record v { system = store_thread t' s.world s }, t'))

  -- Process::OnException. A software breakpoint, an architectural exception and one of a thread must find their thread.
  unfoldable pub on_exception_report :
      MemoryCalls W
      → (ℕ → W → Option ℕ)
      → ℕ
      → ℕ
      → ExceptionType
      → Context
      → Server W
      → Option (Server W)
  on_exception_report memory debug_addr fuel address type context v = do
    (v', found) ← exception_thread context v
    elim type [
      | process_gone ↦ on_process_gone address v'
      | unrecognized ↦ some v'
      | sw_breakpoint ↦ (do
        t ← found
        (v'', t') ← build_dsos memory debug_addr fuel t v'
        on_thread_exception address sw_breakpoint context t' v'')
      | other ↦ (do t ← found; on_thread_exception address other context t v')
    ]
