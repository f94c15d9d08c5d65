-- ===== src/Process/Control.antt =====
-- Process: attaching, detaching, starting and killing.
use gdbserver.Base.{
  none, Bool, true, false, not, Option, some, ◌==◌, if◌then◌else◌, ◌>>=◌, ◌>>◌, guard,
}
use gdbserver.Process.{
  ProcessCalls, System, starting, running, set_state, is_attached, is_live, is_new_process,
  clear_process,
}
use gdbserver.Process.Port.{bind_exception_port, unbind_exception_port}

module _ {W : Type 0} (calls : ProcessCalls W) where
  -- AllocDebugHandle, with GetProcessDebugHandle
  unfoldable pub alloc_debug_handle : System W → Option (System W × Bool)
  alloc_debug_handle s = do
    guard (s.process.handle == 0)
    let (w, handle) = calls.object_get_child 0 s.process.id s.world
    let s' = record s { world = w }
    some (
        if handle == 0
        then (s', false)
        else (record s' { process = record s.process { handle = handle } }, true))

  -- CloseDebugHandle
  unfoldable pub close_debug_handle : System W → System W
  close_debug_handle s = record s {
    process = record s.process { handle = 0 };
    world = calls.handle_close s.process.handle s.world;
  }

  -- The end of Attach: a program that is already running is running.
  unfoldable pub mark_running : System W → Option (System W × Bool)
  mark_running s =
      if s.process.attached_running
      then (do
        p ← set_state running s.process
        some (record s { process = record p { thread_map_stale = true } }, true))
      else some (s, true)

  -- Attach, once the handle is there.
  unfoldable pub bind_or_close : System W → Option (System W × Bool)
  bind_or_close s = do
    (s', bound) ← bind_exception_port calls s
    if bound then mark_running s' else some (close_debug_handle s', false)

  -- Attach
  unfoldable pub attach : System W → Option (System W × Bool)
  attach s = do
    attached ← is_attached s.process
    if attached
        then some (s, false)
        else (do (s', ok) ← alloc_debug_handle s; if ok then bind_or_close s' else some (s', false))

  -- RawDetach
  unfoldable pub raw_detach : System W → Option (System W)
  raw_detach s = do
    guard (not (s.process.handle == 0))
    attached ← is_attached s.process
    guard attached
    s' ← unbind_exception_port calls s
    some (close_debug_handle s')

  -- Detach
  unfoldable pub detach : System W → Option (System W × Bool)
  detach s = do
    attached ← is_attached s.process
    if attached
        then (do s' ← raw_detach s; s'' ← clear_process calls s'; some (s'', true))
        else some (s, false)

  -- Start, of a process that is new.
  unfoldable pub start_new : System W → Option (System W × Bool)
  start_new s = do
    let (w, dup_handle) = calls.launchpad_start s.world
    let destroyed = record s {
      process = record s.process { launchpad = false };
      world = calls.launchpad_destroy w;
    }
    elim dup_handle [
      | none ↦ some (destroyed, false)
      | some dup ↦ do
        p ← set_state starting destroyed.process
        some
            (record destroyed { process = p; world = calls.handle_close dup destroyed.world }, true)
    ]

  -- Start
  unfoldable pub start : System W → Option (System W × Bool)
  start s = do
    guard s.process.launchpad
    guard (not (s.process.handle == 0))
    if is_new_process s.process.state then start_new s else some (s, false)

  -- Kill, of a process that is live. That waiting fails is only logged.
  unfoldable pub kill_live : System W → Option (System W × Bool)
  kill_live s = do
    guard (not (s.process.handle == 0))
    let (w, ok) = calls.task_kill s.process.handle s.world
    if ok
        then (do
          s1 ← unbind_exception_port calls (record s { world = w })
          let (w', _) = calls.wait_terminated s1.process.handle s1.world
          s2 ← clear_process calls (close_debug_handle (record s1 { world = w' }))
          some (s2, true))
        else some (record s { world = w }, false)

  -- Kill
  unfoldable pub kill : System W → Option (System W × Bool)
  kill s = if is_live s.process.state then kill_live s else some (s, true)

  -- Process::~Process
  unfoldable pub destroy_process : System W → Option (System W)
  destroy_process s =
      if s.process.attached_running then (do s' ← raw_detach s; clear_process calls s') else (do
        (s', killed) ← kill s
        s'' ← if killed then some s' else raw_detach s'
        clear_process calls s'')
