-- ===== src/Process.antt =====
-- lib/inferior-control: the debugged process (process.{h,cc}). A result `none` is a failed FTL_DCHECK,
-- where the program stops.
pub mod Port
pub mod Launch
pub mod Control
pub mod ThreadMap
pub mod Invariant
pub mod Attaching
pub mod Commands
pub mod Starting
pub mod Leftover
pub mod Found
pub mod Dsos
pub mod Loaded
pub mod Worker
use gdbserver.Base.{
  ℕ, Bool, true, false, not, ◌||◌, Option, none, some, List, [], ◌∷◌, Bytes, ◌==◌, if◌then◌else◌,
  ◌>>=◌, ◌>>◌, guard,
}
use gdbserver.Dso.{Dso}
use gdbserver.Thread.{Thread, ThreadCalls, clear, remove_single_step_breakpoint}

-- The kernel's calls on a process and its handle, and launchpad's. `false`, the handle 0 and `none`
-- are errors. `W` is all that the calls depend on and change.
pub record ProcessCalls (W : Type 0) : Type 0 where
  pub thread : ThreadCalls W
  pub object_get_child : ℕ → ℕ → W → W × ℕ
  pub handle_close : ℕ → W → W
  pub bind_exception_port : ℕ → ℕ → W → W × Bool
  pub unbind_exception_port : ℕ → ℕ → W → W
  pub task_kill : ℕ → W → W × Bool
  pub wait_terminated : ℕ → W → W × Bool
  pub process_threads : ℕ → W → Option (List ℕ)
  pub return_code : ℕ → W → Option ℕ
  pub launchpad_create : Bytes → W → W × Bool
  pub launchpad_set_args : List Bytes → W → W × Bool
  pub launchpad_add_vdso_vmo : W → W × Bool
  pub launchpad_clone : W → W
  pub launchpad_elf_load : Bytes → W → W × Bool
  pub launchpad_load_vdso : W → W × Bool
  pub launchpad_process_id : W → ℕ
  pub launchpad_base_address : W → Option ℕ
  pub launchpad_entry_address : W → Option ℕ
  pub launchpad_start : W → W × Option ℕ
  pub launchpad_destroy : W → W

-- Process::State
pub data ProcessState : Type 0 where
  new : ProcessState
  starting : ProcessState
  running : ProcessState
  gone : ProcessState

-- ExceptionPort: the counter of its keys, and the process handle bound under each key.
pub record ExceptionPort : Type 0 where
  pub key_counter : ℕ
  pub callbacks : List (ℕ × ℕ)

-- Process. Handles, keys and ids are 0 where they are invalid. The thread map is in the order of its
-- iteration, which the code leaves open. `launchpad` says whether the pointer is set; a null `dsos_` is [], since
-- a list of DSOs is never empty.
pub record Process : Type 0 where
  pub argv : List Bytes
  pub launchpad : Bool
  pub handle : ℕ
  pub state : ProcessState
  pub id : ℕ
  pub base_address : ℕ
  pub entry_address : ℕ
  pub eport_key : ℕ
  pub attached_running : Bool
  pub threads : List (ℕ × Thread)
  pub thread_map_stale : Bool
  pub dsos : List Dso
  pub dsos_build_failed : Bool

-- A process with the port that it is bound to and the rest of the world.
pub record System (W : Type 0) : Type 0 where
  pub process : Process
  pub port : ExceptionPort
  pub world : W

abbrev pub is_new_process : ProcessState → Bool
is_new_process new = true
is_new_process _ = false

-- Process::set_state
unfoldable pub set_state : ProcessState → Process → Option Process
set_state new p = elim p.state [
  | gone ↦ some (record p { state = new })
  | new ↦ none
  | starting ↦ none
  | running ↦ none
]
set_state starting p = elim p.state [
  | new ↦ some (record p { state = starting })
  | gone ↦ none
  | starting ↦ none
  | running ↦ none
]
set_state running p = elim p.state [
  | new ↦ some (record p { state = running })
  | starting ↦ some (record p { state = running })
  | gone ↦ none
  | running ↦ none
]
set_state gone p = some (record p { state = gone })

-- Process::IsLive
abbrev pub is_live : ProcessState → Bool
is_live new = false
is_live gone = false
is_live starting = true
is_live running = true

-- Process::IsAttached: the key and the handle are both set, or neither is.
unfoldable pub is_attached : Process → Option Bool
is_attached p =
    if p.eport_key == 0
    then (if p.handle == 0 then some false else none)
    else (if p.handle == 0 then none else some true)

module _ {W : Type 0} (calls : ProcessCalls W) where
  -- Thread::~Thread: the handle is closed, and then the single-step breakpoint is destroyed.
  unfoldable pub destroy_thread : Thread → W → W
  destroy_thread t w = (remove_single_step_breakpoint calls.thread (clear calls.thread (t, w))).0.1

  unfoldable pub destroy_threads : List (ℕ × Thread) → W → W
  destroy_threads [] w = w
  destroy_threads (entry ∷ rest) w = destroy_threads rest (destroy_thread entry.1 w)

  -- Process::Clear
  unfoldable pub clear_process : System W → Option (System W)
  clear_process s = do
    attached ← is_attached s.process
    guard (not attached)
    let w = destroy_threads s.process.threads s.world
    let w' = if s.process.launchpad then calls.launchpad_destroy w else w
    p ← set_state gone (record s.process {
      threads = [];
      thread_map_stale = false;
      id = 0;
      base_address = 0;
      entry_address = 0;
      attached_running = false;
      dsos = [];
      dsos_build_failed = false;
      launchpad = false;
    })
    some (record { process = p; port = s.port; world = w' })
