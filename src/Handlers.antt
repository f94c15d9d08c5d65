-- ===== src/Handlers.antt =====
-- bin/debugserver/cmd-handler.cc: what the handlers of the packets share, and the handlers of the
-- packets for registers and threads (g, G, H, T, c, C).
pub mod Auxv
pub mod AuxvRead
pub mod Dispatch
pub mod Answered
pub mod Answers
pub mod Monitor
pub mod MemoryPackets
pub mod ProcessPackets
pub mod RegisterPackets
pub mod Written
pub mod Continued
pub mod RegistersWritten
pub mod Attached
pub mod ContinuePackets
pub mod Continuing
pub mod Queries
pub mod Joined
use gdbserver.Base.{
  ℕ, ◌+◌, ◌*◌, ◌-◌, zero, suc, Bool, true, false, not, ◌&&◌, ◌||◌, Option, none, some, List, [],
  ◌∷◌, ◌++◌, Bytes, ◌==◌, bytes_eq, if◌then◌else◌, ◌>>=◌, ◌>>◌, guard, codes, length, take, drop,
  substr, find, is_empty, is_none, ℤ, pos, negsuc,
}
use gdbserver.Ftl.{Ftl}
use gdbserver.Hex.{decode_byte_array_string}
use gdbserver.ThreadId.{build_error_packet}
use gdbserver.Thread.{Thread}
use gdbserver.Process.{ProcessCalls, Process, System, is_attached}
use gdbserver.Process.ThreadMap.{find_thread, put_thread}

-- The state that the handlers work on: the server's process, which main.cc always sets, and its
-- current thread, a weak pointer given by the thread's id.
pub record Stub (W : Type 0) : Type 0 where
  pub system : System W
  pub current_thread : Option ℕ

-- A handler's result: the new state, the responses given to the callback, and whether the packet is
-- handled; `none` is a failed FTL_DCHECK.
abbrev pub Answer : Type 0 → Type 0
Answer W = Option (Stub W × List Bytes × Bool)

-- ErrorCode
abbrev pub perm : ℕ
perm = 1

abbrev pub noent : ℕ
noent = 2

abbrev pub inval : ℕ
inval = 22

-- ReplyOK
abbrev pub reply_ok : {W : Type 0} → Stub W → Answer W
reply_ok s = some (s, codes "OK" ∷ [], true)

-- ReplyWithError
unfoldable pub reply_with_error : {W : Type 0} → Ftl → ℕ → Stub W → Answer W
reply_with_error f code s = some (s, build_error_packet f code ∷ [], true)

-- A return of false, with no response.
abbrev pub unhandled : {W : Type 0} → Stub W → Answer W
unhandled s = some (s, [], false)

-- A response, and a return of true.
abbrev pub respond_with : {W : Type 0} → Bytes → Stub W → Answer W
respond_with response s = some (s, response ∷ [], true)

-- StartsWith
unfoldable pub starts_with : Bytes → Bytes → Bool
starts_with str prefix = bytes_eq (substr str 0 (length prefix)) prefix

-- The loop of BuildArgvFor_vRun over what is left of the packet. Each round takes a byte at least.
unfoldable pub argv_loop : ℕ → Bytes → List Bytes
argv_loop fuel [] = []
argv_loop zero (c ∷ rest) = []
argv_loop (suc fuel) (c ∷ rest) = elim (find b';' (c ∷ rest)) [
  | none ↦ decode_byte_array_string (c ∷ rest) ∷ []
  | some n ↦ decode_byte_array_string (take n (c ∷ rest)) ∷ argv_loop fuel (drop (n + 1) (c ∷ rest))
]

-- BuildArgvFor_vRun
unfoldable pub build_argv_for_v_run : Bytes → List Bytes
build_argv_for_v_run packet = argv_loop (length packet) packet

module _ {W : Type 0} where
  -- Server::current_thread: a weak pointer to a thread that is no longer there is null.
  unfoldable pub get_current_thread : Stub W → Option Thread
  get_current_thread s = do id ← s.current_thread; find_thread id s.system.process.threads

  -- A thread of the process, and the kernel, after an operation on the thread.
  unfoldable pub put_back : Thread × W → Stub W → Stub W
  put_back (t, w) s = record s {
    system = record s.system {
      process = record s.system.process { threads = put_thread t.id t s.system.process.threads };
      world = w;
    };
  }

  -- The state after a lookup in the thread map. A lookup in a stale map destroys the threads that it
  -- had, so that the weak pointer is null.
  unfoldable pub after_lookup : System W → Stub W → Stub W
  after_lookup s v = record {
    system = s;
    current_thread = if v.system.process.thread_map_stale then none else v.current_thread;
  }

  -- The state after Clear, which destroys all threads.
  unfoldable pub after_clear : System W → Stub W
  after_clear s = record { system = s; current_thread = none }
