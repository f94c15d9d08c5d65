-- ===== src/Process/Dsos.antt =====
-- process.cc: the list of the loaded DSOs, which is read when the dynamic linker stops at its breakpoint
-- (TryBuildLoadedDsosList, DsosLoaded, LookupDso).
use gdbserver.Base.{
  ℕ, ◌+◌, ◌-◌, ◌^◌, ◌%◌, Bool, true, false, not, Option, none, some, List, [], ◌∷◌, Bytes, ◌==◌,
  is_empty, if◌then◌else◌, codes,
}
use gdbserver.ByteBlock.{ByteBlock}
use gdbserver.Elf.{field_at}
use gdbserver.Dso.{Dso, dso_fetch_list, dso_lookup}
use gdbserver.Breakpoints.{MemoryCalls, read}
use gdbserver.Registers.{get_pc}
use gdbserver.Thread.{Thread, refresh_general_registers}
use gdbserver.Process.{ProcessCalls, Process, System}

-- struct r_debug: r_version, r_map, r_brk.
pub record DebugInfo : Type 0 where
  pub r_version : ℕ
  pub r_map : ℕ
  pub r_brk : ℕ

unfoldable pub debug_info_of : Bytes → DebugInfo
debug_info_of bytes = record {
  r_version = field_at 0 4 bytes;
  r_map = field_at 8 8 bytes;
  r_brk = field_at 16 8 bytes;
}

-- The memory of the process, as ReadMemory gives it.
abbrev pub memory_block : {W : Type 0} → MemoryCalls W → System W → ByteBlock
memory_block memory s address size = read memory s.process.handle address size s.world

-- Process::DsosLoaded
abbrev pub dsos_loaded : Process → Bool
dsos_loaded p = not (is_empty p.dsos)

-- Process::LookupDso
unfoldable pub lookup_dso : ℕ → Process → Option Dso
lookup_dso pc p = dso_lookup p.dsos pc

-- The end of TryBuildLoadedDsosList, with the list that was fetched.
unfoldable pub keep_dsos : List Dso → Process → Process
keep_dsos [] p = record p { dsos_build_failed = true }
keep_dsos (d ∷ list) p = record p { dsos = d ∷ list; dsos_build_failed = false }

-- `debug_addr` is mx_object_get_property of MX_PROP_PROCESS_DEBUG_ADDR; `fuel` is for the loops over the link maps and
-- the notes.
module _ {W : Type 0} (calls : ProcessCalls W) (memory : MemoryCalls W)
    (debug_addr : ℕ → W → Option ℕ) (fuel : ℕ) where
  -- TryBuildLoadedDsosList once the registers are read: the test for the linker's breakpoint, and the list.
  unfoldable pub build_at_breakpoint : DebugInfo → Thread → System W → Option (Thread × System W)
  build_at_breakpoint debug t s = elim (get_pc t.gregs) [
    | none ↦ none
    | some pc ↦
        if not ((pc + 2 ^ 64 - 1) % 2 ^ 64 == debug.r_brk)
        then some (t, s)
        else elim (dso_fetch_list fuel (memory_block memory s) debug.r_map (codes "app")) [
          | none ↦ none
          | some list ↦ some (t, record s { process = keep_dsos list s.process })
        ]
  ]

  -- TryBuildLoadedDsosList once r_debug is read.
  unfoldable pub build_refreshed : DebugInfo → Thread → System W → Option (Thread × System W)
  build_refreshed debug t s =
      let ((t', w), refreshed) = refresh_general_registers calls.thread (t, s.world) in
      if refreshed then build_at_breakpoint debug t' (record s { world = w }) else none

  -- TryBuildLoadedDsosList, with the check for the breakpoint: the thread, whose registers may have been read, and the
  -- process.
  unfoldable pub try_build_loaded_dsos_list : Thread → System W → Option (Thread × System W)
  try_build_loaded_dsos_list t s =
      if dsos_loaded s.process then none else elim (debug_addr s.process.handle s.world) [
        | none ↦ some (t, s)
        | some address ↦ elim (memory_block memory s address 40) [
          | none ↦ some (t, s)
          | some bytes ↦
              let debug = debug_info_of bytes in
              if debug.r_version == 0 then some (t, s) else build_refreshed debug t s
        ]
      ]
