-- ===== src/Tests/Loading.antt =====
-- The list of DSOs of a process that stops at the dynamic linker's breakpoint.
use gdbserver.StopReply.{
  set_thread_id, set_signal_number, stop_reply_packet, add_register_values, add_register_value,
  build, insert_thread_id,
}
use gdbserver.Registers.{get_register_as_string}
use gdbserver.Hex.{encode_byte_array_string}
use gdbserver.ThreadId.{encode_thread_id}
use gdbserver.ByteBlock.{c_string, read_string}
use gdbserver.Process.ThreadMap.{
  put_thread, find_thread, ensure_thread_map_fresh, find_thread_by_id,
}
use gdbserver.Tests.Inferior.{trap_at}
use gdbserver.Ftl.Sample.{sample}
use gdbserver.Tests.Notifications.{idle_server}
use gdbserver.Exceptions.{
  queue_packet, on_architectural_exception, store_thread, on_thread_exception, build_dsos,
  exception_thread, Server, on_exception_report,
}
use gdbserver.Thread.Signals.{signal_value, get_gdb_signal, compute_gdb_signal}
use gdbserver.Base.{
  none, map, ◌∷◌, [], Option, bytes_eq, ℕ, ◌≡◌, ◌==◌, some, ◌++◌, Bytes, codes, refl, arith,
  if◌then◌else◌, List,
}
use gdbserver.Registers.{
  Gregs, set_at, rip, zero_gregs, le_bytes, le_word, get_int_register, get_register,
}
use gdbserver.Breakpoints.{MemoryCalls, read}
use gdbserver.Elf.{create, read_header, header_of, verify_header, read_segment_headers, array_of}
use gdbserver.Elf.BuildId.{read_build_id, scan_segments}
use gdbserver.Dso.{
  xs_text, fresh_dso, insert_dso, close_dso, finish_dso, fetch_dso, fetch_dsos, Dso, dso_fetch_list,
  dso_lookup, link_map_of, complete_dso, loadable_headers, loadable_from,
}
use gdbserver.Dso.Order.{IsSorted, IsNearest}
use gdbserver.Dso.Chain.{Chain, ends, link, dso_fetch_list-Chain}
use gdbserver.Thread.{
  on_exception, sw_breakpoint, Thread, new_thread, stopped, refresh_general_registers,
}
use gdbserver.Process.{Process, System}
use gdbserver.Process.Dsos.{
  keep_dsos, build_at_breakpoint, build_refreshed, debug_info_of, memory_block,
  try_build_loaded_dsos_list,
}
use gdbserver.Process.Loaded.{IsLoaded, fetched, try_build_loaded_dsos_list-IsLoaded}
use gdbserver.Tests.Objects.{linked, link_map, zero_text}
use gdbserver.Tests.Runs.{calls, system, attached_process}

-- r_debug at 0x100: version 1, the first link map at 0x10, and the breakpoint at 0x4000.
abbrev debug_bytes : Bytes
debug_bytes = le_bytes 8 1 ++ (le_bytes 8 0x10 ++ (le_bytes 8 0x4000 ++ zero_text 16))

abbrev memory : MemoryCalls Gregs
memory = record {
  read_memory = λ a n w. if a == 0x100 then some debug_bytes else linked a n;
  write_memory = λ a bytes w. some w;
}

abbrev debug_addr : ℕ → Gregs → Option ℕ
debug_addr handle w = some 0x100

-- A thread that has stopped at the breakpoint: its registers are the world.
abbrev at_breakpoint : Gregs
at_breakpoint = set_at rip 0x4001 zero_gregs

abbrev stopped_thread : Thread
stopped_thread = record (new_thread 108 8) { state = stopped }

abbrev stopped_system : System Gregs
stopped_system = record (system attached_process) { world = at_breakpoint }

two_maps : Chain (memory_block memory stopped_system) 0 0x10 2
unfolding read link_map_of le_bytes le_word create read_header header_of verify_header complete_dso
    loadable_headers loadable_from read_segment_headers read_build_id scan_segments array_of
    bytes_eq
two_maps =
    link 0x10 1 (link_map 0x5000 0x20) refl (λ fuel main dso h e. ground arith)
      (link 0x20 0 (link_map 0x7000 0) refl (λ fuel main dso h e. ground arith) ends)

dso_fetch_list-Chain_example :
    (list : List Dso) × (dso_fetch_list 4 (memory_block memory stopped_system) 0x10 (codes "app")
      ≡ some list)
    × IsSorted list
    × IsNearest list 0x6000 (dso_lookup list 0x6000)
dso_fetch_list-Chain_example =
    dso_fetch_list-Chain 4 0 2 (memory_block memory stopped_system) 0x10 (codes "app") 0x6000
      two_maps (omega arith)

try_build_loaded_dsos_list-IsLoaded_example :
    (list : List Dso) × (p : Process) × (fetched memory stopped_system 4 (debug_info_of debug_bytes)
      ≡ some list)
    × (try_build_loaded_dsos_list calls memory debug_addr 4 stopped_thread stopped_system
        ≡ some (
          record stopped_thread { gregs = at_breakpoint },
          record stopped_system { process = p },
        ))
    × IsLoaded attached_process p list 0x6000
unfolding read debug_info_of le_bytes le_word refresh_general_registers get_int_register
    get_register set_at
try_build_loaded_dsos_list-IsLoaded_example =
    try_build_loaded_dsos_list-IsLoaded calls memory debug_addr 4 0 2 0x100 0x4001 0x6000
      debug_bytes stopped_thread (record stopped_thread { gregs = at_breakpoint }) stopped_system
      refl refl refl refl refl refl refl two_maps (omega arith)

-- A software breakpoint that the server reports fills the list.
abbrev stopped_server : Server Gregs
stopped_server = record {
  rsp = idle_server;
  system = record stopped_system {
    process = record attached_process { threads = (8, stopped_thread) ∷ [] };
  };
  current_thread = some 8;
}

abbrev bases : Option (Server Gregs) → List ℕ
bases none = []
bases (some v) = map (λ (d : Dso). d.base) v.system.process.dsos

list_filled :
    bases
      (on_exception_report calls sample memory debug_addr 4 1 sw_breakpoint trap_at stopped_server)
    ≡ 0x7000 ∷ 0x5000 ∷ []
unfolding on_exception_report exception_thread find_thread_by_id ensure_thread_map_fresh find_thread
    build_dsos try_build_loaded_dsos_list build_refreshed build_at_breakpoint keep_dsos
    debug_info_of refresh_general_registers get_int_register get_register dso_fetch_list fetch_dsos
    fetch_dso finish_dso close_dso insert_dso fresh_dso xs_text read_string c_string read
    link_map_of le_bytes le_word create read_header header_of verify_header complete_dso
    loadable_headers loadable_from read_segment_headers read_build_id scan_segments array_of
    bytes_eq set_at on_thread_exception on_exception store_thread put_thread
    on_architectural_exception queue_packet signal_value get_gdb_signal compute_gdb_signal
    set_thread_id set_signal_number stop_reply_packet add_register_values add_register_value
    get_register_as_string encode_byte_array_string build encode_thread_id insert_thread_id
list_filled = refl
