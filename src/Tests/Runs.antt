-- ===== src/Tests/Runs.antt =====
-- A process and its exceptions over a kernel that grants everything.
use gdbserver.Process.Port.{bound_handle}
use gdbserver.Process.Worker.{
  closed, receive_packet, quits, runs, works, arrives, here, next, Reach, quit_port,
  run_exception_task, dummy_packet, on_packet, Reach-InOrder, testing, PortHistory, InOrder,
  ExceptionPacket, worker_step,
}
use gdbserver.Base.{
  ◌+◌, ◌%◌, true, false, none, some, [], ◌∷◌, ◌≡◌, ◌≢◌, refl, arith, codes, inl, inr,
}
use gdbserver.Ftl.Sample.{sample}
use gdbserver.Hex.{encode_byte_string}
use gdbserver.Registers.{Gregs, zero_gregs}
use gdbserver.Thread.{Thread, new_thread, general}
use gdbserver.Process.{ProcessCalls, Process, System, new, gone}
use gdbserver.Process.Invariant.{Inv, Attached, Detached}
use gdbserver.Process.Commands.{Performed, perform-Inv, attaches}
use gdbserver.Rsp.{queue_stop_notification}
use gdbserver.Exceptions.{Server, exit_code, on_process_gone}
use gdbserver.Exceptions.Gone.{on_process_gone_lem}
use gdbserver.Tests.Notifications.{idle_server}
use gdbserver.Tests.Inferior.{thread_calls, trap_at}

abbrev pub calls : ProcessCalls Gregs
calls = record {
  thread = thread_calls;
  object_get_child = λ parent id w. (w, id + 100);
  handle_close = λ handle w. w;
  bind_exception_port = λ handle key w. (w, true);
  unbind_exception_port = λ handle key w. w;
  task_kill = λ handle w. (w, true);
  wait_terminated = λ handle w. (w, true);
  process_threads = λ handle w. some (8 ∷ []);
  return_code = λ handle w. some 3;
  launchpad_create = λ name w. (w, true);
  launchpad_set_args = λ argv w. (w, true);
  launchpad_add_vdso_vmo = λ w. (w, true);
  launchpad_clone = λ w. w;
  launchpad_elf_load = λ path w. (w, true);
  launchpad_load_vdso = λ w. (w, true);
  launchpad_process_id = λ w. 5;
  launchpad_base_address = λ w. some 0x1000;
  launchpad_entry_address = λ w. some 0x1010;
  launchpad_start = λ w. (w, some 9);
  launchpad_destroy = λ w. w;
}

abbrev fresh_process : Process
fresh_process = record {
  argv = codes "test" ∷ [];
  launchpad = false;
  handle = 0;
  state = new;
  id = 0;
  base_address = 0;
  entry_address = 0;
  eport_key = 0;
  attached_running = false;
  threads = [];
  thread_map_stale = false;
  dsos = [];
  dsos_build_failed = false;
}

abbrev pub system : Process → System Gregs
system p = record {
  process = p;
  port = record { key_counter = 0; callbacks = [] };
  world = zero_gregs;
}

abbrev pub attached_process : Process
attached_process = record fresh_process { handle = 107; eport_key = 1; id = 7 }

abbrev attached_system : System Gregs
attached_system = record {
  process = attached_process;
  port = record { key_counter = 1; callbacks = (1, 107) ∷ [] };
  world = zero_gregs;
}

attached_system-Attached : Attached attached_system
attached_system-Attached = (omega arith, omega arith, omega arith, refl, λ q. absurd (ground arith))

fresh-Inv : Inv (system fresh_process)
fresh-Inv = record {
  counter = omega arith;
  link = inl (refl, refl, refl, refl);
  launchpad_new = λ e. refl;
  running_new = λ e q. absurd (ground arith);
  one_kind = λ e. refl;
}

attached_system-Inv : Inv attached_system
attached_system-Inv = record {
  counter = omega arith;
  link = inr attached_system-Attached;
  launchpad_new = λ e. refl;
  running_new = λ e q. absurd (ground arith);
  one_kind = λ e. refl;
}

has_id : (w : Gregs) → calls.launchpad_process_id w ≢ 0
has_id w = omega arith

perform-Inv_example : Performed calls has_id attaches (system fresh_process)
perform-Inv_example =
    perform-Inv calls has_id attaches (system fresh_process) fresh-Inv (λ q. absurd (ground arith))

abbrev no_handles : ProcessCalls Gregs
no_handles = record calls { object_get_child = λ parent id w. (w, 0) }

abbrev launched : System Gregs
launched = system (record fresh_process { launchpad = true; id = 5 })

abbrev pub opened : Thread
opened = new_thread 108 8

abbrev pub with_thread : System Gregs
with_thread = record attached_system {
  process = record attached_process { threads = (8, opened) ∷ [] };
}

abbrev server : Server Gregs
server = record { rsp = idle_server; system = with_thread; current_thread = some 8 }

-- A kernel that reads zeros for every thread.
abbrev whole_calls : ProcessCalls Gregs
whole_calls = record calls {
  thread = record thread_calls { read_state = λ handle k. some zero_gregs };
}

pub with_thread-Inv : Inv with_thread
with_thread-Inv = record {
  counter = omega arith;
  link = inr attached_system-Attached;
  launchpad_new = λ e. refl;
  running_new = λ e q. absurd (ground arith);
  one_kind = λ e. refl;
}

on_process_gone_lem_example :
    (v' : Server Gregs) × (on_process_gone calls sample 1 server ≡ some v')
    × Inv v'.system
    × Detached v'.system
    × (v'.system.process.state ≡ gone)
    × (v'.current_thread ≡ none)
    × (v'.rsp
        ≡ queue_stop_notification 1
            (b'W' ∷ encode_byte_string (exit_code calls sample with_thread % 256))
            30
            idle_server)
on_process_gone_lem_example = on_process_gone_lem calls sample 1 server with_thread-Inv

-- An exception of the bound process that comes to the port, is posted by the port's thread and handled by the main thread,
-- Quit behind it, and another exception that waits at the port when it is closed.
abbrev packet : ExceptionPacket
packet = record { is_exception = true; key = 1; type = general; context = trap_at }

abbrev at_start : PortHistory
at_start = record {
  port = record {
    keep_running = true;
    phase = testing;
    waiting = [];
    tasks = [];
    callbacks = (1, 107) ∷ [];
  };
  arrived = [];
  ran = [];
}

abbrev at_end : PortHistory
at_end = record {
  port = record {
    keep_running = false;
    phase = closed;
    waiting = [];
    tasks = [];
    callbacks = (1, 107) ∷ [];
  };
  arrived = packet ∷ dummy_packet ∷ packet ∷ [];
  ran = (packet, some 107) ∷ [];
}

handled : Reach at_start at_end
unfolding worker_step on_packet run_exception_task quit_port bound_handle receive_packet
handled =
    next
      (next (next (next (next (next (next here (arrives packet)) works) works) runs) quits)
        (arrives packet))
      works

Reach-InOrder_example : InOrder at_end
Reach-InOrder_example = Reach-InOrder ([], refl, refl) handled
