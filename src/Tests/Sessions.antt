-- ===== src/Tests/Sessions.antt =====
-- The server with its command handler at concrete inputs.
use gdbserver.Base.{none, some, [], true, false, ◌≡◌, bytes_eq, codes, refl, pos}
use gdbserver.Breakpoints.{MemoryCalls}
use gdbserver.Registers.{Gregs}
use gdbserver.Ftl.Sample.{sample}
use gdbserver.Packet.{verify_packet, find_unescaped_char, scan, verify_from_dollar, checksum}
use gdbserver.Rsp.{on_payload, on_bytes_read, RspServer, send_ack}
use gdbserver.Handlers.{starts_with}
use gdbserver.Handlers.Dispatch.{Session, Environment, handle_command, handle_family, on_stub}
use gdbserver.Hex.{decode_byte_string, hex_char_to_byte}
use gdbserver.Debugserver.{receive, command_handler}
use gdbserver.Debugserver.Served.{OneResponse, receive-served}
use gdbserver.Tests.Runs.{calls, with_thread}

abbrev no_memory : MemoryCalls Gregs
no_memory = record { read_memory = λ a n w. none; write_memory = λ a bs w. none }

abbrev environment : Environment Gregs
environment = record {
  calls = calls;
  memory = no_memory;
  log = record { num_severities = 4; get_min_log_level = λ v. v };
  ftl = sample;
  behind = λ k. 0;
  uninit = 0;
}

abbrev session : Session Gregs
session = record {
  stub = record { system = with_thread; current_thread = some 8 };
  in_thread_info_sequence = false;
  monitor = record { min_log_level = pos 0; quit_posted = false };
}

abbrev idle_server : RspServer
idle_server = record {
  notify_queue = [];
  pending_notification = none;
  tasks = [];
  timers = [];
  written = [];
  overflowed = false;
}

question_verified : verify_packet (codes "$?#3f") ≡ some (codes "?")
unfolding verify_packet find_unescaped_char scan verify_from_dollar decode_byte_string
    hex_char_to_byte checksum
question_verified = refl

question_lives : (receive environment (codes "$?#3f") (idle_server, some session)).1 ≡ some session
unfolding receive on_bytes_read bytes_eq verify_packet find_unescaped_char scan verify_from_dollar
    decode_byte_string hex_char_to_byte checksum on_payload command_handler handle_command
    handle_family on_stub
question_lives = refl

question_no_ack : bytes_eq (codes "$?#3f") (codes "+") ≡ false
unfolding bytes_eq
question_no_ack = refl

question_no_stop_ack : bytes_eq (codes "?") (codes "vStopped") ≡ false
unfolding bytes_eq
question_no_stop_ack = refl

question_no_run : starts_with (codes "?") (codes "vRun;") ≡ false
unfolding starts_with bytes_eq
question_no_run = refl

receive-served_example :
    OneResponse
      (send_ack true idle_server)
      (receive environment (codes "$?#3f") (idle_server, some session)).0
receive-served_example =
    receive-served environment (codes "$?#3f") (codes "?") idle_server session session
      question_verified question_no_ack question_no_stop_ack question_no_run question_lives
