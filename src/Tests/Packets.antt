-- ===== src/Tests/Packets.antt =====
-- The handlers of packets at concrete inputs.
use gdbserver.Thread.{stopped, Thread}
use gdbserver.Base.{
  List, ◌-◌, false, ◌%◌, ◌*◌, none, Bytes, ◌+◌, take, pos, ℕ, zero, suc, true, some, [], ◌∷◌, ◌++◌,
  ◌≡◌, refl, arith, codes, bytes_eq, inl, length, All, subst,
}
use mathlib.Core.Option.{some-injective}
use gdbserver.Ftl.Sample.{sample, sample_laws}
use gdbserver.Hex.{encode_byte_array_string}
use gdbserver.Hex.Digits.{IsHexChar}
use gdbserver.Registers.{le_bytes, zero_gregs, Gregs}
use gdbserver.Process.{is_attached}
use gdbserver.Process.ThreadMap.{find_thread}
use gdbserver.Breakpoints.{MemoryCalls, BlockLaws}
use gdbserver.Handlers.{Stub, reply_ok, respond_with, get_current_thread}
use gdbserver.Handlers.MemoryPackets.{handle_m, handle_upper_m}
use gdbserver.Handlers.RegisterPackets.{handle_g, handle_upper_g, zeros}
use gdbserver.Handlers.Written.{handle_m-handle_upper_m, place}
use gdbserver.Handlers.RegistersWritten.{handle_g-handle_upper_g}
use gdbserver.ThreadActions.{ThreadActionList, continue_action, step_action}
use gdbserver.Handlers.ContinuePackets.{apply_actions}
use gdbserver.Handlers.Continuing.{Applied, apply_actions-Applied}
use gdbserver.Ftl.{join}
use gdbserver.Handlers.Auxv.{
  entry_bytes, exec_entries, auxv_bytes, copy_bytes, response_length, auxv_reply,
}
use gdbserver.Handlers.AuxvRead.{auxv_reply_offset}
use gdbserver.Handlers.Monitor.{
  Monitor, LogCalls, run_command, set_command, set_parameter, quit_command,
}
use gdbserver.Hex.{encode_string}
use gdbserver.Tests.Runs.{calls, with_thread, opened}

-- A memory that holds the last block that was written, and answers only for its size.
abbrev last_block : MemoryCalls Gregs
last_block = record { read_memory = λ a n w. some w; write_memory = λ a bs w. some bs }

last_block-BlockLaws : BlockLaws last_block
last_block-BlockLaws = record {
  read_block = λ a bs m m' e. subst (λ x. some x ≡ some bs) (some-injective _ _ e) refl;
}

abbrev stub : Stub Gregs
stub = record { system = with_thread; current_thread = some 8 }

stub-attached : is_attached stub.system.process ≡ some true
unfolding is_attached
stub-attached = refl

handle_m-handle_upper_m_example :
    let payload = encode_byte_array_string (0xde ∷ 0xad ∷ []) in
    let v' = record stub { system = record stub.system { world = 0xde ∷ 0xad ∷ [] } } in
    (handle_upper_m last_block sample
        (place last_block last_block-BlockLaws sample sample_laws 0x1000 2 ++ b':' ∷ payload)
        stub
      ≡ reply_ok v')
    × (handle_m last_block sample
          (place last_block last_block-BlockLaws sample sample_laws 0x1000 2)
          v'
        ≡ respond_with payload v')
handle_m-handle_upper_m_example =
    handle_m-handle_upper_m last_block last_block-BlockLaws sample sample_laws 0x1000 0xde
      (0xad ∷ []) stub (0xde ∷ 0xad ∷ []) (omega arith) (omega arith) (omega arith) stub-attached
      refl

zeros-IsHexChar : (n : ℕ) → All IsHexChar (zeros n)
unfolding zeros
zeros-IsHexChar zero = tt
zeros-IsHexChar (suc n) = (inl (omega arith), zeros-IsHexChar n)

length-zeros : (n : ℕ) → length (zeros n) ≡ n
unfolding zeros
length-zeros zero = refl
length-zeros (suc n) = omega (arith, length-zeros n)

stub-thread : find_thread 8 stub.system.process.threads ≡ some opened
unfolding find_thread
stub-thread = refl

stub-current : get_current_thread stub ≡ some opened
unfolding get_current_thread find_thread
stub-current = refl

handle_g-handle_upper_g_example :
    (v' : Stub Gregs) × (handle_upper_g calls sample (zeros 288) stub ≡ reply_ok v')
    × (handle_g calls sample v' ≡ respond_with (zeros 288) v')
handle_g-handle_upper_g_example =
    handle_g-handle_upper_g calls sample (zeros 288) 8 opened stub (zeros-IsHexChar 288)
      (length-zeros 288) stub-attached refl stub-thread refl (λ g. refl)

-- The first thread is to step, the second to continue.
abbrev step_first : ThreadActionList
step_first = record {
  valid = true;
  default_action = continue_action;
  actions = record { action = step_action; pid = 7; tid = 8 } ∷ [];
}

abbrev two_threads : List (ℕ × Thread)
two_threads = (8, record opened { state = stopped }) ∷ (9, record opened { id = 9 }) ∷ []

apply_actions-Applied_example :
    let (es', w') = apply_actions calls step_first 7 two_threads zero_gregs in
    Applied calls.thread step_first 7 two_threads zero_gregs es' w'
apply_actions-Applied_example =
    apply_actions-Applied calls (λ h w. refl) step_first 7 two_threads zero_gregs

-- The response is what a debugger expects.
joined_ids : b'm' ∷ join b',' (codes "1f" ∷ codes "20" ∷ []) ≡ codes "m1f,20"
joined_ids = refl

abbrev base_vector : Bytes
base_vector = auxv_bytes 0x1000 none

base_vector-length : length base_vector ≡ 32
unfolding auxv_bytes exec_entries entry_bytes le_bytes
base_vector-length = refl

abbrev behind : ℕ → ℕ
behind k = (k + 3) % 256

auxv_reply_offset_example :
    (auxv_reply sample base_vector behind 0 16 stub
      ≡ respond_with (b'l' ∷ take 16 base_vector) stub)
    × (auxv_reply sample base_vector behind 6 16 stub
        ≡ respond_with
            (b'l'
              ∷ copy_bytes [] behind
                  (response_length (length base_vector) 6 16)
                  (16 * 6 - length base_vector))
            stub)
auxv_reply_offset_example =
    auxv_reply_offset sample 0x1000 none behind 6 16 stub (omega arith) (omega arith)
      (omega (arith, base_vector-length))

abbrev log : LogCalls
log = record { num_severities = 4; get_min_log_level = λ v. v }

abbrev monitor : Monitor
monitor = record { min_log_level = pos 0; quit_posted = false }

verbosity_set :
    run_command log sample (codes "set" ∷ codes "verbosity" ∷ codes "2" ∷ []) monitor
    ≡ (record monitor { min_log_level = pos 2 }, codes "OK")
unfolding run_command set_command set_parameter bytes_eq sample
verbosity_set = refl

quit_with_arguments :
    run_command log sample (codes "quit" ∷ codes "now" ∷ []) monitor
    ≡ (monitor, encode_string (codes "Invalid command\n"))
unfolding run_command quit_command bytes_eq
quit_with_arguments = refl
