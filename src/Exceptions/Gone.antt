-- ===== src/Exceptions/Gone.antt =====
-- The exit of the process.
use gdbserver.Base.{
  append-nil, ℕ, ◌%◌, true, false, none, some, [], ◌∷◌, ◌≡◌, ◌≢◌, inl, inr, refl, arith,
}
use gdbserver.Ftl.{Ftl}
use gdbserver.Hex.{encode_byte_string}
use gdbserver.Rsp.{queue_stop_notification}
use gdbserver.StopReply.{
  insert_registers, build, set_signal_number, stop_reply_packet, process_exited, type_letter,
}
use gdbserver.Process.{ProcessCalls, System, gone, set_state, is_attached}
use gdbserver.Process.Port.{unbind_exception_port, unbind, bound_handle, forget_key}
use gdbserver.Process.Control.{detach, raw_detach, close_debug_handle}
use gdbserver.Process.Invariant.{
  Inv, Detached, Cleared, Cleared-Inv, clear_process_lem, detached_by,
}
use gdbserver.Exceptions.{
  Server, default_timeout, queue_packet, on_process_exit, on_process_gone, exit_code,
}

module _ {W : Type 0} (calls : ProcessCalls W) (f : Ftl) where
  -- Detach of whatever has a handle and a key, in any state.
  detach_linked :
      (s : System W)
      → s.process.handle ≢ 0
      → s.process.eport_key ≢ 0
      → s.port.callbacks ≡ (s.process.eport_key, s.process.handle) ∷ []
      → (t : System W) × (detach calls s ≡ some (t, true)) × Cleared calls (detached_by calls s) t
  unfolding detach raw_detach is_attached unbind_exception_port unbind bound_handle forget_key
      close_debug_handle detached_by
  detach_linked s h k c =
      let (t, cleared) = clear_process_lem calls (detached_by calls s) refl refl refl in
      (t, ground (arith, cleared.result), cleared)

  detach_none :
      (s : System W)
      → s.process.handle ≡ 0
      → s.process.eport_key ≡ 0
      → detach calls s ≡ some (s, false)
  unfolding detach is_attached
  detach_none s h k = ground arith

  exit_packet :
      (n : ℕ)
      → build (set_signal_number n (stop_reply_packet process_exited))
        ≡ some (b'W' ∷ encode_byte_string (n % 256))
  unfolding build type_letter set_signal_number stop_reply_packet insert_registers
  exit_packet n = ground (arith, append-nil (encode_byte_string (n % 256)))

  exit_report :
      (address : ℕ) (v : Server W)
      → on_process_exit calls f address v
        ≡ some (record v {
          rsp =
              queue_stop_notification address
                (b'W' ∷ encode_byte_string (exit_code calls f v.system % 256))
                default_timeout
                v.rsp;
          current_thread = none;
        })
  unfolding on_process_exit queue_packet
  exit_report address v = ground (arith, exit_packet (exit_code calls f v.system))

  -- A process that is gone is reported with its exit code and forgotten, from every state that
  -- satisfies the invariant of its operations and without a failed check: one notification `W`
  -- with the code's two digits is queued, no thread is current, and the process is detached, with
  -- no callback left at the exception port.
  pub on_process_gone_lem :
      (address : ℕ) (v : Server W)
      → Inv v.system
      → (v' : Server W) × (on_process_gone calls f address v ≡ some v')
        × Inv v'.system
        × Detached v'.system
        × (v'.system.process.state ≡ gone)
        × (v'.current_thread ≡ none)
        × (v'.rsp
            ≡ queue_stop_notification address
                (b'W' ∷ encode_byte_string (exit_code calls f v.system % 256))
                default_timeout
                v.rsp)
  unfolding on_process_gone set_state exit_code detached_by
  on_process_gone_lem address v i =
      let s = record v.system { process = record v.system.process { state = gone } } in
      let report = exit_report address (record v { system = s }) in
      let rsp =
        queue_stop_notification address
          (b'W' ∷ encode_byte_string (exit_code calls f v.system % 256)) default_timeout v.rsp in
      let finish : System W → Server W =
        λ t. record { rsp = rsp; system = t; current_thread = none } in
      elim i.link [
        | inr (h, k, _, c, _) ↦
            let (t, e, cleared) = detach_linked s h k c in
            (
              finish t,
              ground (arith, e, report),
              Cleared-Inv calls (detached_by calls s) t i.counter cleared,
              cleared.detached,
              cleared.state,
              refl,
              refl,
            )
        | inl (h, k, c, _) ↦
            let (t, cleared) = clear_process_lem calls s h k c in
            (
              finish t,
              ground (arith, cleared.result, detach_none s h k, report),
              Cleared-Inv calls s t i.counter cleared,
              cleared.detached,
              cleared.state,
              refl,
              refl,
            )
      ]
