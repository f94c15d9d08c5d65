-- ===== src/Exceptions/Reports.antt =====
-- What an exception of a thread makes the server report.
use gdbserver.Base.{ℕ, ◌≤◌, Bool, true, false, none, some, List, [], ◌∷◌, ◌++◌, Bytes, ◌≡◌, pos}
use gdbserver.Ftl.{Ftl}
use gdbserver.Hex.{encode_byte_string}
use gdbserver.Rsp.{queue_stop_notification}
use gdbserver.Registers.{rsp}
use gdbserver.StopReply.Fields.{signal_fields}
use gdbserver.StopReply.Printed.{print_fields}
use gdbserver.Thread.{
  Thread, Context, ExceptionType, general, fatal_page_fault, undefined_instruction, sw_breakpoint,
  hw_breakpoint, on_exception,
}
use gdbserver.Thread.Signals.{compute_gdb_signal, signal_value}
use gdbserver.Process.{ProcessCalls}
use gdbserver.Exceptions.{Server, default_timeout, reported_registers}

-- MX_EXCP_IS_ARCH
abbrev pub is_arch : ExceptionType → Bool
is_arch general = true
is_arch fatal_page_fault = true
is_arch undefined_instruction = true
is_arch sw_breakpoint = true
is_arch hw_breakpoint = true
is_arch _ = false

module _ {W : Type 0} (calls : ProcessCalls W) (f : Ftl) where
  -- The registers to report: those that the kernel reads for the thread, or none if it does not.
  abbrev pub registers_read : ℕ → W → List (ℕ × Bytes)
  registers_read handle w = elim (calls.thread.read_state handle w) [
    | none ↦ []
    | some gregs ↦ reported_registers calls f gregs
  ]

  -- The notification that is queued for a thread with the context `c`, which has become `s.0` in the world `s.1`.
  abbrev pub ReportedFor : ℕ → Context → Thread × W → Server W → Server W → Type 0
  ReportedFor address c s v v' =
      (signal : ℕ) × (signal_value (compute_gdb_signal c.vector) ≡ pos signal)
      × (4 ≤ signal)
      × (signal ≤ 31)
      × (v'.rsp
          ≡ queue_stop_notification address
              (b'T'
                ∷ (encode_byte_string signal
                    ++ print_fields (
                        signal_fields f v.system.process.id c.tid (registers_read s.0.handle s.1)
                          none)))
              default_timeout v.rsp)

  abbrev pub Reported : ℕ → ExceptionType → Context → Thread → Server W → Server W → Type 0
  Reported address type c t v v' =
      ReportedFor address c (on_exception calls.thread type c (t, v.system.world)) v v'
