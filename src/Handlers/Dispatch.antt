-- ===== src/Handlers/Dispatch.antt =====
-- HandleCommand of bin/debugserver/cmd-handler.cc, and the families of packets v, q and Q.
use gdbserver.Base.{
  ℕ, Bool, true, false, Option, some, List, [], ◌∷◌, Bytes, ◌==◌, bytes_eq, if◌then◌else◌, ◌>>=◌,
  codes, is_empty, length, substr,
}
use gdbserver.Ftl.{Ftl}
use gdbserver.Packet.{extract_parameters}
use gdbserver.Breakpoints.{MemoryCalls}
use gdbserver.Process.{ProcessCalls}
use gdbserver.Handlers.{Stub, Answer, starts_with, reply_ok, respond_with, unhandled}
use gdbserver.Handlers.RegisterPackets.{
  handle_c, handle_upper_c, handle_g, handle_upper_g, handle_upper_h, handle_upper_t,
}
use gdbserver.Handlers.MemoryPackets.{handle_m, handle_upper_m}
use gdbserver.Handlers.ProcessPackets.{handle_upper_d, handle_v_attach, handle_v_kill, handle_v_run}
use gdbserver.Handlers.ContinuePackets.{handle_v_cont}
use gdbserver.Handlers.Queries.{
  query_attached, set_non_stop, query_current_thread_id, query_thread_info,
}
use gdbserver.Handlers.Monitor.{Monitor, LogCalls, query_rcmd}
use gdbserver.Handlers.Auxv.{query_xfer}

-- The state of the handler and of all it works on.
pub record Session (W : Type 0) : Type 0 where
  pub stub : Stub W
  pub in_thread_info_sequence : Bool
  pub monitor : Monitor

abbrev pub SessionAnswer : Type 0 → Type 0
SessionAnswer W = Option (Session W × List Bytes × Bool)

-- What the handlers call, and what the stack holds where the
-- code reads variables that it has not set.
pub record Environment (W : Type 0) : Type 0 where
  pub calls : ProcessCalls W
  pub memory : MemoryCalls W
  pub log : LogCalls
  pub ftl : Ftl
  pub behind : ℕ → ℕ
  pub uninit : ℕ

-- A handler of the process and its threads leaves the rest as it is.
unfoldable pub on_stub : {W : Type 0} → Session W → (Stub W → Answer W) → SessionAnswer W
on_stub s handler = do
  (v, responses, handled) ← handler s.stub
  some (record s { stub = v }, responses, handled)

-- `packet.substr(n)`
abbrev pub behind_first : ℕ → Bytes → Bytes
behind_first n packet = substr packet n (length packet)

module _ {W : Type 0} (e : Environment W) where
  -- Handle_v
  unfoldable pub handle_v : Bytes → Stub W → Answer W
  handle_v packet v =
      if starts_with packet (codes "Attach;")
      then handle_v_attach e.calls e.ftl (behind_first 7 packet) v
      else if starts_with packet (codes "Cont;")
      then handle_v_cont e.calls e.ftl e.uninit (behind_first 5 packet) v
      else if starts_with packet (codes "Kill;")
      then handle_v_kill e.calls e.ftl (behind_first 5 packet) v
      else if starts_with packet (codes "Run;")
      then handle_v_run e.calls e.ftl (behind_first 4 packet) v
      else unhandled v

  -- HandleQueryThreadInfo and HandleQueryRcmd, on the session.
  unfoldable pub thread_info : Bool → Session W → SessionAnswer W
  thread_info is_first s = do
    ((v, in_sequence), responses, handled) ←
        query_thread_info e.calls e.ftl is_first (s.stub, s.in_thread_info_sequence)
    some (record s { stub = v; in_thread_info_sequence = in_sequence }, responses, handled)

  unfoldable pub rcmd : Bytes → Session W → SessionAnswer W
  rcmd command s =
      let (m, response) = query_rcmd e.log e.ftl command s.monitor in
      some (record s { monitor = m }, response ∷ [], true)

  -- Handle_q
  unfoldable pub handle_q : Bytes → Bytes → Session W → SessionAnswer W
  handle_q prefix params s =
      if bytes_eq prefix (codes "Attached")
      then on_stub s (query_attached e.ftl params)
      else if bytes_eq prefix (codes "C")
      then on_stub s (query_current_thread_id e.calls e.ftl params)
      else if bytes_eq prefix (codes "fThreadInfo")
      then thread_info true s
      else if starts_with prefix (codes "Rcmd,")
      then rcmd (behind_first 5 prefix) s
      else if bytes_eq prefix (codes "sThreadInfo")
      then thread_info false s
      else if bytes_eq prefix (codes "Supported")
      then on_stub s (respond_with (codes "QNonStop+;qXfer:auxv:read+"))
      else if bytes_eq prefix (codes "Xfer")
      then on_stub s (query_xfer e.ftl e.behind params)
      else some (s, [], false)

  -- Handle_Q
  unfoldable pub handle_upper_q : Bytes → Bytes → Stub W → Answer W
  handle_upper_q prefix params v =
      if bytes_eq prefix (codes "NonStop") then set_non_stop e.ftl params v else unhandled v

  -- HandleCommand, of the first byte of a packet and the rest of it. The body of Handle_zZ is
  -- disabled, so that z and Z are not handled.
  unfoldable pub handle_family : ℕ → Bytes → Session W → SessionAnswer W
  handle_family c rest s =
      if c == b'?'
      then (if is_empty rest then on_stub s reply_ok else some (s, [], false))
      else if c == b'c'
      then on_stub s (handle_c e.calls e.ftl rest)
      else if c == b'C'
      then on_stub s (handle_upper_c e.calls e.ftl rest)
      else if c == b'D'
      then on_stub s (handle_upper_d e.calls e.ftl rest)
      else if c == b'g'
      then (if is_empty rest then on_stub s (handle_g e.calls e.ftl) else some (s, [], false))
      else if c == b'G'
      then on_stub s (handle_upper_g e.calls e.ftl rest)
      else if c == b'H'
      then on_stub s (handle_upper_h e.calls e.ftl e.uninit rest)
      else if c == b'm'
      then on_stub s (handle_m e.memory e.ftl rest)
      else if c == b'M'
      then on_stub s (handle_upper_m e.memory e.ftl rest)
      else if c == b'q'
      then (let (prefix, params) = extract_parameters rest in handle_q prefix params s)
      else if c == b'Q'
      then (let (prefix, params) = extract_parameters rest in
          on_stub s (handle_upper_q prefix params))
      else if c == b'T'
      then on_stub s (handle_upper_t e.calls e.ftl rest)
      else if c == b'v'
      then on_stub s (handle_v rest)
      else some (s, [], false)

  -- HandleCommand
  unfoldable pub handle_command : Bytes → Session W → SessionAnswer W
  handle_command [] s = some (s, [], false)
  handle_command (c ∷ rest) s = handle_family c rest s
