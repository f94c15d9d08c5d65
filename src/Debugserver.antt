-- ===== src/Debugserver.antt =====
-- bin/debugserver: the server of server.cc with the command handler of cmd-handler.cc that it owns.
pub mod Served
use gdbserver.Base.{Bytes, Option, none, some, List, [], ◌∷◌, Bool, true, false, ◌≡◌}
use gdbserver.Rsp.{RspServer, Handler, on_bytes_read}
use gdbserver.Handlers.Dispatch.{Session, Environment, handle_command}

-- CommandHandler::HandleCommand, called by the server. A session is `none` once a check of the code has
-- failed, where the program stops.
unfoldable pub command_handler : {W : Type 0} → Environment W → Handler (Option (Session W))
command_handler e packet none = (none, [], true)
command_handler e packet (some s) = elim (handle_command e packet s) [
  | none ↦ (none, [], true)
  | some (s', responses, handled) ↦ (some s', responses, handled)
]

-- RspServer::OnBytesRead, with its command handler.
unfoldable pub receive :
    {W : Type 0}
    → Environment W
    → Bytes
    → RspServer × Option (Session W)
    → RspServer × Option (Session W)
receive e bytes_read s = on_bytes_read (command_handler e) bytes_read s
