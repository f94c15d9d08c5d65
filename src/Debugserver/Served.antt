-- ===== src/Debugserver/Served.antt =====
-- What the server writes when a packet comes in (bin/debugserver/server.cc and cmd-handler.cc).
use gdbserver.Base.{
  Bytes, none, some, List, [], ◌∷◌, ◌++◌, Bool, true, false, ◌≡◌, bytes_eq, codes, arith, refl,
  if◌then◌else◌, Option-cases, inl, inr, ◌∙◌, sym, ap,
}
use gdbserver.Packet.{verify_packet}
use gdbserver.Rsp.{
  RspServer, on_bytes_read, on_payload, send_ack, respond, post_write_task, stop_ack,
}
use gdbserver.Handlers.{starts_with}
use gdbserver.Handlers.Answered.{handle_command_answer}
use gdbserver.Handlers.Answers.{is_answer}
use gdbserver.Handlers.Dispatch.{Session, Environment, handle_command}
use gdbserver.Debugserver.{command_handler, receive}

-- One response is posted, and nothing else is done.
abbrev pub OneResponse : RspServer → RspServer → Type 0
OneResponse s t = (response : Bytes) × (t ≡ post_write_task false response s)

-- A server that responds to what a command gave.
abbrev responded : List Bytes → Bool → RspServer → RspServer
responded responses handled s = respond (if handled then responses else responses ++ [] ∷ []) s

responded-OneResponse :
    {S : Type 0} (session : S) (responses : List Bytes) (handled : Bool) (s : RspServer)
    → is_answer (some (session, responses, handled)) ≡ true
    → OneResponse s (responded responses handled s)
unfolding respond
responded-OneResponse session [] true s h = absurd (ground arith)
responded-OneResponse session (r ∷ []) true s h = (r, refl)
responded-OneResponse session (r ∷ q ∷ responses) true s h = absurd (ground arith)
responded-OneResponse session [] false s h = ([], refl)
responded-OneResponse session (r ∷ responses) false s h = absurd (ground arith)

command_handler-some :
    {W : Type 0} (e : Environment W) (packet : Bytes) (session : Session W)
    (x : Session W × List Bytes × Bool)
    → handle_command e packet session ≡ some x
    → command_handler e packet (some session) ≡ (some x.0, x.1, x.2)
unfolding command_handler
command_handler-some e packet session x q = rw (q, command_handler) refl

command_handler-none :
    {W : Type 0} (e : Environment W) (packet : Bytes) (session : Session W)
    → handle_command e packet session ≡ none
    → command_handler e packet (some session) ≡ (none, [], true)
unfolding command_handler
command_handler-none e packet session q = rw (q, command_handler) refl

payload-OneResponse :
    {W : Type 0} (e : Environment W) (packet : Bytes) (s : RspServer) (session session' : Session W)
    → bytes_eq packet stop_ack ≡ false
    → starts_with packet (codes "vRun;") ≡ false
    → (on_payload (command_handler e) packet (s, some session)).1 ≡ some session'
    → OneResponse s (on_payload (command_handler e) packet (s, some session)).0
unfolding on_payload
payload-OneResponse e packet s session session' a r lives =
    let answer = handle_command_answer e packet session r in
    elim (Option-cases (handle_command e packet session)) [
      | inl n ↦
          let k = command_handler-none e packet session n in absurd (ground (arith, k, a, lives))
      | inr (x, q) ↦
          let k = command_handler-some e packet session x q in
          rw a (rw k (responded-OneResponse x.0 x.1 x.2 s (ap is_answer (sym q) ∙ answer)))
    ]

-- The server reads a packet that is verified, and that is not an acknowledgment of a notification and not vRun. Where
-- no check of the code fails: it acknowledges the packet with `+`, then posts one response, and does nothing else.
pub receive-served :
    {W : Type 0} (e : Environment W) (bytes_read packet : Bytes) (s : RspServer)
    (session session' : Session W)
    → verify_packet bytes_read ≡ some packet
    → bytes_eq bytes_read (codes "+") ≡ false
    → bytes_eq packet stop_ack ≡ false
    → starts_with packet (codes "vRun;") ≡ false
    → (receive e bytes_read (s, some session)).1 ≡ some session'
    → OneResponse (send_ack true s) (receive e bytes_read (s, some session)).0
unfolding receive on_bytes_read
receive-served e bytes_read packet s session session' v n a r lives = rw n (
    rw v (
      payload-OneResponse e packet (send_ack true s) session session' a r
        (rw n at (rw v at lives))))
