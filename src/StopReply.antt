-- ===== src/StopReply.antt =====
-- bin/debugserver/stop-reply-packet.{h,cc}: the packets that report a stop.
pub mod Fields
pub mod Printed
pub mod Framed
use gdbserver.Base.{
  ℕ, ◌%◌, Bool, true, false, ◌||◌, ◌&&◌, ◌==◌, not, Option, none, some, ◌>>=◌, List, [], ◌∷◌, ◌++◌,
  Bytes, is_empty, if◌then◌else◌, codes,
}
use gdbserver.Ftl.{Ftl}
use gdbserver.Hex.{encode_byte_string, half_byte_to_hex_char}
use gdbserver.ThreadId.{encode_thread_id}

-- StopReplyPacket::Type
pub data StopType : Type 0 where
  received_signal process_exited process_terminated_with_signal thread_exited : StopType

-- The members of StopReplyPacket.
pub record StopReplyPacket : Type 0 where
  pub type : StopType
  pub signo : ℕ
  pub tid_string : Bytes
  pub register_values : List Bytes
  pub stop_reason : Bytes

-- StopReplyPacket::StopReplyPacket
unfoldable pub stop_reply_packet : StopType → StopReplyPacket
stop_reply_packet type = record {
  type = type;
  signo = 0;
  tid_string = [];
  register_values = [];
  stop_reason = [];
}

-- SetSignalNumber: the argument is converted to uint8_t.
unfoldable pub set_signal_number : ℕ → StopReplyPacket → StopReplyPacket
set_signal_number signal_number p = record p { signo = signal_number % 256 }

abbrev pub is_received : StopType → Bool
is_received received_signal = true
is_received _ = false

abbrev pub has_thread : StopType → Bool
has_thread received_signal = true
has_thread thread_exited = true
has_thread _ = false

-- SetThreadId; `none`, here and below, is a failed FTL_DCHECK.
unfoldable pub set_thread_id : Ftl → ℕ → ℕ → StopReplyPacket → Option StopReplyPacket
set_thread_id f process_id thread_id p =
    if has_thread p.type
    then some (record p { tid_string = encode_thread_id f process_id thread_id })
    else none

-- AddRegisterValue
unfoldable pub add_register_value : ℕ → Bytes → StopReplyPacket → Option StopReplyPacket
add_register_value register_number value p =
    if is_received p.type && not (is_empty value)
    then some (record p {
      register_values =
          p.register_values ++ (encode_byte_string register_number ++ b':' ∷ value) ∷ [];
    })
    else none

-- The loop of OnArchitecturalException over the registers that it reports (server.cc).
unfoldable pub add_register_values : List (ℕ × Bytes) → StopReplyPacket → Option StopReplyPacket
add_register_values [] p = some p
add_register_values ((regno, regval) ∷ rest) p = do
  q ← add_register_value regno regval p
  add_register_values rest q

-- SetStopReason
unfoldable pub set_stop_reason : Bytes → StopReplyPacket → Option StopReplyPacket
set_stop_reason reason p =
    if is_received p.type then some (record p { stop_reason = reason ++ b':' ∷ [] }) else none

-- HasParameters
unfoldable pub has_parameters : StopReplyPacket → Bool
has_parameters p =
    not (is_empty p.tid_string) || not (is_empty p.register_values) || not (is_empty p.stop_reason)

-- The switch of Build on the type.
unfoldable pub type_letter : StopType → StopReplyPacket → ℕ
unfolding has_parameters
type_letter received_signal p = if has_parameters p then b'T' else b'S'
type_letter process_terminated_with_signal p = b'X'
type_letter process_exited p = b'W'
type_letter thread_exited p = b'w'

-- The loop of Build over the registers.
unfoldable pub insert_registers : List Bytes → Bytes
insert_registers [] = []
insert_registers (regval ∷ rest) = regval ++ b';' ∷ insert_registers rest

-- The switch of Build on the type, where a thread id is set. Only two types have one.
unfoldable pub insert_thread_id : StopType → Bytes → Option Bytes
insert_thread_id thread_exited tid_string = some (b';' ∷ tid_string)
insert_thread_id received_signal tid_string = some (codes "thread:" ++ (tid_string ++ b';' ∷ []))
insert_thread_id process_exited tid_string = none
insert_thread_id process_terminated_with_signal tid_string = none

-- Build. A received signal must have a number.
unfoldable pub build : StopReplyPacket → Option Bytes
build p = if is_received p.type && p.signo == 0 then none else (do
  thread ← if is_empty p.tid_string then some [] else insert_thread_id p.type p.tid_string
  some (
      type_letter p.type p
      ∷ (encode_byte_string (if is_empty p.stop_reason then p.signo else 5)
          ++ (insert_registers p.register_values
              ++ (thread ++ (if is_empty p.stop_reason then [] else p.stop_reason ++ b';' ∷ []))))))
