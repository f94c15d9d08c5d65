-- ===== src/Rsp.antt =====
-- bin/debugserver/server.cc: what RspServer writes, its notification queue and OnBytesRead. The
-- message loop's tasks, its delayed tasks and the I/O loop's writes are lists of what was posted.
pub mod Framing
pub mod Drain
pub mod Invariant
pub mod Timers
pub mod Acknowledge
use gdbserver.Base.{
  ℕ, ◌+◌, ◌<◌, Bool, true, false, Option, none, some, List, [], ◌∷◌, ◌++◌, Bytes, ltb, ◌==◌,
  if◌then◌else◌, codes, bytes_eq, length, ◌≡◌, refl, not, map,
}
use gdbserver.Hex.{encode_byte_string}
use gdbserver.Packet.{checksum, verify_packet}

-- PendingNotification. `address` is where it was allocated.
pub record Notification : Type 0 where
  pub address : ℕ
  pub name : Bytes
  pub event : Bytes
  pub timeout : ℕ

-- A closure that PostWriteTask posts: its `notify` and `data`.
pub record WriteTask : Type 0 where
  pub notify : Bool
  pub payload : Bytes

-- A closure that PostNotificationTimeoutHandler posts: the address it captured, and its delay.
pub record Timer : Type 0 where
  pub address : ℕ
  pub delay : ℕ

pub record RspServer : Type 0 where
  pub notify_queue : List Notification
  pub pending_notification : Option Notification
  -- The write tasks of the message loop that have not run yet, oldest first.
  pub tasks : List WriteTask
  pub timers : List Timer
  -- What was handed to the I/O loop, oldest first.
  pub written : List Bytes
  -- A write larger than `out_buffer_` was posted: the DCHECK on it failed.
  pub overflowed : Bool

-- kMaxBufferSize
abbrev pub max_buffer_size : ℕ
max_buffer_size = 4096

-- kStopNotification, kStopAck
abbrev pub stop_notification : Bytes
stop_notification = codes "Stop"

abbrev pub stop_ack : Bytes
stop_ack = codes "vStopped"

-- What the closure of PostWriteTask puts into `out_buffer_`.
unfoldable pub frame : Bool → Bytes → Bytes
frame notify payload =
    (if notify then b'%' else b'$') ∷ (payload ++ b'#' ∷ encode_byte_string (checksum payload))

-- SendAck
unfoldable pub send_ack : Bool → RspServer → RspServer
send_ack ack s = record s { written = s.written ++ ((if ack then b'+' else b'-') ∷ []) ∷ [] }

-- PostWriteTask
unfoldable pub post_write_task : Bool → Bytes → RspServer → RspServer
post_write_task notify payload s =
    if ltb (length payload + 4) max_buffer_size
    then record s { tasks = s.tasks ++ record { notify = notify; payload = payload } ∷ [] }
    else record s { overflowed = true }

-- The message loop runs the oldest write task.
unfoldable pub run_task : RspServer → RspServer
run_task s = elim s.tasks [
  | [] ↦ s
  | t ∷ rest ↦ record s { tasks = rest; written = s.written ++ frame t.notify t.payload ∷ [] }
]

-- PostPacketWriteTask
abbrev pub post_packet_write_task : Bytes → RspServer → RspServer
post_packet_write_task payload s = post_write_task false payload s

-- PostPendingNotificationWriteTask; only called while a notification is pending.
unfoldable pub post_pending_notification_write_task : RspServer → RspServer
post_pending_notification_write_task s = elim s.pending_notification [
  | none ↦ s
  | some n ↦ post_write_task true (n.name ++ b':' ∷ n.event) s
]

-- PostNotificationTimeoutHandler
unfoldable pub post_notification_timeout_handler : RspServer → RspServer
post_notification_timeout_handler s = elim s.pending_notification [
  | none ↦ s
  | some n ↦ record s {
    timers = s.timers ++ record { address = n.address; delay = n.timeout } ∷ [];
  }
]

-- TryPostNextNotification behind its test: the first notification of the queue becomes pending.
unfoldable pub post_next : List Notification → RspServer → RspServer × Bool
post_next [] s = (s, false)
post_next (n ∷ rest) s =
    let moved = record s { pending_notification = some n; notify_queue = rest } in
    (post_notification_timeout_handler (post_pending_notification_write_task moved), true)

-- TryPostNextNotification
unfoldable pub try_post_next_notification : RspServer → RspServer × Bool
unfolding post_next
try_post_next_notification s = elim s.pending_notification [
  | some n ↦ (s, false)
  | none ↦ post_next s.notify_queue s
]

-- QueueNotification
unfoldable pub queue_notification : Notification → RspServer → RspServer
queue_notification n s =
    (try_post_next_notification (record s { notify_queue = s.notify_queue ++ n ∷ [] })).0

-- QueueStopNotification
abbrev pub queue_stop_notification : ℕ → Bytes → ℕ → RspServer → RspServer
queue_stop_notification address event timeout s =
    queue_notification
      (record { address = address; name = stop_notification; event = event; timeout = timeout }) s

-- The closure of PostNotificationTimeoutHandler, when its delay is over.
unfoldable pub on_timeout : ℕ → RspServer → RspServer
on_timeout pending s = elim s.pending_notification [
  | none ↦ s
  | some n ↦
      if n.address == pending
      then post_notification_timeout_handler (post_pending_notification_write_task s)
      else s
]

-- OnBytesRead, the acknowledgment of a notification: one queued event as a packet, or "OK".
unfoldable pub on_stop_ack : List Notification → RspServer → RspServer
on_stop_ack (n ∷ rest) s = post_packet_write_task n.event (record s { notify_queue = rest })
on_stop_ack [] s = post_packet_write_task (codes "OK") (record s { pending_notification = none })

-- The callback that HandleCommand is given, called once for each response.
unfoldable pub respond : List Bytes → RspServer → RspServer
respond [] s = s
respond (r ∷ rs) s = respond rs (post_packet_write_task r s)

-- What the command handler does with a packet: its new state, the responses that it hands to the
-- callback, and whether the command is handled.
abbrev pub Handler : Type 0 → Type 0
Handler H = Bytes → H → H × List Bytes × Bool

-- OnBytesRead behind the acknowledgment.
unfoldable pub on_payload : {H : Type 0} → Handler H → Bytes → RspServer × H → RspServer × H
unfolding on_stop_ack
on_payload handle_command packet_data (s, h) =
    if bytes_eq packet_data stop_ack
    then (elim s.pending_notification [ some n ↦ on_stop_ack s.notify_queue s | none ↦ s ], h)
    else (let (h', responses, handled) = handle_command packet_data h in
        (respond (if handled then responses else responses ++ [] ∷ []) s, h'))

-- OnBytesRead
unfoldable pub on_bytes_read : {H : Type 0} → Handler H → Bytes → RspServer × H → RspServer × H
on_bytes_read handle_command bytes_read (s, h) =
    if bytes_eq bytes_read (codes "+") then (s, h) else elim (verify_packet bytes_read) [
      | none ↦ (send_ack false s, h)
      | some packet_data ↦ on_payload handle_command packet_data (send_ack true s, h)
    ]
