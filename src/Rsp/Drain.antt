-- ===== src/Rsp/Drain.antt =====
-- The exchange of queued notifications: one notification, then one packet for each acknowledgment.
use gdbserver.Base.{
  append-nil, sym, ℕ, zero, suc, ◌+◌, ◌<◌, true, false, none, some, List, [], ◌∷◌, ◌++◌, Bytes, ◌≡◌,
  refl, codes, arith, length, All, append_assoc,
}
use gdbserver.Packet.{verify_packet}
use gdbserver.Rsp.{
  RspServer, Notification, WriteTask, Handler, stop_ack, max_buffer_size, queue_notification,
  try_post_next_notification, post_notification_timeout_handler,
  post_pending_notification_write_task, post_write_task, on_bytes_read, on_stop_ack, send_ack,
}
use gdbserver.Rsp.Acknowledge.{on_ack_pending}

-- The name, a colon and the event fit into a packet of the output buffer.
abbrev pub Fits : Notification → Type 0
Fits n = length (n.name ++ b':' ∷ n.event) + 4 < max_buffer_size

abbrev pub queue_all : List Notification → RspServer → RspServer
queue_all [] s = s
queue_all (n ∷ ns) s = queue_all ns (queue_notification n s)

abbrev pub as_notification : Notification → WriteTask
as_notification n = record { notify = true; payload = n.name ++ b':' ∷ n.event }

abbrev pub as_packet : Bytes → WriteTask
as_packet event = record { notify = false; payload = event }

abbrev pub as_packets : List Notification → List WriteTask
as_packets [] = as_packet (codes "OK") ∷ []
as_packets (n ∷ ns) = as_packet n.event ∷ as_packets ns

pub queue_pending :
    (n m : Notification) (s : RspServer)
    → s.pending_notification ≡ some m
    → queue_notification n s ≡ record s { notify_queue = s.notify_queue ++ n ∷ [] }
unfolding queue_notification try_post_next_notification
queue_pending n m s p = ground arith

queue_idle :
    (n : Notification) (s : RspServer)
    → s.pending_notification ≡ none
    → s.notify_queue ≡ []
    → Fits n
    → let q = queue_notification n s in
      (q.pending_notification ≡ some n)
      × (q.notify_queue ≡ [])
      × (q.tasks ≡ s.tasks ++ as_notification n ∷ [])
unfolding queue_notification try_post_next_notification post_notification_timeout_handler
    post_pending_notification_write_task post_write_task
queue_idle n s p q fits = ground arith

queue_all_pending :
    (ns : List Notification) (m : Notification) (s : RspServer)
    → s.pending_notification ≡ some m
    → let q = queue_all ns s in
      (q.pending_notification ≡ some m)
      × (q.notify_queue ≡ s.notify_queue ++ ns)
      × (q.tasks ≡ s.tasks)
queue_all_pending [] m s p = (p, sym (append-nil s.notify_queue), refl)
queue_all_pending (n ∷ ns) m s p = ground (
  arith,
  queue_pending n m s p,
  queue_all_pending ns m (queue_notification n s) (ground (arith, queue_pending n m s p)),
  append_assoc s.notify_queue (n ∷ []) ns,
)

module _ {H : Type 0} (handle_command : Handler H) (packet : Bytes) where
  -- The same packet read several times.
  abbrev pub read_times : ℕ → RspServer × H → RspServer × H
  read_times zero x = x
  read_times (suc k) x = read_times k (on_bytes_read handle_command packet x)

  abbrev pub EventsFit : List Notification → Type 0
  EventsFit = All (λ n. length n.event + 4 < max_buffer_size)

  module _ (ack : verify_packet packet ≡ some stop_ack) where
    ack_step :
        (n : Notification) (s : RspServer) (h : H)
        → s.pending_notification ≡ some n
        → on_bytes_read handle_command packet (s, h)
          ≡ (on_stop_ack s.notify_queue (send_ack true s), h)
    ack_step n s h p = on_ack_pending handle_command packet s h n ack p

    read_drain :
        (ns : List Notification) (n : Notification) (s : RspServer) (h : H)
        → EventsFit ns
        → s.pending_notification ≡ some n
        → s.notify_queue ≡ ns
        → let r = read_times (suc (length ns)) (s, h) in
          (r.0.tasks ≡ s.tasks ++ as_packets ns)
          × (r.0.pending_notification ≡ none)
          × (r.0.notify_queue ≡ [])
          × (r.1 ≡ h)
    unfolding on_stop_ack send_ack post_write_task
    read_drain [] n s h fits p q = ground (arith, ack_step n s h p)
    read_drain (m ∷ ms) n s h (fit, fits) p q =
        let s' = on_stop_ack s.notify_queue (send_ack true s) in
        let tasks' : s'.tasks ≡ s.tasks ++ as_packet m.event ∷ [] = ground arith in
        ground (
          arith,
          ack_step n s h p,
          tasks',
          append_assoc s.tasks (as_packet m.event ∷ []) (as_packets ms),
          read_drain ms n s' h fits (ground arith) (ground arith),
        )

    -- While nothing is pending, one notification and then any number more are queued, and the stub
    -- reads as many acknowledgments as there are notifications, each of whose events fits into a
    -- packet. It writes the first as a notification, each other event as a packet, in the order in
    -- which they were queued, and "OK" at the end. Then nothing is queued or pending, and the
    -- command handler has not been called.
    pub queue-drain :
        (n : Notification) (ns : List Notification) (s : RspServer) (h : H)
        → Fits n
        → EventsFit ns
        → s.pending_notification ≡ none
        → s.notify_queue ≡ []
        → let r = read_times (suc (length ns)) (queue_all (n ∷ ns) s, h) in
          (r.0.tasks ≡ s.tasks ++ as_notification n ∷ as_packets ns)
          × (r.0.pending_notification ≡ none)
          × (r.0.notify_queue ≡ [])
          × (r.1 ≡ h)
    queue-drain n ns s h fit fits p q =
        let (pending, empty, first) = queue_idle n s p q fit in
        let (pending', queued, same) = queue_all_pending ns n (queue_notification n s) pending in
        let queued' : (queue_all (n ∷ ns) s).notify_queue ≡ ns = ground arith in
        ground (
          arith,
          read_drain ns n (queue_all (n ∷ ns) s) h fits pending' queued',
          append_assoc s.tasks (as_notification n ∷ []) (as_packets ns),
        )
