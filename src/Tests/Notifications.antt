-- ===== src/Tests/Notifications.antt =====
-- The notification queue at concrete inputs.
use gdbserver.Base.{ℕ, true, false, none, some, [], ◌∷◌, Bytes, ◌≡◌, refl, codes, arith}
use gdbserver.Hex.{decode_byte_string, hex_char_to_byte}
use gdbserver.Packet.{verify_packet, verify_from_dollar, find_unescaped_char, scan, checksum}
use gdbserver.Rsp.{
  RspServer, Notification, Handler, stop_ack, stop_notification, on_bytes_read, on_timeout,
  queue_notification,
}
use gdbserver.Rsp.Drain.{queue-drain, queue_all, read_times, as_notification, as_packets, as_packet}
use gdbserver.Rsp.Invariant.{
  Inv, Reach, Reach-Inv, resent_after_acknowledgment, queued, read, here, next,
}

abbrev silent : Handler (Unit {0})
silent packet h = (h, [], true)

abbrev pub idle_server : RspServer
idle_server = record {
  notify_queue = [];
  pending_notification = none;
  tasks = [];
  timers = [];
  written = [];
  overflowed = false;
}

abbrev stop : ℕ → Bytes → Notification
stop address event = record {
  address = address;
  name = stop_notification;
  event = event;
  timeout = 30;
}

abbrev ack_packet : Bytes
ack_packet = codes "$vStopped#55"

ack_packet_verified : verify_packet ack_packet ≡ some stop_ack
unfolding verify_packet verify_from_dollar find_unescaped_char scan checksum decode_byte_string
    hex_char_to_byte
ack_packet_verified = refl

queue-drain_example :
    let ns = stop 2 (codes "T05") ∷ stop 3 (codes "W00") ∷ [] in
    let n = stop 1 (codes "T0b") in
    let r = read_times silent ack_packet 3 (queue_all (n ∷ ns) idle_server, tt) in
    (r.0.tasks ≡ as_notification n ∷ as_packets ns)
    × (r.0.pending_notification ≡ none)
    × (r.0.notify_queue ≡ [])
    × (r.1 ≡ tt)
queue-drain_example =
    queue-drain silent ack_packet ack_packet_verified (stop 1 (codes "T0b"))
      (stop 2 (codes "T05") ∷ stop 3 (codes "W00") ∷ []) idle_server tt (omega arith) (omega arith)
      refl refl

idle_server-Inv : Inv idle_server
idle_server-Inv = record { idle = λ _. refl; armed = λ n e. absurd (cc) }

Reach-Inv_example :
    Inv
      (on_bytes_read silent ack_packet
        (queue_notification (stop 1 (codes "T05")) idle_server, tt)).0
Reach-Inv_example = Reach-Inv silent idle_server-Inv events
  where
    events :
        Reach silent
          (idle_server, tt)
          (on_bytes_read silent ack_packet
            (queue_notification (stop 1 (codes "T05")) idle_server, tt))
    events = next (next here (queued (stop 1 (codes "T05")))) (read ack_packet)

abbrev busy_server : RspServer
busy_server = record idle_server {
  pending_notification = some (stop 1 (codes "T0b"));
  notify_queue = stop 2 (codes "T05") ∷ [];
}

resent_after_acknowledgment_example :
    (on_timeout 1 (on_bytes_read silent ack_packet (busy_server, tt)).0).tasks
    ≡ as_packet (codes "T05") ∷ as_notification (stop 1 (codes "T0b")) ∷ []
resent_after_acknowledgment_example =
    resent_after_acknowledgment silent ack_packet busy_server tt (stop 1 (codes "T0b"))
      (stop 2 (codes "T05")) [] ack_packet_verified refl refl (omega arith) (omega arith)
