-- ===== src/Rsp/Acknowledge.antt =====
-- OnBytesRead on every kind of input.
use gdbserver.Base.{
  true, false, none, some, Bytes, ◌≡◌, ◌≢◌, refl, codes, bytes_eq, bytes_eq_iff, arith, inl, inr,
  Bool-cases,
}
use gdbserver.Packet.{verify_packet, find_unescaped_char, scan}
use gdbserver.Rsp.{
  RspServer, Notification, Handler, stop_ack, send_ack, on_bytes_read, on_payload, on_stop_ack,
}

plus_unverified : verify_packet (codes "+") ≡ none
unfolding verify_packet find_unescaped_char scan
plus_unverified = refl

module _ {H : Type 0} (handle_command : Handler H) (packet : Bytes) (s : RspServer) (h : H) where
  not_plus : (d : Bytes) → verify_packet packet ≡ some d → bytes_eq packet (codes "+") ≡ false
  not_plus d v = elim (Bool-cases (bytes_eq packet (codes "+"))) [
    | inl e ↦ absurd (ground (arith, (bytes_eq_iff packet (codes "+")).0 e, plus_unverified))
    | inr e ↦ e
  ]

  pub on_verified :
      (d : Bytes)
      → verify_packet packet ≡ some d
      → on_bytes_read handle_command packet (s, h)
        ≡ on_payload handle_command d (send_ack true s, h)
  unfolding on_bytes_read
  on_verified d v = ground (arith, not_plus d v)

  -- A packet that is not verified is answered by one minus sign, and nothing else changes.
  pub on_unverified :
      packet ≢ codes "+"
      → verify_packet packet ≡ none
      → on_bytes_read handle_command packet (s, h) ≡ (send_ack false s, h)
  unfolding on_bytes_read
  on_unverified ne v = ground (arith, bytes_eq_iff packet (codes "+"))

  pub on_ack_pending :
      (n : Notification)
      → verify_packet packet ≡ some stop_ack
      → s.pending_notification ≡ some n
      → on_bytes_read handle_command packet (s, h)
        ≡ (on_stop_ack s.notify_queue (send_ack true s), h)
  unfolding on_payload send_ack
  on_ack_pending n v p = ground (arith, on_verified stop_ack v, bytes_eq_iff stop_ack stop_ack)
