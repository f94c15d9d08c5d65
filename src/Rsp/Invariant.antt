-- ===== src/Rsp/Invariant.antt =====
-- What every interleaving of events keeps true of the notification queue.
use gdbserver.Rsp.Timers.{Armed, Armed-append_right, Armed-remove}
use gdbserver.Base.{
  ◌==◌, subst, ◌∙◌, ◌+◌, ◌<◌, Bool, true, false, none, some, List, [], ◌∷◌, ◌++◌, Bytes, ◌≡◌, refl,
  inl, inr, codes, arith, length, Bool-cases, Option-cases, bytes_eq, append_assoc, sym,
}
use mathlib.Core.Option.{some-injective}
use gdbserver.Packet.{verify_packet}
use gdbserver.Rsp.{
  max_buffer_size, RspServer, Notification, Timer, Handler, stop_ack, queue_notification,
  try_post_next_notification, post_notification_timeout_handler,
  post_pending_notification_write_task, post_write_task, on_bytes_read, on_payload, on_stop_ack,
  send_ack, respond, run_task, on_timeout,
}
use gdbserver.Rsp.Acknowledge.{on_ack_pending}
use gdbserver.Rsp.Drain.{queue_pending, Fits, as_notification, as_packet}

-- Nothing waits while nothing is pending, and a pending notification will be sent again unless it
-- is removed.
pub record Inv (s : RspServer) : Type 0 where
  pub idle : s.pending_notification ≡ none → s.notify_queue ≡ []
  pub armed : (n : Notification) → s.pending_notification ≡ some n → Armed n.address s.timers

-- The part of the state that writing leaves alone.
abbrev SameQueue : RspServer → RspServer → Type 0
SameQueue s t =
    (t.pending_notification ≡ s.pending_notification)
    × (t.notify_queue ≡ s.notify_queue)
    × (t.timers ≡ s.timers)

SameQueue-Inv : {s t : RspServer} → SameQueue s t → Inv s → Inv t
SameQueue-Inv (p, q, e) v = record {
  idle = λ h. q ∙ v.idle (sym p ∙ h);
  armed = λ n h. rw e (v.armed n (sym p ∙ h));
}

post_write_task-SameQueue :
    (notify : Bool) (d : Bytes) (s : RspServer) → SameQueue s (post_write_task notify d s)
unfolding post_write_task
post_write_task-SameQueue notify d s = ground arith

respond-SameQueue : (rs : List Bytes) (s : RspServer) → SameQueue s (respond rs s)
unfolding respond
respond-SameQueue [] s = (refl, refl, refl)
respond-SameQueue (r ∷ rs) s =
    ground
      (arith, post_write_task-SameQueue false r s, respond-SameQueue rs (post_write_task false r s))

rearm : RspServer → RspServer
unfolding post_notification_timeout_handler post_pending_notification_write_task
rearm s = post_notification_timeout_handler (post_pending_notification_write_task s)

abbrev timer_of : Notification → Timer
timer_of n = record { address = n.address; delay = n.timeout }

rearm_timers :
    (n : Notification) (s : RspServer)
    → s.pending_notification ≡ some n
    → ((rearm s).pending_notification ≡ some n)
      × ((rearm s).notify_queue ≡ s.notify_queue)
      × ((rearm s).timers ≡ s.timers ++ timer_of n ∷ [])
unfolding rearm
rearm_timers n s p = ground (arith, post_write_task-SameQueue true (n.name ++ b':' ∷ n.event) s)

Inv-pending :
    (n : Notification) (s : RspServer)
    → s.pending_notification ≡ some n
    → Armed n.address s.timers
    → Inv s
Inv-pending n s p a = record {
  idle = λ h. absurd (cc);
  armed = λ m h. subst (λ k. Armed k.address s.timers) (some-injective n m (sym p ∙ h)) a;
}

rearm-Inv : (n : Notification) (s : RspServer) → s.pending_notification ≡ some n → Inv (rearm s)
rearm-Inv n s p =
    let (p', q, e) = rearm_timers n s p in
    Inv-pending n (rearm s) p' (
      subst (Armed n.address) (sym e)
        (Armed-append_right n.address s.timers (timer_of n ∷ []) (inl refl)))

queue_notification-Inv : (n : Notification) (s : RspServer) → Inv s → Inv (queue_notification n s)
queue_notification-Inv n s v = elim (Option-cases s.pending_notification) [
  | inl p ↦
      let next = record s { pending_notification = some n; notify_queue = [] } in
      let e : queue_notification n s ≡ rearm next =
        unfold queue_notification try_post_next_notification rearm in ground (arith, v.idle p) in
      subst Inv (sym e) (rearm-Inv n next refl)
  | inr (m, p) ↦ subst Inv (sym (queue_pending n m s p)) (Inv-pending m _ p (v.armed m p))
]

-- The delayed task `t` is over: it is taken off the list, and its closure runs.
abbrev fire : RspServer → List Timer → Timer → List Timer → RspServer
fire s pre t post = on_timeout t.address (record s { timers = pre ++ post })

on_timeout-Inv :
    (s : RspServer) (pre post : List Timer) (t : Timer)
    → s.timers ≡ pre ++ t ∷ post
    → Inv s
    → Inv (fire s pre t post)
on_timeout-Inv s pre post t e v = elim (Option-cases s.pending_notification) [
  | inl p ↦
      let same : fire s pre t post ≡ record s { timers = pre ++ post } =
        unfold on_timeout in ground arith in
      subst Inv (sym same) (record { idle = v.idle; armed = λ n h. absurd (cc) })
  | inr (n, p) ↦ elim (Bool-cases (n.address == t.address)) [
    | inl hit ↦
        let again = record s { timers = pre ++ post } in
        let same : fire s pre t post ≡ rearm again = unfold on_timeout rearm in ground arith in
        subst Inv (sym same) (rearm-Inv n again p)
    | inr miss ↦
        let same : fire s pre t post ≡ record s { timers = pre ++ post } =
          unfold on_timeout in ground arith in
        subst Inv (sym same) (
          Inv-pending n _ p
            (elim (Armed-remove n.address pre post t (subst (Armed n.address) e (v.armed n p))) [
              | inl a ↦ absurd (ground arith)
              | inr a ↦ a
            ]))
  ]
]

on_stop_ack-Inv :
    (n : Notification) (q : List Notification) (s : RspServer)
    → s.notify_queue ≡ q
    → s.pending_notification ≡ some n
    → Inv s
    → Inv (on_stop_ack q s)
unfolding on_stop_ack
on_stop_ack-Inv n [] s e p v =
    let s' = record s { pending_notification = none } in
    SameQueue-Inv {s = s'} (post_write_task-SameQueue false (codes "OK") s')
      (record { idle = λ _. e; armed = λ m h. absurd (cc) })
on_stop_ack-Inv n (m ∷ ms) s e p v =
    let s' = record s { notify_queue = ms } in
    SameQueue-Inv {s = s'} (post_write_task-SameQueue false m.event s')
      (Inv-pending n s' p (v.armed n p))

send_ack-SameQueue : (b : Bool) (s : RspServer) → SameQueue s (send_ack b s)
unfolding send_ack
send_ack-SameQueue b s = (refl, refl, refl)

run_task-SameQueue : (s : RspServer) → SameQueue s (run_task s)
unfolding run_task
run_task-SameQueue s = ground arith

module _ {H : Type 0} (handle_command : Handler H) where
  on_payload-Inv :
      (d : Bytes) (s : RspServer) (h : H) → Inv s → Inv (on_payload handle_command d (s, h)).0
  unfolding on_payload
  on_payload-Inv d s h v = elim (Bool-cases (bytes_eq d stop_ack)) [
    | inl e ↦ rw e (elim (Option-cases s.pending_notification) [
      | inl p ↦ rw p v
      | inr (n, p) ↦ rw p (on_stop_ack-Inv n s.notify_queue s refl p v)
    ])
    | inr e ↦ rw e (SameQueue-Inv (respond-SameQueue _ s) v)
  ]

  on_bytes_read-Inv :
      (bytes : Bytes) (s : RspServer) (h : H)
      → Inv s
      → Inv (on_bytes_read handle_command bytes (s, h)).0
  unfolding on_bytes_read
  on_bytes_read-Inv bytes s h v = elim (Bool-cases (bytes_eq bytes (codes "+"))) [
    | inl e ↦ rw e v
    | inr e ↦ rw e (elim (Option-cases (verify_packet bytes)) [
      | inl p ↦ rw p (SameQueue-Inv (send_ack-SameQueue false s) v)
      | inr (d, p) ↦
          rw p (on_payload-Inv d (send_ack true s) h (SameQueue-Inv (send_ack-SameQueue true s) v))
    ])
  ]

  -- One event: a notification is queued, bytes arrive, the message loop runs a write task, or the
  -- delay of one of the delayed tasks is over.
  pub data Step (x : RspServer × H) : RspServer × H → Type 0 where
    queued : (n : Notification) → Step x (queue_notification n x.0, x.1)
    read : (bytes : Bytes) → Step x (on_bytes_read handle_command bytes x)
    ran : Step x (run_task x.0, x.1)
    timed_out :
        (pre post : List Timer) (t : Timer)
        → x.0.timers ≡ pre ++ t ∷ post
        → Step x (fire x.0 pre t post, x.1)

  pub data Reach (x : RspServer × H) : RspServer × H → Type 0 where
    here : Reach x x
    next : {y z : RspServer × H} → Reach x y → Step y z → Reach x z

  Step-Inv : {x y : RspServer × H} → Step x y → Inv x.0 → Inv y.0
  Step-Inv {x} (queued n) v = queue_notification-Inv n x.0 v
  Step-Inv {x} (read bytes) v = on_bytes_read-Inv bytes x.0 x.1 v
  Step-Inv {x} ran v = SameQueue-Inv (run_task-SameQueue x.0) v
  Step-Inv {x} (timed_out pre post t e) v = on_timeout-Inv x.0 pre post t e v

  -- In every order of events, from a state where it holds, and whatever the command handler does:
  -- while nothing is pending no notification waits in the queue, and while one is pending a
  -- delayed task that will send it again is outstanding.
  pub Reach-Inv : {x y : RspServer × H} → Inv x.0 → Reach x y → Inv y.0
  Reach-Inv v here = v
  Reach-Inv v (next r st) = Step-Inv st (Reach-Inv v r)

  -- An acknowledged notification is sent again: if another one is queued when the acknowledgment
  -- is read, the delayed task of the first still finds it pending when its delay is over.
  pub resent_after_acknowledgment :
      (packet : Bytes) (s : RspServer) (h : H) (n m : Notification) (ms : List Notification)
      → verify_packet packet ≡ some stop_ack
      → s.pending_notification ≡ some n
      → s.notify_queue ≡ m ∷ ms
      → Fits n
      → length m.event + 4 < max_buffer_size
      → (on_timeout n.address (on_bytes_read handle_command packet (s, h)).0).tasks
        ≡ s.tasks ++ as_packet m.event ∷ as_notification n ∷ []
  unfolding on_stop_ack send_ack post_write_task on_timeout post_notification_timeout_handler
      post_pending_notification_write_task
  resent_after_acknowledgment packet s h n m ms a p q fit fit' = ground (
    arith,
    on_ack_pending handle_command packet s h n a p,
    append_assoc s.tasks (as_packet m.event ∷ []) (as_notification n ∷ []),
  )
