-- ===== src/Process/Worker.antt =====
-- exception-port.cc: the thread that waits on the exception port (Worker), the tasks that it posts to the main thread, and
-- Quit. A wait gives the packets in the order in which they came to the port.
use gdbserver.Base.{
  ℕ, ◌≡◌, Bool, true, false, Option, none, some, List, [], ◌∷◌, ◌++◌, if◌then◌else◌, map, refl, sym,
  ap, ◌∙◌, append_assoc, append-nil, Bool-cases, inl, inr, arith,
}
use gdbserver.Thread.{Context, ExceptionType, unrecognized}
use gdbserver.Process.Port.{bound_handle, forget_key}

-- mx_exception_packet_t: whether its type is MX_PORT_PKT_TYPE_EXCEPTION, the key, and the report.
pub record ExceptionPacket : Type 0 where
  pub is_exception : Bool
  pub key : ℕ
  pub type : ExceptionType
  pub context : Context

-- Where Worker is: at the test of its loop, in mx_port_wait, or at its end.
pub data WorkerPhase : Type 0 where
  testing in_wait closed : WorkerPhase

-- The port's thread and the main thread: the packets at the port, the tasks that are posted, and the process handle bound
-- under each key.
pub record PortThread : Type 0 where
  pub keep_running : Bool
  pub phase : WorkerPhase
  pub waiting : List ExceptionPacket
  pub tasks : List ExceptionPacket
  pub callbacks : List (ℕ × ℕ)

-- The rest of the loop's body, for what mx_port_wait has left in the packet.
unfoldable pub on_packet : ExceptionPacket → PortThread → PortThread
on_packet p s = if p.is_exception then record s { tasks = s.tasks ++ p ∷ [] } else s

-- What Worker does next; a wait ends once there is a packet. At its end it closes the port, with what still waits there.
unfoldable pub worker_step : PortThread → PortThread
worker_step s = elim s.phase [
  | testing ↦
      if s.keep_running
      then record s { phase = in_wait }
      else record s { phase = closed; waiting = [] }
  | in_wait ↦ elim s.waiting [
    | [] ↦ s
    | p ∷ rest ↦ on_packet p (record s { waiting = rest; phase = testing })
  ]
  | closed ↦ s
]

-- A wait that fails is logged, and the body goes on with a packet that nothing has set.
unfoldable pub failed_wait : ExceptionPacket → PortThread → PortThread
failed_wait unset s = elim s.phase [
  | testing ↦ s
  | in_wait ↦ on_packet unset (record s { phase = testing })
  | closed ↦ s
]

-- The next task on the main thread: the packet, and the process whose callback is called, if its key is still bound.
unfoldable pub run_exception_task : PortThread → PortThread × Option (ExceptionPacket × Option ℕ)
run_exception_task s = elim s.tasks [
  | [] ↦ (s, none)
  | p ∷ rest ↦ (record s { tasks = rest }, some (p, bound_handle p.key s.callbacks))
]

-- What comes to a port that is closed comes to nothing.
unfoldable pub receive_packet : ExceptionPacket → PortThread → PortThread
receive_packet p s = elim s.phase [
  | testing ↦ record s { waiting = s.waiting ++ p ∷ [] }
  | in_wait ↦ record s { waiting = s.waiting ++ p ∷ [] }
  | closed ↦ s
]

-- The packet that Quit queues.
abbrev pub dummy_packet : ExceptionPacket
dummy_packet = record {
  is_exception = false;
  key = 0;
  type = unrecognized;
  context = record { tid = 0; vector = 0 };
}

-- Quit, up to the join.
unfoldable pub quit_port : PortThread → PortThread
quit_port s = receive_packet dummy_packet (record s { keep_running = false })

-- What has happened: the packets that came to the port, and the tasks that have run, each with the process whose callback
-- was called.
pub record PortHistory : Type 0 where
  pub port : PortThread
  pub arrived : List ExceptionPacket
  pub ran : List (ExceptionPacket × Option ℕ)

abbrev note_run :
    List (ExceptionPacket × Option ℕ)
    → PortThread × Option (ExceptionPacket × Option ℕ)
    → List (ExceptionPacket × Option ℕ)
note_run ran (s, none) = ran
note_run ran (s, some r) = ran ++ r ∷ []

-- The steps of the two threads and the kernel, in any order. What a failed wait finds in the packet is taken to be no
-- exception.
pub data Step (h : PortHistory) : PortHistory → Type 0 where
  arrives :
      (p : ExceptionPacket)
      → Step h (record h { port = receive_packet p h.port; arrived = h.arrived ++ p ∷ [] })
  works : Step h (record h { port = worker_step h.port })
  fails :
      (unset : ExceptionPacket)
      → unset.is_exception ≡ false
      → Step h (record h { port = failed_wait unset h.port })
  runs : Step h (record h {
    port = (run_exception_task h.port).0;
    ran = note_run h.ran (run_exception_task h.port);
  })
  binds :
      (key handle : ℕ)
      → Step h (record h { port = record h.port { callbacks = (key, handle) ∷ h.port.callbacks } })
  unbinds :
      (key : ℕ)
      → Step h (record h { port = record h.port { callbacks = forget_key key h.port.callbacks } })
  quits : Step h (record h { port = quit_port h.port; arrived = h.arrived ++ dummy_packet ∷ [] })

pub data Reach (h : PortHistory) : PortHistory → Type 0 where
  here : Reach h h
  next : {i j : PortHistory} → Reach h i → Step i j → Reach h j

-- The exceptions among some packets.
abbrev pub exceptions : List ExceptionPacket → List ExceptionPacket
exceptions [] = []
exceptions (p ∷ ps) = if p.is_exception then p ∷ exceptions ps else exceptions ps

-- The exceptions that have not been handled: those with a task, and those at the port.
abbrev pub pending : PortThread → List ExceptionPacket
pending s = s.tasks ++ exceptions s.waiting

abbrev pub packets_of : List (ExceptionPacket × Option ℕ) → List ExceptionPacket
packets_of ran = map (λ (r : ExceptionPacket × Option ℕ). r.0) ran

-- Some packets are lost only once the worker has closed the port, which it does only after Quit.
abbrev pub IsLost : PortThread → List ExceptionPacket → Type 0
IsLost s lost = elim s.phase [
  | testing ↦ lost ≡ []
  | in_wait ↦ lost ≡ []
  | closed ↦ s.keep_running ≡ false
]

-- Every exception that came to the port has had its task run, or has it posted, or waits at the port, or is lost, in
-- this order.
abbrev pub InOrder : PortHistory → Type 0
InOrder h =
    (lost : List ExceptionPacket) × (exceptions h.arrived
      ≡ packets_of h.ran ++ (pending h.port ++ lost))
    × IsLost h.port lost

exceptions-append :
    (ps qs : List ExceptionPacket) → exceptions (ps ++ qs) ≡ exceptions ps ++ exceptions qs
exceptions-append [] qs = refl
exceptions-append (p ∷ ps) qs = ground (arith, exceptions-append ps qs)

packets_of-append :
    (rs ss : List (ExceptionPacket × Option ℕ))
    → packets_of (rs ++ ss) ≡ packets_of rs ++ packets_of ss
packets_of-append [] ss = refl
packets_of-append (r ∷ rs) ss = ap (λ l. r.0 ∷ l) (packets_of-append rs ss)

on_packet-pending :
    (p : ExceptionPacket) (s : PortThread)
    → pending (on_packet p s) ≡ s.tasks ++ (exceptions (p ∷ []) ++ exceptions s.waiting)
unfolding on_packet
on_packet-pending p s = elim (Bool-cases p.is_exception) [
  | inl e ↦
      rw e (append_assoc s.tasks (record p { is_exception = true } ∷ []) (exceptions s.waiting))
  | inr e ↦ rw e refl
]

on_packet-IsLost :
    (p : ExceptionPacket) (s : PortThread) (lost : List ExceptionPacket)
    → lost ≡ []
    → IsLost (on_packet p (record s { phase = testing })) lost
unfolding on_packet
on_packet-IsLost p s lost l = elim (Bool-cases p.is_exception) [ inl e ↦ rw e l | inr e ↦ rw e l ]

-- What a step of a thread makes of the exceptions that are pending and those that are lost: none overtakes another.
abbrev Moves : PortThread → PortThread → Type 0
Moves s s' =
    (lost : List ExceptionPacket)
    → IsLost s lost
    → (lost' : List ExceptionPacket) × (pending s ++ lost ≡ pending s' ++ lost') × IsLost s' lost'

worker_step-Moves : (s : PortThread) → Moves s (worker_step s)
unfolding worker_step
worker_step-Moves s = go s.phase s.waiting s.keep_running
  where
    go :
        (phase : WorkerPhase) (waiting : List ExceptionPacket) (keep : Bool)
        → let s' = record s { phase = phase; waiting = waiting; keep_running = keep } in
          Moves s' (worker_step s')
    go testing waiting true lost l = (lost, refl, l)
    go testing waiting false lost l = (
      exceptions waiting,
      ap (λ l. (s.tasks ++ exceptions waiting) ++ l) l
          ∙ append-nil (s.tasks ++ exceptions waiting)
          ∙ sym (ap (λ l. l ++ exceptions waiting) (append-nil s.tasks)),
      refl,
    )
    go closed waiting keep lost l = (lost, refl, l)
    go in_wait [] keep lost l = (lost, refl, l)
    go in_wait (p ∷ rest) keep lost l = (
      lost,
      ap (λ q. q ++ lost)
          (sym (
            on_packet-pending p (record s { waiting = rest; phase = testing; keep_running = keep })
            ∙ ap (λ l. s.tasks ++ l) (sym (exceptions-append (p ∷ []) rest)))),
      on_packet-IsLost p (record s { waiting = rest; keep_running = keep }) lost l,
    )

failed_wait-Moves :
    (unset : ExceptionPacket) (s : PortThread)
    → unset.is_exception ≡ false
    → Moves s (failed_wait unset s)
unfolding failed_wait on_packet
failed_wait-Moves unset s u = go s.phase
  where
    go :
        (phase : WorkerPhase)
        → Moves (record s { phase = phase }) (failed_wait unset (record s { phase = phase }))
    go testing lost l = (lost, refl, l)
    go closed lost l = (lost, refl, l)
    go in_wait lost l = (lost, rw u refl, rw u l)

run_exception_task-pending :
    (ran : List (ExceptionPacket × Option ℕ)) (s : PortThread)
    → packets_of (note_run ran (run_exception_task s)) ++ pending (run_exception_task s).0
      ≡ packets_of ran ++ pending s
unfolding run_exception_task
run_exception_task-pending ran s = go s.tasks
  where
    go :
        (tasks : List ExceptionPacket)
        → packets_of (note_run ran (run_exception_task (record s { tasks = tasks })))
            ++ pending (run_exception_task (record s { tasks = tasks })).0
          ≡ packets_of ran ++ pending (record s { tasks = tasks })
    go [] = refl
    go (p ∷ rest) =
        ap (λ l. l ++ (rest ++ exceptions s.waiting))
          (packets_of-append ran ((p, bound_handle p.key s.callbacks) ∷ []))
        ∙ append_assoc (packets_of ran) (p ∷ []) (rest ++ exceptions s.waiting)

run_exception_task-IsLost :
    (s : PortThread) (lost : List ExceptionPacket)
    → IsLost s lost
    → IsLost (run_exception_task s).0 lost
unfolding run_exception_task
run_exception_task-IsLost s lost l = go s.tasks
  where
    go :
        (tasks : List ExceptionPacket)
        → IsLost (run_exception_task (record s { tasks = tasks })).0 lost
    go [] = l
    go (p ∷ rest) = l

-- A packet that comes to the port comes behind all others.
behind :
    (done tasks waiting lost last : List ExceptionPacket)
    → (done ++ ((tasks ++ waiting) ++ lost)) ++ last
      ≡ done ++ ((tasks ++ waiting) ++ (lost ++ last))
behind done tasks waiting lost last =
    append_assoc done ((tasks ++ waiting) ++ lost) last
    ∙ ap (λ l. done ++ l) (append_assoc (tasks ++ waiting) lost last)

receive_packet-InOrder :
    (p : ExceptionPacket) (s : PortThread) (arrived done lost : List ExceptionPacket)
    → exceptions arrived ≡ done ++ (pending s ++ lost)
    → IsLost s lost
    → (lost' : List ExceptionPacket) × (exceptions (arrived ++ p ∷ [])
        ≡ done ++ (pending (receive_packet p s) ++ lost'))
      × IsLost (receive_packet p s) lost'
unfolding receive_packet
receive_packet-InOrder p s arrived done lost e l = go s.phase l
  where
    last : List ExceptionPacket
    last = exceptions (p ∷ [])

    all :
        exceptions (arrived ++ p ∷ [])
        ≡ done ++ ((s.tasks ++ exceptions s.waiting) ++ (lost ++ last))
    all =
        exceptions-append arrived (p ∷ [])
        ∙ ap (λ l. l ++ last) e
        ∙ behind done s.tasks (exceptions s.waiting) lost last

    kept :
        lost ≡ []
        → exceptions (arrived ++ p ∷ [])
          ≡ done ++ ((s.tasks ++ exceptions (s.waiting ++ p ∷ [])) ++ [])
    kept z =
        all
        ∙ ap (λ l. done ++ ((s.tasks ++ exceptions s.waiting) ++ (l ++ last))) z
        ∙ ap (λ l. done ++ l)
            (append_assoc s.tasks (exceptions s.waiting) last
              ∙ ap (λ l. s.tasks ++ l) (sym (exceptions-append s.waiting (p ∷ [])))
              ∙ sym (append-nil (s.tasks ++ exceptions (s.waiting ++ p ∷ []))))

    go :
        (phase : WorkerPhase)
        → IsLost (record s { phase = phase }) lost
        → let s' = receive_packet p (record s { phase = phase }) in
          (lost' : List ExceptionPacket) × (exceptions (arrived ++ p ∷ [])
            ≡ done ++ (pending s' ++ lost'))
          × IsLost s' lost'
    go testing z = ([], kept z, refl)
    go in_wait z = ([], kept z, refl)
    go closed k = (lost ++ last, all, k)

Moves-InOrder :
    (h : PortHistory) (s : PortThread)
    → Moves h.port s
    → InOrder h
    → InOrder (record h { port = s })
Moves-InOrder h s moves (lost, e, l) =
    let (lost', m, l') = moves lost l in (lost', e ∙ ap (λ q. packets_of h.ran ++ q) m, l')

quits-IsLost :
    (s : PortThread) (lost : List ExceptionPacket)
    → IsLost s lost
    → IsLost (record s { keep_running = false }) lost
quits-IsLost s lost l = go s.phase l
  where
    go :
        (phase : WorkerPhase)
        → IsLost (record s { phase = phase }) lost
        → IsLost (record s { phase = phase; keep_running = false }) lost
    go testing l = l
    go in_wait l = l
    go closed l = refl

Step-InOrder : {h i : PortHistory} → Step h i → InOrder h → InOrder i
unfolding quit_port
Step-InOrder {h} (arrives p) (lost, e, l) =
    receive_packet-InOrder p h.port h.arrived (packets_of h.ran) lost e l
Step-InOrder {h} works v = Moves-InOrder h (worker_step h.port) (worker_step-Moves h.port) v
Step-InOrder {h} (fails unset u) v =
    Moves-InOrder h (failed_wait unset h.port) (failed_wait-Moves unset h.port u) v
Step-InOrder {h} runs (lost, e, l) = (
  lost,
  e
      ∙ sym (append_assoc (packets_of h.ran) (pending h.port) lost)
      ∙ ap (λ q. q ++ lost) (sym (run_exception_task-pending h.ran h.port))
      ∙ append_assoc (packets_of (note_run h.ran (run_exception_task h.port)))
          (pending (run_exception_task h.port).0) lost,
  run_exception_task-IsLost h.port lost l,
)
Step-InOrder {h} (binds key handle) e = e
Step-InOrder {h} (unbinds key) e = e
Step-InOrder {h} quits (lost, e, l) =
    receive_packet-InOrder dummy_packet (record h.port { keep_running = false }) h.arrived
      (packets_of h.ran) lost e (quits-IsLost h.port lost l)

-- Whatever the order of the steps, where a failed wait finds no exception in the packet: the exceptions that came to the
-- port are, in their order, those whose tasks have run, which call nothing if no process is bound under their key,
-- those whose tasks are posted, those that wait at the port, and those that are lost, if that holds at the start. None
-- is lost before the worker has closed the port, which it does only after Quit; none is handled twice, and none
-- overtakes another.
pub Reach-InOrder : {h i : PortHistory} → InOrder h → Reach h i → InOrder i
Reach-InOrder e here = e
Reach-InOrder e (next r s) = Step-InOrder s (Reach-InOrder e r)
