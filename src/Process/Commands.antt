-- ===== src/Process/Commands.antt =====
-- The requests that the server makes of a process.
use gdbserver.Process.Starting.{no_key, start-Ends}
use gdbserver.Base.{
  ◌∙◌, ℕ, ◌<◌, ◌^◌, Bool, true, false, Option, none, some, not, ◌||◌, ◌==◌, if◌then◌else◌, List, [],
  ◌∷◌, Bytes, ◌≡◌, ◌≢◌, ◌⊎◌, inl, inr, refl, arith, Option-cases, Bool-cases, ◌>>=◌, is_empty,
}
use gdbserver.Process.{
  ProcessCalls, Process, System, ProcessState, new, starting, running, gone, set_state, is_live,
}
use gdbserver.Process.Launch.{
  revive, initialize_pid, initialize, launch, launch_failed, read_addresses, setup_launchpad,
  load_binary,
}
use gdbserver.Process.Control.{attach, start, kill, detach}
use gdbserver.Process.Invariant.{Inv, Ends, Detached, detach-Ends, kill-Ends}
use gdbserver.Process.Attaching.{attach-Ends}

-- What both forms of Initialize ask for: the process is not attached and not live, and no launchpad is
-- left over.
abbrev pub IsIdle : Process → Type 0
IsIdle p = (p.launchpad ≡ false) × (p.handle ≡ 0) × (is_live p.state ≡ false)

revive_lem : (p : Process) → IsIdle p → p.eport_key ≡ 0 → revive p ≡ some (record p { state = new })
unfolding revive set_state
revive_lem p (l, h, live) k = elim (new_or_gone_state p.state live) [
  | inl e ↦ ground arith
  | inr e ↦ ground arith
]
  where
    new_or_gone_state : (st : ProcessState) → is_live st ≡ false → (st ≡ new) ⊎ (st ≡ gone)
    new_or_gone_state new l = inl refl
    new_or_gone_state gone l = inr refl
    new_or_gone_state starting l = absurd (ground arith)
    new_or_gone_state running l = absurd (ground arith)

module _ {W : Type 0} (calls : ProcessCalls W) where
  -- What setting up launchpad leaves alone.
  abbrev Kept : System W → System W → Type 0
  Kept s t =
      (t.process.handle ≡ s.process.handle)
      × (t.process.eport_key ≡ s.process.eport_key)
      × (t.process.state ≡ s.process.state)
      × (t.process.attached_running ≡ s.process.attached_running)
      × (t.port ≡ s.port)

  abbrev Launches : Option (System W × Bool) → System W → Type 0
  Launches r s = (t : System W × Bool) × (r ≡ some t) × Kept s t.0

  -- A process that is new, detached and launched from scratch.
  Kept-Inv :
      (s t : System W)
      → Kept s t
      → Detached s
      → s.port.key_counter < 2 ^ 64
      → s.process.state ≡ new
      → s.process.attached_running ≡ false
      → Inv t
  Kept-Inv s t (h, k, st, a, p) (h', k', c', _) n e r = record {
    counter = ground (arith, p);
    link = inl (h ∙ h', k ∙ k', ground (arith, p), ground arith);
    launchpad_new = λ _. st ∙ e;
    running_new = λ q. absurd (ground arith);
    one_kind = λ q. absurd (ground arith);
  }

  module _ (has_id : (w : W) → calls.launchpad_process_id w ≢ 0) where
    read_addresses_lem : (s : System W) → Launches (read_addresses calls s) s
    unfolding read_addresses launch_failed
    read_addresses_lem s =
        let named = has_id s.world in
        let process = record s.process { id = calls.launchpad_process_id s.world } in
        elim (Option-cases (calls.launchpad_base_address s.world)) [
          | inl b ↦ (
            launch_failed calls (record s { process = process }),
            ground arith,
            (refl, refl, refl, refl, refl),
          )
          | inr (base, b) ↦ elim (Option-cases (calls.launchpad_entry_address s.world)) [
            | inl e ↦ (
              launch_failed calls (record s { process = record process { base_address = base } }),
              ground arith,
              (refl, refl, refl, refl, refl),
            )
            | inr (entry, e) ↦ (
              (
                record s {
                  process = record process { base_address = base; entry_address = entry };
                },
                true,
              ),
              ground arith,
              (refl, refl, refl, refl, refl),
            )
          ]
        ]

    launch_lem : (program : Bytes) (s : System W) → Launches (launch calls program s) s
    unfolding launch launch_failed
    launch_lem program s =
        let set_up = setup_launchpad calls program s.process.argv s.world in
        let loaded = load_binary calls program set_up.0 in
        let ready : System W = record {
          process = record s.process { launchpad = true };
          port = s.port;
          world = loaded.0;
        } in
        elim (Bool-cases set_up.1) [
          | inr c ↦
              ((record s { world = set_up.0 }, false), ground arith, (refl, refl, refl, refl, refl))
          | inl c ↦ elim (Bool-cases loaded.1) [
            | inr b ↦ (launch_failed calls ready, ground arith, (refl, refl, refl, refl, refl))
            | inl b ↦ let (t, e, kept) = read_addresses_lem ready in (t, ground (arith, e), kept)
          ]
        ]

    initialize-Ends : (s : System W) → Inv s → IsIdle s.process → Ends calls (initialize calls s)
    unfolding initialize
    initialize-Ends s v idle =
        let (l, h, live) = idle in
        let (_, k, c, _) = no_key calls s v h in
        let fresh = record s {
          process = record s.process { state = new; attached_running = false };
        } in
        let revived = revive_lem s.process idle k in
        let ends : (t : System W) → Kept fresh t → Inv t =
          λ t kept. Kept-Inv fresh t kept (h, k, c, refl) v.counter refl refl in
        let same : Kept fresh fresh = (refl, refl, refl, refl, refl) in
        elim (argv_cases s.process.argv) [
          | inl e ↦ ((fresh, false), ground (arith, revived), ends fresh same)
          | inr (program, rest, e) ↦ elim (Bool-cases (is_empty program)) [
            | inl z ↦ ((fresh, false), ground (arith, revived), ends fresh same)
            | inr z ↦
                let (t, launched, kept) = launch_lem program fresh in
                (t, ground (arith, revived, launched), ends t.0 kept)
          ]
        ]
      where
        argv_cases : (a : List Bytes) → (a ≡ []) ⊎ ((p : Bytes) × (r : List Bytes) × (a ≡ p ∷ r))
        argv_cases [] = inl refl
        argv_cases (p ∷ r) = inr (p, r, refl)

    -- A request of the server.
    pub data Request : Type 0 where
      initializes : Request
      initializes_pid : ℕ → Request
      attaches : Request
      starts : Request
      kills : Request
      detaches : Request

    -- That Initialize has been called before Attach (process.h): the process is not gone.
    abbrev pub IsDocumented : Request → Process → Type 0
    IsDocumented attaches p = p.state ≢ gone
    IsDocumented _ p = Unit

    -- The processes that a request stops the program at: Initialize, where a launchpad or a handle is left or the process
    -- is live, and Start, where there is no launchpad or no handle.
    abbrev pub stops : Request → Process → Bool
    stops initializes p = p.launchpad || not (p.handle == 0) || is_live p.state
    stops (initializes_pid pid) p = p.launchpad || not (p.handle == 0) || is_live p.state
    stops attaches p = false
    stops starts p = not p.launchpad || p.handle == 0
    stops kills p = false
    stops detaches p = false

    abbrev pub perform : Request → System W → Option (System W × Bool)
    perform initializes s = initialize calls s
    perform (initializes_pid pid) s = do
      p ← initialize_pid pid s.process
      some (record s { process = p }, true)
    perform attaches s = attach calls s
    perform starts s = start calls s
    perform kills s = kill calls s
    perform detaches s = detach calls s

    initialize_pid-Ends :
        (pid : ℕ) (s : System W)
        → Inv s
        → IsIdle s.process
        → Ends calls (perform (initializes_pid pid) s)
    unfolding initialize_pid
    initialize_pid-Ends pid s v idle =
        let (l, h, live) = idle in
        let (_, k, c, _) = no_key calls s v h in
        let p = record s.process { state = new; attached_running = true; id = pid } in
        (
          (record s { process = p }, true),
          ground (arith, revive_lem s.process idle k),
          record {
            counter = v.counter;
            link = inl (h, k, c, refl);
            launchpad_new = λ _. refl;
            running_new = λ _ q. absurd (ground arith);
            one_kind = λ _. l;
          },
        )

    revive-none : (p : Process) → stops initializes p ≡ true → revive p ≡ none
    unfolding revive
    revive-none p h = elim (live_cases p.state) [
      | inl l ↦ ground (arith, l)
      | inr e ↦ ground (arith, e)
    ]
      where
        live_cases : (st : ProcessState) → (is_live st ≡ false) ⊎ ((st ≡ starting) ⊎ (st ≡ running))
        live_cases new = inl refl
        live_cases gone = inl refl
        live_cases starting = inr (inl refl)
        live_cases running = inr (inr refl)

    initialize-none :
        (s : System W) → stops initializes s.process ≡ true → initialize calls s ≡ none
    unfolding initialize
    initialize-none s h = ground (arith, revive-none s.process h)

    initialize_pid-none :
        (pid : ℕ) (p : Process) → stops initializes p ≡ true → initialize_pid pid p ≡ none
    unfolding initialize_pid
    initialize_pid-none pid p h = ground (arith, revive-none p h)

    start-none : (s : System W) → stops starts s.process ≡ true → start calls s ≡ none
    unfolding start
    start-none s h = ground (arith, h)

    -- What becomes of a request: the program stops at a check, or the request returns and the invariant holds.
    abbrev pub Performed : Request → System W → Type 0
    Performed r s = if stops r s.process then perform r s ≡ none else Ends calls (perform r s)

    -- Of a process that satisfies what follows, and of which launchpad knows an id, whatever the system calls answer, a
    -- request, which is not to attach to a process that is gone, fails one of the code's checks exactly if it is to
    -- initialize a process that has a launchpad or a handle left or is live, or to start one that has no launchpad or
    -- no handle. Otherwise it returns, and afterwards: the process has a handle exactly when it has a key of the
    -- exception port; the port's one callback is then for that handle under that key; a live process is attached; and
    -- a launchpad is only left while the process is new.
    pub perform-Inv :
        (r : Request) (s : System W) → Inv s → IsDocumented r s.process → Performed r s
    perform-Inv initializes s v _ = elim (Bool-cases (stops initializes s.process)) [
      | inl h ↦ rw h (initialize-none s h)
      | inr h ↦ rw h (initialize-Ends s v (ground arith, ground arith, ground arith))
    ]
    perform-Inv (initializes_pid pid) s v _ = elim (Bool-cases (stops initializes s.process)) [
      | inl h ↦ rw h (ground (arith, initialize_pid-none pid s.process h))
      | inr h ↦ rw h (initialize_pid-Ends pid s v (ground arith, ground arith, ground arith))
    ]
    perform-Inv attaches s v g = attach-Ends calls s v g
    perform-Inv starts s v _ = elim (Bool-cases (stops starts s.process)) [
      | inl h ↦ rw h (start-none s h)
      | inr h ↦ rw h (start-Ends calls s v (ground arith) (ground arith))
    ]
    perform-Inv kills s v _ = kill-Ends calls s v
    perform-Inv detaches s v _ = detach-Ends calls s v
