-- ===== src/Process/Invariant.antt =====
-- What attaching, starting, killing and detaching keep true of a process and the exception port.
use gdbserver.Base.{
  ◌^◌, ◌<◌, ◌≤◌, Bool, true, false, Option, some, [], ◌∷◌, ◌≡◌, ◌≢◌, ◌⊎◌, inl, inr, refl, arith,
  Bool-cases, if◌then◌else◌,
}
use gdbserver.Process.{
  ProcessCalls, System, new, gone, set_state, is_attached, is_live, clear_process, destroy_threads,
}
use gdbserver.Process.Port.{bound_handle, forget_key, unbind, unbind_exception_port}
use gdbserver.Process.Control.{close_debug_handle, raw_detach, detach, kill_live, kill}

module _ {W : Type 0} where
  -- Not attached: no handle, no key, and the port has no callback; the process is not live.
  abbrev pub Detached : System W → Type 0
  Detached s =
      (s.process.handle ≡ 0)
      × (s.process.eport_key ≡ 0)
      × (s.port.callbacks ≡ [])
      × (is_live s.process.state ≡ false)

  -- Attached: the port has one callback, for the process's handle under its key.
  abbrev pub Attached : System W → Type 0
  Attached s =
      (s.process.handle ≢ 0)
      × (s.process.eport_key ≢ 0)
      × (s.process.eport_key ≤ s.port.key_counter)
      × (s.port.callbacks ≡ (s.process.eport_key, s.process.handle) ∷ [])
      × (s.process.state ≢ gone)

  pub record Inv (s : System W) : Type 0 where
    pub counter : s.port.key_counter < 2 ^ 64
    pub link : Detached s ⊎ Attached s
    pub launchpad_new : s.process.launchpad ≡ true → s.process.state ≡ new
    pub running_new : s.process.attached_running ≡ true → s.process.state ≢ gone
    pub one_kind : s.process.attached_running ≡ true → s.process.launchpad ≡ false

  pub is_attached-Attached : (s : System W) → Attached s → is_attached s.process ≡ some true
  unfolding is_attached
  is_attached-Attached s (h, k, _, _, _) = ground arith

  pub is_attached-Detached : (s : System W) → Detached s → is_attached s.process ≡ some false
  unfolding is_attached
  is_attached-Detached s (h, k, _, _) = ground arith

  pub world-Inv : (s : System W) → Inv s → (w : W) → Inv (record s { world = w })
  world-Inv s v w = record {
    counter = v.counter;
    link = v.link;
    launchpad_new = v.launchpad_new;
    running_new = v.running_new;
    one_kind = v.one_kind;
  }

module _ {W : Type 0} (calls : ProcessCalls W) where
  -- The end of an operation: it does not stop at a failed check, and the invariant holds.
  abbrev pub Ends : Option (System W × Bool) → Type 0
  Ends r = (t : System W × Bool) × (r ≡ some t) × Inv t.0

  -- Clear, when the process is fully detached: nothing is left of it.
  pub record Cleared (s t : System W) : Type 0 where
    pub result : clear_process calls s ≡ some t
    pub detached : Detached t
    pub state : t.process.state ≡ gone
    pub launchpad : t.process.launchpad ≡ false
    pub attached_running : t.process.attached_running ≡ false
    pub port : t.port ≡ s.port

  pub clear_process_lem :
      (s : System W)
      → s.process.handle ≡ 0
      → s.process.eport_key ≡ 0
      → s.port.callbacks ≡ []
      → (t : System W) × Cleared s t
  unfolding clear_process is_attached set_state
  clear_process_lem s h k c =
      let w = destroy_threads calls s.process.threads s.world in
      (
        record {
          process = record s.process {
            threads = [];
            thread_map_stale = false;
            id = 0;
            base_address = 0;
            entry_address = 0;
            attached_running = false;
            dsos = [];
            dsos_build_failed = false;
            launchpad = false;
            state = gone;
          };
          port = s.port;
          world = if s.process.launchpad then calls.launchpad_destroy w else w;
        },
        record {
          result = ground arith;
          detached = (h, k, c, refl);
          state = refl;
          launchpad = refl;
          attached_running = refl;
          port = refl;
        },
      )

  pub Cleared-Inv : (s t : System W) → s.port.key_counter < 2 ^ 64 → Cleared s t → Inv t
  Cleared-Inv s t n c = record {
    counter = ground (arith, c.port);
    link = inl c.detached;
    launchpad_new = λ e. absurd (ground (arith, c.launchpad));
    running_new = λ e. absurd (ground (arith, c.attached_running));
    one_kind = λ e. c.launchpad;
  }

  unbound : System W → System W
  unbound s = record {
    process = record s.process { eport_key = 0 };
    port = record s.port { callbacks = [] };
    world = calls.unbind_exception_port s.process.handle s.process.eport_key s.world;
  }

  unbind_lem : (s : System W) → Attached s → unbind_exception_port calls s ≡ some (unbound s)
  unfolding unbind_exception_port unbind bound_handle forget_key unbound
  unbind_lem s (h, k, b, c, g) = ground (arith, c)

  -- Taking the callback off the port and closing the handle, after which everything can be cleared.
  unfoldable pub detached_by : System W → System W
  detached_by s = record {
    process = record s.process { eport_key = 0; handle = 0 };
    port = record s.port { callbacks = [] };
    world =
        calls.handle_close s.process.handle
          (calls.unbind_exception_port s.process.handle s.process.eport_key s.world);
  }

  raw_detach_lem : (s : System W) → Attached s → raw_detach calls s ≡ some (detached_by s)
  unfolding raw_detach close_debug_handle detached_by unbound
  raw_detach_lem s a =
      let (h, _, _, _, _) = a in ground (arith, unbind_lem s a, is_attached-Attached s a)

  pub detach-Ends : (s : System W) → Inv s → Ends (detach calls s)
  unfolding detach detached_by
  detach-Ends s v = elim v.link [
    | inl d ↦ ((s, false), ground (arith, is_attached-Detached s d), v)
    | inr a ↦
        let (t, c) = clear_process_lem (detached_by s) refl refl refl in
        (
          (t, true),
          ground (arith, is_attached-Attached s a, raw_detach_lem s a, c.result),
          Cleared-Inv (detached_by s) t v.counter c,
        )
  ]

  pub kill-Ends : (s : System W) → Inv s → Ends (kill calls s)
  unfolding kill kill_live close_debug_handle unbound
  kill-Ends s v = elim (Bool-cases (is_live s.process.state)) [
    | inr n ↦ ((s, true), ground arith, v)
    | inl n ↦ elim v.link [
      | inl (_, _, _, d) ↦ absurd (ground arith)
      | inr a ↦ elim (Bool-cases (calls.task_kill s.process.handle s.world).1) [
        | inr f ↦ (
          (record s { world = (calls.task_kill s.process.handle s.world).0 }, false),
          ground arith,
          world-Inv s v _,
        )
        | inl f ↦
            let killed = record s { world = (calls.task_kill s.process.handle s.world).0 } in
            let u = unbound killed in
            let waited = record u { world = (calls.wait_terminated s.process.handle u.world).0 } in
            let (t, c) = clear_process_lem (close_debug_handle calls waited) refl refl refl in
            (
              (t, true),
              ground (arith, unbind_lem killed a, c.result),
              Cleared-Inv (close_debug_handle calls waited) t v.counter c,
            )
      ]
    ]
  ]
