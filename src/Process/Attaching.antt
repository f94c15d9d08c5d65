-- ===== src/Process/Attaching.antt =====
-- Attaching to a process and starting it, and any sequence of the operations.
use gdbserver.Base.{
  ◌+◌, ◌%◌, ◌^◌, ◌<◌, ◌≤◌, Bool, true, false, some, [], ◌∷◌, ◌==◌, ◌≡◌, ◌≢◌, ◌⊎◌, inl, inr, refl,
  arith, Bool-cases,
}
use gdbserver.Process.{
  ProcessCalls, System, ProcessState, new, starting, running, gone, set_state, is_live,
}
use gdbserver.Process.Port.{bind, bind_key, bound_handle, bind_exception_port}
use gdbserver.Process.Control.{
  alloc_debug_handle, close_debug_handle, mark_running, bind_or_close, attach,
}
use gdbserver.Process.Invariant.{
  Inv, Ends, Attached, world-Inv, is_attached-Attached, is_attached-Detached,
}

module _ {W : Type 0} (calls : ProcessCalls W) where
  new_or_gone : (st : ProcessState) → is_live st ≡ false → st ≢ gone → st ≡ new
  new_or_gone new l g = refl
  new_or_gone gone l g = absurd (g refl)
  new_or_gone starting l g = absurd (ground arith)
  new_or_gone running l g = absurd (ground arith)

  -- What Attach does to a process that gets a handle and a key.
  pub bind_lem :
      (s : System W)
      → s.process.handle ≢ 0
      → s.port.callbacks ≡ []
      → s.process.eport_key ≡ 0
      → s.port.key_counter < 2 ^ 64
      → (t : System W) × (b : Bool) × (bind_exception_port calls s ≡ some (t, b))
        × (t.process ≡ record s.process { eport_key = t.process.eport_key })
        × (t.port.key_counter < 2 ^ 64)
        × (((b ≡ true)
              × (t.process.eport_key ≢ 0)
              × (t.process.eport_key ≤ t.port.key_counter)
              × (t.port.callbacks ≡ (t.process.eport_key, s.process.handle) ∷ []))
            ⊎ ((b ≡ false) × (t.process.eport_key ≡ 0) × (t.port.callbacks ≡ [])))
  unfolding bind_exception_port bind bind_key bound_handle
  bind_lem s h c k n =
      let key = (s.port.key_counter + 1) % 2 ^ 64 in
      let call = calls.bind_exception_port s.process.handle key s.world in
      elim (Bool-cases (key == 0)) [
        | inl z ↦ (s, false, ground arith, ground arith, n, inr (refl, k, c))
        | inr z ↦ elim (Bool-cases call.1) [
          | inr f ↦
              (record s { world = call.0 }, false, ground arith, ground arith, n, inr (refl, k, c))
          | inl f ↦ (
            record {
              process = record s.process { eport_key = key };
              port = record {
                key_counter = key;
                callbacks = (key, s.process.handle) ∷ s.port.callbacks;
              };
              world = call.0;
            },
            true,
            ground arith,
            refl,
            omega arith,
            inl (refl, ground arith, omega arith, ground arith),
          )
        ]
      ]

  mark_running_lem :
      (s : System W)
      → Attached s
      → s.port.key_counter < 2 ^ 64
      → s.process.state ≡ new
      → (s.process.attached_running ≡ true → s.process.launchpad ≡ false)
      → Ends calls (mark_running calls s)
  unfolding mark_running set_state
  mark_running_lem s a n e l = elim (Bool-cases s.process.attached_running) [
    | inr r ↦ (
      (s, true),
      ground arith,
      record {
        counter = n;
        link = inr a;
        launchpad_new = λ _. e;
        running_new = λ r'. absurd (ground arith);
        one_kind = l;
      },
    )
    | inl r ↦
        let (h, k, b, c, _) = a in
        let p = record s.process { state = running; thread_map_stale = true } in
        (
          (record s { process = p }, true),
          ground arith,
          record {
            counter = n;
            link = inr (h, k, b, c, λ q. absurd (ground arith));
            launchpad_new = λ m. absurd (ground (arith, l r));
            running_new = λ _ q. absurd (ground arith);
            one_kind = l;
          },
        )
  ]

  pub attach-Ends : (s : System W) → Inv s → s.process.state ≢ gone → Ends calls (attach calls s)
  unfolding attach alloc_debug_handle bind_or_close close_debug_handle
  attach-Ends s v g = elim v.link [
    | inr a ↦ ((s, false), ground (arith, is_attached-Attached s a), v)
    | inl d ↦
        let (h, k, c, live) = d in
        let (w, handle) = calls.object_get_child 0 s.process.id s.world in
        let is_new = new_or_gone s.process.state live g in
        elim (Bool-cases (handle == 0)) [
          | inl z ↦ (
            (record s { world = w }, false),
            ground (arith, is_attached-Detached s d),
            world-Inv s v w,
          )
          | inr z ↦
              let opened : System W = record {
                process = record s.process { handle = handle };
                port = s.port;
                world = w;
              } in
              let (t, b, bound, p, n, cases) = bind_lem opened (ground arith) c k v.counter in
              elim cases [
                | inl (ok, k', below, c') ↦
                    let a : Attached t =
                      (ground (arith, p), k', below, ground (arith, p), ground (arith, p)) in
                    let (r, e, v') =
                      mark_running_lem t a n (ground (arith, p))
                        (λ r'. ground (arith, p, v.one_kind (ground (arith, p)))) in
                    (r, ground (arith, is_attached-Detached s d, bound, e), v')
                | inr (failed, k', c') ↦ (
                  (close_debug_handle calls t, false),
                  ground (arith, is_attached-Detached s d, bound),
                  record {
                    counter = n;
                    link = inl (refl, k', c', ground (arith, p));
                    launchpad_new = λ l. ground (arith, p);
                    running_new = λ r' q. absurd (ground (arith, p));
                    one_kind = λ r'. ground (arith, p, v.one_kind (ground (arith, p)));
                  },
                )
              ]
        ]
  ]
