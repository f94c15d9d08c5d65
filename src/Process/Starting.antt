-- ===== src/Process/Starting.antt =====
-- Start and the invariant of a process (process.cc).
use gdbserver.Base.{true, false, ◌≡◌, ◌≢◌, inl, inr, refl, arith, Option-cases}
use gdbserver.Process.{ProcessCalls, System, starting, set_state}
use gdbserver.Process.Control.{start_new, start}
use gdbserver.Process.Invariant.{Inv, Ends, Detached}

module _ {W : Type 0} (calls : ProcessCalls W) where
  pub no_key : (s : System W) → Inv s → s.process.handle ≡ 0 → Detached s
  no_key s v h = elim v.link [ inl d ↦ d | inr (n, _, _, _, _) ↦ absurd (n h) ]

  pub start-Ends :
      (s : System W)
      → Inv s
      → s.process.launchpad ≡ true
      → s.process.handle ≢ 0
      → Ends calls (start calls s)
  unfolding start start_new set_state
  start-Ends s v l h = elim v.link [
    | inl (z, _, _, _) ↦ absurd (h z)
    | inr a ↦
        let is_new = v.launchpad_new l in
        let (w, dup_handle) = calls.launchpad_start s.world in
        let p = record s.process { launchpad = false } in
        elim (Option-cases dup_handle) [
          | inl e ↦ (
            (record { process = p; port = s.port; world = calls.launchpad_destroy w }, false),
            ground arith,
            record {
              counter = v.counter;
              link = inr a;
              launchpad_new = λ l'. absurd (ground arith);
              running_new = v.running_new;
              one_kind = λ _. refl;
            },
          )
          | inr (dup, e) ↦
              let (h', k, b, c, _) = a in
              (
                (
                  record {
                    process = record p { state = starting };
                    port = s.port;
                    world = calls.handle_close dup (calls.launchpad_destroy w);
                  },
                  true,
                ),
                ground arith,
                record {
                  counter = v.counter;
                  link = inr (h', k, b, c, λ q. absurd (ground arith));
                  launchpad_new = λ l'. absurd (ground arith);
                  running_new = λ _ q. absurd (ground arith);
                  one_kind = λ _. refl;
                },
              )
        ]
  ]
