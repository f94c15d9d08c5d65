-- ===== src/Thread/Lifecycle.antt =====
-- The states of a thread under every sequence of events, and its single-step breakpoint.
use gdbserver.Base.{
  if◌then◌else◌, [], ◌∷◌, ◌||◌, List, ℕ, Bool, true, false, none, some, ◌≡◌, ◌⊎◌, inl, inr, refl,
  arith, Option-cases, Bool-cases, is_none,
}
use gdbserver.Thread.{
  is_gone, get_pc, new, running, exiting, stopped, gone, thread_exiting, is_stopped, clear, step,
  on_exception, resume_for_exit, ThreadState, resume, ThreadCalls, Thread, Context, ExceptionType,
  stepping, is_new, is_stepping, is_exiting_exception, refresh_general_registers,
  write_general_registers, set_rflags_tf, insert_single_step_breakpoint,
  remove_single_step_breakpoint,
}

-- What the registers' operations leave alone.
abbrev pub Same : Thread → Thread → Type 0
Same t u =
    (u.state ≡ t.state)
    × (u.single_step_breakpoint ≡ t.single_step_breakpoint)
    × (u.handle ≡ t.handle)
    × (u.exception_context ≡ t.exception_context)

-- A stepping thread has its breakpoint inserted; a thread that is not stepping has none, unless it
-- is gone.
pub data Inv (t : Thread) : Type 0 where
  armed :
      (address : ℕ)
      → t.state ≡ stepping
      → t.single_step_breakpoint ≡ some (record { address = address; inserted = true })
      → Inv t
  bare : is_stepping t.state ≡ false → t.single_step_breakpoint ≡ none → Inv t
  dead : t.state ≡ gone → Inv t

-- Resume and Step are requests of the debugger; an exception comes from the kernel, and the server
-- resumes a thread that reports its exit at once. The process does not find a thread that is gone
-- (FindThreadById), so that nothing is reported to it.
pub data Event : Type 0 where
  resumes : Event
  steps : Event
  excepts : (type : ExceptionType) → is_exiting_exception type ≡ false → Context → Event
  exits : Context → Event

module _ {K : Type 0} (calls : ThreadCalls K) where
  pub refresh-Same : (t : Thread) (k : K) → Same t (refresh_general_registers calls (t, k)).0.0
  unfolding refresh_general_registers
  refresh-Same t k = elim (Bool-cases (is_new t.state)) [
    | inl n ↦ rw n (refl, refl, refl, refl)
    | inr n ↦ elim (Option-cases (calls.read_state t.handle k)) [
      | inl r ↦ ground arith
      | inr (g, r) ↦ ground arith
    ]
  ]

  pub set_rflags_tf-Same :
      (enable : Bool) (t : Thread) (k : K) → Same t (set_rflags_tf calls enable (t, k)).0.0
  unfolding set_rflags_tf write_general_registers
  set_rflags_tf-Same enable t k =
      let same = refresh-Same t k in
      elim (Bool-cases (refresh_general_registers calls (t, k)).1) [
        | inl r ↦ ground (arith, same)
        | inr r ↦ ground (arith, same)
      ]

  -- Afterwards a thread has the breakpoint if it is inserted, and what it had otherwise.
  pub insert_single_step_cases :
      (a : ℕ) (t : Thread) (k : K)
      → let r = insert_single_step_breakpoint calls a (t, k) in
        (r.0.0.state ≡ t.state)
        × (((r.1 ≡ true)
              × (r.0.0.single_step_breakpoint ≡ some (record { address = a; inserted = true })))
            ⊎ ((r.1 ≡ false) × (r.0.0.single_step_breakpoint ≡ t.single_step_breakpoint)))
  unfolding insert_single_step_breakpoint
  insert_single_step_cases a t k =
      let same = set_rflags_tf-Same true t k in
      elim (Bool-cases (is_none t.single_step_breakpoint)) [
        | inr n ↦ rw n (refl, inr (refl, refl))
        | inl n ↦ elim (Bool-cases (set_rflags_tf calls true (t, k)).1) [
          | inl r ↦ (ground (arith, same), inl (ground arith, ground arith))
          | inr r ↦ (ground (arith, same), inr (ground arith, ground (arith, same)))
        ]
      ]

  pub remove_single_step_lem :
      (t : Thread) (k : K)
      → let u = (remove_single_step_breakpoint calls (t, k)).0.0 in
        (u.state ≡ t.state)
        × (u.single_step_breakpoint ≡ none)
        × (u.exception_context ≡ t.exception_context)
  unfolding remove_single_step_breakpoint
  remove_single_step_lem t k = elim (Option-cases t.single_step_breakpoint) [
    | inl n ↦ ground arith
    | inr (b, n) ↦ elim (Bool-cases b.inserted) [
      | inl i ↦ ground (arith, set_rflags_tf-Same false t k)
      | inr i ↦ ground arith
    ]
  ]

  abbrev pub apply : Event → Thread × K → Thread × K
  apply resumes s = (resume calls s).0
  apply steps s = (step calls s).0
  apply (excepts type _ context) s =
      if is_gone s.0.state then s else on_exception calls type context s
  apply (exits context) s =
      if is_gone s.0.state
      then s
      else resume_for_exit calls (on_exception calls thread_exiting context s)

  abbrev pub run : List Event → Thread × K → Thread × K
  run [] s = s
  run (e ∷ es) s = run es (apply e s)

  is_stepping_eq : (s : ThreadState) → is_stepping s ≡ true → s ≡ stepping
  is_stepping_eq stepping h = refl
  is_stepping_eq new h = absurd (ground arith)
  is_stepping_eq stopped h = absurd (ground arith)
  is_stepping_eq running h = absurd (ground arith)
  is_stepping_eq exiting h = absurd (ground arith)
  is_stepping_eq gone h = absurd (ground arith)

  Bare-exception :
      (type : ExceptionType) (c : Context) (t : Thread) (k : K)
      → is_exiting_exception type ≡ false
      → (t.single_step_breakpoint ≡ none) ⊎ (is_stepping t.state ≡ true)
      → let u = (on_exception calls type c (t, k)).0 in
        (u.state ≡ stopped) × (u.single_step_breakpoint ≡ none)
  unfolding on_exception
  Bare-exception type c t k e h =
      let t' = record t { exception_context = some c; state = stopped } in
      let removed = remove_single_step_lem t' k in
      elim (Bool-cases (is_stepping t.state)) [
        | inl s ↦ ground (arith, removed)
        | inr s ↦ elim h [ inl n ↦ ground arith | inr s' ↦ absurd (ground arith) ]
      ]

  resume-Inv : (t : Thread) (k : K) → Inv t → Inv (resume calls (t, k)).0.0
  unfolding resume
  resume-Inv t k v = elim (Bool-cases (is_stopped t.state || is_new t.state)) [
    | inr n ↦ rw n v
    | inl n ↦ elim (Bool-cases (calls.resume t.handle k).1) [
      | inr f ↦ rw (n, f) v
      | inl f ↦ rw (n, f) (bare refl (none_here v n))
    ]
  ]
    where
      none_here :
          {t : Thread}
          → Inv t
          → is_stopped t.state || is_new t.state ≡ true
          → t.single_step_breakpoint ≡ none
      none_here (armed a s b) n = absurd (ground arith)
      none_here (bare s b) n = b
      none_here (dead s) n = absurd (ground arith)

  exit-Inv :
      (c : Context) (t : Thread) (k : K)
      → Inv (resume_for_exit calls (on_exception calls thread_exiting c (t, k))).0
  unfolding resume_for_exit clear
  exit-Inv c t k = dead refl

  step-Inv : (t : Thread) (k : K) → Inv t → Inv (step calls (t, k)).0.0
  unfolding step
  step-Inv t k v = elim (Bool-cases (is_stopped t.state)) [
    | inr n ↦ rw n v
    | inl n ↦
        let none_yet = stopped_none v n in
        let refreshed = refresh_general_registers calls (t, k) in
        let same = refresh-Same t k in
        elim (Option-cases (get_pc refreshed.0.0.gregs)) [
          | inl c ↦ rw (n, c) (bare (ground (arith, same)) (ground (arith, same)))
          | inr (pc, c) ↦ elim (Bool-cases refreshed.1) [
            | inr r ↦ rw (n, c, r) (bare (ground (arith, same)) (ground (arith, same)))
            | inl r ↦
                let (state, cases) = insert_single_step_cases pc refreshed.0.0 refreshed.0.1 in
                let inserted = insert_single_step_breakpoint calls pc refreshed.0 in
                elim cases [
                  | inr (f, b) ↦
                      rw (n, c, r, f) (bare (ground (arith, same)) (ground (arith, same)))
                  | inl (f, b) ↦
                      let resumed = calls.resume inserted.0.0.handle inserted.0.1 in
                      let removed = remove_single_step_lem inserted.0.0 resumed.0 in
                      elim (Bool-cases resumed.1) [
                        | inl ok ↦ rw (n, c, r, f, ok) (armed pc refl b)
                        | inr ok ↦
                            rw (n, c, r, f, ok)
                              (bare (ground (arith, same, removed, state))
                                (ground (arith, removed)))
                      ]
                ]
          ]
        ]
  ]
    where
      stopped_none :
          {t : Thread} → Inv t → is_stopped t.state ≡ true → t.single_step_breakpoint ≡ none
      stopped_none (armed a s b) n = absurd (ground arith)
      stopped_none (bare s b) n = b
      stopped_none (dead s) n = absurd (ground arith)

  apply-Inv : (e : Event) (t : Thread) (k : K) → Inv t → Inv (apply e (t, k)).0
  apply-Inv resumes t k v = resume-Inv t k v
  apply-Inv steps t k v = step-Inv t k v
  apply-Inv (excepts type e c) t k v = elim (Bool-cases (is_gone t.state)) [
    | inl g ↦ rw g v
    | inr g ↦
        let (s, b) = Bare-exception type c t k e (none_or_stepping v g) in
        rw g (bare (ground (arith, s)) b)
  ]
    where
      none_or_stepping :
          {t : Thread}
          → Inv t
          → is_gone t.state ≡ false
          → (t.single_step_breakpoint ≡ none) ⊎ (is_stepping t.state ≡ true)
      none_or_stepping (armed a s b) g = inr (ground arith)
      none_or_stepping (bare s b) g = inl b
      none_or_stepping (dead s) g = absurd (ground arith)
  apply-Inv (exits c) t k v = elim (Bool-cases (is_gone t.state)) [
    | inl g ↦ rw g v
    | inr g ↦ rw g (exit-Inv c t k)
  ]

  -- Whatever the kernel's calls answer and in whatever order a thread is resumed, stepped, reports
  -- exceptions and exits, if it does so at the start: it has a single-step breakpoint, which is
  -- inserted, exactly while it is stepping, until it is gone.
  pub run-Inv : (es : List Event) (t : Thread) (k : K) → Inv t → Inv (run es (t, k)).0
  run-Inv [] t k v = v
  run-Inv (e ∷ es) t k v = let next = apply e (t, k) in run-Inv es next.0 next.1 (apply-Inv e t k v)
