-- ===== src/Handlers/Continuing.antt =====
-- What vCont makes of the threads.
use gdbserver.Base.{
  Bool, ℕ, true, false, ◌||◌, List, [], ◌∷◌, ◌≡◌, inl, inr, refl, arith, Option-cases, Bool-cases,
  if◌then◌else◌,
}
use gdbserver.Registers.{get_pc}
use gdbserver.Thread.{
  Thread, ThreadCalls, ThreadState, running, stepping, is_new, is_stopped, is_gone, resume, step,
  refresh_general_registers, insert_single_step_breakpoint,
}
use gdbserver.Thread.Lifecycle.{refresh-Same, insert_single_step_cases, remove_single_step_lem}
use gdbserver.ThreadActions.{
  Action, none_action, continue_action, step_action, ThreadActionList, get_action,
}
use gdbserver.Process.{ProcessCalls}
use gdbserver.Handlers.ContinuePackets.{
  apply_action, apply_actions, step_if_stopped, resume_if_stopped,
}

module _ {K : Type 0} (calls : ThreadCalls K) where
  -- A stopped thread whose step succeeds is a stepping one, and it is stopped still if the step fails.
  abbrev pub Outcome : ThreadState → (Thread × K) × Bool → Type 0
  Outcome state r = (r.1 ≡ true → r.0.0.state ≡ stepping) × (r.1 ≡ false → r.0.0.state ≡ state)

  step-Outcome :
      (t : Thread) (k : K) → is_stopped t.state ≡ true → Outcome t.state (step calls (t, k))
  unfolding step
  step-Outcome t k n =
      let refreshed = refresh_general_registers calls (t, k) in
      let same = refresh-Same calls t k in
      elim (Option-cases (get_pc refreshed.0.0.gregs)) [
        | inl c ↦ (λ e. ground arith, λ e. ground (arith, same))
        | inr (pc, c) ↦
            let (state, cases) = insert_single_step_cases calls pc refreshed.0.0 refreshed.0.1 in
            let inserted = insert_single_step_breakpoint calls pc refreshed.0 in
            let resumed = calls.resume inserted.0.0.handle inserted.0.1 in
            let removed = remove_single_step_lem calls inserted.0.0 resumed.0 in
            elim (Bool-cases refreshed.1) [
              | inr r ↦ (λ e. ground arith, λ e. ground (arith, same))
              | inl r ↦ elim (Bool-cases inserted.1) [
                | inr i ↦ (λ e. ground arith, λ e. ground (arith, same, state))
                | inl i ↦ elim (Bool-cases resumed.1) [
                  | inr o ↦ (λ e. ground arith, λ e. ground (arith, same, state, removed))
                  | inl o ↦ (λ e. ground arith, λ e. ground arith)
                ]
              ]
            ]
      ]

  -- What an action makes of a thread and the world. One that is to continue is resumed and runs if it was new or stopped;
  -- one that is to step is stepped if it was stopped; all else stays.
  abbrev pub Effect : Action → Thread × K → Thread × K → Type 0
  Effect none_action s s' = s' ≡ s
  Effect continue_action s s' =
      if is_new s.0.state || is_stopped s.0.state
      then s' ≡ (record s.0 { state = running }, (calls.resume s.0.handle s.1).0)
      else s' ≡ s
  Effect step_action s s' =
      if is_stopped s.0.state
      then (s' ≡ (step calls s).0) × Outcome s.0.state (s', (step calls s).1)
      else s' ≡ s

-- The entries of the map in order, from the world `w` to `w'`: each thread that is not gone has the effect of its action.
abbrev pub Applied :
    {K : Type 0}
    → ThreadCalls K
    → ThreadActionList
    → ℕ
    → List (ℕ × Thread)
    → K
    → List (ℕ × Thread)
    → K
    → Type 0
Applied calls actions pid [] w [] w' = w' ≡ w
Applied calls actions pid [] w (e' ∷ es') w' = ⊥
Applied calls actions pid (e ∷ es) w [] w' = ⊥
Applied {K} calls actions pid (e ∷ es) w (e' ∷ es') w' =
    (e'.0 ≡ e.0)
    × ((w1 : K) × (if is_gone e.1.state
          then (e'.1 ≡ e.1) × (w1 ≡ w)
          else Effect calls (get_action actions pid e.1.id) (e.1, w) (e'.1, w1))
        × Applied calls actions pid es w1 es' w')

module _ {W : Type 0} (calls : ProcessCalls W)
    (resumes : (handle : ℕ) (w : W) → (calls.thread.resume handle w).1 ≡ true) where
  apply_action-Effect :
      (a : Action) (t : Thread) (w : W) → Effect calls.thread a (t, w) (apply_action calls a (t, w))
  unfolding apply_action resume_if_stopped step_if_stopped resume
  apply_action-Effect none_action t w = refl
  apply_action-Effect continue_action t w =
      elim (Bool-cases (is_new t.state || is_stopped t.state)) [
        | inl n ↦ rw n (ground (arith, resumes t.handle w))
        | inr n ↦ rw n (ground arith)
      ]
  apply_action-Effect step_action t w = elim (Bool-cases (is_stopped t.state)) [
    | inl n ↦ rw n (refl, step-Outcome calls.thread t w n)
    | inr n ↦ rw n refl
  ]

  -- Where the kernel resumes every thread it is asked to: the second pass of vCont goes through the threads of the map
  -- one after the other. One that is not gone has the effect of the action that the list has for it: if it is to
  -- continue and was new or stopped, it is resumed and runs; if it is to step and was stopped, it is what Step makes of
  -- it, which is stepping if the step succeeds and stopped still if not; all others, and the world, stay as they are.
  -- No entry is added, removed or moved.
  pub apply_actions-Applied :
      (actions : ThreadActionList) (pid : ℕ) (es : List (ℕ × Thread)) (w : W)
      → let (es', w') = apply_actions calls actions pid es w in
        Applied calls.thread actions pid es w es' w'
  unfolding apply_actions
  apply_actions-Applied actions pid [] w = refl
  apply_actions-Applied actions pid (e ∷ es) w =
      let rest = apply_actions-Applied actions pid es in
      elim (Bool-cases (is_gone e.1.state)) [
        | inl g ↦ rw g (refl, (w, (refl, refl), rest w))
        | inr g ↦
            let a = get_action actions pid e.1.id in
            let w1 = (apply_action calls a (e.1, w)).1 in
            rw g (refl, (w1, apply_action-Effect a e.1 w, rest w1))
      ]
