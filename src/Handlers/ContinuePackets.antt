-- ===== src/Handlers/ContinuePackets.antt =====
-- The packet vCont (cmd-handler.cc).
use gdbserver.Base.{
  ℕ, Bool, true, false, not, ◌&&◌, ◌||◌, Option, none, some, List, [], ◌∷◌, Bytes, ◌==◌,
  if◌then◌else◌, ◌>>=◌, ◌>>◌, guard,
}
use gdbserver.Ftl.{Ftl}
use gdbserver.Thread.{Thread, is_new, is_stopped, is_gone, resume, step}
use gdbserver.ThreadActions.{
  Action, none_action, continue_action, step_action, ThreadActionList, Entry, thread_action_list,
  get_action, all_ids,
}
use gdbserver.Process.{ProcessCalls, System, is_attached, is_live}
use gdbserver.Process.ThreadMap.{ensure_thread_map_fresh, pick_one_thread}
use gdbserver.Handlers.{Stub, Answer, inval, reply_ok, reply_with_error, after_lookup}

abbrev pub is_step_action : Action → Bool
is_step_action step_action = true
is_step_action _ = false

module _ {W : Type 0} (calls : ProcessCalls W) where
  -- The switch of the second pass, on one thread. The case for continuing has no `break`: a thread that
  -- could not be resumed, and so is stopped still, is stepped.
  unfoldable pub step_if_stopped : Thread × W → Thread × W
  step_if_stopped s = if is_stopped s.0.state then (step calls.thread s).0 else s

  unfoldable pub resume_if_stopped : Thread × W → Thread × W
  resume_if_stopped s =
      if is_new s.0.state || is_stopped s.0.state then (resume calls.thread s).0 else s

  unfoldable pub apply_action : Action → Thread × W → Thread × W
  apply_action none_action s = s
  apply_action continue_action s = step_if_stopped (resume_if_stopped s)
  apply_action step_action s = step_if_stopped s

  -- The second pass over the live threads.
  unfoldable pub apply_actions :
      ThreadActionList → ℕ → List (ℕ × Thread) → W → List (ℕ × Thread) × W
  apply_actions actions pid [] w = ([], w)
  apply_actions actions pid (entry ∷ rest) w =
      let (t, w1) =
        if is_gone entry.1.state
        then (entry.1, w)
        else apply_action (get_action actions pid entry.1.id) (entry.1, w) in
      let (rest', w2) = apply_actions actions pid rest w1 in ((entry.0, t) ∷ rest', w2)

  -- The first pass: a live thread that is new cannot be stepped.
  unfoldable pub can_apply : ThreadActionList → ℕ → List (ℕ × Thread) → Bool
  can_apply actions pid [] = true
  can_apply actions pid (entry ∷ rest) =
      let others = can_apply actions pid rest in
      if is_new entry.1.state && is_step_action (get_action actions pid entry.1.id)
      then false
      else others

  -- The loop over the entries that ask for any thread. It picks one, but stores it in a copy of the
  -- entry, so that only the refresh of the thread map stays.
  unfoldable pub resolve_picks : List Entry → System W → Option (System W)
  resolve_picks [] s = some s
  resolve_picks (e ∷ es) s =
      if e.tid == 0
      then (do
        guard (not (e.pid == 0))
        guard (s.process.id == e.pid || e.pid == all_ids)
        (s', _) ← pick_one_thread calls s
        resolve_picks es s')
      else resolve_picks es s

  -- Handle_vCont, of a list of actions that is valid.
  unfoldable pub continue_reply : Ftl → ThreadActionList → Stub W → Answer W
  continue_reply f actions v = do
    guard (is_live v.system.process.state)
    attached ← is_attached v.system.process
    guard attached
    picked ← resolve_picks actions.actions v.system
    s ← ensure_thread_map_fresh calls picked
    let pid = s.process.id
    let (threads, w) = apply_actions actions pid s.process.threads s.world
    let applied = record s { process = record s.process { threads = threads }; world = w }
    if can_apply actions pid s.process.threads
        then reply_ok (after_lookup applied v)
        else reply_with_error f inval (after_lookup s v)

  -- Handle_vCont; `uninit` is for ParseThreadId.
  unfoldable pub handle_v_cont : Ftl → ℕ → Bytes → Stub W → Answer W
  handle_v_cont f uninit packet v = elim (thread_action_list f uninit v.system.process.id packet) [
    | none ↦ none
    | some actions ↦
        if actions.valid then continue_reply f actions v else reply_with_error f inval v
  ]
