-- ===== src/Handlers/ProcessPackets.antt =====
-- The packets D, vAttach, vKill and vRun (cmd-handler.cc).
use gdbserver.Base.{
  ℕ, true, not, none, some, List, [], ◌∷◌, Bytes, ◌==◌, if◌then◌else◌, ◌>>=◌, ◌>>◌, guard, is_empty,
}
use gdbserver.Ftl.{Ftl}
use gdbserver.Process.{ProcessCalls, is_attached, is_live}
use gdbserver.Process.Launch.{initialize, initialize_pid}
use gdbserver.Process.Control.{attach, detach, start, kill}
use gdbserver.Handlers.{
  Stub, Answer, perm, noent, inval, reply_ok, reply_with_error, after_clear, build_argv_for_v_run,
}

module _ {W : Type 0} (calls : ProcessCalls W) (f : Ftl) where
  -- The end of Handle_D.
  unfoldable pub detach_reply : Stub W → Answer W
  detach_reply v = do
    attached ← is_attached v.system.process
    (s, detached) ← detach calls v.system
    if attached
        then (if detached
            then reply_ok (after_clear s)
            else reply_with_error f perm (record v { system = s }))
        else reply_with_error f noent v

  -- Handle_D. An empty packet has no first byte; it is taken as one with no process id.
  unfoldable pub handle_upper_d : Bytes → Stub W → Answer W
  handle_upper_d [] v = detach_reply v
  handle_upper_d (c ∷ rest) v =
      if c == b';'
      then (elim (f.string_to_u64 rest) [
        | none ↦ reply_with_error f inval v
        | some pid ↦
            if pid == v.system.process.id then detach_reply v else reply_with_error f inval v
      ])
      else reply_with_error f inval v

  -- The end of Handle_vAttach, with its two checks.
  unfoldable pub attach_reply : ℕ → Stub W → Answer W
  attach_reply pid v = do
    p ← initialize_pid pid v.system.process
    let ready = record v.system { process = p }
    before ← is_attached p
    guard (not before)
    (s, attached) ← attach calls ready
    if attached
        then (do
          now ← is_attached s.process
          guard now
          guard (is_live s.process.state)
          reply_ok (record v { system = s }))
        else reply_with_error f perm (record v { system = s })

  -- Handle_vAttach
  unfoldable pub handle_v_attach : Bytes → Stub W → Answer W
  handle_v_attach packet v = elim (f.string_to_u64 packet) [
    | none ↦ reply_with_error f inval v
    | some pid ↦
        if is_live v.system.process.state then reply_with_error f perm v else attach_reply pid v
  ]

  -- Handle_vKill
  unfoldable pub handle_v_kill : Bytes → Stub W → Answer W
  handle_v_kill packet v = elim (f.string_to_u64 packet) [
    | none ↦ reply_with_error f inval v
    | some pid ↦
        if not (pid == v.system.process.id)
        then reply_with_error f inval v
        else if not (is_live v.system.process.state)
        then reply_with_error f perm v
        else (do
          (s, killed) ← kill calls v.system
          if killed
              then reply_ok (after_clear s)
              else reply_with_error f perm (record v { system = s }))
  ]

  -- The end of Handle_vRun. The response of a run that succeeds is sent when its first thread starts.
  unfoldable pub run_reply : Stub W → Answer W
  run_reply v = do
    (ready, initialized) ← initialize calls v.system
    if initialized
        then (do
          before ← is_attached ready.process
          guard (not before)
          (s, attached) ← attach calls ready
          if attached
              then (do
                now ← is_attached s.process
                guard now
                (s', started) ← start calls s
                if started
                    then (do
                      guard (is_live s'.process.state)
                      some (record v { system = s' }, [], true))
                    else reply_with_error f perm (record v { system = s' }))
              else reply_with_error f perm (record v { system = s }))
        else reply_with_error f perm (record v { system = ready })

  -- Handle_vRun
  unfoldable pub handle_v_run : Bytes → Stub W → Answer W
  handle_v_run packet v =
      let argv : List Bytes =
        if is_empty packet then v.system.process.argv else build_argv_for_v_run packet in
      let v' = record v {
        system = record v.system { process = record v.system.process { argv = argv } };
      } in
      if is_live v.system.process.state then reply_with_error f perm v' else run_reply v'
