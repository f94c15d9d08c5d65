-- ===== src/Process/Leftover.antt =====
-- What a run that fails half-way leaves behind.
use gdbserver.Base.{◌<◌, ◌^◌, true, false, none, some, ◌==◌, ◌≡◌, inl, inr, arith, Bool-cases}
use gdbserver.Process.{ProcessCalls, System, new, clear_process}
use gdbserver.Process.Launch.{revive, initialize}
use gdbserver.Process.Control.{
  attach, alloc_debug_handle, bind_or_close, mark_running, close_debug_handle, kill,
  destroy_process,
}
use gdbserver.Process.Invariant.{Attached, Detached, is_attached-Attached, is_attached-Detached}
use gdbserver.Process.Attaching.{bind_lem}

module _ {W : Type 0} (calls : ProcessCalls W) where
  -- A failed Attach leaves launchpad as it is.
  attach_failed :
      (s t : System W)
      → Detached s
      → s.port.key_counter < 2 ^ 64
      → s.process.attached_running ≡ false
      → attach calls s ≡ some (t, false)
      → t.process.launchpad ≡ s.process.launchpad
  unfolding attach alloc_debug_handle bind_or_close mark_running close_debug_handle
  attach_failed s t d n a h =
      let (h0, k, c, live) = d in
      let (w, handle) = calls.object_get_child 0 s.process.id s.world in
      elim (Bool-cases (handle == 0)) [
        | inl z ↦ ground (arith, is_attached-Detached s d)
        | inr z ↦
            let opened : System W = record {
              process = record s.process { handle = handle };
              port = s.port;
              world = w;
            } in
            let (u, b, bound, p, _, cases) = bind_lem calls opened (ground arith) c k n in
            elim cases [
              | inl (ok, _, _, _) ↦ absurd (ground (arith, is_attached-Detached s d, bound, p))
              | inr (failed, _, _) ↦ ground (arith, is_attached-Detached s d, bound, p)
            ]
      ]

  -- If Attach of a detached process fails after Initialize has set up launchpad for a program to
  -- start, the next Initialize stops the program at its first check: launchpad is still there.
  initialize-attach_failed :
      (s t : System W)
      → Detached s
      → s.port.key_counter < 2 ^ 64
      → s.process.attached_running ≡ false
      → s.process.launchpad ≡ true
      → attach calls s ≡ some (t, false)
      → initialize calls t ≡ none
  unfolding initialize revive
  initialize-attach_failed s t d n a l h = ground (arith, attach_failed s t d n a h)

  -- A process that is attached, to a program of its own, but was not started stops the program
  -- when it is destroyed: Kill does nothing for a process that is new, and Clear finds it
  -- attached.
  destroy_process-new :
      (s : System W)
      → Attached s
      → s.process.state ≡ new
      → s.process.attached_running ≡ false
      → destroy_process calls s ≡ none
  unfolding destroy_process kill clear_process
  destroy_process-new s a n r = ground (arith, is_attached-Attached s a)
