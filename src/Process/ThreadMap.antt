-- ===== src/Process/ThreadMap.antt =====
-- Process: the threads that are known, and the exceptions that are reported to them.
use gdbserver.Base.{
  ℕ, Bool, true, false, not, Option, none, some, List, [], ◌∷◌, ◌==◌, if◌then◌else◌, ◌>>=◌, ◌>>◌,
  guard,
}
use gdbserver.Thread.{Thread, new_thread, is_gone}
use gdbserver.Process.{ProcessCalls, System, destroy_threads, destroy_thread}

unfoldable pub find_thread : ℕ → List (ℕ × Thread) → Option Thread
find_thread id [] = none
find_thread id ((i, t) ∷ rest) = if i == id then some t else find_thread id rest

-- The entry of a key in the map, replaced or added.
unfoldable pub put_thread : ℕ → Thread → List (ℕ × Thread) → List (ℕ × Thread)
put_thread id t [] = (id, t) ∷ []
put_thread id t ((i, u) ∷ rest) = if i == id then (i, t) ∷ rest else (i, u) ∷ put_thread id t rest

module _ {W : Type 0} (calls : ProcessCalls W) where
  -- An assignment to the map destroys what stood under the key.
  unfoldable pub assign_thread : ℕ → Thread → List (ℕ × Thread) × W → List (ℕ × Thread) × W
  assign_thread id t (ts, w) = elim (find_thread id ts) [
    | none ↦ (put_thread id t ts, w)
    | some old ↦ (put_thread id t ts, destroy_thread calls old w)
  ]

  -- The loop of RefreshAllThreads: a thread without a handle is left out.
  unfoldable pub open_threads : ℕ → List ℕ → List (ℕ × Thread) × W → List (ℕ × Thread) × W
  open_threads handle [] (ts, w) = (ts, w)
  open_threads handle (id ∷ ids) (ts, w) =
      let (w', thread_handle) = calls.object_get_child handle id w in
      open_threads handle ids (
        if thread_handle == 0
        then (ts, w')
        else assign_thread id (new_thread thread_handle id) (ts, w'))

  -- RefreshAllThreads. The two calls that ask for the number of threads and for their ids are one.
  unfoldable pub refresh_all_threads : System W → Option (System W × Bool)
  refresh_all_threads s = do
    guard (not (s.process.handle == 0))
    elim (calls.process_threads s.process.handle s.world) [
      | none ↦ some (s, false)
      | some ids ↦
          let (ts, w) = open_threads s.process.handle ids ([], s.world) in
          some (
            record s {
              process = record s.process { threads = ts; thread_map_stale = false };
              world = destroy_threads calls s.process.threads w;
            },
            true,
          )
    ]

  -- EnsureThreadMapFresh
  unfoldable pub ensure_thread_map_fresh : System W → Option (System W)
  ensure_thread_map_fresh s =
      if s.process.thread_map_stale then (do (s', _) ← refresh_all_threads s; some s') else some s

  -- FindThreadById, of an id that the map does not have.
  unfoldable pub open_thread : ℕ → System W → System W × Option Thread
  open_thread id s =
      let (w, thread_handle) = calls.object_get_child s.process.handle id s.world in
      let t = new_thread thread_handle id in
      let (ts, w') = assign_thread id t (s.process.threads, w) in
      if thread_handle == 0
      then (record s { world = w }, none)
      else (record s { process = record s.process { threads = ts }; world = w' }, some t)

  -- FindThreadById
  unfoldable pub find_thread_by_id : ℕ → System W → Option (System W × Option Thread)
  find_thread_by_id id s = do
    guard (not (s.process.handle == 0))
    if id == 0 then some (s, none) else (do
      fresh ← ensure_thread_map_fresh s
      elim (find_thread id fresh.process.threads) [
        | some t ↦ some (fresh, if is_gone t.state then none else some t)
        | none ↦ some (open_thread id fresh)
      ])

  -- PickOneThread
  unfoldable pub pick_one_thread : System W → Option (System W × Option Thread)
  pick_one_thread s = do
    fresh ← ensure_thread_map_fresh s
    elim fresh.process.threads [ [] ↦ some (fresh, none) | entry ∷ _ ↦ some (fresh, some entry.1) ]

  -- ForEachThread and ForEachLiveThread: the threads that the callback is given, in order.
  unfoldable pub live_threads : List (ℕ × Thread) → List Thread
  live_threads [] = []
  live_threads (entry ∷ rest) =
      let others = live_threads rest in if is_gone entry.1.state then others else entry.1 ∷ others

  unfoldable pub for_each_live_thread : System W → Option (System W × List Thread)
  for_each_live_thread s = do
    fresh ← ensure_thread_map_fresh s
    some (fresh, live_threads fresh.process.threads)
