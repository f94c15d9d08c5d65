-- ===== src/Process/Found.antt =====
-- FindThreadById against the thread map.
use gdbserver.Base.{
  ℕ, false, some, List, [], ◌∷◌, ◌==◌, ◌≡◌, ◌≢◌, inl, inr, arith, Option-cases, Bool-cases,
}
use gdbserver.Thread.{Thread, new_thread, is_gone}
use gdbserver.Process.{ProcessCalls, System}
use gdbserver.Process.ThreadMap.{
  find_thread, put_thread, assign_thread, open_thread, find_thread_by_id, ensure_thread_map_fresh,
}

pub find-put_thread_self :
    (id : ℕ) (t : Thread) (ts : List (ℕ × Thread)) → find_thread id (put_thread id t ts) ≡ some t
unfolding find_thread put_thread
find-put_thread_self id t [] = ground arith
find-put_thread_self id t ((i, u) ∷ rest) = ground (arith, find-put_thread_self id t rest)

pub find-put_thread_other :
    (id other : ℕ) (t : Thread) (ts : List (ℕ × Thread))
    → other ≢ id
    → find_thread other (put_thread id t ts) ≡ find_thread other ts
unfolding find_thread put_thread
find-put_thread_other id other t [] n = ground arith
find-put_thread_other id other t ((i, u) ∷ rest) n =
    ground (arith, find-put_thread_other id other t rest n)

module _ {W : Type 0} (calls : ProcessCalls W) where
  assign_thread_map :
      (id : ℕ) (t : Thread) (ts : List (ℕ × Thread)) (w : W)
      → (assign_thread calls id t (ts, w)).0 ≡ put_thread id t ts
  unfolding assign_thread
  assign_thread_map id t ts w = elim (Option-cases (find_thread id ts)) [
    | inl e ↦ ground arith
    | inr (old, e) ↦ ground arith
  ]

  open_thread-found :
      (id : ℕ) (s t : System W) (u : Thread)
      → open_thread calls id s ≡ (t, some u)
      → (find_thread id t.process.threads ≡ some u) × (is_gone u.state ≡ false) × (u.id ≡ id)
  unfolding open_thread
  open_thread-found id s t u h =
      let (w, thread_handle) = calls.object_get_child s.process.handle id s.world in
      let opened = new_thread thread_handle id in
      let map = assign_thread_map id opened s.process.threads w in
      let found = find-put_thread_self id opened s.process.threads in
      elim (Bool-cases (thread_handle == 0)) [
        | inl z ↦ absurd (ground arith)
        | inr z ↦ (ground (arith, map, found), ground arith, ground arith)
      ]

  -- What FindThreadById returns is the entry of that id in the map that it leaves, a thread that is
  -- not gone; the id 0 finds nothing.
  find_thread_by_id-found :
      (id : ℕ) (s t : System W) (u : Thread)
      → find_thread_by_id calls id s ≡ some (t, some u)
      → (find_thread id t.process.threads ≡ some u) × (is_gone u.state ≡ false) × (id ≢ 0)
  unfolding find_thread_by_id
  find_thread_by_id-found id s t u h = elim (Bool-cases (id == 0)) [
    | inl z ↦ absurd (ground arith)
    | inr z ↦ elim (Option-cases (ensure_thread_map_fresh calls s)) [
      | inl e ↦ absurd (ground arith)
      | inr (fresh, e) ↦ elim (Option-cases (find_thread id fresh.process.threads)) [
        | inr (v, f) ↦ elim (Bool-cases (is_gone v.state)) [
          | inl g ↦ absurd (ground arith)
          | inr g ↦ (ground arith, ground arith, ground arith)
        ]
        | inl f ↦
            let opened : open_thread calls id fresh ≡ (t, some u) = ground arith in
            let (found, live, _) = open_thread-found id fresh t u opened in
            (found, live, ground arith)
      ]
    ]
  ]
