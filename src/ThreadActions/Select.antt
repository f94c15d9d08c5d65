-- ===== src/ThreadActions/Select.antt =====
-- GetAction: the first entry that names the thread decides.
use gdbserver.Base.{
  append-nil, refl, ℕ, true, false, List, [], ◌∷◌, ◌++◌, ◌≡◌, ◌⊎◌, ◌↔◌, All, arith,
}
use gdbserver.ThreadActions.{
  Action, Entry, ThreadActionList, all_ids, contains, first_action, get_action,
}

-- An entry names a thread by its ids, or by "all processes" and "all threads".
pub contains_iff :
    (e : Entry) (pid tid : ℕ)
    → (contains e pid tid ≡ true)
      ↔ (((pid ≡ e.pid) ⊎ (e.pid ≡ all_ids)) × ((tid ≡ e.tid) ⊎ (e.tid ≡ all_ids)))
unfolding contains
contains_iff e pid tid = (λ h. ground arith, λ h. ground arith)

abbrev pub Misses : ℕ → ℕ → List Entry → Type 0
Misses pid tid = All (λ e. contains e pid tid ≡ false)

first_action-Misses :
    (pre post : List Entry) (d : Action) (pid tid : ℕ)
    → Misses pid tid pre
    → first_action (pre ++ post) d pid tid ≡ first_action post d pid tid
unfolding first_action
first_action-Misses [] post d pid tid h = refl
first_action-Misses (e ∷ pre) post d pid tid (he, h) =
    ground (arith, first_action-Misses pre post d pid tid h)

-- A thread gets the action of the first entry that names it, and the default action if none does.
get_action_lem :
    (l : ThreadActionList) (pid tid : ℕ)
    → (Misses pid tid l.actions → get_action l pid tid ≡ l.default_action)
      × ((pre post : List Entry) (e : Entry)
          → l.actions ≡ pre ++ e ∷ post
          → Misses pid tid pre
          → ((pid ≡ e.pid) ⊎ (e.pid ≡ all_ids))
          → ((tid ≡ e.tid) ⊎ (e.tid ≡ all_ids))
          → get_action l pid tid ≡ e.action)
unfolding get_action first_action
get_action_lem l pid tid = (
  λ h.
      ground
        (arith, first_action-Misses l.actions [] l.default_action pid tid h, append-nil l.actions),
  λ pre post e eq h hp ht. ground (
    arith,
    first_action-Misses pre (e ∷ post) l.default_action pid tid h,
    (contains_iff e pid tid).1 (hp, ht),
  ),
)
