-- ===== src/ThreadActions.antt =====
-- bin/debugserver/thread-action-list.{h,cc}: the action list of a vCont packet.
pub mod Select
pub mod Items
pub mod Parse
use gdbserver.Base.{
  ℕ, zero, suc, ◌+◌, ◌-◌, ◌^◌, Bool, true, false, Option, none, some, List, [], ◌∷◌, ◌++◌, Bytes,
  ◌==◌, ltb, leb, if◌then◌else◌, find, take, drop, substr, length, ◌&&◌, ◌||◌, not, ℤ, pos, negsuc,
  is_minus_one, le_minus_two, to_u64, of_u64, is_zero, is_empty,
}
use gdbserver.Ftl.{Ftl}
use gdbserver.ThreadId.{ThreadId, parse_thread_id}

-- ThreadActionList::Action
pub data Action : Type 0 where
  none_action continue_action step_action : Action

abbrev pub is_none_action : Action → Bool
is_none_action none_action = true
is_none_action continue_action = false
is_none_action step_action = false

-- ThreadActionList::Entry
pub record Entry : Type 0 where
  pub action : Action
  pub pid : ℕ
  pub tid : ℕ

-- kAll
abbrev pub all_ids : ℕ
all_ids = 2 ^ 64 - 1

-- Entry::set_picked_tid, for a thread id that is not zero and an entry that has none.
abbrev pub set_picked_tid : ℕ → Entry → Entry
set_picked_tid tid e = record e { tid = tid }

-- Entry::Contains, for the ids of one process and one thread, as its FTL_DCHECKs ask for: neither zero nor kAll.
unfoldable pub contains : Entry → ℕ → ℕ → Bool
contains e pid tid =
    if not (pid == e.pid) && not (e.pid == all_ids)
    then false
    else if not (tid == e.tid) && not (e.tid == all_ids)
    then false
    else true

-- DecodeAction
unfoldable pub decode_action : ℕ → Option Action
decode_action c =
    if c == b'c' then some continue_action else if c == b's' then some step_action else none

-- ThreadActionList. An early return of the constructor leaves the entries so far in `actions`.
pub record ThreadActionList : Type 0 where
  pub valid : Bool
  pub default_action : Action
  pub actions : List Entry

-- The object as an early return leaves it.
abbrev pub invalid : List Entry → ThreadActionList
invalid actions = record { valid = false; default_action = none_action; actions = actions }

module _ (f : Ftl) (uninit cur_proc : ℕ) where
  -- The entry of an action with a thread id, or `some none` where the id is refused. `none`, here and below, is that
  -- the FTL_DCHECK of the constructor of Entry fails: the process id is zero, as that of a process that is not there.
  unfoldable pub entry_of : Action → Bytes → Option (Option Entry)
  entry_of action text = elim (parse_thread_id f uninit text) [
    | none ↦ some none
    | some id ↦
        let given : ℤ = elim id.pid [ none ↦ pos 0 | some p ↦ p ] in
        if (id.has_pid && le_minus_two given) || le_minus_two id.tid
        then some none
        else (let pid = if not id.has_pid || is_zero given then of_u64 cur_proc else given in
            if is_minus_one pid && not (is_minus_one id.tid)
            then some none
            else (let entry_pid = if is_minus_one pid then all_ids else to_u64 pid in
                if entry_pid == 0
                then none
                else some (
                    some (record {
                      action = action;
                      pid = entry_pid;
                      tid = if is_minus_one id.tid then all_ids else to_u64 id.tid;
                    }))))
  ]

  -- The text of one action, up to a semicolon or the end: a default action, or one with a thread
  -- id. `some none` is an early return of the constructor.
  unfoldable pub one_action : Bytes → Action → List Entry → Option (Option (Action × List Entry))
  one_action [] default_action actions = some none
  one_action (c ∷ []) default_action actions = elim (decode_action c) [
    | none ↦ some none
    | some action ↦
        if is_none_action default_action then some (some (action, actions)) else some none
  ]
  one_action (c ∷ d ∷ rest) default_action actions = elim (decode_action c) [
    | none ↦ some none
    | some action ↦
        if d == b':'
        then (elim (entry_of action rest) [
          | none ↦ none
          | some none ↦ some none
          | some (some e) ↦ some (some (default_action, actions ++ e ∷ []))
        ])
        else some none
  ]

  -- The loop of the constructor over `str` from `s` on. Each round takes a byte at least, so the
  -- length of the text is enough fuel.
  unfoldable pub parse_loop : ℕ → Bytes → Action → List Entry → Option ThreadActionList
  parse_loop fuel [] default_action actions =
      some (record { valid = true; default_action = default_action; actions = actions })
  parse_loop zero (c ∷ rest) default_action actions = some (invalid actions)
  parse_loop (suc fuel) (c ∷ rest) default_action actions =
      let semi : Option ℕ = find b';' (c ∷ rest) in
      let text : Bytes = elim semi [ none ↦ c ∷ rest | some n ↦ take n (c ∷ rest) ] in
      let left : Bytes = elim semi [ none ↦ [] | some n ↦ drop (n + 1) (c ∷ rest) ] in
      elim (one_action text default_action actions) [
        | none ↦ none
        | some none ↦ some (invalid actions)
        | some (some (default', actions')) ↦ parse_loop fuel left default' actions'
      ]

  -- ThreadActionList::ThreadActionList
  unfoldable pub thread_action_list : Bytes → Option ThreadActionList
  thread_action_list str =
      if is_empty str then some (invalid []) else parse_loop (length str) str none_action []

-- The loop of GetAction.
unfoldable pub first_action : List Entry → Action → ℕ → ℕ → Action
first_action [] default_action pid tid = default_action
first_action (e ∷ es) default_action pid tid =
    if contains e pid tid then e.action else first_action es default_action pid tid

-- GetAction
unfoldable pub get_action : ThreadActionList → ℕ → ℕ → Action
get_action l pid tid = first_action l.actions l.default_action pid tid
