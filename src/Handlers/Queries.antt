-- ===== src/Handlers/Queries.antt =====
-- The query packets (cmd-handler.cc) but qXfer and qRcmd, and JoinStrings (util.cc).
use gdbserver.Base.{
  ℕ, ◌+◌, ◌-◌, Bool, true, false, not, Option, none, some, List, [], ◌∷◌, ◌++◌, Bytes, ◌==◌, leb,
  ltb, if◌then◌else◌, ◌>>=◌, codes, length, is_empty,
}
use gdbserver.Ftl.{Ftl}
use gdbserver.Thread.{Thread}
use gdbserver.Process.{ProcessCalls, is_live}
use gdbserver.Process.ThreadMap.{pick_one_thread, ensure_thread_map_fresh, for_each_live_thread}
use gdbserver.Handlers.{
  Stub, Answer, perm, inval, reply_ok, reply_with_error, respond_with, get_current_thread,
  after_lookup,
}

-- JoinStrings into a buffer that holds `out` and has `left` bytes left; `none` is a failed check.
unfoldable pub join_strings : List Bytes → ℕ → ℕ → Bytes → Option Bytes
join_strings [] delimiter left out = some out
join_strings (str ∷ []) delimiter left out =
    if leb (length str) left then some (out ++ str) else none
join_strings (str ∷ next ∷ rest) delimiter left out =
    if ltb (length str) left
    then join_strings (next ∷ rest) delimiter (left - length str - 1)
        (out ++ (str ++ delimiter ∷ []))
    else none

-- The sum of the lengths of the ids.
unfoldable pub total_length : List Bytes → ℕ
total_length [] = 0
total_length (s ∷ ss) = length s + total_length ss

-- HandleQueryThreadInfo for the first query, of thread ids that are not none: `m`, and the ids in a
-- buffer of the size that was counted.
unfoldable pub ids_reply : List Bytes → Option Bytes
ids_reply ids = do
  let buf_size = total_length ids + length ids
  text ← join_strings ids b',' (buf_size - 1) []
  some (b'm' ∷ text)

-- HandleQueryAttached
unfoldable pub query_attached : {W : Type 0} → Ftl → Bytes → Stub W → Answer W
query_attached f params v =
    if is_empty params then respond_with (codes "0") v else reply_with_error f inval v

-- HandleSetNonStop
unfoldable pub set_non_stop : {W : Type 0} → Ftl → Bytes → Stub W → Answer W
set_non_stop f (value ∷ []) v =
    if value == b'1'
    then reply_ok v
    else if value == b'0'
    then reply_with_error f perm v
    else reply_with_error f inval v
set_non_stop f _ v = reply_with_error f inval v

module _ {W : Type 0} (calls : ProcessCalls W) (f : Ftl) where
  -- The end of HandleQueryCurrentThreadId
  unfoldable pub thread_id_reply : Thread → Stub W → Answer W
  thread_id_reply t v = respond_with (codes "QC" ++ f.number_to_hex t.id) v

  -- HandleQueryCurrentThreadId
  unfoldable pub query_current_thread_id : Bytes → Stub W → Answer W
  query_current_thread_id params v =
      if not (is_empty params) then reply_with_error f inval v else elim (get_current_thread v) [
        | some t ↦ thread_id_reply t v
        | none ↦
            if is_live v.system.process.state
            then (do
              (s, picked) ← pick_one_thread calls v.system
              elim picked [
                | none ↦ reply_with_error f perm (after_lookup s v)
                | some t ↦ thread_id_reply t (after_lookup s v)
              ])
            else reply_with_error f perm v
      ]

  -- The ids of threads as text.
  unfoldable pub thread_ids : List Thread → List Bytes
  thread_ids [] = []
  thread_ids (t ∷ ts) = f.number_to_hex t.id ∷ thread_ids ts

  -- HandleQueryThreadInfo, with in_thread_info_sequence_ beside the state and the result.
  unfoldable pub query_thread_info :
      Bool → Stub W × Bool → Option ((Stub W × Bool) × List Bytes × Bool)
  query_thread_info is_first (v, in_sequence) =
      if not is_first
      then (if in_sequence then some ((v, false), codes "l" ∷ [], true) else (do
        (v', responses, handled) ← reply_with_error f perm v
        some ((v', in_sequence), responses, handled)))
      else if in_sequence
      then (do
        (v', responses, handled) ← reply_with_error f perm v
        some ((v', in_sequence), responses, handled))
      else (do
        fresh ← ensure_thread_map_fresh calls v.system
        (s, live) ← for_each_live_thread calls fresh
        let v' = after_lookup s v
        let ids = thread_ids live
        if is_empty ids
            then some ((v', false), codes "l" ∷ [], true)
            else (do text ← ids_reply ids; some ((v', true), text ∷ [], true)))
