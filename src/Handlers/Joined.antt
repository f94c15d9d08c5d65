-- ===== src/Handlers/Joined.antt =====
-- JoinStrings in a buffer of the size that is counted for it.
use gdbserver.Base.{
  ℕ, ◌+◌, ◌-◌, ◌≤◌, ◌≡◌, some, List, [], ◌∷◌, ◌++◌, Bytes, arith, length, append_assoc, append-nil,
}
use gdbserver.Ftl.{join}
use gdbserver.Handlers.Queries.{join_strings, total_length, ids_reply}

join_strings_lem :
    (d : ℕ) (ss : List Bytes) (left : ℕ) (out : Bytes)
    → total_length ss + length ss ≤ left + 1
    → join_strings ss d left out ≡ some (out ++ join d ss)
unfolding join_strings total_length
join_strings_lem d [] left out h = ground (arith, append-nil out)
join_strings_lem d (s ∷ []) left out h = ground arith
join_strings_lem d (s ∷ t ∷ ss) left out h = ground (
  arith,
  join_strings_lem d (t ∷ ss) (left - length s - 1) (out ++ (s ++ d ∷ [])) (omega arith),
  append_assoc out (s ++ d ∷ []) (join d (t ∷ ss)),
  append_assoc s (d ∷ []) (join d (t ∷ ss)),
)

-- The buffer that qfThreadInfo counts is large enough: no check of JoinStrings fails, and the
-- response is `m` and the ids, one at least, with a comma between each two.
ids_reply-join :
    (id : Bytes) (ids : List Bytes) → ids_reply (id ∷ ids) ≡ some (b'm' ∷ join b',' (id ∷ ids))
unfolding ids_reply
ids_reply-join id ids = ground (
  arith,
  join_strings_lem b',' (id ∷ ids) (total_length (id ∷ ids) + length (id ∷ ids) - 1) []
      (omega arith),
)
