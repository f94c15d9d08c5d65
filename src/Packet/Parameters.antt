-- ===== src/Packet/Parameters.antt =====
-- ExtractParameters and the colons of a packet.
use gdbserver.Base.{
  drop_all, length-append, ◌-◌, take_all, drop_after, take-append, ◌==◌, Bool-cases, ap, ◌+◌, ◌≡◌,
  ◌⊎◌, inl, inr, [], ◌∷◌, ◌++◌, Bytes, length, arith, refl, Lacks,
}
use gdbserver.Packet.{colon_index, extract_parameters}

-- What ExtractParameters is to return for a packet.
abbrev pub IsSplit : Bytes → Bytes × Bytes → Type 0
IsSplit packet r =
    ((packet ≡ r.0 ++ b':' ∷ r.1) × Lacks b':' r.0)
    ⊎ ((packet ≡ r.0) × (r.1 ≡ []) × Lacks b':' packet)

colon_cases :
    (s : Bytes)
    → ((pre : Bytes) × (post : Bytes) × (s ≡ pre ++ b':' ∷ post)
        × Lacks b':' pre
        × (colon_index s ≡ length pre))
      ⊎ (Lacks b':' s × (colon_index s ≡ length s))
unfolding colon_index
colon_cases [] = inr (tt, refl)
colon_cases (c ∷ s) = elim (Bool-cases (c == b':')) [
  | inl e ↦ inl ([], s, ground arith, tt, ground arith)
  | inr e ↦ elim (colon_cases s) [
    | inl (pre, post, eq, h, n) ↦ inl (c ∷ pre, post, ground arith, (ground arith, h), ground arith)
    | inr (h, n) ↦ inr ((ground arith, h), ground arith)
  ]
]

-- The packet is the prefix, a colon and the parameters, with no colon in the prefix; or it has no
-- colon, and is the prefix.
extract_parameters-IsSplit : (packet : Bytes) → IsSplit packet (extract_parameters packet)
unfolding extract_parameters
extract_parameters-IsSplit packet = elim (colon_cases packet) [
  | inl (pre, post, eq, h, n) ↦ ground (
    arith,
    take-append (colon_index packet) pre (b':' ∷ post) n,
    drop_after (colon_index packet) pre post b':' n,
    take_all (length packet - colon_index packet - 1) post
        (omega (arith, ap length eq, length-append pre (b':' ∷ post))),
    length-append pre (b':' ∷ post),
  )
  | inr (h, n) ↦ ground (
    arith,
    take_all (colon_index packet) packet n,
    drop_all (colon_index packet + 1) packet (omega arith),
  )
]
