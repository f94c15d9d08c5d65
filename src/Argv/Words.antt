-- ===== src/Argv/Words.antt =====
-- Command lines, printed and read.
use gdbserver.Base.{
  ℕ, zero, suc, ◌≤◌, ◌≡◌, ◌≢◌, false, List, [], ◌∷◌, ◌++◌, Bytes, refl, arith, length, All,
  length-append, append-nil,
}
use gdbserver.Argv.{
  is_space, skip_spaces, word, after_word, argv_rounds, build_argv, append_args, argv_to_string,
}

abbrev pub IsPlain : ℕ → Type 0
IsPlain c = is_space c ≡ false

-- An argument that BuildArgv can give: one byte at least, none of them a space.
abbrev pub IsArg : Bytes → Type 0
IsArg a = (a ≢ []) × All IsPlain a

word-append : (a rest : Bytes) → All IsPlain a → word (a ++ b' ' ∷ rest) ≡ a
unfolding word
word-append [] rest h = refl
word-append (c ∷ a) rest (p, h) = ground (arith, word-append a rest h)

word_prefix : (a : Bytes) → All IsPlain a → word a ≡ a
unfolding word
word_prefix [] h = refl
word_prefix (c ∷ a) (p, h) = ground (arith, word_prefix a h)

after_word-append : (a rest : Bytes) → All IsPlain a → after_word (a ++ b' ' ∷ rest) ≡ b' ' ∷ rest
unfolding after_word
after_word-append [] rest h = refl
after_word-append (c ∷ a) rest (p, h) = ground (arith, after_word-append a rest h)

after_word_end : (a : Bytes) → All IsPlain a → after_word a ≡ []
unfolding after_word
after_word_end [] h = refl
after_word_end (c ∷ a) (p, h) = ground (arith, after_word_end a h)

rounds_none : (fuel : ℕ) → argv_rounds fuel [] ≡ []
unfolding argv_rounds skip_spaces
rounds_none zero = refl
rounds_none (suc fuel) = refl

rounds-print :
    (a : Bytes) (more : List Bytes) (fuel : ℕ)
    → IsArg a
    → All IsArg more
    → length (a ++ append_args more) ≤ fuel
    → argv_rounds fuel (a ++ append_args more) ≡ a ∷ more
unfolding argv_rounds append_args skip_spaces
rounds-print [] more fuel (ne, p) h n = absurd (ne refl)
rounds-print (c ∷ a) more zero p h n = absurd (omega arith)
rounds-print (c ∷ a) [] (suc fuel) (ne, (pc, p)) h n =
    ground (arith, append-nil a, word_prefix a p, after_word_end a p, rounds_none fuel)
rounds-print (c ∷ a) (b ∷ more) (suc fuel) (ne, (pc, p)) (hb, h) n = ground (
  arith,
  word-append a (b ++ append_args more) p,
  after_word-append a (b ++ append_args more) p,
  rounds-print b more fuel hb h (omega (arith, length-append a (b' ' ∷ (b ++ append_args more)))),
)

-- Arguments without spaces, none of them empty, are read back from the text that ArgvToString
-- makes of them.
build_argv-argv_to_string :
    (argv : List Bytes) → All IsArg argv → build_argv (argv_to_string argv) ≡ argv
unfolding build_argv argv_to_string argv_rounds
build_argv-argv_to_string [] h = refl
build_argv-argv_to_string (a ∷ more) (ha, h) =
    rounds-print a more (length (a ++ append_args more)) ha h (omega arith)
