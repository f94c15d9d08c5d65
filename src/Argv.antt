-- ===== src/Argv.antt =====
-- lib/debugger-utils/util.cc: EscapeNonPrintableString, BuildArgv, ArgvToString and basename.
pub mod Words
use gdbserver.Base.{
  ℕ, zero, suc, ◌+◌, ◌-◌, Bool, true, false, not, ◌&&◌, ◌||◌, Option, none, some, List, [], ◌∷◌,
  ◌++◌, Bytes, ◌==◌, leb, ltb, if◌then◌else◌, length, is_empty, codes, drop, get_elem?,
}
use gdbserver.Hex.{encode_byte_string}

-- isspace and isprint, in the C locale.
abbrev pub is_space : ℕ → Bool
is_space c = c == b' ' || (leb 9 c && leb c 13)

abbrev pub is_print : ℕ → Bool
is_print c = leb 32 c && leb c 126

-- EscapeNonPrintableString
unfoldable pub escape_non_printable_string : Bytes → Bytes
escape_non_printable_string [] = []
escape_non_printable_string (c ∷ s) =
    let rest = escape_non_printable_string s in
    if is_print c then c ∷ rest else b'\\' ∷ b'x' ∷ (encode_byte_string c ++ rest)

-- The inner loops of BuildArgv: over spaces, and over the rest of a word.
unfoldable pub skip_spaces : Bytes → Bytes
skip_spaces [] = []
skip_spaces (c ∷ s) = let rest = skip_spaces s in if is_space c then rest else c ∷ s

unfoldable pub word : Bytes → Bytes
word [] = []
word (c ∷ s) = let rest = word s in if is_space c then [] else c ∷ rest

unfoldable pub after_word : Bytes → Bytes
after_word [] = []
after_word (c ∷ s) = let rest = after_word s in if is_space c then c ∷ s else rest

-- The outer loop of BuildArgv, on the text from `i` on: its increment steps over the space behind a
-- word. Each round takes a byte at least.
unfoldable pub argv_rounds : ℕ → Bytes → List Bytes
argv_rounds zero args = []
argv_rounds (suc fuel) args = elim (skip_spaces args) [
  | [] ↦ []
  | c ∷ s ↦ (c ∷ word s) ∷ argv_rounds fuel (drop 1 (after_word s))
]

-- BuildArgv
unfoldable pub build_argv : Bytes → List Bytes
build_argv args = argv_rounds (length args) args

-- ArgvToString
unfoldable pub append_args : List Bytes → Bytes
append_args [] = []
append_args (a ∷ more) = b' ' ∷ (a ++ append_args more)

unfoldable pub argv_to_string : List Bytes → Bytes
argv_to_string [] = []
argv_to_string (a ∷ more) = a ++ append_args more

-- The loop of basename: what stands behind the last slash that has something behind it.
unfoldable pub last_part : Bytes → Bytes → Bytes
last_part [] part = part
last_part (c ∷ rest) part = last_part rest (if c == b'/' && not (is_empty rest) then rest else part)

-- basename. A text that ends in a slash, and is not one slash alone, is returned as it is.
unfoldable pub basename : Bytes → Bytes
basename [] = codes "."
basename (c ∷ s) = elim (get_elem? s (length s - 1)) [
  | none ↦ c ∷ s
  | some last ↦ if last == b'/' then c ∷ s else last_part (c ∷ s) (c ∷ s)
]
