-- ===== src/BuildIds.antt =====
-- lib/debugger-utils/build-ids.{h,cc}: the table of build ids.
pub mod Capacity
use gdbserver.Base.{
  ◌&&◌, ℕ, zero, suc, ◌+◌, ◌-◌, Bool, true, false, not, ◌||◌, Option, none, some, List, [], ◌∷◌,
  ◌++◌, Bytes, ◌==◌, bytes_eq, ltb, if◌then◌else◌, length, is_empty, codes, take, get_elem?,
}
use gdbserver.ByteBlock.{c_string}
use gdbserver.Scanf.{scan_word}

-- BuildId
pub record BuildId : Type 0 where
  pub build_id : Bytes
  pub file : Bytes

-- `line[n - 1] = '\0'`, where the line ends in a newline.
unfoldable pub strip_newline : Bytes → Bytes
strip_newline [] = []
strip_newline (c ∷ s) = let rest = c ∷ strip_newline s in if c == 10 && is_empty s then [] else rest

-- BuildIdTable::AddBuildId; `abs_file_dir` is what lib/ftl makes of the directory of the file. The path
-- of an entry is not empty.
unfoldable pub add_build_id : Bytes → Bytes → Bytes → List BuildId → List BuildId
add_build_id abs_file_dir build_id [] table =
    table ++ record { build_id = build_id; file = abs_file_dir ++ codes "/" } ∷ []
add_build_id abs_file_dir build_id (c ∷ path) table =
    table
    ++ record {
      build_id = build_id;
      file = if c == b'/' then c ∷ path else abs_file_dir ++ (codes "/" ++ c ∷ path);
    }
      ∷ []

-- BuildIdTable::LookupBuildId
unfoldable pub lookup_build_id : List BuildId → Bytes → Option BuildId
lookup_build_id [] bid = none
lookup_build_id (b ∷ table) bid =
    let later = lookup_build_id table bid in if bytes_eq bid b.build_id then some b else later

-- sscanf with "%s %s".
unfoldable pub scan_entry : Bytes → Option (Bytes × Bytes)
scan_entry line = elim (scan_word line) [
  | none ↦ none
  | some (build_id, rest) ↦ elim (scan_word rest) [
    | none ↦ none
    | some (path, _) ↦ some (build_id, path)
  ]
]

-- What a line without its newline adds.
unfoldable pub read_text : Bytes → Bytes → List BuildId → List BuildId
read_text abs_file_dir text table =
    if bytes_eq text (10 ∷ []) || bytes_eq (take 1 text) (codes "#")
    then table
    else elim (scan_entry text) [
      | none ↦ table
      | some (build_id, path) ↦ add_build_id abs_file_dir build_id path table
    ]

-- MAX_LINE_LEN
abbrev pub max_line_len : ℕ
max_line_len = 1024

-- The loop of ReadIdsFile over the lines of the file, with their newlines. `linelen` is the size of the
-- buffer of getline, which `grow` gives for the size that it had and the length of the line.
unfoldable pub read_lines : (ℕ → ℕ → ℕ) → Bytes → ℕ → List Bytes → List BuildId → List BuildId
read_lines grow abs_file_dir linelen [] table = table
read_lines grow abs_file_dir linelen (line ∷ lines) table =
    read_lines grow abs_file_dir (grow linelen (length line)) lines (
      if ltb max_line_len (grow linelen (length line))
      then table
      else read_text abs_file_dir (strip_newline (c_string line)) table)

-- BuildIdTable::ReadIdsFile; `none` is a file that cannot be opened.
unfoldable pub read_ids_file :
    (ℕ → ℕ → ℕ) → Bytes → Option (List Bytes) → List BuildId → List BuildId × Bool
read_ids_file grow abs_file_dir none table = (table, false)
read_ids_file grow abs_file_dir (some lines) table =
    (read_lines grow abs_file_dir 0 lines table, true)
