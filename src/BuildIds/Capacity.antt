-- ===== src/BuildIds/Capacity.antt =====
-- BuildIdTable::ReadIdsFile and the size of its line buffer (lib/debugger-utils/build-ids.cc).
use gdbserver.Base.{
  ap, ℕ, ◌≤◌, ◌<◌, ◌≡◌, true, some, List, [], ◌∷◌, ◌++◌, Bytes, arith, refl, ltb, length,
}
use gdbserver.BuildIds.{BuildId, max_line_len, read_lines, read_ids_file}

-- getline never shrinks its buffer, and a line fits in it with its null byte.
pub record GrowLaws (grow : ℕ → ℕ → ℕ) : Type 0 where
  pub keeps : (size n : ℕ) → size ≤ grow size n
  pub fits : (size n : ℕ) → n < grow size n

read_lines-large :
    (grow : ℕ → ℕ → ℕ) (dir : Bytes) (size : ℕ) (lines : List Bytes) (table : List BuildId)
    → GrowLaws grow
    → max_line_len < size
    → read_lines grow dir size lines table ≡ table
unfolding read_lines
read_lines-large grow dir size [] table laws h = refl
read_lines-large grow dir size (line ∷ lines) table laws h =
    let next : max_line_len < grow size (length line) =
      omega (arith, laws.keeps size (length line)) in
    let t : ltb max_line_len (grow size (length line)) ≡ true = ground arith in
    rw t (read_lines-large grow dir (grow size (length line)) lines table laws next)

read_lines-behind :
    (grow : ℕ → ℕ → ℕ) (dir : Bytes) (size : ℕ) (before : List Bytes) (long : Bytes)
    (lines : List Bytes) (table : List BuildId)
    → GrowLaws grow
    → max_line_len ≤ length long
    → read_lines grow dir size (before ++ long ∷ lines) table
      ≡ read_lines grow dir size before table
unfolding read_lines
read_lines-behind grow dir size [] long lines table laws h =
    let next : max_line_len < grow size (length long) =
      omega (arith, laws.fits size (length long)) in
    let t : ltb max_line_len (grow size (length long)) ≡ true = ground arith in
    rw (t, read_lines) (read_lines-large grow dir (grow size (length long)) lines table laws next)
read_lines-behind grow dir size (line ∷ before) long lines table laws h =
    read_lines-behind grow dir (grow size (length line)) before long lines _ laws h

-- ReadIdsFile compares the size of getline's buffer, which never shrinks, with the greatest length of a line:
-- one line of 1024 bytes or more, a comment too, hides all entries that stand behind it in the file.
pub read_ids_file_hidden :
    (grow : ℕ → ℕ → ℕ) (dir : Bytes) (before : List Bytes) (long : Bytes) (lines : List Bytes)
    (table : List BuildId)
    → GrowLaws grow
    → max_line_len ≤ length long
    → read_ids_file grow dir (some (before ++ long ∷ lines)) table
      ≡ read_ids_file grow dir (some before) table
unfolding read_ids_file
read_ids_file_hidden grow dir before long lines table laws h =
    ap (λ t. (t, true)) (read_lines-behind grow dir 0 before long lines table laws h)
