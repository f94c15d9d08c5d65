-- ===== src/Elf/BuildId/Layout.antt =====
-- The notes of a segment as bytes, and the fields that Reader::ReadBuildId reads of them
-- (lib/debugger-utils/elf-reader.cc).
use gdbserver.Base.{
  ℕ, zero, suc, ◌+◌, ◌-◌, ◌^◌, ◌≤◌, ◌<◌, ◌≡◌, Bool, true, ◌&&◌, Option, none, some, List, [], ◌∷◌,
  ◌++◌, Bytes, ◌==◌, if◌then◌else◌, length, take, drop, substr, arith, refl, ap, Bool-cases, inl,
  inr, take-append, length-append, append_assoc, bytes_eq,
}
use gdbserver.Registers.{le_bytes, le_word}
use gdbserver.Registers.Words.{length-le_bytes}
use gdbserver.Hex.{encode_byte_array_string}
use gdbserver.ByteBlock.{ByteBlock}
use gdbserver.Elf.BuildId.{note_of, round_up, gnu, is_build_id, max_build_id_size}

-- A note, and its bytes in a segment: the name and the description are filled up to a multiple of four.
pub record Note : Type 0 where
  pub type : ℕ
  pub name : Bytes
  pub desc : Bytes

unfoldable pub zero_bytes : ℕ → Bytes
zero_bytes zero = []
zero_bytes (suc n) = 0 ∷ zero_bytes n

unfoldable pub padded : Bytes → Bytes
padded bytes = bytes ++ zero_bytes (round_up (length bytes) - length bytes)

unfoldable pub note_bytes : Note → Bytes
note_bytes n =
    le_bytes 4 (length n.name)
    ++ (le_bytes 4 (length n.desc) ++ (le_bytes 4 n.type ++ (padded n.name ++ padded n.desc)))

unfoldable pub notes_bytes : List Note → Bytes
notes_bytes [] = []
notes_bytes (n ∷ notes) = note_bytes n ++ notes_bytes notes

-- The note with the build id, and the text of the first one.
abbrev pub has_build_id : Note → Bool
has_build_id n = n.type == 3 && (length n.name == 4 && bytes_eq n.name gnu)

unfoldable pub first_build_id : List Note → Option Bytes
first_build_id [] = none
first_build_id (n ∷ notes) =
    let later = first_build_id notes in
    if has_build_id n then some (encode_byte_array_string n.desc) else later

-- The numbers of a note fit in their fields, and a build id has 1 to 64 bytes.
abbrev pub IsNote : Note → Type 0
IsNote n =
    (n.type < 2 ^ 32)
    × (length n.name < 2 ^ 31)
    × (length n.desc < 2 ^ 31)
    × (has_build_id n ≡ true → (0 < length n.desc) × (length n.desc ≤ max_build_id_size))

-- A block that has bytes from an address on.
abbrev pub Holds : ByteBlock → ℕ → Bytes → Type 0
Holds m a bytes = (i n : ℕ) → i + n ≤ length bytes → m (a + i) n ≡ some (substr bytes i n)

pub length-zero_bytes : (n : ℕ) → length (zero_bytes n) ≡ n
unfolding zero_bytes
length-zero_bytes zero = refl
length-zero_bytes (suc n) = omega (arith, length-zero_bytes n)

pub round_up_bounds : (n : ℕ) → n < 2 ^ 31 → (n ≤ round_up n) × (round_up n ≤ n + 3)
unfolding round_up
round_up_bounds n h = (omega arith, omega arith)

pub length-padded :
    (bytes : Bytes) → length bytes < 2 ^ 31 → length (padded bytes) ≡ round_up (length bytes)
unfolding padded
length-padded bytes h = omega (
  arith,
  length-append bytes (zero_bytes (round_up (length bytes) - length bytes)),
  length-zero_bytes (round_up (length bytes) - length bytes),
  round_up_bounds (length bytes) h,
)

pub length-note_bytes :
    (n : Note)
    → IsNote n
    → length (note_bytes n) ≡ 12 + round_up (length n.name) + round_up (length n.desc)
unfolding note_bytes le_bytes
length-note_bytes n (t, p, q, _) = omega (
  arith,
  length-append (padded n.name) (padded n.desc),
  length-padded n.name p,
  length-padded n.desc q,
)

-- The fields of the first 16 bytes.
pub note_fields :
    (n : Note) (rest : Bytes)
    → IsNote n
    → ((note_of (take 16 (note_bytes n ++ rest))).n_namesz ≡ length n.name)
      × ((note_of (take 16 (note_bytes n ++ rest))).n_descsz ≡ length n.desc)
      × ((note_of (take 16 (note_bytes n ++ rest))).n_type ≡ n.type)
unfolding note_of note_bytes le_bytes le_word
note_fields n rest (t, p, q, _) = (omega arith, omega arith, omega arith)

name_field : (name x y : Bytes) → length name ≡ 4 → take 4 (take 4 ((padded name ++ x) ++ y)) ≡ name
unfolding padded
name_field [] x y h = absurd (omega arith)
name_field (a ∷ []) x y h = absurd (omega arith)
name_field (a ∷ b ∷ []) x y h = absurd (omega arith)
name_field (a ∷ b ∷ c ∷ []) x y h = absurd (omega arith)
name_field (a ∷ b ∷ c ∷ d ∷ []) x y h = refl
name_field (a ∷ b ∷ c ∷ d ∷ e ∷ name) x y h = absurd (omega arith)

note_name :
    (n : Note) (rest : Bytes)
    → length n.name ≡ 4
    → (note_of (take 16 (note_bytes n ++ rest))).name ≡ n.name
unfolding note_of note_bytes le_bytes
note_name n rest h = name_field n.name (padded n.desc) rest h

pub is_build_id-note :
    (n : Note) (rest : Bytes)
    → IsNote n
    → is_build_id (note_of (take 16 (note_bytes n ++ rest))) ≡ has_build_id n
unfolding is_build_id
is_build_id-note n rest h =
    let (a, b, c) = note_fields n rest h in
    elim (Bool-cases (length n.name == 4)) [
      | inl e ↦ rw a (rw c (rw (note_name n rest (ground arith)) refl))
      | inr e ↦ rw a (rw c (rw e (ground arith)))
    ]

-- The bytes behind the first ones.
drop_behind : (k i : ℕ) (xs ys : Bytes) → k ≡ length xs + i → drop k (xs ++ ys) ≡ drop i ys
drop_behind k i [] ys e = ap (λ j. drop j ys) (omega arith)
drop_behind zero i (x ∷ xs) ys e = absurd (omega arith)
drop_behind (suc k) i (x ∷ xs) ys e = drop_behind k i xs ys (omega arith)

pub Holds-behind :
    (m : ByteBlock) (a b : ℕ) (xs ys : Bytes)
    → Holds m a (xs ++ ys)
    → b ≡ a + length xs
    → Holds m b ys
Holds-behind m a b xs ys h e i n le =
    let at : b + i ≡ a + (length xs + i) = omega arith in
    rw at (
      rw (← drop_behind (length xs + i) i xs ys refl)
        (h (length xs + i) n (omega (arith, length-append xs ys))))

desc_first : (desc rest : Bytes) → take (length desc) (padded desc ++ rest) ≡ desc
unfolding padded
desc_first desc rest =
    let zeros = zero_bytes (round_up (length desc) - length desc) in
    rw (append_assoc desc zeros rest) (take-append (length desc) desc (zeros ++ rest) refl)

-- The description stands behind the header and the name.
pub desc_field :
    (n : Note) (rest : Bytes)
    → IsNote n
    → substr (note_bytes n ++ rest) (12 + round_up (length n.name)) (length n.desc) ≡ n.desc
unfolding note_bytes
desc_field n rest (t, p, q, _) =
    let front =
      le_bytes 4 (length n.name)
      ++ (le_bytes 4 (length n.desc) ++ (le_bytes 4 n.type ++ padded n.name)) in
    let long : 12 + round_up (length n.name) ≡ length front + 0 = omega (
      arith,
      length-append (le_bytes 4 (length n.name))
          (le_bytes 4 (length n.desc) ++ (le_bytes 4 n.type ++ padded n.name)),
      length-append (le_bytes 4 (length n.desc)) (le_bytes 4 n.type ++ padded n.name),
      length-append (le_bytes 4 n.type) (padded n.name),
      length-le_bytes 4 (length n.name),
      length-le_bytes 4 (length n.desc),
      length-le_bytes 4 n.type,
      length-padded n.name p,
    ) in
    let split : note_bytes n ++ rest ≡ front ++ (padded n.desc ++ rest) = simp append_assoc in
    rw split (
      rw (drop_behind (12 + round_up (length n.name)) 0 front (padded n.desc ++ rest) long)
        (desc_first n.desc rest))
