-- ===== src/Elf/BuildId.antt =====
-- Reader::ReadBuildId (lib/debugger-utils/elf-reader.cc).

pub mod Layout
pub mod Notes
use gdbserver.Base.{
  ℕ, zero, suc, ◌+◌, ◌*◌, ◌-◌, ◌/◌, ◌%◌, ◌^◌, Bool, true, false, not, ◌&&◌, Option, none, some,
  List, [], ◌∷◌, ◌++◌, Bytes, ◌==◌, bytes_eq, ltb, if◌then◌else◌, substr, codes,
}
use gdbserver.Hex.{encode_byte_array_string}
use gdbserver.Elf.{
  Reader, Result, ok, err, io, field_at, read_segment_headers, get_segment_header, address_at,
}

-- The struct `note` that is read: Elf32_Nhdr and four bytes of the name.
pub record NoteHeader : Type 0 where
  pub n_namesz : ℕ
  pub n_descsz : ℕ
  pub n_type : ℕ
  pub name : Bytes

unfoldable pub note_of : Bytes → NoteHeader
note_of bytes = record {
  n_namesz = field_at 0 4 bytes;
  n_descsz = field_at 4 4 bytes;
  n_type = field_at 8 4 bytes;
  name = substr bytes 12 4;
}

-- `(n + 3) & -4` on a uint32_t.
unfoldable pub round_up : ℕ → ℕ
round_up n = (n + 3) % 2 ^ 32 / 4 * 4

-- Addition and subtraction on a uint64_t.
abbrev pub add64 : ℕ → ℕ → ℕ
add64 a b = (a + b) % 2 ^ 64

abbrev pub sub64 : ℕ → ℕ → ℕ
sub64 a b = (a + 2 ^ 64 - b) % 2 ^ 64

-- "GNU" with its null byte, and the test on a note.
abbrev pub gnu : Bytes
gnu = codes "GNU" ++ 0 ∷ []

unfoldable pub is_build_id : NoteHeader → Bool
is_build_id note = note.n_type == 3 && (note.n_namesz == 4 && bytes_eq note.name gnu)

-- `%u`, for a number of ten digits at most.
unfoldable pub decimal_digits : ℕ → ℕ → Bytes → Bytes
decimal_digits zero n out = out
decimal_digits (suc left) n out =
    let rest = decimal_digits left (n / 10) ((b'0' + n % 10) ∷ out) in
    if ltb n 10 then (b'0' + n) ∷ out else rest

-- kMaxBuildIdSize
abbrev pub max_build_id_size : ℕ
max_build_id_size = 64

-- The text that is left in `buf` for a build id of `size` bytes at an address. Nothing is written
-- for a build id without bytes.
unfoldable pub build_id_text : Reader → ℕ → ℕ → Bytes → Result Bytes
build_id_text er vaddr size buf =
    if ltb max_build_id_size size
    then ok (codes "build_id_too_large_" ++ decimal_digits 10 size [])
    else elim (er.byte_block vaddr size) [
      | none ↦ err io
      | some build_id ↦ ok (if size == 0 then buf else encode_byte_array_string build_id)
    ]

-- The `while` loop over the notes of a segment, where `size` bytes are left from `offset` on. An
-- inner `none` is the end of the loop, and the outer one that the fuel ran out.
unfoldable pub scan_notes : ℕ → Reader → Bytes → ℕ → ℕ → Option (Result (Option Bytes))
scan_notes zero er buf offset size = none
scan_notes (suc fuel) er buf offset size =
    if ltb 16 size
    then elim (er.byte_block (address_at er offset) 16) [
      | none ↦ some (err io)
      | some bytes ↦
          let note = note_of bytes in
          let payload = add64 offset (12 + round_up note.n_namesz) in
          let payload_size = round_up note.n_descsz in
          let left = sub64 (sub64 size (12 + round_up note.n_namesz)) payload_size in
          let later = scan_notes fuel er buf (add64 payload payload_size) left in
          if is_build_id note
          then some (elim (build_id_text er (address_at er payload) note.n_descsz buf) [
            | err e ↦ err e
            | ok text ↦ ok (some text)
          ])
          else later
    ]
    else some (ok none)

-- The loop over the segments from `i` on. `none` is also a failed FTL_DCHECK.
unfoldable pub scan_segments : ℕ → Reader → Bytes → ℕ → ℕ → Option (Result Bytes)
scan_segments fuel er buf zero i = some (ok [])
scan_segments fuel er buf (suc segments) i =
    let later = scan_segments fuel er buf segments (suc i) in
    elim (get_segment_header er i) [
      | none ↦ none
      | some phdr ↦
          if phdr.p_type == 4
          then elim (scan_notes fuel er buf phdr.p_offset phdr.p_filesz) [
            | none ↦ none
            | some (err e) ↦ some (err e)
            | some (ok none) ↦ later
            | some (ok (some text)) ↦ some (ok text)
          ]
          else later
    ]

-- Reader::ReadBuildId: the reader, which may have read its segment headers, and the text in `buf`,
-- whose size is checked by an FTL_DCHECK.
unfoldable pub read_build_id : ℕ → Bytes → Reader → Option (Reader × Result Bytes)
read_build_id fuel buf er = elim (read_segment_headers er) [
  | err e ↦ some (er, err e)
  | ok er' ↦ elim (scan_segments fuel er' buf er'.header.e_phnum 0) [
    | none ↦ none
    | some result ↦ some (er', result)
  ]
]
