-- ===== src/Elf/BuildId/Notes.antt =====
-- What Reader::ReadBuildId (lib/debugger-utils/elf-reader.cc) finds among the notes of a segment.
use gdbserver.Base.{
  ℕ, zero, suc, ◌+◌, ◌%◌, ◌^◌, ◌≤◌, ◌<◌, ◌≡◌, true, false, none, some, List, [], ◌∷◌, ◌++◌, Bytes,
  ◌==◌, ltb, length, take, arith, refl, sym, ap, All, Bool-cases, inl, inr, length-append,
}
use gdbserver.Hex.{encode_byte_array_string}
use gdbserver.Elf.{Reader, ok, address_at}
use gdbserver.Elf.BuildId.{round_up, add64, sub64, build_id_text, scan_notes, max_build_id_size}
use gdbserver.Elf.BuildId.Layout.{
  Note, note_bytes, notes_bytes, has_build_id, first_build_id, IsNote, Holds, round_up_bounds,
  length-note_bytes, note_fields, is_build_id-note, Holds-behind, desc_field,
}

-- 16 bytes hold no build id.
short_notes :
    (notes : List Note)
    → All IsNote notes
    → length (notes_bytes notes) ≤ 16
    → first_build_id notes ≡ none
unfolding first_build_id notes_bytes
short_notes [] h le = refl
short_notes (n ∷ notes) (hn, h) le =
    let size = length-append (note_bytes n) (notes_bytes notes) in
    let head = length-note_bytes n hn in
    elim (Bool-cases (has_build_id n)) [
      | inl e ↦
          let has = hn.3 e in
          let four : length n.name ≡ 4 = ground arith in
          absurd (
            omega
              (arith, round_up_bounds (length n.name) hn.1, round_up_bounds (length n.desc) hn.2))
      | inr e ↦ rw e (short_notes notes h (omega arith))
    ]

module _ (er : Reader) (buf : Bytes) (offset : ℕ) (n : Note) (notes : List Note)
    (hn : IsNote n) where
  abbrev segment : Bytes
  segment = note_bytes n ++ notes_bytes notes

  abbrev payload : ℕ
  payload = add64 offset (12 + round_up (length n.name))

  module _ (room : er.base + offset + length segment < 2 ^ 64)
      (holds : Holds er.byte_block (er.base + offset) segment) where
    read_note :
        16 < length segment → er.byte_block (address_at er offset) 16 ≡ some (take 16 segment)
    read_note h =
        let a : (er.base + offset) % 2 ^ 64 ≡ er.base + offset + 0 = omega arith in
        rw a (holds 0 16 (omega arith))

    read_desc :
        has_build_id n ≡ true
        → build_id_text er (address_at er payload) (length n.desc) buf
          ≡ ok (encode_byte_array_string n.desc)
    unfolding build_id_text
    read_desc e =
        let has = hn.3 e in
        let size = length-append (note_bytes n) (notes_bytes notes) in
        let head = length-note_bytes n hn in
        let fits = round_up_bounds (length n.desc) hn.2 in
        let a : address_at er payload ≡ er.base + offset + (12 + round_up (length n.name)) =
          omega arith in
        let t : ltb max_build_id_size (length n.desc) ≡ false = ground arith in
        let z : (length n.desc == 0) ≡ false = ground arith in
        let bytes = holds (12 + round_up (length n.name)) (length n.desc) (omega arith) in
        rw (t, build_id_text)
          (rw a (
            rw bytes (
              rw z
                (ap (λ b. ok (encode_byte_array_string b)) (desc_field n (notes_bytes notes) hn)))))

    next_offset : add64 payload (round_up (length n.desc)) ≡ offset + length (note_bytes n)
    next_offset =
        let size = length-append (note_bytes n) (notes_bytes notes) in
        omega (arith, length-note_bytes n hn)

    next_size :
        sub64 (sub64 (length segment) (12 + round_up (length n.name))) (round_up (length n.desc))
        ≡ length (notes_bytes notes)
    next_size =
        let size = length-append (note_bytes n) (notes_bytes notes) in
        omega (arith, length-note_bytes n hn)

-- Of a segment that holds notes, whose numbers fit in their fields and whose build ids have 1 to 64 bytes: the loop
-- comes to its end with fuel for one round more than there are notes, without a read that fails, and gives the first
-- build id as text, or nothing if no note is one.
pub scan_notes-notes_bytes :
    (fuel : ℕ) (er : Reader) (buf : Bytes) (offset : ℕ) (notes : List Note)
    → length notes < fuel
    → er.base + offset + length (notes_bytes notes) < 2 ^ 64
    → All IsNote notes
    → Holds er.byte_block (er.base + offset) (notes_bytes notes)
    → scan_notes fuel er buf offset (length (notes_bytes notes)) ≡ some (ok (first_build_id notes))
unfolding scan_notes notes_bytes first_build_id
scan_notes-notes_bytes zero er buf offset notes f room h holds = absurd (omega arith)
scan_notes-notes_bytes (suc fuel) er buf offset [] f room h holds = ground arith
scan_notes-notes_bytes (suc fuel) er buf offset (n ∷ notes) f room (hn, h) holds =
    let size = length-append (note_bytes n) (notes_bytes notes) in
    let at : add64 (payload er buf offset n notes hn) (round_up (length n.desc))
        ≡ offset + length (note_bytes n) =
      next_offset er buf offset n notes hn room holds in
    let left = next_size er buf offset n notes hn room holds in
    let (a, b, c) = note_fields n (notes_bytes notes) hn in
    let behind =
      Holds-behind er.byte_block (er.base + offset) (er.base + (offset + length (note_bytes n)))
        (note_bytes n) (notes_bytes notes) holds (omega arith) in
    let later =
      scan_notes-notes_bytes fuel er buf (offset + length (note_bytes n)) notes (omega arith)
        (omega arith) h behind in
    elim (Bool-cases (ltb 16 (length (note_bytes n ++ notes_bytes notes)))) [
      | inl t ↦
          let bytes = read_note er buf offset n notes hn room holds (ground arith) in
          rw t (
            rw bytes (
              rw (is_build_id-note n (notes_bytes notes) hn) (
                rw a (
                  rw b (elim (Bool-cases (has_build_id n)) [
                    | inl e ↦ rw e (rw (read_desc er buf offset n notes hn room holds e) refl)
                    | inr e ↦ rw e (rw left (rw at later))
                  ])))))
      | inr t ↦ rw t (ap (λ r. some (ok r)) (sym (short_notes (n ∷ notes) (hn, h) (ground arith))))
    ]
