-- ===== src/Tests/Objects.antt =====
-- ELF objects, DSOs, symbols and cpuid leaves at concrete inputs.
use gdbserver.Base.{
  ℕ, zero, suc, ◌+◌, ◌-◌, ◌^◌, ◌≡◌, Bool, true, false, ◌&&◌, none, some, List, [], ◌∷◌, ◌++◌, Bytes,
  ◌==◌, leb, if◌then◌else◌, length, substr, refl, arith, codes, All, bytes_eq,
}
use gdbserver.Registers.{le_bytes, le_word}
use gdbserver.Hex.{half_byte_to_hex_char, encode_byte_string, encode_byte_array_string}
use gdbserver.ByteBlock.{ByteBlock, read_string, c_string}
use gdbserver.Elf.{
  array_of, read_segment_headers, Reader, Header, ok, create, read_header, header_of, verify_header,
}
use gdbserver.Elf.BuildId.{scan_notes, gnu, round_up, read_build_id, scan_segments}
use gdbserver.Elf.BuildId.Layout.{
  padded, zero_bytes, Note, note_bytes, notes_bytes, first_build_id, IsNote, Holds,
}
use gdbserver.Elf.BuildId.Notes.{scan_notes-notes_bytes}
use gdbserver.Dso.{
  xs_text, Dso, fresh_dso, insert_dso, dso_lookup, dso_fetch_list, fetch_dso, fetch_dsos,
  finish_dso, close_dso, complete_dso, loadable_headers, loadable_from, link_map_of,
}
use gdbserver.Dso.Order.{IsSorted, IsNearest, fetch-lookup}
use gdbserver.Symtab.{Symbol, find_symbol, compare_symbol, bsearch, to_int}
use gdbserver.Symtab.Find.{Finds, IsOrdered, find_symbol-Finds}
use gdbserver.Cpuid.{Instruction, Cpuid, CpuidBit, feature_test, has_bit, zero_leaf, unknown}
use gdbserver.Cpuid.Cached.{IsCached, is_supported, ebx, feature_test_lem}

-- Memory that holds a text of bytes from an address on, and nothing else.
abbrev held_at : ℕ → Bytes → ByteBlock
held_at a bytes address n =
    if leb a address && leb (address - a + n) (length bytes)
    then some (substr bytes (address - a) n)
    else none

-- A note of another kind, and one with a build id.
abbrev notes : List Note
notes =
    record { type = 1; name = gnu; desc = 1 ∷ 2 ∷ 3 ∷ [] }
    ∷ record { type = 3; name = gnu; desc = 0xab ∷ 0xcd ∷ [] }
    ∷ []

abbrev no_header : Header
no_header = record {
  e_ident = [];
  e_entry = 0;
  e_phoff = 0;
  e_shoff = 0;
  e_ehsize = 0;
  e_phentsize = 0;
  e_phnum = 0;
  e_shentsize = 0;
  e_shnum = 0;
}

abbrev note_reader : Reader
note_reader = record {
  byte_block = held_at 0x1040 (notes_bytes notes);
  base = 0x1000;
  header = no_header;
  segment_headers = none;
  section_headers = none;
}

notes-Holds : Holds (held_at 0x1040 (notes_bytes notes)) 0x1040 (notes_bytes notes)
notes-Holds i n h =
    let t : (leb 0x1040 (0x1040 + i) && leb (0x1040 + i - 0x1040 + n) (length (notes_bytes notes)))
        ≡ true =
      ground arith in
    let e : 0x1040 + i - 0x1040 ≡ i = omega arith in rw t (rw e refl)

notes-All : All IsNote notes
notes-All = (
  (omega arith, omega arith, omega arith, λ q. absurd (ground arith)),
  ((omega arith, omega arith, omega arith, λ q. (omega arith, omega arith)), tt),
)

notes-length : length (notes_bytes notes) ≡ 40
unfolding notes_bytes note_bytes padded zero_bytes round_up le_bytes
notes-length = refl

scan_notes-notes_bytes_example :
    scan_notes 3 note_reader [] 0x40 (length (notes_bytes notes)) ≡ some (ok (first_build_id notes))
scan_notes-notes_bytes_example =
    scan_notes-notes_bytes 3 note_reader [] 0x40 notes (omega arith) (omega (arith, notes-length))
      notes-All notes-Holds

build_id_found : first_build_id notes ≡ some (codes "abcd")
unfolding first_build_id encode_byte_array_string encode_byte_string half_byte_to_hex_char bytes_eq
build_id_found = refl

abbrev pub zero_text : ℕ → Bytes
zero_text zero = []
zero_text (suc n) = 0 ∷ zero_text n

-- The header of an object without segments and sections.
abbrev pub elf_header : Bytes
elf_header =
    (0x7f ∷ codes "ELF")
    ++ (zero_text 48 ++ (64 ∷ 0 ∷ 56 ∷ 0 ∷ 0 ∷ 0 ∷ 64 ∷ 0 ∷ 0 ∷ 0 ∷ 0 ∷ 0 ∷ []))

abbrev pub link_map : ℕ → ℕ → Bytes
link_map base next = le_bytes 8 base ++ (zero_text 16 ++ (le_bytes 8 next ++ zero_text 8))

-- Two link maps with empty names, of objects at 0x5000 and 0x7000.
abbrev pub linked : ByteBlock
linked a n =
    if n == 40
    then some (if a == 0x10 then link_map 0x5000 0x20 else link_map 0x7000 0)
    else if n == 64
    then some elf_header
    else some (zero_text n)

abbrev app : ℕ → Bool → Dso
app base is_main_exec = record (fresh_dso (codes "app") base) {
  entry = base;
  phdr = base;
  phentsize = 56;
  build_id = [];
  is_main_exec = is_main_exec;
}

fetched :
    dso_fetch_list 3 linked 0x10 (codes "app") ≡ some (app 0x7000 false ∷ app 0x5000 true ∷ [])
unfolding dso_fetch_list fetch_dsos fetch_dso finish_dso close_dso complete_dso loadable_headers
    loadable_from insert_dso link_map_of read_string c_string fresh_dso xs_text create read_header
    header_of verify_header read_segment_headers read_build_id scan_segments le_bytes le_word
    array_of bytes_eq
fetched = refl

fetch-lookup_example :
    IsSorted (app 0x7000 false ∷ app 0x5000 true ∷ [])
    × IsNearest
        (app 0x7000 false ∷ app 0x5000 true ∷ [])
        0x6000
        (dso_lookup (app 0x7000 false ∷ app 0x5000 true ∷ []) 0x6000)
fetch-lookup_example =
    fetch-lookup 3 linked 0x10 (codes "app") (app 0x7000 false ∷ app 0x5000 true ∷ []) 0x6000
      fetched

abbrev symbol : ℕ → ℕ → Symbol
symbol addr size = record { name = codes "f"; addr = addr; size = size }

abbrev three_symbols : List Symbol
three_symbols = symbol 0x100 0x10 ∷ symbol 0x200 0 ∷ symbol 0x300 0x80 ∷ []

three_symbols-IsOrdered : IsOrdered three_symbols (2 ^ 31)
three_symbols-IsOrdered zero zero x y e f = ground arith
three_symbols-IsOrdered zero (suc zero) x y e f = ground arith
three_symbols-IsOrdered zero (suc (suc zero)) x y e f = ground arith
three_symbols-IsOrdered (suc zero) zero x y e f = ground arith
three_symbols-IsOrdered (suc zero) (suc zero) x y e f = ground arith
three_symbols-IsOrdered (suc zero) (suc (suc zero)) x y e f = ground arith
three_symbols-IsOrdered (suc (suc zero)) zero x y e f = ground arith
three_symbols-IsOrdered (suc (suc zero)) (suc zero) x y e f = ground arith
three_symbols-IsOrdered (suc (suc zero)) (suc (suc zero)) x y e f = ground arith
three_symbols-IsOrdered i (suc (suc (suc j))) x y e f = absurd (cc)
three_symbols-IsOrdered (suc (suc (suc i))) j x y e f = absurd (cc)

find_symbol-Finds_example : Finds three_symbols 0x310 (find_symbol three_symbols 0x310)
find_symbol-Finds_example =
    find_symbol-Finds three_symbols 0x310 (omega arith) three_symbols-IsOrdered

symbol_found : find_symbol three_symbols 0x310 ≡ some (symbol 0x300 0x80)
unfolding find_symbol bsearch compare_symbol to_int
symbol_found = refl

-- A processor with 7 leaves, of which leaf 7 has Processor Trace.
abbrev processor : Instruction
processor leaf subleaf = record zero_leaf {
  a = if leaf == 0 then 7 else 0;
  b = if leaf == 7 then 2 ^ 25 else 0;
}

abbrev empty_cpuid : Cpuid
empty_cpuid = record {
  cpuid = [];
  cpuid_ext = [];
  max_cpuid = 0;
  max_ext_cpuid = 0;
  vendor = unknown;
  model_info = record {
    processor_type = 0;
    family = 0;
    model = 0;
    stepping = 0;
    display_family = 0;
    display_model = 0;
  };
  initialized = false;
}

abbrev trace_bit : CpuidBit
trace_bit = record { leaf_num = 7; word = 1; bit = 25 }

feature_test_lem_example :
    (s' : Cpuid) × (feature_test processor trace_bit empty_cpuid
      ≡ some (s', (is_supported processor 7 && has_bit (processor 7 0).b 25)))
    × (s'.initialized ≡ true)
    × IsCached processor s'
feature_test_lem_example =
    feature_test_lem processor trace_bit empty_cpuid (processor 7 0).b (λ q. absurd (ground arith))
      ebx (omega arith)
