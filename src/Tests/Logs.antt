-- ===== src/Tests/Logs.antt =====
-- Build ids, load maps and kernel traces at concrete inputs.
use gdbserver.Base.{
  ℕ, zero, suc, ◌+◌, ◌*◌, ◌%◌, ◌≡◌, true, false, none, some, [], ◌∷◌, ◌++◌, Bytes, ◌==◌, ltb,
  if◌then◌else◌, refl, arith, codes, bytes_eq, Lacks,
}
use gdbserver.Registers.{le_bytes, le_word}
use gdbserver.BuildIds.{
  read_ids_file, read_lines, read_text, scan_entry, add_build_id, strip_newline,
}
use gdbserver.BuildIds.Capacity.{GrowLaws, read_ids_file_hidden}
use gdbserver.LoadMaps.{
  LoadMap, Loading, nothing_loaded, Head, a_record, b_record, c_record, enter_record, get_entry_id,
  find_entry, read_log_listener_output,
}
use gdbserver.LoadMaps
use gdbserver.LoadMaps.Records.{enter_record_complete}
use gdbserver.ByteBlock.{c_string}
use gdbserver.Argv.{skip_spaces, word, after_word}
use gdbserver.Hex.{hex_char_to_byte}
use gdbserver.Scanf.{
  has_text, scan_literal, scan_prefix, up_to_at, scan_decimal, scan_sign, scan_unsigned,
  starts_digit, scan_digits, scan_hex, scan_hex_unsigned, scan_word,
}
use gdbserver.Ktrace.{KtraceFormat, RecordReader, read_file}
use gdbserver.Ktrace.Records.{KtraceRecord, trace_bytes, read_each, read_file-trace}

-- A buffer that grows to what is needed.
abbrev grow : ℕ → ℕ → ℕ
grow size n = if ltb n size then size else n + 1

grow-laws : GrowLaws grow
grow-laws = record { keeps = λ size n. ground arith; fits = λ size n. ground arith }

abbrev letters : ℕ → Bytes
letters zero = []
letters (suc n) = b'a' ∷ letters n

abbrev long_line : Bytes
long_line = letters 1024

read_ids_file_hidden_example :
    read_ids_file grow (codes "/d") (some (codes "12 /a" ∷ long_line ∷ codes "34 /b" ∷ [])) []
    ≡ read_ids_file grow (codes "/d") (some (codes "12 /a" ∷ [])) []
read_ids_file_hidden_example =
    read_ids_file_hidden grow (codes "/d") (codes "12 /a" ∷ []) long_line (codes "34 /b" ∷ []) []
      grow-laws (omega arith)

ids_read :
    read_ids_file grow
      (codes "/d")
      (some (codes "12 a\n" ∷ codes "# b\n" ∷ codes "34 /b\n" ∷ []))
      []
    ≡ (
      record { build_id = codes "12"; file = codes "/d/a" }
          ∷ record { build_id = codes "34"; file = codes "/b" }
          ∷ [],
      true,
    )
unfolding read_ids_file read_lines read_text bytes_eq strip_newline c_string scan_entry scan_word
    skip_spaces after_word add_build_id word
ids_read = refl

abbrev head : Head
head = record { pid = 7; seqno = 1; rest = [] }

nothing_found : find_entry (get_entry_id 7 1) [] ≡ none
unfolding find_entry
nothing_found = refl

enter_record_complete_example :
    (enter_record head (c_record (codes "n") (codes "s")) (
      enter_record head
        (b_record (codes "12"))
        (enter_record head (a_record 0x1000 0x2000 0x3000) nothing_loaded))).maps
    ≡ record {
      pid = 7;
      base_addr = 0x1000;
      load_addr = 0x2000;
      end_addr = 0x3000;
      name = codes "n";
      so_name = codes "s";
      build_id = codes "12";
    }
      ∷ []
enter_record_complete_example =
    enter_record_complete head 0x1000 0x2000 0x3000 (codes "12") (codes "n") (codes "s")
      nothing_loaded nothing_found

maps_read :
    read_log_listener_output
      (some (
        codes "[1] U 7@trace_load: 7:1a 0x1000 0x2000 0x3000\n"
            ∷ codes "[2] U 7@trace_load: 7:1b 12\n"
            ∷ codes "[3] U 7@trace_load: 7:1c n s\n"
            ∷ [],
        true,
      ))
      []
    ≡ some (
      record {
        pid = 7;
        base_addr = 0x1000;
        load_addr = 0x2000;
        end_addr = 0x3000;
        name = codes "n";
        so_name = codes "s";
        build_id = codes "12";
      }
          ∷ [],
      true,
    )
unfolding read_log_listener_output LoadMaps.read_lines c_string LoadMaps.read_text bytes_eq
    strip_newline has_text scan_literal LoadMaps.all_fit LoadMaps.stored_texts scan_prefix up_to_at
    LoadMaps.scan_head scan_decimal scan_sign skip_spaces scan_unsigned starts_digit after_word word
    hex_char_to_byte enter_record LoadMaps.enter_text find_entry get_entry_id LoadMaps.put_entry
    LoadMaps.scan_address LoadMaps.scan_addresses LoadMaps.scan_build_id LoadMaps.scan_names
    LoadMaps.scan_record LoadMaps.stored_record LoadMaps.stored_words scan_digits scan_hex
    scan_hex_unsigned scan_word
maps_read = refl

letters-Lacks : (n : ℕ) → Lacks b'@' (letters n)
letters-Lacks zero = tt
letters-Lacks (suc n) = (omega arith, letters-Lacks n)

no_welcome : has_text (codes "welcome to lk/MP") (b'a' ∷ (letters 1023 ++ b'@' ∷ codes "t")) ≡ false
unfolding has_text scan_literal
no_welcome = refl

abbrev format : KtraceFormat
format = record { header_size = 16; len_of = λ tag. tag % 16 * 8 }

abbrev header : ℕ → Bytes
header tag = le_bytes 4 tag ++ (0 ∷ 0 ∷ 0 ∷ 0 ∷ 0 ∷ 0 ∷ 0 ∷ 0 ∷ 0 ∷ 0 ∷ 0 ∷ 0 ∷ [])

-- A record of 24 bytes.
ktrace_record : KtraceRecord format
unfolding le_bytes le_word
ktrace_record = record {
  header = header 0x103;
  payload = letters 8;
  full = refl;
  tagged = omega arith;
  long = refl;
}

-- It counts the records, and stops at the second.
abbrev count_to_two : RecordReader ℕ
count_to_two bytes n = (if n == 1 then 1 else 0, n + 1)

read_file-trace_example :
    read_file format count_to_two
      (trace_bytes (ktrace_record ∷ ktrace_record ∷ ktrace_record ∷ []))
      0
    ≡ read_each count_to_two (ktrace_record ∷ ktrace_record ∷ ktrace_record ∷ []) 0
read_file-trace_example =
    read_file-trace format (omega arith) count_to_two
      (ktrace_record ∷ ktrace_record ∷ ktrace_record ∷ []) 0
