-- ===== src/LoadMaps.antt =====
-- lib/debugger-utils/load-maps.{h,cc}: the table of load maps, read from the log of the loader.
pub mod Records
use gdbserver.Base.{
  ℕ, zero, suc, ◌+◌, ◌*◌, ◌-◌, ◌^◌, ◌%◌, Bool, true, false, not, ◌&&◌, ◌||◌, Option, none, some,
  List, [], ◌∷◌, ◌++◌, Bytes, ◌==◌, bytes_eq, ltb, leb, if◌then◌else◌, length, is_empty, codes,
  take, ◌>>=◌,
}
use gdbserver.Argv.{skip_spaces}
use gdbserver.ByteBlock.{c_string}
use gdbserver.BuildIds.{strip_newline}
use gdbserver.Scanf.{scan_word, scan_literal, scan_prefix, scan_decimal, scan_hex, has_text}

-- LoadMap
pub record LoadMap : Type 0 where
  pub pid : ℕ
  pub base_addr : ℕ
  pub load_addr : ℕ
  pub end_addr : ℕ
  pub name : Bytes
  pub so_name : Bytes
  pub build_id : Bytes

-- `maps_`, and `map_data`, the entries by their ids.
pub record Loading : Type 0 where
  pub maps : List LoadMap
  pub map_data : List (ℕ × LoadMap)

-- LoadMapTable::LookupLoadMap
unfoldable pub lookup_load_map : List LoadMap → ℕ → ℕ → Option LoadMap
lookup_load_map [] pid addr = none
lookup_load_map (m ∷ maps) pid addr =
    let later = lookup_load_map maps pid addr in
    if pid == m.pid && (leb m.load_addr addr && ltb addr m.end_addr) then some m else later

-- GET_ENTRY_ID, on a uint64_t.
unfoldable pub get_entry_id : ℕ → ℕ → ℕ
get_entry_id pid seqno = (pid * 2 ^ 8 + seqno) % 2 ^ 64

-- The entry of an id in `map_data`, and the entry replaced or added.
unfoldable pub find_entry : ℕ → List (ℕ × LoadMap) → Option LoadMap
find_entry id [] = none
find_entry id (e ∷ entries) = if e.0 == id then some e.1 else find_entry id entries

unfoldable pub put_entry : ℕ → LoadMap → List (ℕ × LoadMap) → List (ℕ × LoadMap)
put_entry id entry [] = (id, entry) ∷ []
put_entry id entry (e ∷ entries) =
    if e.0 == id then (id, entry) ∷ entries else e ∷ put_entry id entry entries

-- What the three formats begin with: "%[^@]@trace_load: %lu:%u".
pub record Head : Type 0 where
  pub pid : ℕ
  pub seqno : ℕ
  pub rest : Bytes

unfoldable pub scan_head : Bytes → Option Head
scan_head line = do
  (prefix, s) ← scan_prefix line
  s1 ← scan_literal (codes "@trace_load:") s
  (pid, s2) ← scan_decimal 64 s1
  s3 ← scan_literal (codes ":") s2
  (seqno, s4) ← scan_decimal 32 s3
  some (record { pid = pid; seqno = seqno; rest = s4 })

-- " 0x%lx": white space, the literal, and a number.
unfoldable pub scan_address : Bytes → Option (ℕ × Bytes)
scan_address s = do s' ← scan_literal (codes "0x") (skip_spaces s); scan_hex s'

-- The records of a line.
pub data LogRecord : Type 0 where
  a_record : (base_addr load_addr end_addr : ℕ) → LogRecord
  b_record : (build_id : Bytes) → LogRecord
  c_record : (name so_name : Bytes) → LogRecord

-- What follows the head: "a 0x%lx 0x%lx 0x%lx", "b %s" or "c %s %s".
unfoldable pub scan_addresses : Bytes → Option LogRecord
scan_addresses s = do
  (base_addr, s1) ← scan_address s
  (load_addr, s2) ← scan_address s1
  (end_addr, s3) ← scan_address s2
  some (a_record base_addr load_addr end_addr)

unfoldable pub scan_names : Bytes → Option LogRecord
scan_names s = do
  (name, s1) ← scan_word s
  (so_name, s2) ← scan_word s1
  some (c_record name so_name)

unfoldable pub scan_build_id : Bytes → Option LogRecord
scan_build_id s = do (build_id, rest) ← scan_word s; some (b_record build_id)

unfoldable pub scan_record : Bytes → Option LogRecord
scan_record [] = none
scan_record (c ∷ s) =
    if c == b'a'
    then scan_addresses s
    else if c == b'b'
    then scan_build_id s
    else if c == b'c'
    then scan_names s
    else none

-- The texts that the calls of sscanf store: the prefix, and the words of a b or c record.
unfoldable pub stored_words : ℕ → Bytes → List Bytes
stored_words zero s = []
stored_words (suc n) s = elim (scan_word s) [
  | none ↦ []
  | some (text, rest) ↦ text ∷ stored_words n rest
]

unfoldable pub stored_record : Bytes → List Bytes
stored_record [] = []
stored_record (c ∷ s) =
    if c == b'b' then stored_words 1 s else if c == b'c' then stored_words 2 s else []

unfoldable pub stored_texts : Bytes → List Bytes
stored_texts line = elim (scan_prefix line) [
  | none ↦ []
  | some (prefix, _) ↦
      prefix ∷ elim (scan_head line) [ none ↦ [] | some head ↦ stored_record head.rest ]
]

-- kMaxLineLen, and whether a text and its null byte fit in a buffer of that size.
abbrev pub max_line_len : ℕ
max_line_len = 1024

unfoldable pub all_fit : List Bytes → Bool
all_fit [] = true
all_fit (text ∷ texts) = ltb (length text) max_line_len && all_fit texts

-- A record is entered. A record c completes an entry, which stays in `map_data`.
unfoldable pub enter_record : Head → LogRecord → Loading → Loading
enter_record head (a_record base_addr load_addr end_addr) s =
    elim (find_entry (get_entry_id head.pid head.seqno) s.map_data) [
      | some entry ↦ s
      | none ↦ record s {
        map_data =
            put_entry (get_entry_id head.pid head.seqno)
              (record {
                pid = head.pid;
                base_addr = base_addr;
                load_addr = load_addr;
                end_addr = end_addr;
                name = [];
                so_name = [];
                build_id = [];
              })
              s.map_data;
      }
    ]
enter_record head (b_record build_id) s =
    elim (find_entry (get_entry_id head.pid head.seqno) s.map_data) [
      | none ↦ s
      | some entry ↦ record s {
        map_data =
            put_entry (get_entry_id head.pid head.seqno) (record entry { build_id = build_id })
              s.map_data;
      }
    ]
enter_record head (c_record name so_name) s =
    elim (find_entry (get_entry_id head.pid head.seqno) s.map_data) [
      | none ↦ s
      | some entry ↦
          let done = record entry { name = name; so_name = so_name } in
          record {
            maps = s.maps ++ done ∷ [];
            map_data = put_entry (get_entry_id head.pid head.seqno) done s.map_data;
          }
    ]

abbrev pub nothing_loaded : Loading
nothing_loaded = record { maps = []; map_data = [] }

unfoldable pub enter_text : Bytes → Loading → Loading
enter_text text s = elim (scan_head text) [
  | none ↦ s
  | some head ↦ elim (scan_record head.rest) [ none ↦ s | some r ↦ enter_record head r s ]
]

-- A line without its newline. `none` is a write behind the end of a buffer: a line that is too long
-- is only reported.
unfoldable pub read_text : Bytes → Loading → Option Loading
read_text text s =
    if bytes_eq text (10 ∷ []) || bytes_eq (take 1 text) (codes "#")
    then some s
    else if has_text (codes "welcome to lk/MP") text
    then some nothing_loaded
    else if all_fit (stored_texts text)
    then some (enter_text text s)
    else none

-- The loop of ReadLogListenerOutput, over the lines with their newlines. One with a null byte is skipped.
unfoldable pub read_lines : List Bytes → Loading → Option Loading
read_lines [] s = some s
read_lines (line ∷ lines) s =
    if length (c_string line) == length line
    then (do s' ← read_text (strip_newline line) s; read_lines lines s')
    else read_lines lines s

-- LoadMapTable::ReadLogListenerOutput: the maps, and the result. The lines are those up to the end of
-- the file or an error; `whole` is whether the end was reached. There are none if the file cannot be opened or
-- there is no memory for the buffers. The result is `none` after a write behind the end of a buffer.
unfoldable pub read_log_listener_output :
    Option (List Bytes × Bool) → List LoadMap → Option (List LoadMap × Bool)
read_log_listener_output none maps = some (maps, false)
read_log_listener_output (some (lines, whole)) maps = do
  s ← read_lines lines (record { maps = maps; map_data = [] })
  some (s.maps, whole)
