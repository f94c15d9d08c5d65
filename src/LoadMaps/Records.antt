-- ===== src/LoadMaps/Records.antt =====
-- What lines of the loader's log leave in the table (lib/debugger-utils/load-maps.cc).
use gdbserver.Base.{
  ℕ, ◌≤◌, ◌≡◌, ◌≢◌, false, none, some, List, [], ◌∷◌, ◌++◌, Bytes, ltb, length, arith, refl,
  bytes_eq, codes, Lacks,
}
use gdbserver.Scanf.{up_to_at, scan_prefix, has_text}
use gdbserver.LoadMaps.{
  LoadMap, Loading, a_record, b_record, c_record, Head, get_entry_id, find_entry, put_entry,
  enter_record, read_text, all_fit, stored_texts, max_line_len,
}

find-put_entry :
    (id : ℕ) (entry : LoadMap) (entries : List (ℕ × LoadMap))
    → find_entry id (put_entry id entry entries) ≡ some entry
unfolding find_entry put_entry
find-put_entry id entry [] = ground arith
find-put_entry id entry (e ∷ entries) = ground (arith, find-put_entry id entry entries)

-- The entry that a record a makes.
abbrev fresh_entry : Head → ℕ → ℕ → ℕ → LoadMap
fresh_entry head base load end = record {
  pid = head.pid;
  base_addr = base;
  load_addr = load;
  end_addr = end;
  name = [];
  so_name = [];
  build_id = [];
}

-- The three kinds of records, where they are entered.
enter_a :
    (head : Head) (base load end : ℕ) (s : Loading)
    → find_entry (get_entry_id head.pid head.seqno) s.map_data ≡ none
    → enter_record head (a_record base load end) s ≡ record s {
      map_data =
          put_entry (get_entry_id head.pid head.seqno) (fresh_entry head base load end) s.map_data;
    }
unfolding enter_record
enter_a head base load end s h = rw (h, enter_record) refl

enter_b :
    (head : Head) (build_id : Bytes) (s : Loading) (entry : LoadMap)
    → find_entry (get_entry_id head.pid head.seqno) s.map_data ≡ some entry
    → enter_record head (b_record build_id) s ≡ record s {
      map_data =
          put_entry
            (get_entry_id head.pid head.seqno)
            (record entry { build_id = build_id })
            s.map_data;
    }
unfolding enter_record
enter_b head build_id s entry h = rw (h, enter_record) refl

enter_c :
    (head : Head) (name so_name : Bytes) (s : Loading) (entry : LoadMap)
    → find_entry (get_entry_id head.pid head.seqno) s.map_data ≡ some entry
    → (enter_record head (c_record name so_name) s).maps
      ≡ s.maps ++ record entry { name = name; so_name = so_name } ∷ []
unfolding enter_record
enter_c head name so_name s entry h = rw (h, enter_record) refl

-- The records a, b and c of one map, one after the other, where no entry of their id was there before: they add
-- the map with all its fields behind the maps of the table, which stay as they are.
pub enter_record_complete :
    (head : Head) (base load end : ℕ) (build_id name so_name : Bytes) (s : Loading)
    → find_entry (get_entry_id head.pid head.seqno) s.map_data ≡ none
    → (enter_record head
        (c_record name so_name)
        (enter_record head (b_record build_id) (enter_record head (a_record base load end) s))).maps
      ≡ s.maps
        ++ record {
          pid = head.pid;
          base_addr = base;
          load_addr = load;
          end_addr = end;
          name = name;
          so_name = so_name;
          build_id = build_id;
        }
          ∷ []
enter_record_complete head base load end build_id name so_name s h =
    let id = get_entry_id head.pid head.seqno in
    let a = fresh_entry head base load end in
    let b = record a { build_id = build_id } in
    let sa = record s { map_data = put_entry id a s.map_data } in
    let sb = record s { map_data = put_entry id b sa.map_data } in
    rw (enter_a head base load end s h) (
      rw (enter_b head build_id sa a (find-put_entry id a s.map_data))
        (rw (enter_c head name so_name sb b (find-put_entry id b sa.map_data)) refl))

-- The prefix of a text without `@` in its first bytes.
up_to_at-append :
    (prefix rest : Bytes)
    → Lacks b'@' prefix
    → (up_to_at (prefix ++ b'@' ∷ rest) ≡ (prefix, b'@' ∷ rest))
unfolding up_to_at
up_to_at-append [] rest h = refl
up_to_at-append (c ∷ prefix) rest (hc, h) = ground (arith, up_to_at-append prefix rest h)

stored_texts-long :
    (prefix rest : Bytes)
    → Lacks b'@' prefix
    → max_line_len ≤ length prefix
    → all_fit (stored_texts (prefix ++ b'@' ∷ rest)) ≡ false
unfolding stored_texts scan_prefix all_fit
stored_texts-long [] rest h n = absurd (omega arith)
stored_texts-long (c ∷ prefix) rest h n =
    let t : ltb (length (c ∷ prefix)) max_line_len ≡ false = ground arith in
    ground (arith, up_to_at-append (c ∷ prefix) rest h)

-- The check of the length of a line only reports it: a line that is no comment and no boot message, with 1024
-- bytes or more before its first `@`, is written behind the end of the buffer for the prefix.
read_text-long :
    (c : ℕ) (prefix rest : Bytes) (s : Loading)
    → c ≢ b'#'
    → Lacks b'@' (c ∷ prefix)
    → max_line_len ≤ length (c ∷ prefix)
    → has_text (codes "welcome to lk/MP") (c ∷ (prefix ++ b'@' ∷ rest)) ≡ false
    → read_text (c ∷ (prefix ++ b'@' ∷ rest)) s ≡ none
unfolding read_text bytes_eq
read_text-long c [] rest s hc h n w = absurd (omega arith)
read_text-long c (d ∷ prefix) rest s hc h n w =
    rw w (rw (stored_texts-long (c ∷ d ∷ prefix) rest h n) (ground arith))
