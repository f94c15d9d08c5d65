-- ===== src/Dso.antt =====
-- lib/debugger-utils/dso-list.{h,cc}: the list of the dynamic shared objects of a process.
pub mod Order
pub mod Chain
use gdbserver.Base.{
  ℕ, zero, suc, ◌+◌, ◌*◌, ◌-◌, ◌/◌, ◌%◌, ◌^◌, Bool, true, false, not, ◌&&◌, ◌||◌, Option, none,
  some, List, [], ◌∷◌, ◌++◌, Bytes, ◌==◌, bytes_eq, ltb, leb, if◌then◌else◌, length, take, drop,
  get_elem?, substr, codes, is_empty,
}
use gdbserver.ByteBlock.{ByteBlock, read_string, c_string}
use gdbserver.Elf.{
  Reader, SegmentHeader, Result, ok, err, create, read_segment_headers, get_segment_header,
  field_at,
}
use gdbserver.Elf.BuildId.{read_build_id, add64}

-- debug_file_status: ERR_BAD_STATE before a try, NO_ERROR, ERR_NOT_FOUND, ERR_NO_MEMORY.
pub data Status : Type 0 where
  bad_state : Status
  no_error : Status
  not_found : Status
  no_memory : Status

-- dsoinfo_t. A null debug_file is `none`.
pub record Dso : Type 0 where
  pub base : ℕ
  pub entry : ℕ
  pub phdr : ℕ
  pub loadable_phdrs : List SegmentHeader
  pub phentsize : ℕ
  pub phnum : ℕ
  pub build_id : Bytes
  pub is_main_exec : Bool
  pub debug_file_tried : Bool
  pub debug_file_status : Status
  pub debug_file : Option Bytes
  pub name : Bytes

-- `n` times the letter x.
unfoldable pub xs_text : ℕ → Bytes
xs_text zero = []
xs_text (suc n) = b'x' ∷ xs_text n

-- The object that dsolist_add makes: calloc and the assignments.
unfoldable pub fresh_dso : Bytes → ℕ → Dso
fresh_dso name base = record {
  base = base;
  entry = 0;
  phdr = 0;
  loadable_phdrs = [];
  phentsize = 0;
  phnum = 0;
  build_id = xs_text 128;
  is_main_exec = false;
  debug_file_tried = false;
  debug_file_status = bad_state;
  debug_file = none;
  name = if bytes_eq name (codes "libc.so") then codes "libmusl.so" else name;
}

-- The loop of dsolist_add: an object goes before the first one of a lower base.
unfoldable pub insert_dso : Dso → List Dso → List Dso
insert_dso dso [] = dso ∷ []
insert_dso dso (d ∷ list) =
    let later = insert_dso dso list in if ltb d.base dso.base then dso ∷ d ∷ list else d ∷ later

-- dso_lookup
unfoldable pub dso_lookup : List Dso → ℕ → Option Dso
dso_lookup [] pc = none
dso_lookup (d ∷ list) pc = let later = dso_lookup list pc in if leb d.base pc then some d else later

-- dso_get_main_exec
unfoldable pub dso_get_main_exec : List Dso → Option Dso
dso_get_main_exec [] = none
dso_get_main_exec (d ∷ list) =
    let later = dso_get_main_exec list in if d.is_main_exec then some d else later

-- struct link_map: l_addr, l_name, l_ld, l_next, l_prev.
pub record LinkMap : Type 0 where
  pub l_addr : ℕ
  pub l_name : ℕ
  pub l_next : ℕ

unfoldable pub link_map_of : Bytes → LinkMap
link_map_of bytes = record {
  l_addr = field_at 0 8 bytes;
  l_name = field_at 8 8 bytes;
  l_next = field_at 24 8 bytes;
}

-- The loops that pick the segment headers of type PT_LOAD; `none` is a failed FTL_DCHECK.
unfoldable pub loadable_from : Reader → ℕ → ℕ → Option (List SegmentHeader)
loadable_from er zero i = some []
loadable_from er (suc left) i =
    let rest = loadable_from er left (suc i) in
    elim (get_segment_header er i) [
      | none ↦ none
      | some phdr ↦ elim rest [
        | none ↦ none
        | some phdrs ↦ if phdr.p_type == 1 then some (phdr ∷ phdrs) else some phdrs
      ]
    ]

-- What dso_fetch_list adds to an object whose ELF header is read: its loadable headers, its build
-- id, and the fields of the header.
unfoldable pub loadable_headers : Reader → Option (Reader × List SegmentHeader)
loadable_headers er = elim (read_segment_headers er) [
  | err e ↦ some (er, [])
  | ok er' ↦ elim (loadable_from er' er'.header.e_phnum 0) [
    | none ↦ none
    | some phdrs ↦ some (er', phdrs)
  ]
]

unfoldable pub complete_dso : ℕ → Bool → Reader → Dso → Option Dso
complete_dso fuel is_main_exec er dso = elim (loadable_headers er) [
  | none ↦ none
  | some (er', phdrs) ↦ elim (read_build_id fuel dso.build_id er') [
    | none ↦ none
    | some (er'', build_id) ↦ some (record dso {
      loadable_phdrs = phdrs;
      build_id = elim build_id [ err e ↦ dso.build_id | ok text ↦ text ];
      is_main_exec = is_main_exec;
      entry = add64 dso.base er.header.e_entry;
      phdr = add64 dso.base er.header.e_phoff;
      phentsize = er.header.e_phentsize;
      phnum = er.header.e_phnum;
    })
  ]
]

-- The end of a round, for an object that is complete, and for one whose ELF header was read or not.
unfoldable pub close_dso : List Dso → ℕ → Option Dso → Option (List Dso × ℕ)
close_dso list next none = none
close_dso list next (some dso) = some (insert_dso dso list, next)

unfoldable pub finish_dso : ℕ → Bool → List Dso → ℕ → Dso → Result Reader → Option (List Dso × ℕ)
finish_dso fuel is_main_exec list next dso (err e) = some (insert_dso dso list, 0)
finish_dso fuel is_main_exec list next dso (ok er) =
    close_dso list next (complete_dso fuel is_main_exec er dso)

-- One round of the loop of dso_fetch_list: the list, and where the next link map is; 0 where the loop
-- breaks. Memory for the objects is always found.
unfoldable pub fetch_dso :
    ℕ → ByteBlock → Bytes → Bool → List Dso → Option Bytes → Option (List Dso × ℕ)
fetch_dso fuel bb name is_main_exec list none = some (list, 0)
fetch_dso fuel bb name is_main_exec list (some bytes) =
    let lmap = link_map_of bytes in
    let (dsoname, readable) = read_string bb lmap.l_name 64 in
    let text = c_string dsoname in
    let dso = fresh_dso (if is_empty text then name else text) lmap.l_addr in
    if readable
    then finish_dso fuel is_main_exec list lmap.l_next dso (create bb dso.base)
    else some (list, 0)

-- The loop of dso_fetch_list, over link maps that may be linked in a circle: `none` is that the
-- fuel ran out, or a failed FTL_DCHECK.
unfoldable pub fetch_dsos : ℕ → ByteBlock → Bytes → Bool → List Dso → ℕ → Option (List Dso)
fetch_dsos zero bb name is_main_exec list lmap_addr = none
fetch_dsos (suc fuel) bb name is_main_exec list lmap_addr =
    if lmap_addr == 0
    then some list
    else elim (fetch_dso fuel bb name is_main_exec list (bb lmap_addr 40)) [
      | none ↦ none
      | some (list', next) ↦ fetch_dsos fuel bb name false list' next
    ]

-- dso_fetch_list
unfoldable pub dso_fetch_list : ℕ → ByteBlock → ℕ → Bytes → Option (List Dso)
dso_fetch_list fuel bb lmap_addr name = fetch_dsos fuel bb name true [] lmap_addr

-- dso_find_debug_file: the object and the file that is reported, after the call `open` has said
-- whether the file is there. asprintf finds memory if `has_memory`.
abbrev pub debug_path : Dso → Bytes
debug_path dso = codes "/boot/debug/" ++ (dso.build_id ++ codes ".debug")

unfoldable pub dso_find_debug_file : Bool → (Bytes → Bool) → Dso → Dso × Status × Option Bytes
dso_find_debug_file has_memory exists dso =
    if dso.debug_file_tried
    then elim dso.debug_file_status [
      | no_error ↦ (dso, no_error, dso.debug_file)
      | other ↦ (dso, other, none)
    ]
    else if not has_memory
    then (record dso { debug_file_tried = true; debug_file_status = no_memory }, no_memory, none)
    else if exists (debug_path dso)
    then (
      record dso {
        debug_file_tried = true;
        debug_file_status = no_error;
        debug_file = some (debug_path dso);
      },
      no_error,
      some (debug_path dso),
    )
    else (record dso { debug_file_tried = true; debug_file_status = not_found }, not_found, none)
