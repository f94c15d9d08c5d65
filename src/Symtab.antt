-- ===== src/Symtab.antt =====
-- lib/debugger-utils/elf-symtab.{h,cc}: symbol tables.
pub mod Find
use gdbserver.Base.{
  ℕ, zero, suc, ◌+◌, ◌*◌, ◌-◌, ◌/◌, ◌%◌, ◌^◌, Bool, true, false, not, ◌&&◌, ◌||◌, Option, none,
  some, List, [], ◌∷◌, ◌++◌, Bytes, ◌==◌, ltb, leb, if◌then◌else◌, length, take, drop, get_elem?,
  substr, ℤ, pos, negsuc,
}
use gdbserver.ByteBlock.{c_string}
use gdbserver.Elf.{
  Reader, SectionHeader, SectionContents, Result, ok, err, field_at, read_section_headers,
  get_section_header, get_section_header_by_type, get_section_contents, get_num_entries,
  is_symbol_section,
}

-- Symbol: its name is what the string section has from an offset on.
pub record Symbol : Type 0 where
  pub name : Bytes
  pub addr : ℕ
  pub size : ℕ

-- RawSymbol: st_name, st_value and st_size of Elf64_Sym.
pub record RawSymbol : Type 0 where
  pub st_name : ℕ
  pub st_value : ℕ
  pub st_size : ℕ

unfoldable pub raw_symbol_of : Bytes → RawSymbol
raw_symbol_of bytes = record {
  st_name = field_at 0 4 bytes;
  st_value = field_at 8 8 bytes;
  st_size = field_at 16 8 bytes;
}

-- SymbolTable: `symbols` is `none` before it is filled. Its names and descriptions are for messages.
abbrev pub SymbolTable : Type 0
SymbolTable = Option (List Symbol)

-- SectionContents::GetSymbolEntry; `none` is a failed FTL_DCHECK.
unfoldable pub get_symbol_entry : SectionContents → ℕ → Option RawSymbol
get_symbol_entry s number =
    if is_symbol_section s.header.sh_type
    then elim (get_num_entries s) [
      | none ↦ none
      | some entries ↦
          if ltb number entries
          then some (raw_symbol_of (drop (number * s.header.sh_entsize) s.contents))
          else none
    ]
    else none

-- The loop of Populate over the entries from `i` on. A symbol whose name lies behind the strings is
-- left out.
unfoldable pub symbols_from : SectionContents → SectionContents → ℕ → ℕ → Option (List Symbol)
symbols_from contents strings zero i = some []
symbols_from contents strings (suc left) i =
    let rest = symbols_from contents strings left (suc i) in
    elim (get_symbol_entry contents i) [
      | none ↦ none
      | some sym ↦ elim rest [
        | none ↦ none
        | some symbols ↦
            if leb strings.header.sh_size sym.st_name
            then some symbols
            else some (
                record {
                  name = c_string (drop sym.st_name strings.contents);
                  addr = sym.st_value;
                  size = sym.st_size;
                }
                ∷ symbols)
      ]
    ]

-- `a + b` on a uint64_t.
abbrev pub end_of : Symbol → ℕ
end_of s = (s.addr + s.size) % 2 ^ 64

-- A uint64_t as an int: its low 32 bits, in two's complement.
unfoldable pub to_int : ℕ → ℤ
to_int n = let low = n % 2 ^ 32 in if ltb low (2 ^ 31) then pos low else negsuc (2 ^ 32 - low - 1)

-- CompareSymbol
unfoldable pub compare_symbol : Symbol → Symbol → ℤ
compare_symbol a b =
    if leb b.addr a.addr && ltb a.addr (end_of b)
    then pos 0
    else if leb a.addr b.addr && ltb b.addr (end_of a)
    then pos 0
    else to_int ((a.addr + 2 ^ 64 - b.addr) % 2 ^ 64)

-- bsearch of the C library, over the elements from `base` on, of which there are `n`: the one in the
-- middle, and the half behind it or before it.
unfoldable pub bsearch {ℓ} : {A : Type ℓ} → ℕ → (A → ℤ) → List A → ℕ → ℕ → Option A
bsearch zero compare items base n = none
bsearch (suc fuel) compare items base n =
    let before = bsearch fuel compare items base (n / 2) in
    let behind = bsearch fuel compare items (base + n / 2 + 1) (n - n / 2 - 1) in
    if n == 0 then none else elim (get_elem? items (base + n / 2)) [
      | none ↦ none
      | some item ↦ elim (compare item) [
        | negsuc below ↦ before
        | pos above ↦ if above == 0 then some item else behind
      ]
    ]

-- The elements that SymbolTable::FindSymbol searches for: no size, and no name.
abbrev pub search_symbol : ℕ → Symbol
search_symbol addr = record { name = []; addr = addr; size = 0 }

-- SymbolTable::FindSymbol. Each round halves the elements that are left.
unfoldable pub find_symbol : List Symbol → ℕ → Option Symbol
find_symbol symbols addr =
    bsearch (suc (length symbols)) (compare_symbol (search_symbol addr)) symbols 0 (length symbols)

-- qsort is a parameter: a function that sorts by a comparison.
module _ (qsort : (Symbol → Symbol → ℤ) → List Symbol → List Symbol) (has_memory : Bool) where
  -- SymbolTable::Populate, once the two sections are there. `none` is a failed FTL_DCHECK.
  unfoldable pub fill : SectionContents → SectionContents → Option (SymbolTable × Bool)
  fill contents strings = elim (get_num_entries contents) [
    | none ↦ none
    | some entries ↦ elim (symbols_from contents strings entries 0) [
      | none ↦ none
      | some symbols ↦ some (some (qsort compare_symbol symbols), true)
    ]
  ]

  unfoldable pub read_sections :
      Reader → SectionHeader → SectionHeader → Option (SymbolTable × Bool)
  read_sections elf shdr str_shdr = elim (get_section_contents has_memory elf shdr) [
    | err e ↦ some (none, false)
    | ok contents ↦ elim (get_section_contents has_memory elf str_shdr) [
      | err e ↦ some (none, false)
      | ok strings ↦ fill contents strings
    ]
  ]

  unfoldable pub populate_from : Reader → ℕ → Option (SymbolTable × Bool)
  populate_from elf symtab_type = elim (get_section_header_by_type elf symtab_type) [
    | none ↦ none
    | some none ↦ some (none, true)
    | some (some shdr) ↦
        if leb elf.header.e_shnum shdr.sh_link
        then some (none, false)
        else elim (get_section_header elf shdr.sh_link) [
          | none ↦ none
          | some str_shdr ↦ read_sections elf shdr str_shdr
        ]
  ]

  -- SymbolTable::Populate: the table, the reader, and the result.
  unfoldable pub populate : Reader → ℕ → SymbolTable → Option (SymbolTable × Reader × Bool)
  populate elf symtab_type (some symbols) =
      if is_symbol_section symtab_type then some (some symbols, elf, false) else none
  populate elf symtab_type none =
      if is_symbol_section symtab_type
      then elim (read_section_headers elf) [
        | err e ↦ some (none, elf, false)
        | ok elf' ↦ elim (populate_from elf' symtab_type) [
          | none ↦ none
          | some (table, result) ↦ some (table, elf', result)
        ]
      ]
      else none
