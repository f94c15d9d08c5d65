-- ===== src/Elf.antt =====
-- lib/debugger-utils/elf-reader.{h,cc}: reading the headers and sections of a 64-bit ELF object.
pub mod BuildId
use gdbserver.Base.{
  ℕ, zero, suc, ◌+◌, ◌*◌, ◌-◌, ◌/◌, ◌%◌, ◌^◌, Bool, true, false, not, ◌&&◌, ◌||◌, Option, none,
  some, List, [], ◌∷◌, ◌++◌, Bytes, ◌==◌, bytes_eq, ltb, if◌then◌else◌, length, take, drop,
  get_elem?, substr, codes,
}
use gdbserver.Registers.{le_word}
use gdbserver.Hex.{encode_byte_array_string}
use gdbserver.ByteBlock.{ByteBlock}

-- Error, but OK.
pub data Error : Type 0 where
  io : Error
  badelf : Error
  nomem : Error

pub data Result {ℓ} (A : Type ℓ) : Type ℓ where
  ok : A → Result A
  err : Error → Result A

infixl 5 ◌>>=◌
abbrev pub ◌>>=◌ {ℓ κ} : {A : Type ℓ} {B : Type κ} → Result A → (A → Result B) → Result B
ok a >>= f = f a
err e >>= f = err e

-- The field of a struct at an offset, of a size in bytes.
abbrev pub field_at : ℕ → ℕ → Bytes → ℕ
field_at offset size bytes = le_word (substr bytes offset size)

-- Header: the fields of Elf64_Ehdr that the code uses.
pub record Header : Type 0 where
  pub e_ident : Bytes
  pub e_entry : ℕ
  pub e_phoff : ℕ
  pub e_shoff : ℕ
  pub e_ehsize : ℕ
  pub e_phentsize : ℕ
  pub e_phnum : ℕ
  pub e_shentsize : ℕ
  pub e_shnum : ℕ

-- SegmentHeader and SectionHeader, likewise.
pub record SegmentHeader : Type 0 where
  pub p_type : ℕ
  pub p_offset : ℕ
  pub p_filesz : ℕ

pub record SectionHeader : Type 0 where
  pub sh_type : ℕ
  pub sh_offset : ℕ
  pub sh_size : ℕ
  pub sh_link : ℕ
  pub sh_entsize : ℕ

unfoldable pub header_of : Bytes → Header
header_of bytes = record {
  e_ident = take 16 bytes;
  e_entry = field_at 24 8 bytes;
  e_phoff = field_at 32 8 bytes;
  e_shoff = field_at 40 8 bytes;
  e_ehsize = field_at 52 2 bytes;
  e_phentsize = field_at 54 2 bytes;
  e_phnum = field_at 56 2 bytes;
  e_shentsize = field_at 58 2 bytes;
  e_shnum = field_at 60 2 bytes;
}

unfoldable pub segment_of : Bytes → SegmentHeader
segment_of bytes = record {
  p_type = field_at 0 4 bytes;
  p_offset = field_at 8 8 bytes;
  p_filesz = field_at 32 8 bytes;
}

unfoldable pub section_of : Bytes → SectionHeader
section_of bytes = record {
  sh_type = field_at 4 4 bytes;
  sh_offset = field_at 24 8 bytes;
  sh_size = field_at 32 8 bytes;
  sh_link = field_at 40 4 bytes;
  sh_entsize = field_at 56 8 bytes;
}

-- An array of structs of a size, as many as are asked for.
unfoldable pub array_of {ℓ} : {A : Type ℓ} → (Bytes → A) → ℕ → ℕ → Bytes → List A
array_of one size zero bytes = []
array_of one size (suc n) bytes = one (take size bytes) ∷ array_of one size n (drop size bytes)

-- sizeof(Header), sizeof(SegmentHeader) and sizeof(SectionHeader).
abbrev pub header_size : ℕ
header_size = 64

abbrev pub segment_header_size : ℕ
segment_header_size = 56

abbrev pub section_header_size : ℕ
section_header_size = 64

-- Reader, but its file name, which is for messages.
pub record Reader : Type 0 where
  pub byte_block : ByteBlock
  pub base : ℕ
  pub header : Header
  pub segment_headers : Option (List SegmentHeader)
  pub section_headers : Option (List SectionHeader)

-- Reader::ReadHeader
unfoldable pub read_header : ByteBlock → ℕ → Option Header
read_header m base = elim (m base header_size) [ none ↦ none | some bytes ↦ some (header_of bytes) ]

-- Reader::VerifyHeader
unfoldable pub verify_header : Header → Bool
verify_header hdr =
    bytes_eq (take 4 hdr.e_ident) (0x7f ∷ codes "ELF")
    && (hdr.e_ehsize == header_size
        && (hdr.e_phentsize == segment_header_size && hdr.e_shentsize == section_header_size))

-- Reader::Create
unfoldable pub create : ByteBlock → ℕ → Result Reader
create byte_block base = elim (read_header byte_block base) [
  | none ↦ err io
  | some header ↦
      if verify_header header
      then ok (record {
        byte_block = byte_block;
        base = base;
        header = header;
        segment_headers = none;
        section_headers = none;
      })
      else err badelf
]

-- `base_ + offset`, as uint64_t.
abbrev pub address_at : Reader → ℕ → ℕ
address_at er offset = (er.base + offset) % 2 ^ 64

-- Reader::ReadSegmentHeaders. After an error the reader is as it was.
unfoldable pub read_segment_headers : Reader → Result Reader
read_segment_headers er = elim er.segment_headers [
  | some headers ↦ ok er
  | none ↦
      elim (er.byte_block (address_at er er.header.e_phoff)
        (er.header.e_phnum * segment_header_size)) [
          | none ↦ err io
          | some bytes ↦ ok (record er {
            segment_headers =
                some (array_of segment_of segment_header_size er.header.e_phnum bytes);
          })
        ]
]

-- Reader::ReadSectionHeaders, likewise.
unfoldable pub read_section_headers : Reader → Result Reader
read_section_headers er = elim er.section_headers [
  | some headers ↦ ok er
  | none ↦
      elim (er.byte_block (address_at er er.header.e_shoff)
        (er.header.e_shnum * section_header_size)) [
          | none ↦ err io
          | some bytes ↦ ok (record er {
            section_headers =
                some (array_of section_of section_header_size er.header.e_shnum bytes);
          })
        ]
]

-- Reader::FreeSegmentHeaders and FreeSectionHeaders
unfoldable pub free_segment_headers : Reader → Reader
free_segment_headers er = record er { segment_headers = none }

unfoldable pub free_section_headers : Reader → Reader
free_section_headers er = record er { section_headers = none }

-- Reader::GetSegmentHeader and GetSectionHeader; `none` is a failed FTL_DCHECK.
unfoldable pub get_header {ℓ} : {A : Type ℓ} → Option (List A) → ℕ → ℕ → Option A
get_header none count number = none
get_header (some headers) count number = if ltb number count then get_elem? headers number else none

unfoldable pub get_segment_header : Reader → ℕ → Option SegmentHeader
get_segment_header er number = get_header er.segment_headers er.header.e_phnum number

unfoldable pub get_section_header : Reader → ℕ → Option SectionHeader
get_section_header er number = get_header er.section_headers er.header.e_shnum number

-- Reader::GetSectionHeaderByType, the loop from section `i` on; an inner `none` is nullptr.
unfoldable pub section_of_type : Reader → ℕ → ℕ → ℕ → Option (Option SectionHeader)
section_of_type er type zero i = some none
section_of_type er type (suc left) i =
    let later = section_of_type er type left (suc i) in
    elim (get_section_header er i) [
      | none ↦ none
      | some shdr ↦ if shdr.sh_type == type then some (some shdr) else later
    ]

unfoldable pub get_section_header_by_type : Reader → ℕ → Option (Option SectionHeader)
get_section_header_by_type er type = section_of_type er type er.header.e_shnum 0

-- SectionContents
pub record SectionContents : Type 0 where
  pub header : SectionHeader
  pub contents : Bytes

-- Reader::GetSectionContents; `has_memory` is what malloc finds.
unfoldable pub get_section_contents : Bool → Reader → SectionHeader → Result SectionContents
get_section_contents has_memory er sh =
    if has_memory
    then elim (er.byte_block (address_at er sh.sh_offset) sh.sh_size) [
      | none ↦ err io
      | some buffer ↦ ok (record { header = sh; contents = buffer })
    ]
    else err nomem

-- SHT_SYMTAB and SHT_DYNSYM
abbrev pub is_symbol_section : ℕ → Bool
is_symbol_section type = type == 2 || type == 11

-- SectionContents::GetNumEntries; `none` is a failed FTL_DCHECK.
unfoldable pub get_num_entries : SectionContents → Option ℕ
get_num_entries s =
    if is_symbol_section s.header.sh_type
    then (if s.header.sh_entsize == 0 then none else some (s.header.sh_size / s.header.sh_entsize))
    else some 0
