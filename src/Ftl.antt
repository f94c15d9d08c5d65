-- ===== src/Ftl.antt =====
-- The number conversions of lib/ftl/strings, which the sources call and do not contain. A client
-- takes them as an argument, and what it relies on as `FtlLaws`.
pub mod Sample
pub mod Split
use gdbserver.Base.{
  ◌++◌, Lacks, ◌≤◌, length, ℕ, ◌<◌, ◌^◌, ◌≡◌, ◌≢◌, Option, none, some, [], ◌∷◌, Bytes, All, ℤ, pos,
  negsuc, codes, List,
}
use gdbserver.Hex.Digits.{IsHexChar}

pub record Ftl : Type 0 where
  -- StringToNumberWithError with Base::k16, at int64_t, at the unsigned 64-bit types and at int.
  pub string_to_i64 : Bytes → Option ℤ
  pub string_to_u64 : Bytes → Option ℕ
  pub string_to_int : Bytes → Option ℤ
  -- StringToNumberWithError<int> in base ten.
  pub decimal_to_int : Bytes → Option ℤ
  -- StringToNumberWithError in base ten, at the unsigned 64-bit types and at uint32_t.
  pub decimal_to_u64 : Bytes → Option ℕ
  pub decimal_to_u32 : Bytes → Option ℕ
  -- NumberToString with Base::k16 at an unsigned 64-bit type.
  pub number_to_hex : ℕ → Bytes
  -- NumberToString in base ten, at unsigned int and at int.
  pub number_to_decimal : ℕ → Bytes
  pub int_to_decimal : ℤ → Bytes
  -- SplitString(s, separator, ...) with kKeepWhitespace and kSplitWantNonEmpty, with
  -- kKeepWhitespace and kSplitWantAll, and with kTrimWhitespace and kSplitWantNonEmpty.
  pub split_non_empty : Bytes → ℕ → List Bytes
  pub split_all : Bytes → ℕ → List Bytes
  pub split_trimmed : Bytes → ℕ → List Bytes

-- Parts with a separator between them, and what a part is that SplitString leaves as it is.
abbrev pub join : ℕ → List Bytes → Bytes
join sep [] = []
join sep (p ∷ []) = p
join sep (p ∷ q ∷ ps) = p ++ sep ∷ join sep (q ∷ ps)

abbrev pub IsPart : ℕ → Bytes → Type 0
IsPart sep p = (p ≢ []) × All (λ c. (32 < c) × (c ≢ sep)) p

-- SplitString cuts a text with one separator in two, and one of several parts with no space in its parts. A number is printed as one to sixteen lower-case digits, which are read back; nothing is read from
-- an empty text, and no unsigned number from a text with a byte that is no digit.
pub record FtlLaws (f : Ftl) : Type 0 where
  pub hex_chars : (n : ℕ) → All IsHexChar (f.number_to_hex n)
  pub hex_some : (n : ℕ) → f.number_to_hex n ≢ []
  pub hex_length : (n : ℕ) → n < 2 ^ 64 → length (f.number_to_hex n) ≤ 16
  pub i64_hex : (n : ℕ) → n < 2 ^ 63 → f.string_to_i64 (f.number_to_hex n) ≡ some (pos n)
  pub u64_hex : (n : ℕ) → n < 2 ^ 64 → f.string_to_u64 (f.number_to_hex n) ≡ some n
  pub i64_empty : f.string_to_i64 [] ≡ none
  pub u64_semicolon : (s : Bytes) → f.string_to_u64 (b';' ∷ s) ≡ none
  pub split_non_empty_two :
      (sep : ℕ) (a b : Bytes)
      → Lacks sep a
      → Lacks sep b
      → a ≢ []
      → b ≢ []
      → f.split_non_empty (a ++ sep ∷ b) sep ≡ a ∷ b ∷ []
  pub split_all_two :
      (sep : ℕ) (a b : Bytes)
      → Lacks sep a
      → Lacks sep b
      → f.split_all (a ++ sep ∷ b) sep ≡ a ∷ b ∷ []
  pub split_trimmed_join :
      (sep : ℕ) (ps : List Bytes) → All (IsPart sep) ps → f.split_trimmed (join sep ps) sep ≡ ps
  pub decimal_chars : (n : ℕ) → All IsHexChar (f.number_to_decimal n)
  pub u32_decimal : (n : ℕ) → n < 2 ^ 32 → f.decimal_to_u32 (f.number_to_decimal n) ≡ some n
