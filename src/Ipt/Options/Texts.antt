-- ===== src/Ipt/Options/Texts.antt =====
-- bin/ipt/main.cc: the texts of the settings as parts for SplitString.
use gdbserver.Base.{
  inr, is_empty, ◌&&◌, ◌⊎◌, ◌≢◌, Bool, ℕ, ◌<◌, ◌≡◌, true, false, not, [], ◌∷◌, ◌++◌, Bytes, ltb,
  ◌==◌, codes, refl, arith, All, All-append, All-map,
}
use gdbserver.Hex.Digits.{IsHexChar}
use gdbserver.Ftl.{Ftl, FtlLaws, IsPart}
use gdbserver.Ipt.Config.{AddrFilter}
use gdbserver.Ipt.Options.Settings.{
  Flag, Setting, set_flag, set_addr0, set_addr1, set_addr0_range, set_addr1_range, set_cr3_match,
  set_cyc_thresh, set_mtc_freq, set_psb_freq, flag_name, write_flag, write_filter, write_number,
  write_range, write_setting,
}

-- A byte that can stand in a part, which is no space and no separator.
abbrev pub InPart : ℕ → ℕ → Type 0
InPart sep c = (32 < c) × (c ≢ sep)

text_test : ℕ → Bytes → Bool
text_test sep [] = true
text_test sep (c ∷ s) = ltb 32 c && not (c == sep) && text_test sep s

text_test-InPart : (sep : ℕ) (s : Bytes) → text_test sep s ≡ true → All (InPart sep) s
unfolding text_test
text_test-InPart sep [] h = tt
text_test-InPart sep (c ∷ s) h = (ground arith, text_test-InPart sep s (ground arith))

-- A text before a part.
text-IsPart :
    (sep : ℕ) (text rest : Bytes)
    → text_test sep text && not (is_empty text) ≡ true
    → All (InPart sep) rest
    → IsPart sep (text ++ rest)
unfolding text_test
text-IsPart sep [] rest h r = absurd (ground arith)
text-IsPart sep (c ∷ text) rest h r = (
  (λ e. ground arith),
  All-append _ (c ∷ text) rest (text_test-InPart sep (c ∷ text) (ground arith)) r,
)

flag_name_text :
    (name : Flag) → text_test b';' (flag_name name) && not (is_empty (flag_name name)) ≡ true
unfolding text_test flag_name
flag_name_text Flag.branch = refl
flag_name_text Flag.cyc = refl
flag_name_text Flag.mtc = refl
flag_name_text Flag.os = refl
flag_name_text Flag.retc = refl
flag_name_text Flag.tsc = refl
flag_name_text Flag.user = refl

write_flag_text : (value : Bool) → text_test b';' (write_flag value) ≡ true
unfolding text_test write_flag
write_flag_text true = refl
write_flag_text false = refl

write_filter_text : (filter : AddrFilter) → text_test b';' (write_filter filter) ≡ true
unfolding text_test write_filter
write_filter_text AddrFilter.off = refl
write_filter_text AddrFilter.enable = refl
write_filter_text AddrFilter.stop = refl

digits-InPart :
    (sep : ℕ) (s : Bytes) → sep < b'0' ⊎ sep ≡ b';' → All IsHexChar s → All (InPart sep) s
digits-InPart sep s low h = All-map (λ c d. (ground arith, ground arith)) s h

module _ (f : Ftl) (laws : FtlLaws f) where
  decimal-InPart : (n : ℕ) → All (InPart b';') (f.number_to_decimal n)
  decimal-InPart n = digits-InPart b';' _ (inr refl) (laws.decimal_chars n)

  pub some_number : (n : ℕ) → write_number f n ≢ []
  unfolding write_number
  some_number n e = ground arith

  pub number-InPart : (sep n : ℕ) → sep < b'0' ⊎ sep ≡ b';' → All (InPart sep) (write_number f n)
  unfolding write_number
  number-InPart sep n low = (
    (ground arith, ground arith),
    ((ground arith, ground arith), digits-InPart sep _ low (laws.hex_chars n)),
  )

  range-InPart : (begin end : ℕ) → All (InPart b';') (write_range f begin end)
  unfolding write_range
  range-InPart begin end =
      All-append _ (write_number f begin) _ (number-InPart b';' begin (inr refl))
        ((ground arith, ground arith), number-InPart b';' end (inr refl))

  -- None of them has a space or a semicolon.
  pub write_setting-IsPart : (s : Setting) → IsPart b';' (write_setting f s)
  unfolding write_setting write_range text_test
  write_setting-IsPart (set_flag name value) =
      text-IsPart b';' (flag_name name) (write_flag value) (flag_name_text name)
        (text_test-InPart b';' (write_flag value) (write_flag_text value))
  write_setting-IsPart (set_addr0 filter) =
      text-IsPart b';' (codes "addr0=") (write_filter filter) refl
        (text_test-InPart b';' (write_filter filter) (write_filter_text filter))
  write_setting-IsPart (set_addr1 filter) =
      text-IsPart b';' (codes "addr1=") (write_filter filter) refl
        (text_test-InPart b';' (write_filter filter) (write_filter_text filter))
  write_setting-IsPart (set_addr0_range begin end) =
      text-IsPart b';' (codes "addr0-range=") (write_range f begin end) refl
        (range-InPart begin end)
  write_setting-IsPart (set_addr1_range begin end) =
      text-IsPart b';' (codes "addr1-range=") (write_range f begin end) refl
        (range-InPart begin end)
  write_setting-IsPart (set_cr3_match value) =
      text-IsPart b';' (codes "cr3-match=") (write_number f value) refl
        (number-InPart b';' value (inr refl))
  write_setting-IsPart (set_cyc_thresh value) =
      text-IsPart b';' (codes "cyc-thresh=") (f.number_to_decimal value) refl (decimal-InPart value)
  write_setting-IsPart (set_mtc_freq value) =
      text-IsPart b';' (codes "mtc-freq=") (f.number_to_decimal value) refl (decimal-InPart value)
  write_setting-IsPart (set_psb_freq value) =
      text-IsPart b';' (codes "psb-freq=") (f.number_to_decimal value) refl (decimal-InPart value)
