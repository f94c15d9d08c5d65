-- ===== src/ThreadId/RoundTrip.antt =====
-- Reading a printed thread id.
use gdbserver.Base.{
  All-append, subst, ◌≢◌, take_all, ◌%◌, ◌-◌, ◌+◌, ◌≤◌, drop_after, ℕ, ◌<◌, ◌^◌, true, ◌≡◌, some,
  none, ◌∷◌, pos, negsuc, arith, Lacks, All-map, find-append, take-append, refl, length, find-Lacks,
}
use gdbserver.Ftl.{Ftl, FtlLaws}
use gdbserver.Hex.Digits.{IsHexChar}
use gdbserver.ThreadId.{parse_with_pid, parse_thread_id, encode_thread_id}

module _ (f : Ftl) (laws : FtlLaws f) where
  pub hex-Lacks : (b : ℕ) → ¬ IsHexChar b → (n : ℕ) → Lacks b (f.number_to_hex n)
  hex-Lacks b nb n =
      All-map {Q = λ c. c ≢ b} (λ c h e. nb (subst IsHexChar e h)) (f.number_to_hex n)
        (laws.hex_chars n)

  hex-Lacks_dot : (n : ℕ) → Lacks b'.' (f.number_to_hex n)
  hex-Lacks_dot = hex-Lacks b'.' (λ h. ground arith)

  -- A printed thread id holds no byte but digits, the `p` and the dot.
  pub encode-Lacks :
      (b : ℕ)
      → ¬ IsHexChar b
      → b'p' ≢ b
      → b'.' ≢ b
      → (pid tid : ℕ) → Lacks b (encode_thread_id f pid tid)
  unfolding encode_thread_id
  encode-Lacks b nb np nd pid tid = (
    np,
    All-append (λ c. c ≢ b) (f.number_to_hex pid) (b'.' ∷ f.number_to_hex tid) (hex-Lacks b nb pid)
        (nd, hex-Lacks b nb tid),
  )

  -- A printed pair of ids below 2^63 is read back, whatever value the variable `dot` starts with.
  pub parse-encode_thread_id :
      (uninit pid tid : ℕ)
      → pid < 2 ^ 63
      → tid < 2 ^ 63
      → parse_thread_id f uninit (encode_thread_id f pid tid)
        ≡ some (record { has_pid = true; pid = some (pos pid); tid = pos tid })
  unfolding parse_thread_id encode_thread_id parse_with_pid
  parse-encode_thread_id uninit pid tid hp ht =
      let pid_text = f.number_to_hex pid in
      let tid_text = f.number_to_hex tid in
      ground (
        arith,
        find-append b'.' pid_text tid_text (hex-Lacks_dot pid),
        take-append (length pid_text) pid_text (b'.' ∷ tid_text) refl,
        drop_after (length pid_text) pid_text tid_text b'.' refl,
        laws.i64_hex pid hp,
        laws.i64_hex tid ht,
      )

  -- A process id with no dot behind it is read or refused as the unset variable `dot` has it: for
  -- every process id below 2^63 there is a value with which it is read, and one with which it is not.
  undetermined_without_dot :
      (pid : ℕ)
      → pid < 2 ^ 63
      → let text = b'p' ∷ f.number_to_hex pid in
        (parse_thread_id f (length text) text
          ≡ some (record { has_pid = true; pid = some (pos pid); tid = negsuc 0 }))
        × (parse_thread_id f 1 text ≡ none)
  unfolding parse_thread_id parse_with_pid
  undetermined_without_dot pid hp =
      let text = f.number_to_hex pid in
      let short : length text ≤ 16 = laws.hex_length pid (omega arith) in
      let whole : (length (b'p' ∷ text) + 2 ^ 64 - 1) % 2 ^ 64 ≡ length text = omega arith in
      let read = take_all _ text whole in
      (
        ground (arith, find-Lacks b'.' text (hex-Lacks_dot pid), read, laws.i64_hex pid hp),
        ground (arith, find-Lacks b'.' text (hex-Lacks_dot pid), laws.i64_empty),
      )
