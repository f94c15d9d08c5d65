-- ===== src/Tests/Wire.antt =====
-- Packets, encodings, thread ids and stop replies at concrete inputs.
use gdbserver.Base.{
  ℕ, true, false, Option, none, some, [], ◌∷◌, ◌++◌, Bytes, ◌≡◌, ◌↔◌, inl, inr, refl, codes, arith,
  All, length, pos, List,
}
use gdbserver.Hex.{half_byte_to_hex_char, encode_byte_string}
use gdbserver.Hex.Digits.{IsHexChar}
use gdbserver.Argv.{
  build_argv, argv_to_string, basename, last_part, escape_non_printable_string, append_args,
  argv_rounds, skip_spaces, word, after_word,
}
use gdbserver.Argv.Words.{IsArg}
use gdbserver.Packet.{verify_packet, checksum}
use gdbserver.Packet.Scan.{Skips, nil, plain}
use gdbserver.Packet.Verify.{verify_iff, IsFramed}
use gdbserver.Rsp.{frame}
use gdbserver.Rsp.Framing.{verify-frame, verify_corrupted}
use gdbserver.Ftl.Sample.{sample, sample_laws}
use gdbserver.ThreadId.{parse_thread_id, encode_thread_id}
use gdbserver.ThreadId.RoundTrip.{parse-encode_thread_id}
use gdbserver.StopReply.Fields.{
  read-build, signal_packet, signal_fields, reported, IsRegister, IsReason,
}
use gdbserver.StopReply.Printed.{read_fields}

dead : All IsHexChar (codes "dea0")
dead = (inr (omega arith), (inr (omega arith), (inr (omega arith), (inl (omega arith), tt))))

verify_iff_example :
    (verify_packet (codes "+$foo#44") ≡ some (codes "foo"))
    ↔ IsFramed (codes "+$foo#44") (codes "foo")
verify_iff_example = verify_iff (codes "+$foo#44") (codes "foo")

ok_Skips : Skips b'#' (codes "OK")
ok_Skips = plain b'O' (omega arith) (omega arith) (plain b'K' (omega arith) (omega arith) nil)

verify-frame_example : verify_packet (frame false (codes "OK")) ≡ some (codes "OK")
verify-frame_example = verify-frame (codes "OK") ok_Skips

verify_corrupted_example :
    verify_packet (
      b'$'
      ∷ ((codes "O" ++ b'K' ∷ []) ++ b'#' ∷ encode_byte_string (checksum (codes "O" ++ b'L' ∷ []))))
    ≡ none
verify_corrupted_example =
    verify_corrupted (codes "O") [] b'L' b'K' (omega arith) (omega arith) (omega arith) ok_Skips

parse-encode_thread_id_example :
    parse_thread_id sample 0 (encode_thread_id sample 1234 17)
    ≡ some (record { has_pid = true; pid = some (pos 1234); tid = pos 17 })
parse-encode_thread_id_example =
    parse-encode_thread_id sample sample_laws 0 1234 17 (omega arith) (omega arith)

abbrev rip : List (ℕ × Bytes)
rip = (16, codes "dea0") ∷ []

rip-IsRegister : All IsRegister rip
rip-IsRegister = ((omega arith, λ e. ground arith, dead), tt)

abbrev created : Option Bytes
created = some (codes "create")

created-IsReason : IsReason created
created-IsReason = omega arith

read-build_example :
    (text : Bytes) × (signal_packet sample 11 1234 17 rip created
      ≡ some (b'T' ∷ (encode_byte_string (reported 11 created) ++ text)))
    × (read_fields (length text) text ≡ some (signal_fields sample 1234 17 rip created))
read-build_example =
    read-build sample sample_laws 11 1234 17 rip created (omega arith) rip-IsRegister
      created-IsReason

abbrev pub listing : List Bytes
listing = codes "ls" ∷ codes "-l" ∷ []

listing-IsArg : All IsArg listing
listing-IsArg = ground arith

ls_line : argv_to_string listing ≡ codes "ls -l"
unfolding argv_to_string append_args
ls_line = refl

words_of_line : build_argv (codes " ls  -l ") ≡ listing
unfolding build_argv argv_rounds skip_spaces word after_word
words_of_line = refl

base_of_path : basename (codes "/bin/ls") ≡ codes "ls"
unfolding basename last_part
base_of_path = refl

base_of_slash : basename (codes "/") ≡ codes "/"
unfolding basename last_part
base_of_slash = refl

escaped_line : escape_non_printable_string (codes "a" ++ 10 ∷ []) ≡ codes "a\\x0a"
unfolding escape_non_printable_string encode_byte_string half_byte_to_hex_char
escaped_line = refl
