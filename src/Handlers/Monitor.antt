-- ===== src/Handlers/Monitor.antt =====
-- The monitor commands of qRcmd (bin/debugserver/cmd-handler.cc), with SetParameter and GetParameter
-- of bin/debugserver/server.cc.
use gdbserver.Base.{
  ℕ, Bool, true, false, Option, none, some, List, [], ◌∷◌, ◌++◌, Bytes, ◌||◌, bytes_eq, leb,
  if◌then◌else◌, ◌>>=◌, codes, ℤ, pos, negsuc,
}
use gdbserver.Hex.{encode_string, decode_string}
use gdbserver.Ftl.{Ftl}

-- The log level in ftl's settings, and whether the server was told to quit with success.
pub record Monitor : Type 0 where
  pub min_log_level : ℤ
  pub quit_posted : Bool

-- What ftl makes of the settings: LOG_NUM_SEVERITIES, and GetMinLogLevel for a level that is set.
pub record LogCalls : Type 0 where
  pub num_severities : ℕ
  pub get_min_log_level : ℤ → ℤ

-- `verbosity >= static_cast<int>(ftl::LOG_NUM_SEVERITIES)`
abbrev pub at_least : ℤ → ℕ → Bool
at_least (pos v) n = leb n v
at_least (negsuc v) n = false

abbrev pub help_text : Bytes
help_text =
    codes "help - print this help text\n"
    ++ (codes "exit - quit debugserver\n"
        ++ (codes "quit - quit debugserver\n"
            ++ (codes "set <parameter> <value>\n"
                ++ (codes "show <parameter>\n"
                    ++ (codes "\n"
                        ++ (codes "Parameters:\n"
                            ++ codes
                                "  verbosity - useful range is -2 to 3 (-2 is most verbose)\n"))))))

module _ (log : LogCalls) (f : Ftl) where
  -- SetParameter; `none` is a return of false.
  unfoldable pub set_parameter : Bytes → Bytes → Monitor → Option Monitor
  set_parameter parameter value m =
      if bytes_eq parameter (codes "verbosity")
      then (do
        verbosity ← f.decimal_to_int value
        if at_least verbosity log.num_severities
            then none
            else some (record m { min_log_level = verbosity }))
      else none

  -- GetParameter
  unfoldable pub get_parameter : Bytes → Monitor → Option Bytes
  get_parameter parameter m =
      if bytes_eq parameter (codes "verbosity")
      then some (f.int_to_decimal (log.get_min_log_level m.min_log_level))
      else none

  -- The label bad_command of HandleQueryRcmd.
  abbrev pub bad_command : Monitor → Monitor × Bytes
  bad_command m = (m, encode_string (codes "Invalid command\n"))

  -- The commands of HandleQueryRcmd, with the arguments behind the command.
  unfoldable pub quit_command : List Bytes → Monitor → Monitor × Bytes
  quit_command [] m = (record m { quit_posted = true }, codes "OK")
  quit_command (a ∷ more) m = bad_command m

  unfoldable pub help_command : List Bytes → Monitor → Monitor × Bytes
  help_command [] m = (m, encode_string help_text)
  help_command (a ∷ more) m = bad_command m

  unfoldable pub set_command : List Bytes → Monitor → Monitor × Bytes
  set_command (parameter ∷ value ∷ []) m = elim (set_parameter parameter value m) [
    | none ↦ bad_command m
    | some m' ↦ (m', codes "OK")
  ]
  set_command [] m = bad_command m
  set_command (parameter ∷ []) m = bad_command m
  set_command (parameter ∷ value ∷ a ∷ more) m = bad_command m

  unfoldable pub show_command : List Bytes → Monitor → Monitor × Bytes
  show_command (parameter ∷ []) m = elim (get_parameter parameter m) [
    | none ↦ bad_command m
    | some value ↦ (m, encode_string (codes "Value is " ++ (value ++ codes "\n")))
  ]
  show_command [] m = bad_command m
  show_command (parameter ∷ a ∷ more) m = bad_command m

  unfoldable pub run_command : List Bytes → Monitor → Monitor × Bytes
  run_command [] m = (m, codes "OK")
  run_command (cmd ∷ args) m =
      if bytes_eq cmd (codes "quit") || bytes_eq cmd (codes "exit")
      then quit_command args m
      else if bytes_eq cmd (codes "help")
      then help_command args m
      else if bytes_eq cmd (codes "set")
      then set_command args m
      else if bytes_eq cmd (codes "show")
      then show_command args m
      else (m, encode_string (codes "Invalid monitor command\n"))

  -- HandleQueryRcmd: the response, beside the new state. It always returns true.
  unfoldable pub query_rcmd : Bytes → Monitor → Monitor × Bytes
  query_rcmd command m = run_command (f.split_trimmed (decode_string command) b' ') m
