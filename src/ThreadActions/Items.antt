-- ===== src/ThreadActions/Items.antt =====
-- The parts of a vCont action list: their print, and reading one of them.
use gdbserver.Base.{
  sym, ℕ, ◌^◌, ◌<◌, true, false, none, some, List, [], ◌∷◌, ◌++◌, Bytes, ◌≡◌, ◌≢◌, refl, arith,
  Lacks, All, pos, append_assoc,
}
use gdbserver.Ftl.{Ftl, FtlLaws}
use gdbserver.Hex.Digits.{IsHexChar}
use gdbserver.ThreadId.{parse_thread_id, encode_thread_id}
use gdbserver.ThreadId.RoundTrip.{hex-Lacks, encode-Lacks, parse-encode_thread_id}
use gdbserver.ThreadActions.{
  Action, continue_action, step_action, is_none_action, Entry, decode_action, entry_of, one_action,
}

-- An action that a packet can name.
pub data Verb : Type 0 where
  continues steps : Verb

abbrev pub action_of : Verb → Action
action_of continues = continue_action
action_of steps = step_action

abbrev pub letter : Verb → ℕ
letter continues = b'c'
letter steps = b's'

-- One part of an action list: the default action, or one for a thread of the current process or
-- of a process that is named.
pub data Item : Type 0 where
  default_item : Verb → Item
  thread_item : Verb → ℕ → Item
  process_item : Verb → ℕ → ℕ → Item

module _ (f : Ftl) where
  unfoldable pub print_item : Item → Bytes
  print_item (default_item v) = letter v ∷ []
  print_item (thread_item v tid) = letter v ∷ b':' ∷ f.number_to_hex tid
  print_item (process_item v pid tid) = letter v ∷ b':' ∷ encode_thread_id f pid tid

  -- The items joined by semicolons.
  unfoldable pub print_items : Item → List Item → Bytes
  print_items i [] = print_item i
  print_items i (j ∷ js) = print_item i ++ b';' ∷ print_items j js

-- Ids as the protocol can print them for this parser; one without a process id needs a current process.
abbrev pub IsPlain : ℕ → Item → Type 0
IsPlain cur (default_item v) = Unit
IsPlain cur (thread_item v tid) = (0 < cur) × (tid < 2 ^ 63)
IsPlain cur (process_item v pid tid) = (0 < pid) × (pid < 2 ^ 63) × (tid < 2 ^ 63)

-- What the items mean: the default action, where `d` holds so far, and the entries in order.
abbrev pub default_of : Action → List Item → Action
default_of d [] = d
default_of d (default_item v ∷ is) = default_of (action_of v) is
default_of d (thread_item v tid ∷ is) = default_of d is
default_of d (process_item v pid tid ∷ is) = default_of d is

abbrev pub entries_of : ℕ → List Item → List Entry
entries_of cur [] = []
entries_of cur (default_item v ∷ is) = entries_of cur is
entries_of cur (thread_item v tid ∷ is) =
    record { action = action_of v; pid = cur; tid = tid } ∷ entries_of cur is
entries_of cur (process_item v pid tid ∷ is) =
    record { action = action_of v; pid = pid; tid = tid } ∷ entries_of cur is

-- At most one default action, and none where `d` is one already.
abbrev pub OneDefault : Action → List Item → Type 0
OneDefault d [] = Unit
OneDefault d (default_item v ∷ is) = (is_none_action d ≡ true) × OneDefault (action_of v) is
OneDefault d (thread_item v tid ∷ is) = OneDefault d is
OneDefault d (process_item v pid tid ∷ is) = OneDefault d is

module _ (f : Ftl) (laws : FtlLaws f) (uninit cur : ℕ) (fits : cur < 2 ^ 63) where
  letter_ne : (v : Verb) → letter v ≢ b';'
  letter_ne continues = omega arith
  letter_ne steps = omega arith

  pub print_item-Lacks : (i : Item) → Lacks b';' (print_item f i)
  unfolding print_item
  print_item-Lacks (default_item v) = (letter_ne v, tt)
  print_item-Lacks (thread_item v tid) =
      (letter_ne v, (omega arith, hex-Lacks f laws b';' (λ h. ground arith) tid))
  print_item-Lacks (process_item v pid tid) = (
    letter_ne v,
    (omega arith, encode-Lacks f laws b';' (λ h. ground arith) (omega arith) (omega arith) pid tid),
  )

  parse_plain_text :
      (tid : ℕ) (text : Bytes)
      → All IsHexChar text
      → text ≢ []
      → f.string_to_i64 text ≡ some (pos tid)
      → parse_thread_id f uninit text ≡ some (record { has_pid = false; pid = none; tid = pos tid })
  unfolding parse_thread_id
  parse_plain_text tid [] h ne e = absurd (ne refl)
  parse_plain_text tid (c ∷ rest) (hc, h) ne e = ground arith

  entry_of_thread :
      (v : Verb) (tid : ℕ)
      → 0 < cur
      → tid < 2 ^ 63
      → entry_of f uninit cur (action_of v) (f.number_to_hex tid)
        ≡ some (some (record { action = action_of v; pid = cur; tid = tid }))
  unfolding entry_of
  entry_of_thread v tid hc h = ground (
    arith,
    parse_plain_text tid (f.number_to_hex tid) (laws.hex_chars tid) (laws.hex_some tid)
        (laws.i64_hex tid h),
  )

  entry_of_process :
      (v : Verb) (pid tid : ℕ)
      → 0 < pid
      → pid < 2 ^ 63
      → tid < 2 ^ 63
      → entry_of f uninit cur (action_of v) (encode_thread_id f pid tid)
        ≡ some (some (record { action = action_of v; pid = pid; tid = tid }))
  unfolding entry_of
  entry_of_process v pid tid p hp ht =
      ground (arith, parse-encode_thread_id f laws uninit pid tid hp ht)

  decode-letter : (v : Verb) → decode_action (letter v) ≡ some (action_of v)
  unfolding decode_action
  decode-letter continues = refl
  decode-letter steps = refl

  -- The text behind `c:` is not empty, so the action is not taken for a default action.
  one_action_with_id :
      (v : Verb) (text : Bytes) (d : Action) (es : List Entry) (e : Entry)
      → entry_of f uninit cur (action_of v) text ≡ some (some e)
      → one_action f uninit cur (letter v ∷ b':' ∷ text) d es ≡ some (some (d, es ++ e ∷ []))
  unfolding one_action
  one_action_with_id v text d es e h = ground (arith, decode-letter v)

  -- One item is read as it is meant.
  pub one_action-print :
      (i : Item) (is : List Item) (d : Action) (es : List Entry)
      → IsPlain cur i
      → OneDefault d (i ∷ is)
      → (d' : Action) × (es' : List Entry) × (one_action f uninit cur (print_item f i) d es
          ≡ some (some (d', es')))
        × (default_of d (i ∷ is) ≡ default_of d' is)
        × (es ++ entries_of cur (i ∷ is) ≡ es' ++ entries_of cur is)
        × OneDefault d' is
  unfolding print_item one_action
  one_action-print (default_item v) is d es p (o, o') =
      (action_of v, es, ground (arith, decode-letter v), refl, refl, o')
  one_action-print (thread_item v tid) is d es (hc, p) o =
      let e : Entry = record { action = action_of v; pid = cur; tid = tid } in
      (
        d,
        es ++ e ∷ [],
        one_action_with_id v (f.number_to_hex tid) d es e (entry_of_thread v tid hc p),
        refl,
        sym (append_assoc es (e ∷ []) (entries_of cur is)),
        o,
      )
  one_action-print (process_item v pid tid) is d es (p0, p, t) o =
      let e : Entry = record { action = action_of v; pid = pid; tid = tid } in
      (
        d,
        es ++ e ∷ [],
        one_action_with_id v (encode_thread_id f pid tid) d es e
            (entry_of_process v pid tid p0 p t),
        refl,
        sym (append_assoc es (e ∷ []) (entries_of cur is)),
        o,
      )
