-- ===== src/ThreadActions/Parse.antt =====
-- The constructor of ThreadActionList on the action lists of Items.antt.
use gdbserver.Base.{
  ℕ, zero, suc, ◌+◌, ◌^◌, ◌≤◌, ◌<◌, true, none, some, List, [], ◌∷◌, ◌++◌, Bytes, ◌≡◌, refl, length,
  find, take, drop, find-append, find-Lacks, take-append, drop_after, length-append, arith, Lacks,
  All, append-nil, Option-cases, inl, inr, length-drop,
}
use gdbserver.Ftl.{Ftl, FtlLaws}
use gdbserver.ThreadActions.Items.{
  Item, default_item, thread_item, process_item, print_item, print_items, IsPlain, default_of,
  entries_of, OneDefault, print_item-Lacks, one_action-print,
}
use gdbserver.ThreadActions.{
  Action, none_action, Entry, ThreadActionList, one_action, parse_loop, thread_action_list,
}

module _ (f : Ftl) (laws : FtlLaws f) (uninit cur : ℕ) (fits : cur < 2 ^ 63) where
  length-print_item : (i : Item) → 0 < length (print_item f i)
  unfolding print_item
  length-print_item (default_item v) = omega arith
  length-print_item (thread_item v tid) = omega arith
  length-print_item (process_item v pid tid) = omega arith

  abbrev meaning : Action → List Entry → List Item → ThreadActionList
  meaning d es is = record {
    valid = true;
    default_action = default_of d is;
    actions = es ++ entries_of cur is;
  }

  -- One round of the loop at the last item, and at an item with more behind it.
  loop_last :
      (fuel : ℕ) (text : Bytes) (d d' : Action) (es es' : List Entry)
      → 0 < length text
      → Lacks b';' text
      → one_action f uninit cur text d es ≡ some (some (d', es'))
      → parse_loop f uninit cur (suc fuel) text d es
        ≡ some (record { valid = true; default_action = d'; actions = es' })
  unfolding parse_loop
  loop_last fuel [] d d' es es' h l e = absurd (omega arith)
  loop_last fuel (c ∷ rest) d d' es es' h l e = ground (arith, find-Lacks b';' (c ∷ rest) l)

  loop_more :
      (fuel : ℕ) (text rest : Bytes) (d d' : Action) (es es' : List Entry)
      → 0 < length text
      → Lacks b';' text
      → one_action f uninit cur text d es ≡ some (some (d', es'))
      → parse_loop f uninit cur (suc fuel) (text ++ b';' ∷ rest) d es
        ≡ parse_loop f uninit cur fuel rest d' es'
  unfolding parse_loop
  loop_more fuel [] rest d d' es es' h l e = absurd (omega arith)
  loop_more fuel (c ∷ text) rest d d' es es' h l e = ground (
    arith,
    find-append b';' (c ∷ text) rest l,
    take-append (length (c ∷ text)) (c ∷ text) (b';' ∷ rest) refl,
    drop_after (length (c ∷ text)) (c ∷ text) rest b';' refl,
  )

  length-print_items : (i : Item) (is : List Item) → 0 < length (print_items f i is)
  unfolding print_items
  length-print_items i [] = length-print_item i
  length-print_items i (j ∷ js) =
      omega (arith, length-print_item i, length-append (print_item f i) (b';' ∷ print_items f j js))

  loop-print :
      (i : Item) (is : List Item) (fuel : ℕ) (d : Action) (es : List Entry)
      → All (IsPlain cur) (i ∷ is)
      → OneDefault d (i ∷ is)
      → length (print_items f i is) ≤ fuel
      → parse_loop f uninit cur fuel (print_items f i is) d es ≡ some (meaning d es (i ∷ is))
  unfolding print_items
  loop-print i is zero d es p o h = absurd (omega (arith, length-print_items i is))
  loop-print i [] (suc fuel) d es (p, _) o h =
      let (d', es', one, def, ents, o') = one_action-print f laws uninit cur fits i [] d es p o in
      ground (
        arith,
        loop_last fuel (print_item f i) d d' es es' (length-print_item i)
            (print_item-Lacks f laws uninit cur fits i) one,
        def,
        ents,
        append-nil es',
      )
  loop-print i (j ∷ js) (suc fuel) d es (p, ps) o h =
      let (d', es', one, def, ents, o') =
        one_action-print f laws uninit cur fits i (j ∷ js) d es p o in
      let rest = print_items f j js in
      let short : length rest ≤ fuel =
        omega (arith, length-print_item i, length-append (print_item f i) (b';' ∷ rest)) in
      ground (
        arith,
        loop_more fuel (print_item f i) rest d d' es es' (length-print_item i)
            (print_item-Lacks f laws uninit cur fits i) one,
        loop-print j js fuel d' es' ps o' short,
        def,
        ents,
      )

  -- The items of a list that is not empty, with ids below 2^63, process ids that are not zero and
  -- at most one default action, are read back from their print: no check fails, the list is valid, and has the
  -- default action and the entries that the items mean, in order. An item without a process id is for the
  -- current process, which has to be there for it: its id is not zero, and below 2^63 too.
  pub thread_action_list-print :
      (i : Item) (is : List Item)
      → All (IsPlain cur) (i ∷ is)
      → OneDefault none_action (i ∷ is)
      → thread_action_list f uninit cur (print_items f i is)
        ≡ some (record {
          valid = true;
          default_action = default_of none_action (i ∷ is);
          actions = entries_of cur (i ∷ is);
        })
  unfolding thread_action_list
  thread_action_list-print i is p o =
      let text = print_items f i is in
      ground (
        arith,
        length-print_items i is,
        loop-print i is (length text) none_action [] p o (omega arith),
      )

module _ (f : Ftl) (uninit cur : ℕ) where
  -- Any two amounts of fuel from the length of the text on give the same list: the loop is never
  -- cut short.
  parse_loop_fuel :
      (n m : ℕ) (str : Bytes) (d : Action) (es : List Entry)
      → length str ≤ n
      → length str ≤ m
      → parse_loop f uninit cur n str d es ≡ parse_loop f uninit cur m str d es
  unfolding parse_loop
  parse_loop_fuel zero m [] d es h k = refl
  parse_loop_fuel (suc n) m [] d es h k = refl
  parse_loop_fuel zero m (c ∷ rest) d es h k = absurd (omega arith)
  parse_loop_fuel (suc n) zero (c ∷ rest) d es h k = absurd (omega arith)
  parse_loop_fuel (suc n) (suc m) (c ∷ rest) d es h k = elim (Option-cases (find b';' (c ∷ rest))) [
    | inl e ↦ ground arith
    | inr (i, e) ↦
        let left = drop (i + 1) (c ∷ rest) in
        let shorter : length left ≤ length rest = omega (arith, length-drop (i + 1) (c ∷ rest)) in
        let text = take i (c ∷ rest) in
        elim (Option-cases (one_action f uninit cur text d es)) [
          | inl q ↦ ground arith
          | inr (none, q) ↦ ground arith
          | inr (some r, q) ↦
              let same = parse_loop_fuel n m left r.0 r.1 (omega arith) (omega arith) in
              ground (arith, same)
        ]
  ]
