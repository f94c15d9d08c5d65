-- ===== src/Dso/Order.antt =====
-- The order of the list of DSOs, and what a lookup finds (lib/debugger-utils/dso-list.cc).
use gdbserver.Base.{
  ℕ, zero, suc, ◌≤◌, ◌<◌, ◌≡◌, ◌==◌, Bool, true, false, Option, none, some, List, [], ◌∷◌, arith,
  All, All-map, ltb, leb, if◌then◌else◌, refl, Bytes, ◌⊎◌, inl, inr, Bool-cases, is_empty, subst,
}
use gdbserver.ByteBlock.{ByteBlock, read_string, c_string}
use gdbserver.Elf.{Reader, Result, ok, err, create}
use mathlib.Core.Option.{some-injective}
use gdbserver.Dso.{
  Dso, insert_dso, dso_lookup, close_dso, finish_dso, complete_dso, link_map_of, fresh_dso,
  fetch_dso, fetch_dsos, dso_fetch_list,
}

-- Bases fall along the list.
abbrev pub IsSorted : List Dso → Type 0
IsSorted [] = Unit
IsSorted (d ∷ list) = All (λ x. x.base ≤ d.base) list × IsSorted list

-- The list has the object.
abbrev pub Has : Dso → List Dso → Type 0
Has dso [] = ⊥
Has dso (d ∷ list) = (dso ≡ d) ⊎ Has dso list

-- What a lookup of an address is to give: an object of the list that starts at or below it, and no
-- other does so at a higher base; nothing only if every object starts above the address.
abbrev pub IsNearest : List Dso → ℕ → Option Dso → Type 0
IsNearest list pc none = All (λ d. pc < d.base) list
IsNearest list pc (some dso) =
    Has dso list × (dso.base ≤ pc) × All (λ d. d.base ≤ pc → d.base ≤ dso.base) list

insert_dso-All :
    (n : ℕ) (dso : Dso) (list : List Dso)
    → dso.base ≤ n
    → All (λ x. x.base ≤ n) list
    → All (λ x. x.base ≤ n) (insert_dso dso list)
unfolding insert_dso
insert_dso-All n dso [] h all = (h, tt)
insert_dso-All n dso (d ∷ list) h (hd, all) = elim (Bool-cases (ltb d.base dso.base)) [
  | inl e ↦ rw e (h, (hd, all))
  | inr e ↦ rw e (hd, insert_dso-All n dso list h all)
]

insert_dso-IsSorted : (dso : Dso) (list : List Dso) → IsSorted list → IsSorted (insert_dso dso list)
unfolding insert_dso
insert_dso-IsSorted dso [] h = (tt, tt)
insert_dso-IsSorted dso (d ∷ list) (hd, h) = elim (Bool-cases (ltb d.base dso.base)) [
  | inl e ↦
      let lt : d.base < dso.base = ground arith in
      rw e ((omega arith, All-map (λ x p. omega arith) list hd), (hd, h))
  | inr e ↦
      let le : dso.base ≤ d.base = ground arith in
      rw e (insert_dso-All d.base dso list le hd, insert_dso-IsSorted dso list h)
]

dso_lookup-IsNearest :
    (list : List Dso) (pc : ℕ) → IsSorted list → IsNearest list pc (dso_lookup list pc)
unfolding dso_lookup
dso_lookup-IsNearest [] pc h = tt
dso_lookup-IsNearest (d ∷ list) pc (hd, h) = elim (Bool-cases (leb d.base pc)) [
  | inl e ↦ rw e (inl refl, ground arith, ((λ _. omega arith), All-map (λ x p _. p) list hd))
  | inr e ↦
      let above : pc < d.base = ground arith in
      rw e (nearest_behind d list pc above (dso_lookup list pc) (dso_lookup-IsNearest list pc h))
]
  where
    nearest_behind :
        (d : Dso) (list : List Dso) (pc : ℕ)
        → pc < d.base
        → (found : Option Dso) → IsNearest list pc found
        → IsNearest (d ∷ list) pc found
    nearest_behind d list pc above none all = (above, all)
    nearest_behind d list pc above (some dso) (has, le, all) =
        (inr has, le, ((λ p. absurd (omega arith)), all))

-- The list of a round that comes to an end is sorted.
abbrev EndsSorted : Option (List Dso × ℕ) → Type 0
EndsSorted none = Unit
EndsSorted (some (list, next)) = IsSorted list

close_dso-EndsSorted :
    (list : List Dso) (next : ℕ) (done : Option Dso)
    → IsSorted list
    → EndsSorted (close_dso list next done)
unfolding close_dso
close_dso-EndsSorted list next none h = tt
close_dso-EndsSorted list next (some dso) h = insert_dso-IsSorted dso list h

finish_dso-EndsSorted :
    (fuel : ℕ) (is_main_exec : Bool) (list : List Dso) (next : ℕ) (dso : Dso) (r : Result Reader)
    → IsSorted list
    → EndsSorted (finish_dso fuel is_main_exec list next dso r)
unfolding finish_dso
finish_dso-EndsSorted fuel is_main_exec list next dso (err e) h = insert_dso-IsSorted dso list h
finish_dso-EndsSorted fuel is_main_exec list next dso (ok er) h =
    close_dso-EndsSorted list next (complete_dso fuel is_main_exec er dso) h

fetch_dso-EndsSorted :
    (fuel : ℕ) (bb : ByteBlock) (name : Bytes) (is_main_exec : Bool) (list : List Dso)
    (r : Option Bytes)
    → IsSorted list
    → EndsSorted (fetch_dso fuel bb name is_main_exec list r)
unfolding fetch_dso
fetch_dso-EndsSorted fuel bb name is_main_exec list none h = h
fetch_dso-EndsSorted fuel bb name is_main_exec list (some bytes) h =
    let lmap = link_map_of bytes in
    let s = read_string bb lmap.l_name 64 in
    let text = c_string s.0 in
    let dso = fresh_dso (if is_empty text then name else text) lmap.l_addr in
    let done =
      finish_dso-EndsSorted fuel is_main_exec list lmap.l_next dso (create bb dso.base) h in
    elim s.1
      as (λ readable. EndsSorted (
        if readable
        then finish_dso fuel is_main_exec list lmap.l_next dso (create bb dso.base)
        else some (list, 0))) [ true ↦ done | false ↦ h ]

fetch_dsos-IsSorted :
    (fuel : ℕ) (bb : ByteBlock) (name : Bytes) (is_main_exec : Bool) (list : List Dso) (lmap : ℕ)
    {result : List Dso}
    → IsSorted list
    → fetch_dsos fuel bb name is_main_exec list lmap ≡ some result
    → IsSorted result
unfolding fetch_dsos
fetch_dsos-IsSorted zero bb name is_main_exec list lmap h e = absurd (cc)
fetch_dsos-IsSorted (suc fuel) bb name is_main_exec list lmap {result} h e =
    elim (Bool-cases (lmap == 0)) [
      | inl z ↦ subst IsSorted (some-injective _ _ (rw z at e)) h
      | inr z ↦
          let later = λ (l : List Dso) (n : ℕ).
            fetch_dsos-IsSorted fuel bb name false l n {result = result} in
          go fuel (fetch_dso fuel bb name is_main_exec list (bb lmap 40))
            (fetch_dso-EndsSorted fuel bb name is_main_exec list (bb lmap 40) h) (rw z at e) later
    ]
  where
    go :
        (fuel : ℕ) (r : Option (List Dso × ℕ))
        → EndsSorted r
        → elim r as (λ _. Option (List Dso)) [
          | none ↦ none
          | some (list', next) ↦ fetch_dsos fuel bb name false list' next
        ]
          ≡ some result
        → ((list : List Dso) (lmap : ℕ)
            → IsSorted list
            → fetch_dsos fuel bb name false list lmap ≡ some result
            → IsSorted result)
        → IsSorted result
    go fuel none h e later = absurd (cc)
    go fuel (some (list', next)) h e later = later list' next h e

-- Whatever link maps are in memory: a list that dso_fetch_list returns is sorted by falling base
-- addresses, and a lookup in it of any address gives an object of the list that starts at or below
-- the address, as no other does at a higher base, or nothing, if every object starts above it.
pub fetch-lookup :
    (fuel : ℕ) (bb : ByteBlock) (lmap : ℕ) (name : Bytes) (list : List Dso) (pc : ℕ)
    → dso_fetch_list fuel bb lmap name ≡ some list
    → IsSorted list × IsNearest list pc (dso_lookup list pc)
unfolding dso_fetch_list
fetch-lookup fuel bb lmap name list pc e =
    let sorted = fetch_dsos-IsSorted fuel bb name true [] lmap tt e in
    (sorted, dso_lookup-IsNearest list pc sorted)
