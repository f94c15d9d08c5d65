-- ===== src/Dso/Chain.antt =====
-- dso_fetch_list (lib/debugger-utils/dso-list.cc) over link maps that come to an end.
use gdbserver.Base.{
  ℕ, zero, suc, ◌+◌, ◌≤◌, ◌≡◌, ◌≢◌, ◌==◌, Bool, true, false, Option, none, some, List, [], arith,
  if◌then◌else◌, refl, Bytes, ◌⊎◌, inl, inr, Bool-cases, Option-cases, is_empty,
}
use gdbserver.ByteBlock.{ByteBlock, read_string, c_string}
use gdbserver.Elf.{Reader, Result, ok, err, create}
use gdbserver.Dso.{
  Dso, insert_dso, close_dso, finish_dso, complete_dso, link_map_of, fresh_dso, fetch_dso,
  fetch_dsos, dso_fetch_list, dso_lookup,
}
use gdbserver.Dso.Order.{IsSorted, IsNearest, fetch-lookup}

-- No check fails for the object of an ELF reader, from `m` of fuel on.
abbrev pub Completes : ℕ → Result Reader → Type 0
Completes m (err e) = Unit
Completes m (ok er) =
    (fuel : ℕ) (is_main_exec : Bool) (dso : Dso)
    → m ≤ fuel
    → complete_dso fuel is_main_exec er dso ≢ none

-- From a link map on, `n` link maps lead to a null pointer or to memory that is not readable, and each has an object for
-- which no check fails.
pub data Chain (bb : ByteBlock) (m : ℕ) : ℕ → ℕ → Type 0 where
  ends : Chain bb m 0 0
  unreadable : (lmap : ℕ) → bb lmap 40 ≡ none → Chain bb m lmap 0
  link :
      (lmap n : ℕ) (bytes : Bytes)
      → bb lmap 40 ≡ some bytes
      → Completes m (create bb (link_map_of bytes).l_addr)
      → Chain bb m (link_map_of bytes).l_next n
      → Chain bb m lmap (suc n)

-- How a round ends: there is a list, and the loop breaks or goes on at the next link map.
abbrev Goes : ℕ → Option (List Dso × ℕ) → Type 0
Goes next r =
    (list : List Dso) × (next' : ℕ) × (r ≡ some (list, next')) × ((next' ≡ 0) ⊎ (next' ≡ next))

finish_dso-Goes :
    (fuel m : ℕ) (is_main_exec : Bool) (list : List Dso) (next : ℕ) (dso : Dso) (r : Result Reader)
    → Completes m r
    → m ≤ fuel
    → Goes next (finish_dso fuel is_main_exec list next dso r)
unfolding finish_dso close_dso
finish_dso-Goes fuel m is_main_exec list next dso (err e) c h = (_, 0, refl, inl refl)
finish_dso-Goes fuel m is_main_exec list next dso (ok er) c h =
    elim (Option-cases (complete_dso fuel is_main_exec er dso)) [
      | inl e ↦ absurd (c fuel is_main_exec dso h e)
      | inr (done, e) ↦ (insert_dso done list, next, rw e refl, inr refl)
    ]

fetch_dso-Goes :
    (fuel m : ℕ) (bb : ByteBlock) (name : Bytes) (is_main_exec : Bool) (list : List Dso)
    (bytes : Bytes)
    → Completes m (create bb (link_map_of bytes).l_addr)
    → m ≤ fuel
    → Goes (link_map_of bytes).l_next (fetch_dso fuel bb name is_main_exec list (some bytes))
unfolding fetch_dso fresh_dso
fetch_dso-Goes fuel m bb name is_main_exec list bytes c h =
    let lmap = link_map_of bytes in
    let s = read_string bb lmap.l_name 64 in
    let text = c_string s.0 in
    let dso = fresh_dso (if is_empty text then name else text) lmap.l_addr in
    let done =
      finish_dso-Goes fuel m is_main_exec list lmap.l_next dso (create bb lmap.l_addr) c h in
    elim s.1
      as (λ readable. Goes lmap.l_next (
        if readable
        then finish_dso fuel is_main_exec list lmap.l_next dso (create bb dso.base)
        else some (list, 0))) [ true ↦ done | false ↦ (list, 0, refl, inl refl) ]

fetch_unreadable :
    (fuel : ℕ) (bb : ByteBlock) (name : Bytes) (is_main_exec : Bool) (list : List Dso)
    → fetch_dso fuel bb name is_main_exec list none ≡ some (list, 0)
unfolding fetch_dso
fetch_unreadable fuel bb name is_main_exec list = refl

abbrev Returns : Option (List Dso) → Type 0
Returns r = (list : List Dso) × (r ≡ some list)

fetch_dsos_end :
    (fuel : ℕ) (bb : ByteBlock) (name : Bytes) (is_main_exec : Bool) (list : List Dso)
    → fetch_dsos (suc fuel) bb name is_main_exec list 0 ≡ some list
unfolding fetch_dsos
fetch_dsos_end fuel bb name is_main_exec list = refl

fetch_dsos_step :
    (fuel : ℕ) (bb : ByteBlock) (name : Bytes) (is_main_exec : Bool) (list list' : List Dso)
    (lmap next : ℕ)
    → (lmap == 0) ≡ false
    → fetch_dso fuel bb name is_main_exec list (bb lmap 40) ≡ some (list', next)
    → Returns (fetch_dsos fuel bb name false list' next)
    → Returns (fetch_dsos (suc fuel) bb name is_main_exec list lmap)
unfolding fetch_dsos
fetch_dsos_step fuel bb name is_main_exec list list' lmap next z e (result, h) =
    (result, rw z (rw e h))

fetch_dsos-Returns :
    (fuel m : ℕ) (bb : ByteBlock) (name : Bytes) (is_main_exec : Bool) (list : List Dso)
    (lmap n : ℕ)
    → Chain bb m lmap n
    → n + m + 2 ≤ fuel
    → Returns (fetch_dsos fuel bb name is_main_exec list lmap)
fetch_dsos-Returns zero m bb name is_main_exec list lmap n c h = absurd (omega arith)
fetch_dsos-Returns (suc zero) m bb name is_main_exec list lmap n c h = absurd (omega arith)
fetch_dsos-Returns (suc (suc fuel)) m bb name is_main_exec list lmap n c h =
    elim (Bool-cases (lmap == 0)) [
      | inl z ↦
          let null : lmap ≡ 0 = ground arith in
          rw null (list, fetch_dsos_end (suc fuel) bb name is_main_exec list)
      | inr z ↦
          go lmap n c z h
            (λ list' next k. fetch_dsos-Returns (suc fuel) m bb name false list' next k)
    ]
  where
    go :
        (lmap n : ℕ)
        → Chain bb m lmap n
        → (lmap == 0) ≡ false
        → n + m + 2 ≤ suc (suc fuel)
        → ((list' : List Dso) (next k : ℕ)
            → Chain bb m next k
            → k + m + 2 ≤ suc fuel
            → Returns (fetch_dsos (suc fuel) bb name false list' next))
        → Returns (fetch_dsos (suc (suc fuel)) bb name is_main_exec list lmap)
    go lmap n ends z h later = absurd (cc)
    go lmap n (unreadable _ e) z h later =
        fetch_dsos_step (suc fuel) bb name is_main_exec list list lmap 0 z
          (rw e (fetch_unreadable (suc fuel) bb name is_main_exec list))
          (list, fetch_dsos_end fuel bb name false list)
    go lmap n (link _ k bytes e c rest) z h later =
        let (list', next, r, place) =
          fetch_dso-Goes (suc fuel) m bb name is_main_exec list bytes c (omega arith) in
        elim place [
          | inl null ↦
              fetch_dsos_step (suc fuel) bb name is_main_exec list list' lmap next z (rw e r)
                (rw null (list', fetch_dsos_end fuel bb name false list'))
          | inr goes ↦
              fetch_dsos_step (suc fuel) bb name is_main_exec list list' lmap next z (rw e r)
                (rw goes (later list' (link_map_of bytes).l_next k rest (omega arith)))
        ]

-- Where n link maps that lead to a null pointer or to memory that is not readable, and no object fails a check with `m` of
-- fuel: dso_fetch_list returns a list from n + m + 2 of fuel on, sorted by falling base addresses, and a lookup in it of
-- any address gives an object of the list that starts at or below the address, as no other does at a higher base, or
-- nothing, if every object starts above it.
pub dso_fetch_list-Chain :
    (fuel m n : ℕ) (bb : ByteBlock) (lmap : ℕ) (name : Bytes) (pc : ℕ)
    → Chain bb m lmap n
    → n + m + 2 ≤ fuel
    → (list : List Dso) × (dso_fetch_list fuel bb lmap name ≡ some list)
      × IsSorted list
      × IsNearest list pc (dso_lookup list pc)
unfolding dso_fetch_list
dso_fetch_list-Chain fuel m n bb lmap name pc c h =
    let (list, e) = fetch_dsos-Returns fuel m bb name true [] lmap n c h in
    let (sorted, nearest) = fetch-lookup fuel bb lmap name list pc e in (list, e, sorted, nearest)
