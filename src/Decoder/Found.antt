-- ===== src/Decoder/Found.antt =====
-- What the searches of the decoder find: processes, load maps and build ids.
use gdbserver.Base.{
  ltb, leb, bytes_eq_iff, ◌&&◌, ℕ, ◌<◌, ◌≤◌, ◌≡◌, ◌⊎◌, inl, inr, Option, none, some, List, [], ◌∷◌,
  Bytes, ◌==◌, arith, refl, All, bytes_eq, Bool-cases,
}
use gdbserver.BuildIds.{BuildId, lookup_build_id}
use gdbserver.LoadMaps.{LoadMap, lookup_load_map}
use gdbserver.Decoder.{Process, process_by_cr3}

-- What a search through a list gives: an element with the property, or nothing if no element has it.
abbrev pub Has : {A : Type 0} → A → List A → Type 0
Has x [] = ⊥
Has x (y ∷ ys) = (x ≡ y) ⊎ Has x ys

abbrev pub Found : {A : Type 0} → (A → Type 0) → List A → Option A → Type 0
Found P xs none = All (λ x. ¬ P x) xs
Found P xs (some x) = Has x xs × P x

Found-later :
    {A : Type 0} (P : A → Type 0) (y : A) (ys : List A) (o : Option A)
    → ¬ P y
    → Found P ys o
    → Found P (y ∷ ys) o
Found-later P y ys none n f = (n, f)
Found-later P y ys (some x) n (h, p) = (inr h, p)

-- A process has the cr3; any has it where no cr3 is known and there are no other processes.
abbrev pub HasCr3 : ℕ → ℕ → ℕ → Process → Type 0
HasCr3 no_cr3 size cr3 p = (p.cr3 ≡ cr3) ⊎ ((cr3 ≡ no_cr3) × (size ≡ 1))

-- A map of the process holds the address.
abbrev pub Covers : ℕ → ℕ → LoadMap → Type 0
Covers pid addr m = (pid ≡ m.pid) × (m.load_addr ≤ addr) × (addr < m.end_addr)

pub process_by_cr3-Found :
    (no_cr3 size : ℕ) (processes : List Process) (cr3 : ℕ)
    → Found (HasCr3 no_cr3 size cr3) processes (process_by_cr3 no_cr3 size processes cr3)
unfolding process_by_cr3
process_by_cr3-Found no_cr3 size [] cr3 = tt
process_by_cr3-Found no_cr3 size (p ∷ processes) cr3 = elim (Bool-cases (p.cr3 == cr3)) [
  | inl e ↦ rw e (inl refl, inl (ground arith))
  | inr e ↦ elim (Bool-cases (cr3 == no_cr3 && size == 1)) [
    | inl e' ↦ rw e (rw e' (inl refl, inr (ground arith)))
    | inr e' ↦
        let no : ¬ HasCr3 no_cr3 size cr3 p =
          λ h. elim h [ inl q ↦ ground arith | inr (q, r) ↦ ground arith ] in
        rw e (
          rw e' (
            Found-later (HasCr3 no_cr3 size cr3) p processes _ no
              (process_by_cr3-Found no_cr3 size processes cr3)))
  ]
]

pub lookup_load_map-Found :
    (maps : List LoadMap) (pid addr : ℕ)
    → Found (Covers pid addr) maps (lookup_load_map maps pid addr)
unfolding lookup_load_map
lookup_load_map-Found [] pid addr = tt
lookup_load_map-Found (m ∷ maps) pid addr =
    elim (Bool-cases (pid == m.pid && (leb m.load_addr addr && ltb addr m.end_addr))) [
      | inl e ↦ rw e (inl refl, (ground arith, ground arith, ground arith))
      | inr e ↦
          let no : ¬ Covers pid addr m = λ (a, b, c). ground arith in
          rw e (Found-later (Covers pid addr) m maps _ no (lookup_load_map-Found maps pid addr))
    ]

pub lookup_build_id-Found :
    (table : List BuildId) (bid : Bytes)
    → Found (λ b. bid ≡ b.build_id) table (lookup_build_id table bid)
unfolding lookup_build_id
lookup_build_id-Found [] bid = tt
lookup_build_id-Found (b ∷ table) bid = elim (Bool-cases (bytes_eq bid b.build_id)) [
  | inl e ↦ rw e (inl refl, (bytes_eq_iff bid b.build_id).0 e)
  | inr e ↦
      let no : ¬ (bid ≡ b.build_id) =
        λ h. let q = (bytes_eq_iff bid b.build_id).1 h in ground (arith, q, e) in
      rw e (Found-later (λ b. bid ≡ b.build_id) b table _ no (lookup_build_id-Found table bid))
]
