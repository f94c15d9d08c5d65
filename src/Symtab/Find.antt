-- ===== src/Symtab/Find.antt =====
-- FindSymbol and CompareSymbol (lib/debugger-utils/elf-symtab.cc).
use gdbserver.Base.{
  get_elem?-some, sym, ◌&&◌, ◌∙◌, ap, ℕ, zero, suc, ◌+◌, ◌-◌, ◌/◌, ◌^◌, ◌%◌, ◌≤◌, ◌<◌, ◌≡◌, ◌==◌,
  ◌⊎◌, inl, inr, true, false, Option, none, some, List, arith, refl, ltb, leb, if◌then◌else◌,
  length, get_elem?, get_elem?-lt, Bool-cases, ℤ, pos, negsuc,
}
use mathlib.Core.Option.{some-injective}
use gdbserver.Symtab.{Symbol, end_of, to_int, compare_symbol, search_symbol, bsearch, find_symbol}

-- The symbol has the address among its bytes; or it begins there, and may have no bytes.
abbrev pub Covers : Symbol → ℕ → Type 0
Covers s a = (s.addr ≤ a) × (a < s.addr + s.size)

abbrev pub Hits : Symbol → ℕ → Type 0
Hits s a = (s.addr ≤ a) × ((a < s.addr + s.size) ⊎ (a ≡ s.addr))

-- Symbols in the order of their addresses that do not overlap, below an address.
abbrev pub IsOrdered : List Symbol → ℕ → Type 0
IsOrdered symbols limit =
    (i j : ℕ) (x y : Symbol)
    → get_elem? symbols i ≡ some x
    → get_elem? symbols j ≡ some y
    → (x.addr + x.size ≤ limit) × (i < j → x.addr + x.size ≤ y.addr)

-- What a search is to give.
abbrev pub Finds : List Symbol → ℕ → Option Symbol → Type 0
Finds symbols a none = (i : ℕ) (x : Symbol) → get_elem? symbols i ≡ some x → Covers x a → ⊥
Finds symbols a (some s) = ((i : ℕ) × (get_elem? symbols i ≡ some s)) × Hits s a

-- The sign of a comparison of an address with a symbol.
pub data Sign (a : ℕ) (s : Symbol) : ℤ → Type 0 where
  hit : {c : ℤ} → c ≡ pos 0 → Hits s a → Sign a s c
  above : {c : ℤ} (k : ℕ) → c ≡ pos (suc k) → s.addr + s.size ≤ a → s.addr < a → Sign a s c
  below : {c : ℤ} (k : ℕ) → c ≡ negsuc k → a < s.addr → Sign a s c

to_int_pos : (n : ℕ) → n < 2 ^ 31 → to_int n ≡ pos n
unfolding to_int
to_int_pos n h =
    let e : n % 2 ^ 32 ≡ n = omega arith in
    let t : ltb (n % 2 ^ 32) (2 ^ 31) ≡ true = ground arith in rw t (ap pos e)

to_int_neg : (n : ℕ) → 2 ^ 31 ≤ n % 2 ^ 32 → to_int n ≡ negsuc (2 ^ 32 - n % 2 ^ 32 - 1)
unfolding to_int
to_int_neg n h = let t : ltb (n % 2 ^ 32) (2 ^ 31) ≡ false = ground arith in rw t refl

compare-Sign :
    (a : ℕ) (s : Symbol)
    → a < 2 ^ 31
    → s.addr + s.size ≤ 2 ^ 31
    → Sign a s (compare_symbol (search_symbol a) s)
unfolding compare_symbol
compare-Sign a s ha hs =
    let e : end_of s ≡ s.addr + s.size = omega arith in
    let e' : (a + 0) % 2 ^ 64 ≡ a = omega arith in
    elim (Bool-cases (leb s.addr a && ltb a (end_of s))) [
      | inl t ↦ rw t (hit refl (ground arith, inl (ground arith)))
      | inr t ↦
          let out : (leb a s.addr && ltb s.addr ((a + 0) % 2 ^ 64)) ≡ false = ground arith in
          rw t (rw out (apart a s ha hs (ground arith)))
    ]
  where
    apart :
        (a : ℕ) (s : Symbol)
        → a < 2 ^ 31
        → s.addr + s.size ≤ 2 ^ 31
        → (a < s.addr) ⊎ (s.addr + s.size ≤ a)
        → Sign a s (to_int ((a + 2 ^ 64 - s.addr) % 2 ^ 64))
    apart a s ha hs (inl lt) =
        below _ (to_int_neg ((a + 2 ^ 64 - s.addr) % 2 ^ 64) (omega arith)) lt
    apart a s ha hs (inr le) =
        let d : (a + 2 ^ 64 - s.addr) % 2 ^ 64 ≡ a - s.addr = omega arith in
        rw d (elim (Bool-cases (a == s.addr)) [
          | inl z ↦
              hit (to_int_pos (a - s.addr) (omega arith) ∙ ap pos (ground arith))
                (ground arith, inr (ground arith))
          | inr n ↦
              above (a - s.addr - 1) (to_int_pos (a - s.addr) (omega arith) ∙ ap pos (ground arith))
                le (ground arith)
        ])

module _ (symbols : List Symbol) (a : ℕ) (ha : a < 2 ^ 31)
    (ordered : IsOrdered symbols (2 ^ 31)) where
  -- All symbols that have the address are among the `n` from `base` on.
  abbrev Within : ℕ → ℕ → Type 0
  Within base n =
      (i : ℕ) (x : Symbol) → get_elem? symbols i ≡ some x → Covers x a → (base ≤ i) × (i < base + n)

  -- The branches of a round.
  abbrev chosen : ℤ → Symbol → Option Symbol → Option Symbol → Option Symbol
  chosen c item before behind = elim c [
    | negsuc k ↦ before
    | pos k ↦ if k == 0 then some item else behind
  ]

  chosen-Finds :
      (i : ℕ) (item : Symbol) {c : ℤ} (before behind : Option Symbol)
      → get_elem? symbols i ≡ some item
      → Sign a item c
      → (a < item.addr → Finds symbols a before)
      → (item.addr + item.size ≤ a → item.addr < a → Finds symbols a behind)
      → Finds symbols a (chosen c item before behind)
  chosen-Finds i item before behind e (hit z h) f g = rw z ((i, e), h)
  chosen-Finds i item before behind e (above k z le lt) f g =
      let more : (suc k == 0) ≡ false = ground arith in rw z (rw more (g le lt))
  chosen-Finds i item before behind e (below k z lt) f g = rw z (f lt)

  -- Where the symbols that have the address are, once the one at `m` is not among them.
  before_middle :
      (base n m : ℕ) (item : Symbol)
      → get_elem? symbols m ≡ some item
      → m ≡ base + n / 2
      → Within base n
      → a < item.addr
      → Within base (n / 2)
  before_middle base n m item e em w lt i x ex c =
      let p = w i x ex c in
      let o = ordered m i item x e ex in
      elim (Bool-cases (ltb i m)) [
        | inl l ↦ (p.0, ground arith)
        | inr l ↦ elim (Bool-cases (i == m)) [
          | inl q ↦
              let same : x ≡ item =
                some-injective _ _ (sym ex ∙ ap (get_elem? symbols) (ground arith) ∙ e) in
              absurd (omega (arith, ap (λ (s : Symbol). s.addr) same))
          | inr q ↦ absurd (let far = o.1 (ground arith) in omega arith)
        ]
      ]

  behind_middle :
      (base n m : ℕ) (item : Symbol)
      → get_elem? symbols m ≡ some item
      → m ≡ base + n / 2
      → Within base n
      → item.addr + item.size ≤ a
      → Within (base + n / 2 + 1) (n - n / 2 - 1)
  behind_middle base n m item e em w le i x ex c =
      let p = w i x ex c in
      let o = ordered i m x item ex e in
      elim (Bool-cases (ltb m i)) [
        | inl l ↦ (ground arith, ground arith)
        | inr l ↦ elim (Bool-cases (i == m)) [
          | inl q ↦
              let same : x ≡ item =
                some-injective _ _ (sym ex ∙ ap (get_elem? symbols) (ground arith) ∙ e) in
              absurd
                (omega (arith, ap (λ (s : Symbol). s.addr) same, ap (λ (s : Symbol). s.size) same))
          | inr q ↦ absurd (let far = o.1 (ground arith) in omega arith)
        ]
      ]

  bsearch-Finds :
      (fuel base n : ℕ)
      → n < fuel
      → base + n ≤ length symbols
      → Within base n
      → Finds symbols a (bsearch fuel (compare_symbol (search_symbol a)) symbols base n)
  unfolding bsearch
  bsearch-Finds zero base n h r w = absurd (omega arith)
  bsearch-Finds (suc fuel) base n h r w = elim (Bool-cases (n == 0)) [
    | inl z ↦ rw z (λ i x e c. let p = w i x e c in absurd (ground arith))
    | inr z ↦
        let (item, e) = get_elem?-lt symbols (base + n / 2) (ground arith) in
        let s = compare-Sign a item ha (ordered _ _ item item e e).0 in
        rw z (
          rw e (
            chosen-Finds (base + n / 2) item _ _ e s
              (λ lt.
                bsearch-Finds fuel base (n / 2) (ground arith) (ground arith)
                  (before_middle base n _ item e refl w lt))
              (λ le lt.
                bsearch-Finds fuel (base + n / 2 + 1) (n - n / 2 - 1) (ground arith) (ground arith)
                  (behind_middle base n _ item e refl w le))))
  ]

-- Of symbols in the order of their addresses, which do not overlap and all end at 2 ^ 31 or below, and an
-- address below 2 ^ 31: FindSymbol gives a symbol of the table that has the address among its bytes or begins at
-- it, and nothing only if no symbol of the table has the address among its bytes.
pub find_symbol-Finds :
    (symbols : List Symbol) (a : ℕ)
    → a < 2 ^ 31
    → IsOrdered symbols (2 ^ 31)
    → Finds symbols a (find_symbol symbols a)
unfolding find_symbol
find_symbol-Finds symbols a ha ordered =
    bsearch-Finds symbols a ha ordered (suc (length symbols)) 0 (length symbols) (omega arith)
      (omega arith) (λ i x e c. (omega arith, omega (arith, get_elem?-some symbols i e)))

-- CompareSymbol returns its difference of addresses as an int: of two symbols that do not overlap, the one
-- at the higher address comes out as the lower one if it is 2 ^ 31 to 2 ^ 32 - 1 higher.
compare_symbol-reversed :
    (a b : Symbol)
    → b.addr + b.size ≤ a.addr
    → a.addr + a.size < 2 ^ 64
    → b.addr + 2 ^ 31 ≤ a.addr
    → a.addr < b.addr + 2 ^ 32
    → (k : ℕ) × (compare_symbol a b ≡ negsuc k)
unfolding compare_symbol
compare_symbol-reversed a b apart wide far near =
    let e : (b.addr + b.size) % 2 ^ 64 ≡ b.addr + b.size = omega arith in
    let e' : (leb b.addr a.addr && ltb a.addr ((b.addr + b.size) % 2 ^ 64)) ≡ false =
      ground arith in
    let f : (leb a.addr b.addr && ltb b.addr ((a.addr + a.size) % 2 ^ 64)) ≡ false = ground arith in
    let n = (a.addr + 2 ^ 64 - b.addr) % 2 ^ 64 in
    (2 ^ 32 - n % 2 ^ 32 - 1, rw e' (rw f (to_int_neg n (omega arith))))
