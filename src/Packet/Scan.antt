-- ===== src/Packet/Scan.antt =====
-- FindUnescapedChar against the grammar of escaped text.
use gdbserver.Base.{
  ℕ, ◌+◌, false, ◌≡◌, ◌≢◌, some, [], ◌∷◌, ◌++◌, Bytes, ◌==◌, length, arith, Bool-cases, inl, inr,
  ==_iff,
}
use gdbserver.Packet.{escape_char, scan, find_unescaped_char}

-- A text that a search for `v` passes over: plain bytes other than `v`, and escape pairs.
pub data Skips (v : ℕ) : Bytes → Type 0 where
  nil : Skips v []
  plain : (c : ℕ) {s : Bytes} → c ≢ escape_char → c ≢ v → Skips v s → Skips v (c ∷ s)
  escaped : (e x : ℕ) {s : Bytes} → e ≡ escape_char → Skips v s → Skips v (e ∷ x ∷ s)

scan-Skips :
    (v : ℕ) {xs : Bytes} (ys : Bytes) (i : ℕ)
    → v ≢ escape_char
    → Skips v xs
    → scan v (xs ++ v ∷ ys) false i ≡ some (i + length xs)
unfolding scan
scan-Skips v ys i n nil = ground arith
scan-Skips v ys i n (plain c a b s) = ground (arith, scan-Skips v ys (i + 1) n s)
scan-Skips v ys i n (escaped e x a s) = ground (arith, scan-Skips v ys (i + 1 + 1) n s)

abbrev pub Found : ℕ → Bytes → ℕ → ℕ → Type 0
Found v s i j =
    (pre : Bytes) × (post : Bytes) × (s ≡ pre ++ v ∷ post) × Skips v pre × (j ≡ i + length pre)

scan_sound : (v : ℕ) (s : Bytes) (i j : ℕ) → scan v s false i ≡ some j → Found v s i j
unfolding scan
scan_sound v [] i j h = absurd (cc)
scan_sound v (c ∷ []) i j h = elim (Bool-cases (c == escape_char)) [
  | inl e ↦ absurd (ground arith)
  | inr e ↦ elim (Bool-cases (c == v)) [
    | inl q ↦ ([], [], ground arith, nil, ground arith)
    | inr q ↦ absurd (ground arith)
  ]
]
scan_sound v (c ∷ x ∷ s) i j h = elim (Bool-cases (c == escape_char)) [
  | inl e ↦
      let (pre, post, eq, sk, at) = scan_sound v s (i + 1 + 1) j (ground arith) in
      (c ∷ x ∷ pre, post, ground arith, escaped c x ((==_iff _ _).0 e) sk, ground arith)
  | inr e ↦ elim (Bool-cases (c == v)) [
    | inl q ↦ ([], x ∷ s, ground arith, nil, ground arith)
    | inr q ↦
        let (pre, post, eq, sk, at) = scan_sound v (x ∷ s) (i + 1) j (ground arith) in
        (c ∷ pre, post, ground arith, plain c (ground arith) (ground arith) sk, ground arith)
  ]
]

-- A search that succeeds stops at an occurrence before which every byte is plain and different,
-- or stands in an escape pair.
pub find_unescaped_sound :
    (v : ℕ) (s : Bytes) (j : ℕ) → find_unescaped_char v s ≡ some j → Found v s 0 j
unfolding find_unescaped_char
find_unescaped_sound v s j h = scan_sound v s 0 j h

pub find_unescaped_complete :
    (v : ℕ) {xs : Bytes} (ys : Bytes)
    → v ≢ escape_char
    → Skips v xs
    → find_unescaped_char v (xs ++ v ∷ ys) ≡ some (length xs)
unfolding find_unescaped_char
find_unescaped_complete v {xs} ys n s = ground (arith, scan-Skips v ys 0 n s)
