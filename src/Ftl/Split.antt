-- ===== src/Ftl/Split.antt =====
-- Splitting a text at a separator, as `FtlLaws` asks for it.
use gdbserver.Base.{
  All-map, ◌∙◌, append_assoc, append-nil, Lacks, ◌≢◌, ap, ℕ, List, [], ◌∷◌, ◌++◌, Bytes, ◌≡◌, refl,
  ◌==◌, if◌then◌else◌, All, arith,
}
use gdbserver.Ftl.{join, IsPart}

-- The parts of a text between separators, in order.
unfoldable pub cut : ℕ → Bytes → Bytes → List Bytes
cut sep [] part = part ∷ []
cut sep (c ∷ s) part =
    let here = part ∷ cut sep s [] in
    let there = cut sep s (part ++ c ∷ []) in if c == sep then here else there

unfoldable pub non_empty : List Bytes → List Bytes
non_empty [] = []
non_empty ([] ∷ ps) = non_empty ps
non_empty ((c ∷ p) ∷ ps) = (c ∷ p) ∷ non_empty ps

pub cut-Lacks : (sep : ℕ) (b part : Bytes) → Lacks sep b → cut sep b part ≡ (part ++ b) ∷ []
unfolding cut
cut-Lacks sep [] part h = ground (arith, append-nil part)
cut-Lacks sep (c ∷ b) part (n, h) =
    ground (arith, cut-Lacks sep b (part ++ c ∷ []) h, append_assoc part (c ∷ []) b)

pub cut-append :
    (sep : ℕ) (a b part : Bytes)
    → Lacks sep a
    → cut sep (a ++ sep ∷ b) part ≡ (part ++ a) ∷ cut sep b []
unfolding cut
cut-append sep [] b part h = ground (arith, append-nil part)
cut-append sep (c ∷ a) b part (n, h) =
    ground (arith, cut-append sep a b (part ++ c ∷ []) h, append_assoc part (c ∷ []) a)

pub cut_two :
    (sep : ℕ) (a b : Bytes) → Lacks sep a → Lacks sep b → cut sep (a ++ sep ∷ b) [] ≡ a ∷ b ∷ []
cut_two sep a b ha hb = ground (arith, cut-append sep a b [] ha, cut-Lacks sep b [] hb)

pub non_empty_cons : (a : Bytes) (l : List Bytes) → a ≢ [] → non_empty (a ∷ l) ≡ a ∷ non_empty l
unfolding non_empty
non_empty_cons [] l p = absurd (p refl)
non_empty_cons (x ∷ a) l p = refl

pub non_empty_two : (a b : Bytes) → a ≢ [] → b ≢ [] → non_empty (a ∷ b ∷ []) ≡ a ∷ b ∷ []
unfolding non_empty
non_empty_two [] b p q = absurd (p refl)
non_empty_two (x ∷ a) [] p q = absurd (q refl)
non_empty_two (x ∷ a) (y ∷ b) p q = refl

pub cut-join :
    (sep : ℕ) (ps : List Bytes) → All (IsPart sep) ps → non_empty (cut sep (join sep ps) []) ≡ ps
unfolding cut non_empty
cut-join sep [] h = refl
cut-join sep (p ∷ []) ((some_p, h), _) =
    ap non_empty (cut-Lacks sep p [] (All-map (λ c i. i.1) p h)) ∙ non_empty_cons p [] some_p
cut-join sep (p ∷ q ∷ ps) ((some_p, h), hs) =
    ap non_empty (cut-append sep p (join sep (q ∷ ps)) [] (All-map (λ c i. i.1) p h))
    ∙ (non_empty_cons p _ some_p ∙ ap (λ l. p ∷ l) (cut-join sep (q ∷ ps) hs))
