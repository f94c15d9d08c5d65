-- ===== src/StopReply/Printed.antt =====
-- Fields `key:value;` as a stop reply has them, printed and read.
use gdbserver.Base.{
  ap, ℕ, zero, suc, ◌+◌, ◌≤◌, Option, none, some, List, [], ◌∷◌, ◌++◌, Bytes, ◌≡◌, refl, ◌>>=◌,
  find, find-append, take, drop, take-append, drop_after, length, length-append, arith, Lacks, All,
  append_assoc,
}

pub record Field : Type 0 where
  pub key : Bytes
  pub value : Bytes

abbrev pub print_fields : List Field → Bytes
print_fields [] = []
print_fields (x ∷ xs) = x.key ++ b':' ∷ (x.value ++ b';' ∷ print_fields xs)

-- A reader of fields, as a debugger has it: each key ends at a colon, each value at a semicolon.
pub read_fields : ℕ → Bytes → Option (List Field)
read_fields fuel [] = some []
read_fields zero (c ∷ rest) = none
read_fields (suc fuel) (c ∷ rest) = do
  colon ← find b':' (c ∷ rest)
  let behind = drop (colon + 1) (c ∷ rest)
  semi ← find b';' behind
  more ← read_fields fuel (drop (semi + 1) behind)
  some (record { key = take colon (c ∷ rest); value = take semi behind } ∷ more)

abbrev pub IsField : Field → Type 0
IsField x = Lacks b':' x.key × Lacks b';' x.value

pub read_round :
    (fuel : ℕ) (text : Bytes) (x : Field) (rest : Bytes)
    → IsField x
    → text ≡ x.key ++ b':' ∷ (x.value ++ b';' ∷ rest)
    → read_fields (suc fuel) text ≡ (do more ← read_fields fuel rest; some (x ∷ more))
unfolding read_fields
read_round fuel [] x rest h e =
    absurd (omega (arith, ap length e, length-append x.key (b':' ∷ (x.value ++ b';' ∷ rest))))
read_round fuel (c ∷ t) x rest (hk, hv) e =
    let behind = x.value ++ b';' ∷ rest in
    let colon : find b':' (c ∷ t) ≡ some (length x.key) = rw e (find-append b':' x.key behind hk) in
    let key : take (length x.key) (c ∷ t) ≡ x.key =
      rw e (take-append (length x.key) x.key (b':' ∷ behind) refl) in
    let left : drop (length x.key + 1) (c ∷ t) ≡ behind =
      rw e (drop_after (length x.key) x.key behind b':' refl) in
    ground (
      arith,
      colon,
      key,
      left,
      find-append b';' x.value rest hv,
      take-append (length x.value) x.value (b';' ∷ rest) refl,
      drop_after (length x.value) x.value rest b';' refl,
    )

pub length-print :
    (x : Field) (rest : Bytes)
    → length (x.key ++ b':' ∷ (x.value ++ b';' ∷ rest))
      ≡ length x.key + length x.value + length rest + 2
length-print x rest = omega (
  arith,
  length-append x.key (b':' ∷ (x.value ++ b';' ∷ rest)),
  length-append x.value (b';' ∷ rest),
)

pub read-print_fields :
    (xs : List Field) (fuel : ℕ)
    → All IsField xs
    → length (print_fields xs) ≤ fuel
    → read_fields fuel (print_fields xs) ≡ some xs
read-print_fields [] zero h le = unfold read_fields in refl
read-print_fields [] (suc fuel) h le = unfold read_fields in refl
read-print_fields (x ∷ xs) zero h le = absurd (omega (arith, length-print x (print_fields xs)))
read-print_fields (x ∷ xs) (suc fuel) (hx, h) le =
    let short : length (print_fields xs) ≤ fuel = omega (arith, length-print x (print_fields xs)) in
    ground (
      arith,
      read_round fuel (print_fields (x ∷ xs)) x (print_fields xs) hx refl,
      read-print_fields xs fuel h short,
    )

pub print_fields-append :
    (xs ys : List Field) → print_fields (xs ++ ys) ≡ print_fields xs ++ print_fields ys
print_fields-append [] ys = refl
print_fields-append (x ∷ xs) ys = simp (print_fields-append xs ys, append_assoc)
