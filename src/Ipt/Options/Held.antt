-- ===== src/Ipt/Options/Held.antt =====
-- bin/ipt/main.cc: what holds of the result of an option, if there is one.
use gdbserver.Base.{
  subst, ◌≡◌, Bool, true, false, Option, none, some, Bytes, bytes_eq, if◌then◌else◌, ◌>>=◌, refl,
}
use mathlib.Core.Option.{some-injective}
use gdbserver.Ipt.Config.{IptConfig}
use gdbserver.Ipt.Options.{with_parsed, begins_with, with_value, with_flag, parse_flag}

-- What a result satisfies, if there is one.
pub data Holds {A : Type 0} (P : A → Type 0) : Option A → Type 0 where
  of_none : Holds P none
  of_some : (a : A) → P a → Holds P (some a)

pub bind-Holds :
    {A B : Type 0} (P : B → Type 0) (o : Option A) (k : A → Option B)
    → ((a : A) → o ≡ some a → Holds P (k a))
    → Holds P (o >>= k)
bind-Holds P none k h = of_none
bind-Holds P (some a) k h = h a refl

pub Holds-some : {A : Type 0} (P : A → Type 0) (o : Option A) (a : A) → Holds P o → o ≡ some a → P a
Holds-some P _ a of_none e = absurd (cc)
Holds-some P _ a (of_some b p) e = subst P (some-injective _ _ e) p

module _ (P : IptConfig → Type 0) (o : Bytes) where
  with_value-Holds :
      (prefix : Bytes) (parse : Bytes → Option IptConfig) (otherwise : Option IptConfig)
      → ((arg : Bytes) → Holds P (parse arg))
      → Holds P otherwise
      → Holds P (with_value o prefix parse otherwise)
  with_value-Holds prefix parse otherwise h k = go (begins_with o prefix)
    where
      go :
          (arg : Option Bytes)
          → Holds P (elim arg as (λ _. Option IptConfig) [ none ↦ otherwise | some a ↦ parse a ])
      go none = k
      go (some arg) = h arg

  pub with_parsed-Holds :
      {A : Type 0} (prefix : Bytes) (parse : Bytes → Option A) (set : A → IptConfig)
      (otherwise : Option IptConfig)
      → ((a : A) (arg : Bytes) → parse arg ≡ some a → P (set a))
      → Holds P otherwise
      → Holds P (with_parsed o prefix parse set otherwise)
  with_parsed-Holds prefix parse set otherwise h k =
      with_value-Holds prefix (λ arg. do value ← parse arg; some (set value)) otherwise
        (λ arg. bind-Holds P (parse arg) _ (λ value e. of_some (set value) (h value arg e))) k

  pub with_flag-Holds :
      (name prefix : Bytes) (set : Bool → IptConfig) (otherwise : Option IptConfig)
      → ((value : Bool) → P (set value))
      → Holds P otherwise
      → Holds P (with_flag o name prefix set otherwise)
  with_flag-Holds name prefix set otherwise h k =
      go (bytes_eq o name) _
        (with_parsed-Holds prefix parse_flag set otherwise (λ value _ _. h value) k)
    where
      go :
          (b : Bool) (x : Option IptConfig) → Holds P x → Holds P (if b then some (set true) else x)
      go true x k = of_some (set true) (h true)
      go false x k = k
