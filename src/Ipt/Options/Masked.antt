-- ===== src/Ipt/Options/Masked.antt =====
-- The mask of the reserved bits of CR3_MATCH.
use Prim.Native.Nat.{digits, bit_and-bitwise}
use gdbserver.Base.{ℕ, zero, suc, ◌+◌, ◌*◌, ◌/◌, ◌%◌, ◌≤◌, ◌≡◌, min, bit_and, refl, arith}

-- The digits of `bit_and`, of `n` at most.
abbrev and_digits : ℕ → ℕ → ℕ → ℕ
and_digits = digits (λ b. zero) min

and_digits_step :
    (n a b : ℕ)
    → a ≤ n
    → (n' : ℕ) × (a / 2 ≤ n')
      × (and_digits n a b ≡ and_digits n' (a / 2) (b / 2) * 2 + min (a % 2) (b % 2))
and_digits_step zero zero b h = (0, omega arith, omega arith)
and_digits_step zero (suc a) b h = absurd (omega arith)
and_digits_step (suc n) zero b h = (0, omega arith, omega arith)
and_digits_step (suc n) (suc a) b h = (n, omega arith, refl)

and_digits_zero : (n a : ℕ) → and_digits n a 0 ≡ 0
and_digits_zero zero a = refl
and_digits_zero (suc n) zero = refl
and_digits_zero (suc n) (suc a) = omega (arith, and_digits_zero n (suc a / 2))

five_digits :
    (a : ℕ) {d d0 d1 d2 d3 d4 d5 : ℕ}
    → d ≡ d0
    → d0 ≡ d1 * 2 + min (a % 2) 1
    → d1 ≡ d2 * 2 + min (a / 2 % 2) 1
    → d2 ≡ d3 * 2 + min (a / 2 / 2 % 2) 1
    → d3 ≡ d4 * 2 + min (a / 2 / 2 / 2 % 2) 1
    → d4 ≡ d5 * 2 + min (a / 2 / 2 / 2 / 2 % 2) 1
    → d5 ≡ 0
    → d ≡ a % 32
five_digits a p p0 p1 p2 p3 p4 p5 = omega arith

pub bit_and-mask : (a : ℕ) → bit_and a 0x1f ≡ a % 32
bit_and-mask a =
    let (n1, h1, e1) = and_digits_step a a 31 (omega arith) in
    let (n2, h2, e2) = and_digits_step n1 (a / 2) 15 h1 in
    let (n3, h3, e3) = and_digits_step n2 (a / 2 / 2) 7 h2 in
    let (n4, h4, e4) = and_digits_step n3 (a / 2 / 2 / 2) 3 h3 in
    let (n5, h5, e5) = and_digits_step n4 (a / 2 / 2 / 2 / 2) 1 h4 in
    let z = and_digits_zero n5 (a / 2 / 2 / 2 / 2 / 2) in
    let w : bit_and a 0x1f ≡ and_digits a a 31 = bit_and-bitwise a 31 in
    five_digits a w e1 e2 e3 e4 e5 z
