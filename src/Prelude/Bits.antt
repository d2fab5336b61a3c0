-- ===== src/Prelude/Bits.antt =====
-- Laws of the bitwise operations at variables, from their digit recursion.
use Prim.Native.Nat.{ℕ, zero, suc, ◌+◌, ◌-◌, ◌*◌, ◌/◌, ◌%◌, ◌^◌, ◌≤◌, ◌<◌, min, max}
use Prim.Native.Nat.{bit_and, bit_or, digits, bit_and-bitwise, bit_or-bitwise}
use mathlib.Core.Path.{◌≡◌, ap, sym, ◌∙◌}
use native.Mathlib.Omega.{arith}
use native.Mathlib.Nat.{
  pow-succ', one-le-pow, mul-add-mod_self_left, mod-eq_of_lt, add_comm, add-mul-div_left,
  div-add-mod, mod-lt, div-eq_of_lt, zero-add, suc-add, pow-zero,
}

-- An operation that is given by its digit recursion, at the count of digits that it starts from.
module _ (z : ℕ → ℕ) (f : ℕ → ℕ → ℕ) (op : ℕ → ℕ → ℕ)
    (starts : (a b : ℕ) → op a b ≡ digits z f a a b) where
  -- Any count that is enough gives the operation; `bound` is above all the counts that occur.
  enough_digits : (bound count a b : ℕ) → count ≤ bound → a ≤ count → digits z f count a b ≡ op a b
  enough_digits bound zero a b below enough =
      let none_left : a ≡ 0 = omega arith in rw none_left (sym (starts 0 b))
  enough_digits bound (suc count) zero b below enough = sym (starts 0 b)
  enough_digits zero (suc count) (suc a) b below enough = absurd (omega arith)
  enough_digits (suc bound) (suc count) (suc a) b below enough =
      let half = suc a / 2 in
      let here = enough_digits bound count half (b / 2) (omega arith) (omega arith) in
      let there = enough_digits bound a half (b / 2) (omega arith) (omega arith) in
      ap (λ t. t * 2 + f (suc a % 2) (b % 2)) (here ∙ sym there) ∙ sym (starts (suc a) b)

  lowest_digit : (a b : ℕ) → op (suc a) b ≡ op (suc a / 2) (b / 2) * 2 + f (suc a % 2) (b % 2)
  lowest_digit a b =
      starts (suc a) b
      ∙ ap (λ t. t * 2 + f (suc a % 2) (b % 2))
          (enough_digits a a (suc a / 2) (b / 2) (omega arith) (omega arith))

pub bit_and-halves : (a b : ℕ) → bit_and a b ≡ bit_and (a / 2) (b / 2) * 2 + min (a % 2) (b % 2)
bit_and-halves (suc a) b = lowest_digit (λ _. 0) min bit_and bit_and-bitwise a b
bit_and-halves zero b = omega (arith, bit_and-bitwise 0 (b / 2), bit_and-bitwise 0 b)

pub bit_or-halves : (a b : ℕ) → bit_or a b ≡ bit_or (a / 2) (b / 2) * 2 + max (a % 2) (b % 2)
bit_or-halves (suc a) b = lowest_digit (λ t. t) max bit_or bit_or-bitwise a b
bit_or-halves zero b = omega (arith, bit_or-bitwise 0 (b / 2), bit_or-bitwise 0 b)

-- Induction on the binary digits.
module _ (P : ℕ → Type 0) (base : P 0) (step : (a : ℕ) → P (suc a / 2) → P (suc a)) where
  below_bound : (bound a : ℕ) → a ≤ bound → P a
  below_bound bound zero h = base
  below_bound zero (suc a) h = absurd (omega arith)
  below_bound (suc bound) (suc a) h = step a (below_bound bound (suc a / 2) (omega arith))

  by_halves : (a : ℕ) → P a
  by_halves a = below_bound a a (omega arith)

pub bit_or-zero : (a : ℕ) → bit_or a 0 ≡ a
bit_or-zero =
    by_halves (λ a. bit_or a 0 ≡ a) (bit_or-bitwise 0 0)
      λ a ih. omega (arith, bit_or-halves (suc a) 0, ih)

-- `x << k | y` is a sum when `y` has `k` digits.
pub bit_or_low : (k x y : ℕ) → y < 2 ^ k → bit_or (x * 2 ^ k) y ≡ x * 2 ^ k + y
bit_or_low zero x y h = let e : y ≡ 0 = omega arith in rw e (bit_or-zero _ ∙ omega arith)
bit_or_low (suc k) x y h =
    let p = pow-succ' 2 k in
    let e : x * 2 ^ suc k / 2 ≡ x * 2 ^ k = omega (arith, ap (λ (t : ℕ). x * t) p) in
    let m : x * 2 ^ suc k % 2 ≡ 0 = omega (arith, ap (λ (t : ℕ). x * t) p) in
    let step = bit_or-halves (x * 2 ^ suc k) y in
    let ih = bit_or_low k x (y / 2) (omega arith) in
    omega (arith, step, ap (λ (t : ℕ). bit_or t (y / 2)) e, ih, m, ap (λ (t : ℕ). x * t) p)

-- `y | x << k`, the other way round.
pub bit_or_high : (k x y : ℕ) → y < 2 ^ k → bit_or y (x * 2 ^ k) ≡ y + x * 2 ^ k
bit_or_high zero x y h = let e : y ≡ 0 = omega arith in rw e (bit_or-bitwise 0 _ ∙ omega arith)
bit_or_high (suc k) x y h =
    let p = pow-succ' 2 k in
    let e : x * 2 ^ suc k / 2 ≡ x * 2 ^ k = omega (arith, ap (λ (t : ℕ). x * t) p) in
    let m : x * 2 ^ suc k % 2 ≡ 0 = omega (arith, ap (λ (t : ℕ). x * t) p) in
    let step = bit_or-halves y (x * 2 ^ suc k) in
    let ih = bit_or_high k x (y / 2) (omega arith) in
    omega (arith, step, ap (λ (t : ℕ). bit_or (y / 2) t) e, ih, m, ap (λ (t : ℕ). x * t) p)

pub mod_unique : (m q r n : ℕ) → n ≡ m * q + r → r < m → n % m ≡ r
mod_unique m q r n e h = rw (e, mul-add-mod_self_left) (mod-eq_of_lt h)

pub div_unique : (m q r n : ℕ) → n ≡ m * q + r → r < m → n / m ≡ q
div_unique m q r n e h =
    rw (e, add_comm, add-mul-div_left r q {y = m} (omega arith)) (rw (div-eq_of_lt h) (omega arith))

pub mod_pow_suc : (k a : ℕ) → a % 2 ^ suc k ≡ a / 2 % 2 ^ k * 2 + a % 2
mod_pow_suc k a =
    let p = pow-succ' 2 k in
    let d = div-add-mod (a / 2) (2 ^ k) in
    let lt = mod-lt (a / 2) {m = 2 ^ k} (one-le-pow k 2 (omega arith)) in
    mod_unique (2 ^ suc k) (a / 2 / 2 ^ k) _ a
      (omega (arith, d, p, ap (λ (t : ℕ). t * (a / 2 / 2 ^ k)) p)) (omega (arith, lt, p))

pub bit_and-zero : (a : ℕ) → bit_and a 0 ≡ 0
bit_and-zero =
    by_halves (λ a. bit_and a 0 ≡ 0) (bit_and-bitwise 0 0)
      λ a ih. omega (arith, bit_and-halves (suc a) 0, ih)

pub bit_and-one : (a : ℕ) → bit_and a 1 ≡ a % 2
bit_and-one a = omega (arith, bit_and-halves a 1, bit_and-zero (a / 2))

-- A mask of `k` ones keeps the low `k` digits.
pub bit_and_mask : (k a : ℕ) → bit_and a (2 ^ k - 1) ≡ a % 2 ^ k
bit_and_mask zero a = bit_and-zero a ∙ omega arith
bit_and_mask (suc k) a =
    let p = pow-succ' 2 k in
    let one = one-le-pow k 2 (omega arith) in
    let e : (2 ^ suc k - 1) / 2 ≡ 2 ^ k - 1 = omega (arith, p, one) in
    let m : (2 ^ suc k - 1) % 2 ≡ 1 = omega (arith, p, one) in
    omega (
      arith,
      bit_and-halves a (2 ^ suc k - 1),
      ap (λ (t : ℕ). bit_and (a / 2) t) e,
      m,
      bit_and_mask k (a / 2),
      mod_pow_suc k a,
    )

pub pow_add : (b m n : ℕ) → b ^ (m + n) ≡ b ^ m * b ^ n
pow_add b zero n =
    omega (arith, ap (λ (t : ℕ). b ^ t) (zero-add n), ap (λ (t : ℕ). t * b ^ n) (pow-zero b))
pow_add b (suc m) n =
    ap (λ (t : ℕ). b ^ t) (suc-add m n)
    ∙ pow-succ' b (m + n)
    ∙ omega
        (arith, ap (λ (t : ℕ). b * t) (pow_add b m n), ap (λ (t : ℕ). t * b ^ n) (pow-succ' b m))

-- Limbs of 32 bits.
pub pow_limbs : (n : ℕ) → 4294967296 ^ n ≡ 2 ^ (n * 32)
pow_limbs zero = ap (λ (t : ℕ). 2 ^ t) {x = 0} {y = 0 * 32} (omega arith)
pow_limbs (suc n) =
    pow-succ' 4294967296 n
    ∙ omega (arith, pow_limbs n, pow_add 2 32 (n * 32))
    ∙ ap (λ (t : ℕ). 2 ^ t) {x = 32 + n * 32} (omega arith)
