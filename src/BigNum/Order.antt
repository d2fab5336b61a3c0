-- ===== src/BigNum/Order.antt =====
-- bn_cmp_abs and bn_cmp (mario/mario.c), and the order of the integers.
use native.Mathlib.Nat.{pow-succ', pow-le-pow_right}
use mario_js.Prelude.{
  Bool, true, false, ◌≢◌, ℕ, ◌^◌, ◌≤◌, ◌<◌, ◌≡◌, refl, List, [], ◌∷◌, length, All, u32, ltb, ◌==◌,
  if◌then◌else◌, arith,
}
use mario_js.Prelude.Int.{ℤ, ◌<ℤ◌}
use mario_js.BigNum.{
  BigNum, Sign, minus, naught, plus, mag, to_ℤ, IsLimb, IsTrimmed, IsWf, flip, same_sign, signed,
}
use mario_js.BigNum.Limbs.{mag-lt, mag-pos}

abbrev pub compare_limbs : ℕ → ℕ → Sign
compare_limbs x y = if x == y then naught else if ltb y x then plus else minus

-- The loop from the highest limb down: the first two limbs that differ decide.
unfoldable pub cmp_limbs : List ℕ → List ℕ → Sign
cmp_limbs [] ys = naught
cmp_limbs (x ∷ xs) [] = naught
cmp_limbs (x ∷ xs) (y ∷ ys) = elim (cmp_limbs xs ys) [ naught ↦ compare_limbs x y | s ↦ s ]

unfoldable pub bn_cmp_abs : List ℕ → List ℕ → Sign
unfolding cmp_limbs
bn_cmp_abs a b =
    if length a == length b
    then cmp_limbs a b
    else if ltb (length b) (length a)
    then plus
    else minus

-- `a->sign > b->sign`
abbrev pub sign_gt : Sign → Sign → Bool
sign_gt plus plus = false
sign_gt plus _ = true
sign_gt naught minus = true
sign_gt _ _ = false

unfoldable pub bn_cmp : BigNum → BigNum → Sign
unfolding flip
bn_cmp a b =
    if same_sign a.sign b.sign
    then (elim a.sign [
      | naught ↦ naught
      | plus ↦ bn_cmp_abs a.limbs b.limbs
      | minus ↦ flip (bn_cmp_abs a.limbs b.limbs)
    ])
    else if sign_gt a.sign b.sign
    then plus
    else minus

-- What a comparison says of two numbers.
abbrev pub Orders : Sign → ℕ → ℕ → Type 0
Orders minus a b = a < b
Orders naught a b = a ≡ b
Orders plus a b = b < a

cmp_limbs-Orders :
    (xs ys : List ℕ)
    → length xs ≡ length ys
    → All IsLimb xs
    → All IsLimb ys
    → Orders (cmp_limbs xs ys) (mag xs) (mag ys)
unfolding cmp_limbs
cmp_limbs-Orders [] [] e h k = refl
cmp_limbs-Orders [] (y ∷ ys) e h k = absurd (omega arith)
cmp_limbs-Orders (x ∷ xs) [] e h k = absurd (omega arith)
cmp_limbs-Orders (x ∷ xs) (y ∷ ys) e h k = ground (arith, cmp_limbs-Orders xs ys)

-- A trimmed number with more limbs is larger.
mag-ge : (x : ℕ) (xs : List ℕ) → IsTrimmed (x ∷ xs) → u32 ^ length xs ≤ mag (x ∷ xs)
mag-ge x [] h = omega arith
mag-ge x (y ∷ ys) h = omega (arith, mag-ge y ys h, pow-succ' u32 (length ys))

longer-gt :
    (xs ys : List ℕ) → length ys < length xs → IsTrimmed xs → All IsLimb ys → mag ys < mag xs
longer-gt [] ys h t k = absurd (omega arith)
longer-gt (x ∷ xs) ys h t k = omega (
  arith,
  mag-ge x xs t,
  mag-lt ys k,
  pow-le-pow_right {n = u32} (omega arith) {i = length ys} {j = length xs} (omega arith),
)

-- bn_cmp_abs compares the magnitudes.
pub cmp_abs-Orders :
    (xs ys : List ℕ)
    → IsTrimmed xs
    → IsTrimmed ys
    → All IsLimb xs
    → All IsLimb ys
    → Orders (bn_cmp_abs xs ys) (mag xs) (mag ys)
unfolding bn_cmp_abs
cmp_abs-Orders xs ys s t h k =
    ground (arith, cmp_limbs-Orders xs ys, longer-gt xs ys, longer-gt ys xs)

pub bn_cmp_abs-Orders :
    (a b : BigNum)
    → IsWf a
    → IsWf b
    → Orders (bn_cmp_abs a.limbs b.limbs) (mag a.limbs) (mag b.limbs)
bn_cmp_abs-Orders a b v w = cmp_abs-Orders a.limbs b.limbs v.trimmed w.trimmed v.small w.small

pub mag-eq-zero : {b : BigNum} → IsWf b → b.sign ≡ naught → mag b.limbs ≡ 0
mag-eq-zero w e = rw (w.sign_zero.0 e)

limbs-pos : (xs : List ℕ) → xs ≢ [] → IsTrimmed xs → 0 < mag xs
limbs-pos [] h t = absurd (h refl)
limbs-pos (x ∷ xs) h t = mag-pos x xs t

pub mag-gt-zero : {b : BigNum} → IsWf b → b.sign ≢ naught → 0 < mag b.limbs
mag-gt-zero {b} w h = limbs-pos b.limbs (λ e. h (w.sign_zero.1 e)) w.trimmed

abbrev pub Orders_ℤ : Sign → ℤ → ℤ → Type 0
Orders_ℤ minus a b = a <ℤ b
Orders_ℤ naught a b = a ≡ b
Orders_ℤ plus a b = b <ℤ a

bn_cmp_signs :
    (s t : Sign) (xs ys : List ℕ)
    → IsWf (record { sign = s; limbs = xs })
    → IsWf (record { sign = t; limbs = ys })
    → Orders_ℤ
        (bn_cmp (record { sign = s; limbs = xs }) (record { sign = t; limbs = ys }))
        (signed s (mag xs))
        (signed t (mag ys))
unfolding bn_cmp
bn_cmp_signs plus plus xs ys v w = ground (arith, bn_cmp_abs-Orders _ _ v w)
bn_cmp_signs minus minus xs ys v w = ground (arith, bn_cmp_abs-Orders _ _ v w)
bn_cmp_signs naught naught xs ys v w = refl
bn_cmp_signs s t xs ys v w = ground (arith, mag-gt-zero v, mag-gt-zero w)

-- bn_cmp of two well-formed numbers is -1, 0 or +1 as the first integer is below, equal to or above
-- the second.
pub bn_cmp-Orders : (a b : BigNum) → IsWf a → IsWf b → Orders_ℤ (bn_cmp a b) (to_ℤ a) (to_ℤ b)
bn_cmp-Orders a b v w = bn_cmp_signs a.sign b.sign a.limbs b.limbs v w
