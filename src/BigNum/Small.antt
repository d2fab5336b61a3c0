-- ===== src/BigNum/Small.antt =====
-- The in-place routines with one small operand (mario/mario.c: bn_mul_small_inplace,
-- bn_add_small_inplace, bn_divmod_small_inplace).
use Prim.Native.Nat.{bit_or}
use native.Mathlib.Nat.{mul-le-mul, mul-pos, mod-lt, mod-eq_of_lt, div-add-mod, div-lt_iff_lt-mul}
use mario_js.Prelude.{
  ℕ, ◌+◌, ◌*◌, ◌/◌, ◌%◌, ◌^◌, ◌<◌, ◌≡◌, ap, sym, ◌∙◌, false, List, [], ◌∷◌, All, u32, u64, ◌==◌,
  Bool-cases, inl, inr, if◌then◌else◌, arith, subst,
}
use mario_js.Prelude.Bits.{bit_or_low, mod_unique, div_unique}
use mario_js.BigNum.{BigNum, Sign, mag, IsLimb, IsTrimmed, bn_normalize, bn_new}
use mario_js.BigNum.Limbs.{IsMag, trim-IsMag}

-- The loop of bn_mul_small_inplace; the carry that is left becomes a limb.
unfoldable pub mul_small_loop : List ℕ → ℕ → ℕ → List ℕ
mul_small_loop [] m carry = if carry == 0 then [] else carry ∷ []
mul_small_loop (x ∷ xs) m carry =
    let v = (x * m % u64 + carry) % u64 in v % u32 ∷ mul_small_loop xs m (v / u32)

unfoldable pub bn_mul_small_inplace : BigNum → ℕ → BigNum
unfolding mul_small_loop
bn_mul_small_inplace b m = elim b.limbs [
  | [] ↦ b
  | x ∷ xs ↦
      if m == 0
      then bn_new
      else if m == 1
      then b
      else record b { limbs = mul_small_loop (x ∷ xs) m 0 }
]

-- `while (carry)`; past `len` the buffer holds a zero, so a carry out of the top is a new limb.
unfoldable pub add_small_loop : List ℕ → ℕ → List ℕ
add_small_loop [] carry = let s = carry % u64 in if carry == 0 then [] else s % u32 ∷ []
add_small_loop (x ∷ xs) carry =
    let s = (x + carry) % u64 in
    let more = s % u32 ∷ add_small_loop xs (s / u32) in if carry == 0 then x ∷ xs else more

unfoldable pub bn_add_small_inplace : BigNum → ℕ → BigNum
unfolding add_small_loop bn_normalize
bn_add_small_inplace b v =
    if v == 0 then b else bn_normalize (record b { limbs = add_small_loop b.limbs v })

-- The loop from the highest limb down: the quotient's limbs and the remainder.
unfoldable pub div_small_loop : List ℕ → ℕ → List ℕ × ℕ
div_small_loop [] d = ([], 0)
div_small_loop (x ∷ xs) d =
    let (q, rem) = div_small_loop xs d in
    let cur = bit_or (rem * 2 ^ 32 % u64) x in (cur / d % u32 ∷ q, cur % d)

unfoldable pub bn_divmod_small_inplace : BigNum → ℕ → BigNum × ℕ
unfolding div_small_loop bn_normalize
bn_divmod_small_inplace b d =
    let r = div_small_loop b.limbs d in (bn_normalize (record b { limbs = r.0 }), r.1 % u32)

mul_fits : (x m c : ℕ) → x < u32 → m < u32 → c < u32 → (x * m < u64) × (x * m + c < u64)
mul_fits x m c h k p = omega (
  arith,
  mul-le-mul {n₁ = x} {m₁ = m} {n₂ = 4294967295} {m₂ = 4294967295} (omega arith) (omega arith),
)

mag-mul_small_loop :
    (xs : List ℕ) (m c : ℕ)
    → All IsLimb xs
    → m < u32
    → c < u32
    → mag (mul_small_loop xs m c) ≡ mag xs * m + c
unfolding mul_small_loop
mag-mul_small_loop [] m c h k p = ground arith
mag-mul_small_loop (x ∷ xs) m c h k p =
    let f = mul_fits x m c h.0 k p in
    let v = (x * m % u64 + c) % u64 in
    let e : v ≡ x * m + c = omega (arith, f) in
    omega (arith, mag-mul_small_loop xs m (v / u32) h.1 k (omega arith), e)

mul_small_loop-IsLimb : (xs : List ℕ) (m c : ℕ) → c < u32 → All IsLimb (mul_small_loop xs m c)
unfolding mul_small_loop
mul_small_loop-IsLimb [] m c p = elim (Bool-cases (c == 0)) [
  | inl e ↦ rw e tt
  | inr e ↦ rw e (p, tt)
]
mul_small_loop-IsLimb (x ∷ xs) m c p = (omega arith, mul_small_loop-IsLimb xs m _ (omega arith))

mag-add_small_loop :
    (xs : List ℕ) (c : ℕ) → All IsLimb xs → c < u32 → mag (add_small_loop xs c) ≡ mag xs + c
unfolding add_small_loop
mag-add_small_loop [] c h p = ground arith
mag-add_small_loop (x ∷ xs) c h p = ground (arith, mag-add_small_loop xs ((x + c) % u64 / u32))

add_small_loop-IsLimb :
    (xs : List ℕ) (c : ℕ) → All IsLimb xs → c < u32 → All IsLimb (add_small_loop xs c)
unfolding add_small_loop
add_small_loop-IsLimb [] c h p = elim (Bool-cases (c == 0)) [
  | inl e ↦ rw e tt
  | inr e ↦ rw e (omega arith, tt)
]
add_small_loop-IsLimb (x ∷ xs) c h p = elim (Bool-cases (c == 0)) [
  | inl e ↦ rw e h
  | inr e ↦ rw e (omega arith, add_small_loop-IsLimb xs _ h.1 (omega arith))
]

-- One step of the division: a remainder below `d` and the next limb.
div_step :
    (rem x d : ℕ)
    → rem < d
    → x < u32
    → d < u32
    → (bit_or (rem * 2 ^ 32 % u64) x ≡ rem * u32 + x) × ((rem * u32 + x) / d < u32)
div_step rem x d h k p =
    let e : rem * 2 ^ 32 % u64 ≡ rem * 2 ^ 32 = omega arith in
    let p' : 0 < d = omega arith in
    (rw e (bit_or_low 32 rem x k), (div-lt_iff_lt-mul p').1 (omega arith))

div_small_loop_lem :
    (xs : List ℕ) (d : ℕ)
    → All IsLimb xs
    → 0 < d
    → d < u32
    → (mag (div_small_loop xs d).0 * d + (div_small_loop xs d).1 ≡ mag xs)
      × ((div_small_loop xs d).1 < d)
unfolding div_small_loop
div_small_loop_lem [] d h p k = omega arith
div_small_loop_lem (x ∷ xs) d h p k =
    let (e, lt) = div_small_loop_lem xs d h.1 p k in
    let q = (div_small_loop xs d).0 in
    let rem = (div_small_loop xs d).1 in
    let (o, fits) = div_step rem x d lt h.0 k in
    let v = div-add-mod (rem * u32 + x) d in
    rw (o, mod-eq_of_lt fits) (omega (arith, e, v), mod-lt _ p)

div_small_loop-IsLimb : (xs : List ℕ) (d : ℕ) → All IsLimb (div_small_loop xs d).0
unfolding div_small_loop
div_small_loop-IsLimb [] d = tt
div_small_loop-IsLimb (x ∷ xs) d = (omega arith, div_small_loop-IsLimb xs d)

-- What a routine leaves in the magnitude of a bignum.
abbrev pub Leaves : BigNum → ℕ → Type 0
Leaves b n = IsMag b.limbs n

mul_small_loop-IsTrimmed :
    (x : ℕ) (xs : List ℕ) (m c : ℕ)
    → IsTrimmed (x ∷ xs)
    → All IsLimb (x ∷ xs)
    → 0 < m
    → m < u32
    → c < u32
    → IsTrimmed (mul_small_loop (x ∷ xs) m c)
unfolding mul_small_loop
mul_small_loop-IsTrimmed x [] m c t h p k q =
    let f = mul_fits x m c h.0 k q in
    let v = (x * m % u64 + c) % u64 in
    let e : v ≡ x * m + c = omega (arith, f) in
    let pos = mul-pos {m = x} {n = m} (omega arith) p in
    elim (Bool-cases (v / u32 == 0)) [
      | inl z ↦ rw z (λ w. ground (arith, e, pos))
      | inr z ↦ rw z (λ w. ground arith)
    ]
mul_small_loop-IsTrimmed x (y ∷ ys) m c t h p k q =
    mul_small_loop-IsTrimmed y ys m _ t h.1 p k (omega (arith, mul_fits x m c h.0 k q))

-- For limbs in range without a leading zero that stand for n, and a multiplier from 2 to 2 ^ 32 - 1,
-- bn_mul_small_inplace leaves limbs in range without a leading zero that stand for n * m.
pub bn_mul_small_inplace_lem :
    (s : Sign) (xs : List ℕ) (m n : ℕ)
    → 1 < m
    → m < u32
    → IsMag xs n
    → Leaves (bn_mul_small_inplace (record { sign = s; limbs = xs }) m) (n * m)
unfolding bn_mul_small_inplace
bn_mul_small_inplace_lem s [] m n p k w = record {
  small = tt;
  trimmed = tt;
  value = omega (arith, w.value, ap (λ (t : ℕ). t * m) w.value);
}
bn_mul_small_inplace_lem s (x ∷ xs) m n p k w =
    let zero_test : (m == 0) ≡ false = ground arith in
    let one_test : (m == 1) ≡ false = ground arith in
    rw (zero_test, one_test)
      (record {
        small = mul_small_loop-IsLimb (x ∷ xs) m 0 (omega arith);
        trimmed = mul_small_loop-IsTrimmed x xs m 0 w.trimmed w.small (omega arith) k (omega arith);
        value =
            mag-mul_small_loop (x ∷ xs) m 0 w.small k (omega arith)
            ∙ omega (arith, ap (λ (t : ℕ). t * m) w.value);
      })

-- For limbs in range without a leading zero that stand for n, and an addend below 2 ^ 32,
-- bn_add_small_inplace leaves limbs in range without a leading zero that stand for n + v.
pub bn_add_small_inplace_lem :
    (s : Sign) (xs : List ℕ) (v n : ℕ)
    → v < u32
    → IsMag xs n
    → Leaves (bn_add_small_inplace (record { sign = s; limbs = xs }) v) (n + v)
unfolding bn_add_small_inplace
bn_add_small_inplace_lem s xs v n k w = elim (Bool-cases (v == 0)) [
  | inl e ↦ rw e (record { small = w.small; trimmed = w.trimmed; value = w.value ∙ ground arith })
  | inr e ↦ rw e (
      trim-IsMag (add_small_loop xs v) (n + v) (add_small_loop-IsLimb xs v w.small k)
        (omega (arith, mag-add_small_loop xs v w.small k, w.value)))
]

-- For limbs in range without a leading zero that stand for n, and a divisor from 1 to 2 ^ 32 - 1,
-- bn_divmod_small_inplace leaves limbs in range without a leading zero that stand for n / d, and returns
-- n % d.
pub bn_divmod_small_inplace_lem :
    (s : Sign) (xs : List ℕ) (d n : ℕ)
    → 0 < d
    → d < u32
    → IsMag xs n
    → Leaves (bn_divmod_small_inplace (record { sign = s; limbs = xs }) d).0 (n / d)
      × ((bn_divmod_small_inplace (record { sign = s; limbs = xs }) d).1 ≡ n % d)
unfolding bn_divmod_small_inplace
bn_divmod_small_inplace_lem s xs d n p k w =
    let (e, lt) = div_small_loop_lem xs d w.small p k in
    let q = mag (div_small_loop xs d).0 in
    let r = (div_small_loop xs d).1 in
    let whole : n ≡ d * q + r = omega (arith, e, w.value) in
    (
      trim-IsMag (div_small_loop xs d).0 (n / d) (div_small_loop-IsLimb xs d)
          (sym (div_unique d q r n whole lt)),
      mod-eq_of_lt (omega (arith, lt)) ∙ sym (mod_unique d q r n whole lt),
    )

-- For limbs in range without a leading zero that stand for n, a base from 2 to 2 ^ 32 - 1 and a digit
-- below it: the digit that bn_mul_small_inplace and bn_add_small_inplace put behind n is the one that
-- bn_divmod_small_inplace returns, and it leaves limbs of n again.
pub small_inplace-restores :
    (s : Sign) (xs : List ℕ) (base digit n : ℕ)
    → 1 < base
    → base < u32
    → digit < base
    → IsMag xs n
    → let longer =
        bn_add_small_inplace (bn_mul_small_inplace (record { sign = s; limbs = xs }) base) digit in
      Leaves (bn_divmod_small_inplace longer base).0 n
      × ((bn_divmod_small_inplace longer base).1 ≡ digit)
small_inplace-restores s xs base digit n p k d w =
    let a = bn_mul_small_inplace (record { sign = s; limbs = xs }) base in
    let b = bn_add_small_inplace a digit in
    let m = bn_mul_small_inplace_lem s xs base n p k w in
    let t = bn_add_small_inplace_lem a.sign a.limbs digit (n * base) (omega arith) m in
    let q = bn_divmod_small_inplace_lem b.sign b.limbs base (n * base + digit) (omega arith) k t in
    let swap : n * base ≡ base * n = omega arith in
    let whole : n * base + digit ≡ base * n + digit = omega (arith, swap) in
    (
      subst (Leaves (bn_divmod_small_inplace b base).0)
          (div_unique base n digit (n * base + digit) whole d) (q.0),
      q.1 ∙ mod_unique base n digit (n * base + digit) whole d,
    )
