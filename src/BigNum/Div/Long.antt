-- ===== src/BigNum/Div/Long.antt =====
-- The long division of bn_divmod_abs (mario/mario.c), step by step.
use Prim.Native.Nat.{bit_or}
use native.Mathlib.Nat.{div-eq_of_lt, pow-zero, mod-eq_of_lt, div-div-eq-div-mul, pow-suc}
use mario_js.Prelude.{
  ℕ, zero, suc, ◌+◌, ◌-◌, ◌*◌, ◌/◌, ◌%◌, ◌^◌, ◌≤◌, ◌<◌, ◌≡◌, refl, ap, sym, subst, ◌∙◌, List, [],
  ◌∷◌, length, All, All-replicate, length-replicate, replicate, u32, ◌==◌, Bool-cases, inl, inr,
  if◌then◌else◌, arith,
}
use mario_js.Prelude.Bits.{bit_or_low, mod_unique, div_unique, pow_limbs}
use mario_js.BigNum.{BigNum, Sign, minus, naught, plus, mag, IsLimb, IsTrimmed, trim}
use mario_js.BigNum.Limbs.{IsMag, trim-IsMag, mag-lt, mag-replicate}
use mario_js.BigNum.Order.{Orders, bn_cmp_abs, cmp_abs-Orders}
use mario_js.BigNum.Add.{sub_loop, mag-sub_loop, sub_loop-IsLimb}
use mario_js.BigNum.BitAt.{bit_at, set_bit, bit_at_lem, set_bit_lem}
use mario_js.BigNum.Div.{
  bn_sub_abs_inplace, shl_one, set_low, take_bit, divmod_step, divmod_loop, long_division,
  divmod_by, bn_divmod_abs,
}

-- One limb shifted, with a digit put in below.
shifted_limb : (x c : ℕ) → c ≤ 1 → bit_or (x * 2 % u32) c ≡ x * 2 % u32 + c
shifted_limb x c h =
    let e : x * 2 % u32 ≡ x * 2 % u32 / 2 * 2 ^ 1 = omega arith in
    ap (λ (t : ℕ). bit_or t c) e
    ∙ bit_or_low 1 (x * 2 % u32 / 2) c (omega arith)
    ∙ ap (λ (t : ℕ). t + c) (sym e)

mag-shl_one : (xs : List ℕ) (c : ℕ) → All IsLimb xs → c ≤ 1 → mag (shl_one xs c) ≡ 2 * mag xs + c
unfolding shl_one
mag-shl_one [] c h p = ground arith
mag-shl_one (x ∷ xs) c h p =
    omega (arith, shifted_limb x c p, h.0, mag-shl_one xs (x / 2 ^ 31) h.1 (omega (arith, h.0)))

shl_one-IsLimb : (xs : List ℕ) (c : ℕ) → All IsLimb xs → c ≤ 1 → All IsLimb (shl_one xs c)
unfolding shl_one
shl_one-IsLimb [] c h p = elim (Bool-cases (c == 0)) [
  | inl e ↦ rw e tt
  | inr e ↦ rw e (omega arith, tt)
]
shl_one-IsLimb (x ∷ xs) c h p = (
  omega (arith, shifted_limb x c p, h.0),
  shl_one-IsLimb xs (x / 2 ^ 31) h.1 (omega (arith, h.0)),
)

shl_one-IsTrimmed :
    (xs : List ℕ) (c : ℕ) → IsTrimmed xs → All IsLimb xs → c ≤ 1 → IsTrimmed (shl_one xs c)
unfolding shl_one
shl_one-IsTrimmed [] c t h p = elim (Bool-cases (c == 0)) [
  | inl e ↦ rw e tt
  | inr e ↦ rw e (λ z. ground arith)
]
shl_one-IsTrimmed (x ∷ []) c t h p = elim (Bool-cases (x / 2 ^ 31 == 0)) [
  | inl e ↦ rw e (λ z. ground (arith, shifted_limb x c p))
  | inr e ↦ rw e (λ z. ground arith)
]
shl_one-IsTrimmed (x ∷ y ∷ ys) c t h p =
    shl_one-IsTrimmed (y ∷ ys) (x / 2 ^ 31) t h.1 (omega (arith, h.0))

-- `rem <<= 1` doubles.
shl_one-IsMag : (xs : List ℕ) (n : ℕ) → IsMag xs n → IsMag (shl_one xs 0) (2 * n)
shl_one-IsMag xs n w = record {
  small = shl_one-IsLimb xs 0 w.small (omega arith);
  trimmed = shl_one-IsTrimmed xs 0 w.trimmed w.small (omega arith);
  value = omega (arith, mag-shl_one xs 0 w.small (omega arith), w.value);
}

set_low_limb : (x : ℕ) → x % 2 ≡ 0 → bit_or x 1 ≡ x + 1
set_low_limb x h =
    let e : x ≡ x / 2 * 2 ^ 1 = omega arith in
    ap (λ (t : ℕ). bit_or t 1) e ∙ bit_or_low 1 (x / 2) 1 (omega arith) ∙ omega arith

-- Setting the lowest digit of an even number.
set_low-IsMag : (xs : List ℕ) (n : ℕ) → IsMag xs (2 * n) → IsMag (set_low xs) (2 * n + 1)
unfolding set_low
set_low-IsMag [] n w = record {
  small = (omega arith, tt);
  trimmed = (λ z. absurd (omega arith));
  value = omega (arith, w.value);
}
set_low-IsMag (x ∷ []) n w =
    let e = set_low_limb x (omega (arith, w.value)) in
    record {
      small = (omega (arith, e, w.small.0, w.value), tt);
      trimmed = (λ z. absurd (omega (arith, e)));
      value = omega (arith, e, w.value);
    }
set_low-IsMag (x ∷ y ∷ ys) n w =
    let e = set_low_limb x (omega (arith, w.value)) in
    record {
      small = (omega (arith, e, w.small.0, w.value), w.small.1);
      trimmed = w.trimmed;
      value = omega (arith, e, w.value);
    }

-- With the digits below `bit` to come, the digits above it are divided.
record Divided (a b : List ℕ) (bit : ℕ) (q rem : List ℕ) : Type 0 where
  quot : ℕ
  left : ℕ
  value : mag a / 2 ^ bit ≡ quot * mag b + left
  below : left < mag b
  q_value : mag q ≡ quot * 2 ^ bit
  q_size : length q ≡ length a
  q_small : All IsLimb q
  rem_mag : IsMag rem left

next_digit : (n bit : ℕ) → n / 2 ^ bit ≡ 2 * (n / 2 ^ suc bit) + n / 2 ^ bit % 2
next_digit n bit =
    omega (arith, div-div-eq-div-mul n (2 ^ bit) 2, ap (λ (t : ℕ). n / t) (pow-suc 2 bit))

module _ (a b : List ℕ) (a_small : All IsLimb a) (b_small : All IsLimb b)
    (b_trimmed : IsTrimmed b) where
  -- The remainder with the next digit put in.
  next-IsMag :
      (bit : ℕ) (rem : List ℕ) (left : ℕ)
      → IsMag rem left
      → IsMag
          (if bit_at a bit == 0 then shl_one rem 0 else set_low (shl_one rem 0))
          (2 * left + mag a / 2 ^ bit % 2)
  next-IsMag bit rem left w =
      let d = bit_at_lem a bit a_small in
      let s = shl_one-IsMag rem left w in
      elim (Bool-cases (bit_at a bit == 0)) [
        | inl e ↦ rw e (subst (IsMag (shl_one rem 0)) (ground arith) s)
        | inr e ↦
            rw e (subst (IsMag (set_low (shl_one rem 0))) (ground arith) (set_low-IsMag _ left s))
      ]

  subtract :
      (bit : ℕ) (q next : List ℕ) (quot left : ℕ)
      → bit < 32 * length a
      → mag b ≤ mag next
      → mag a / 2 ^ bit ≡ 2 * quot * mag b + left
      → left < 2 * mag b
      → mag q ≡ quot * 2 ^ suc bit
      → length q ≡ length a
      → All IsLimb q
      → IsMag next left
      → Divided a b bit (set_bit q bit) (bn_sub_abs_inplace next b)
  unfolding bn_sub_abs_inplace
  subtract bit q next quot left lt le v below qv qs small w =
      let r = set_bit_lem q bit quot small (omega (arith, ap (λ (t : ℕ). 32 * t) qs)) qv in
      let d = mag-sub_loop next b 0 w.small b_small (omega arith) (omega arith) in
      record {
        quot = 2 * quot + 1;
        left = left - mag b;
        value = omega (arith, v, w.value);
        below = omega (arith, w.value);
        q_value = omega (arith, r.value, qv, ap (λ (t : ℕ). quot * t) (pow-suc 2 bit));
        q_size = r.size ∙ qs;
        q_small = r.small;
        rem_mag =
            trim-IsMag (sub_loop next b 0) _
              (sub_loop-IsLimb next b 0 w.small b_small (omega arith)) (omega (arith, d, w.value));
      }

  take_bit-Divided :
      (c : Sign) (bit : ℕ) (q next : List ℕ) (quot left : ℕ)
      → bit < 32 * length a
      → Orders c (mag next) (mag b)
      → mag a / 2 ^ bit ≡ 2 * quot * mag b + left
      → left < 2 * mag b
      → mag q ≡ quot * 2 ^ suc bit
      → length q ≡ length a
      → All IsLimb q
      → IsMag next left
      → Divided a b bit (take_bit c bit b q next).0 (take_bit c bit b q next).1
  unfolding take_bit
  take_bit-Divided minus bit q next quot left lt o v below qv qs small w = record {
    quot = 2 * quot;
    left = left;
    value = v;
    below = omega (arith, w.value);
    q_value = omega (arith, qv, ap (λ (t : ℕ). quot * t) (pow-suc 2 bit));
    q_size = qs;
    q_small = small;
    rem_mag = w;
  }
  take_bit-Divided naught bit q next quot left lt o v below qv qs small w =
      subtract bit q next quot left lt (omega arith) v below qv qs small w
  take_bit-Divided plus bit q next quot left lt o v below qv qs small w =
      subtract bit q next quot left lt (omega arith) v below qv qs small w

  divmod_step-Divided :
      (bit : ℕ) (q rem : List ℕ)
      → bit < 32 * length a
      → Divided a b (suc bit) q rem
      → Divided a b bit (divmod_step a b bit (q, rem)).0 (divmod_step a b bit (q, rem)).1
  unfolding divmod_step
  divmod_step-Divided bit q rem lt v =
      let next = if bit_at a bit == 0 then shl_one rem 0 else set_low (shl_one rem 0) in
      let w = next-IsMag bit rem v.left v.rem_mag in
      take_bit-Divided (bn_cmp_abs next b) bit q next v.quot (2 * v.left + mag a / 2 ^ bit % 2) lt
        (cmp_abs-Orders next b w.trimmed b_trimmed w.small b_small)
        (omega (arith, next_digit (mag a) bit, v.value)) (omega (arith, v.below)) v.q_value v.q_size
        v.q_small w

  divmod_loop-Divided :
      (bit : ℕ) (q rem : List ℕ)
      → bit ≤ 32 * length a
      → Divided a b bit q rem
      → Divided a b 0 (divmod_loop bit a b (q, rem)).0 (divmod_loop bit a b (q, rem)).1
  unfolding divmod_loop
  divmod_loop-Divided zero q rem h v = v
  divmod_loop-Divided (suc bit) q rem h v =
      divmod_loop-Divided bit _ _ (omega arith) (divmod_step-Divided bit q rem (omega arith) v)

  start : 0 < mag b → Divided a b (length a * 32) (replicate (length a) 0) []
  start h = record {
    quot = 0;
    left = 0;
    value = div-eq_of_lt (omega (arith, mag-lt a a_small, pow_limbs (length a))) ∙ omega arith;
    below = h;
    q_value = mag-replicate (length a) ∙ omega arith;
    q_size = length-replicate (length a) 0;
    q_small = All-replicate IsLimb (length a) 0 (omega arith);
    rem_mag = record { small = tt; trimmed = tt; value = refl };
  }

  -- What bn_divmod_abs returns for a divisor that is not zero.
  abbrev pub Divides : BigNum × BigNum → Type 0
  Divides r = IsMag r.0.limbs (mag a / mag b) × IsMag r.1.limbs (mag a % mag b)

  finished :
      (q rem : List ℕ)
      → 0 < mag b
      → Divided a b 0 q rem
      → IsMag (trim q) (mag a / mag b) × IsMag (trim rem) (mag a % mag b)
  finished q rem h v =
      let one = pow-zero 2 in
      let whole : mag a ≡ mag b * v.quot + v.left =
        omega (arith, v.value, ap (λ (t : ℕ). mag a / t) one) in
      (
        trim-IsMag q _ v.q_small (
            v.q_value
            ∙ omega (arith, ap (λ (t : ℕ). v.quot * t) one)
            ∙ sym (div_unique (mag b) v.quot v.left (mag a) whole v.below)),
        trim-IsMag rem _ v.rem_mag.small
            (v.rem_mag.value ∙ sym (mod_unique (mag b) v.quot v.left (mag a) whole v.below)),
      )

  smaller : IsTrimmed a → mag a < mag b → IsMag [] (mag a / mag b) × IsMag a (mag a % mag b)
  smaller t h = (
    record { small = tt; trimmed = tt; value = sym (div-eq_of_lt h) },
    record { small = a_small; trimmed = t; value = sym (mod-eq_of_lt h) },
  )

  long_division-Divides : length a * 32 < u32 → 0 < mag b → Divides (long_division a b)
  unfolding long_division
  long_division-Divides l h =
      let bits : length a * 32 ≡ length a * 32 % u32 = omega arith in
      finished _ _ h (
        subst
          (λ (t : ℕ).
            Divided a b 0 (divmod_loop t a b (replicate (length a) 0, [])).0
              (divmod_loop t a b (replicate (length a) 0, [])).1)
          bits (divmod_loop-Divided (length a * 32) _ _ (omega arith) (start h)))

  divmod_by-Divides :
      (c : Sign)
      → Orders c (mag a) (mag b)
      → IsTrimmed a
      → length a * 32 < u32
      → 0 < mag b
      → Divides (divmod_by c a b)
  unfolding divmod_by
  divmod_by-Divides minus o t l h = smaller t o
  divmod_by-Divides naught o t l h = long_division-Divides l h
  divmod_by-Divides plus o t l h = long_division-Divides l h

  -- For fewer than 2^27 limbs in range without a leading zero and a divisor that is not zero, bn_divmod_abs returns
  -- normalised magnitudes of the quotient and of the remainder.
  pub bn_divmod_abs-Divides :
      IsTrimmed a → length a * 32 < u32 → 0 < mag b → Divides (bn_divmod_abs a b)
  unfolding bn_divmod_abs
  bn_divmod_abs-Divides t l h =
      divmod_by-Divides (bn_cmp_abs a b) (cmp_abs-Orders a b t b_trimmed a_small b_small) t l h
