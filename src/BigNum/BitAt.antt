-- ===== src/BigNum/BitAt.antt =====
-- One binary digit of a magnitude: reading it, and setting it where the digits below it are clear
-- (the limb and offset arithmetic of bn_divmod_abs, bn_pow and bn_asIntN in mario/mario.c).
use Prim.Native.Nat.{bit_and, bit_or}
use native.Mathlib.Nat.{
  pow-succ', one-le-pow, div-add-mod, mod-lt, add-mul-mod_self_left, mul-mod_left, zero-div,
  lt_of_mul-lt-mul_right, mul-le-mul_right,
}
use mario_js.Prelude.{
  ℕ, zero, suc, ◌+◌, ◌-◌, ◌*◌, ◌/◌, ◌%◌, ◌^◌, ◌≤◌, ◌<◌, ◌≡◌, refl, ap, sym, ◌∙◌, List, [], ◌∷◌,
  length, All, get_or, set, u32, arith,
}
use mario_js.Prelude.Bits.{bit_or_low, bit_and-one, div_unique, pow_add}
use mario_js.BigNum.{mag, IsLimb}

-- `(limbs[limb] >> off) & 1` for `limb = bit >> 5` and `off = bit & 31`
unfoldable pub bit_at : List ℕ → ℕ → ℕ
bit_at xs bit = bit_and (get_or xs (bit / 32) 0 / 2 ^ (bit % 32)) 1

-- `limbs[limb] |= 1u << off`
unfoldable pub set_bit : List ℕ → ℕ → List ℕ
set_bit xs bit = let limb = bit / 32 in set xs limb (bit_or (get_or xs limb 0) (2 ^ (bit % 32)))

-- A limb higher is a factor of 2 ^ 32.
weight_suc : (k off : ℕ) → 2 ^ (32 * suc k + off) ≡ u32 * 2 ^ (32 * k + off)
weight_suc k off =
    ap (λ (t : ℕ). 2 ^ t) {y = 32 + (32 * k + off)} (omega arith) ∙ pow_add 2 32 (32 * k + off)

-- The base of a limb, cut at a bit of it.
base_split : (off : ℕ) → off < 32 → 2 ^ off * 2 ^ (32 - off) ≡ u32
base_split off h = sym (pow_add 2 off (32 - off)) ∙ ap (λ (t : ℕ). 2 ^ t) {y = 32} (omega arith)

pow_pos : (n : ℕ) → 0 < 2 ^ n
pow_pos n = one-le-pow n 2 (omega arith)

div_limb : (x m off : ℕ) → off < 32 → (x + u32 * m) / 2 ^ off ≡ x / 2 ^ off + 2 ^ (32 - off) * m
div_limb x m off h =
    let d = div-add-mod x (2 ^ off) in
    div_unique (2 ^ off) _ (x % 2 ^ off) _
      (omega (arith, d, ap (λ (t : ℕ). t * m) (base_split off h))) (mod-lt x (pow_pos off))

even_weight : (off : ℕ) → off < 32 → 2 ^ (32 - off) ≡ 2 * 2 ^ (31 - off)
even_weight off h =
    ap (λ (t : ℕ). 2 ^ t) {y = suc (31 - off)} (omega arith) ∙ pow-succ' 2 (31 - off)

digit_of :
    (xs : List ℕ) (k off : ℕ)
    → All IsLimb xs
    → off < 32
    → get_or xs k 0 / 2 ^ off % 2 ≡ mag xs / 2 ^ (32 * k + off) % 2
digit_of [] k off h lt = simp zero-div
digit_of (x ∷ xs) zero off h lt =
    let e = ap (λ (t : ℕ). 2 ^ t) {x = 32 * 0 + off} {y = off} (omega arith) in
    let w = even_weight off lt in
    rw (e, div_limb x (mag xs) off lt) (omega (arith, ap (λ (t : ℕ). t * mag xs) w))
digit_of (x ∷ xs) (suc k) off h lt =
    let d = div-add-mod (mag xs) (2 ^ (32 * k + off)) in
    let r = mod-lt (mag xs) (pow_pos (32 * k + off)) in
    let q = mag xs / 2 ^ (32 * k + off) in
    let e : (x + u32 * mag xs) / 2 ^ (32 * suc k + off) ≡ q =
      div_unique (2 ^ (32 * suc k + off)) q (x + u32 * (mag xs % 2 ^ (32 * k + off))) _
        (omega (arith, d, ap (λ (t : ℕ). t * q) (weight_suc k off)))
        (omega (arith, r, h.0, weight_suc k off)) in
    digit_of xs k off h.1 lt ∙ ap (λ (t : ℕ). t % 2) (sym e)

-- For limbs in range, the test of a bit that bn_divmod_abs makes gives that binary digit of the number,
-- and 0 past the last limb.
pub bit_at_lem : (xs : List ℕ) (bit : ℕ) → All IsLimb xs → bit_at xs bit ≡ mag xs / 2 ^ bit % 2
unfolding bit_at
bit_at_lem xs bit h =
    bit_and-one _
    ∙ digit_of xs (bit / 32) (bit % 32) h (omega arith)
    ∙ ap (λ (t : ℕ). mag xs / 2 ^ t % 2) {y = bit} (omega arith)

-- The limbs `ys` are in range, as many as `xs`, and stand for `n`.
pub record Rewritten (xs ys : List ℕ) (n : ℕ) : Type 0 where
  pub value : mag ys ≡ n
  pub size : length ys ≡ length xs
  pub small : All IsLimb ys

-- A limb whose digits up to `off` are clear has room for the one at `off`.
clear_limb :
    (x m off c : ℕ)
    → off < 32
    → x < u32
    → x + u32 * m ≡ c * 2 ^ suc off
    → (x ≡ x / 2 ^ suc off * 2 ^ suc off) × (x + 2 ^ suc off ≤ u32)
clear_limb x m off c lt h e =
    let w = 2 ^ suc off in
    let v = 2 ^ (32 - suc off) in
    let b : w * v ≡ u32 =
      sym (pow_add 2 (suc off) (32 - suc off)) ∙ ap (λ (t : ℕ). 2 ^ t) {y = 32} (omega arith) in
    let bm = ap (λ (t : ℕ). t * m) b in
    let whole : x + w * (v * m) ≡ c * w = omega (arith, e, bm) in
    let z : x % w ≡ 0 =
      sym (add-mul-mod_self_left x w (v * m)) ∙ ap (λ (t : ℕ). t % w) whole ∙ mul-mod_left c w in
    let d = div-add-mod x w in
    let y = x / w in
    let below : y < v = lt_of_mul-lt-mul_right w {m = y} {n = v} (omega (arith, d, z, b)) in
    let fit : suc y * w ≤ v * w = mul-le-mul_right w below in
    (omega (arith, d, z), omega (arith, d, z, b, fit))

set_digit :
    (xs : List ℕ) (k off c : ℕ)
    → All IsLimb xs
    → off < 32
    → k < length xs
    → mag xs ≡ c * 2 ^ (32 * k + suc off)
    → Rewritten xs (set xs k (bit_or (get_or xs k 0) (2 ^ off))) (mag xs + 2 ^ (32 * k + off))
set_digit [] k off c h lt l e = absurd (omega arith)
set_digit (x ∷ xs) zero off c h lt l e =
    let u = ap (λ (t : ℕ). 2 ^ t) {x = 32 * 0 + suc off} {y = suc off} (omega arith) in
    let v = ap (λ (t : ℕ). 2 ^ t) {x = 32 * 0 + off} {y = off} (omega arith) in
    let (clear, room) = clear_limb x (mag xs) off c lt h.0 (e ∙ ap (λ (t : ℕ). c * t) u) in
    let y = x / 2 ^ suc off in
    let half = pow-succ' 2 off in
    let bits : bit_or x (2 ^ off) ≡ x + 2 ^ off =
      ap (λ (t : ℕ). bit_or t (2 ^ off)) clear
      ∙ bit_or_low (suc off) y (2 ^ off) (omega (arith, half, pow_pos off))
      ∙ omega (arith, clear) in
    record {
      value = omega (arith, bits, v);
      size = refl;
      small = (omega (arith, bits, room, half, pow_pos off), h.1);
    }
set_digit (x ∷ xs) (suc k) off c h lt l e =
    let w = weight_suc k (suc off) in
    let tail : mag xs ≡ c * 2 ^ (32 * k + suc off) =
      omega (arith, e, h.0, ap (λ (t : ℕ). c * t) w) in
    let ih = set_digit xs k off c h.1 lt (omega arith) tail in
    record {
      value = omega (arith, ih.value, weight_suc k off);
      size = omega (arith, ih.size);
      small = (h.0, ih.small);
    }

-- For limbs in range that stand for a multiple of 2 ^ (bit + 1), setting a bit within them adds 2 ^ bit and
-- keeps the limbs in range and as many.
pub set_bit_lem :
    (xs : List ℕ) (bit c : ℕ)
    → All IsLimb xs
    → bit < 32 * length xs
    → mag xs ≡ c * 2 ^ suc bit
    → Rewritten xs (set_bit xs bit) (mag xs + 2 ^ bit)
unfolding set_bit
set_bit_lem xs bit c h lt e =
    let r =
      set_digit xs (bit / 32) (bit % 32) c h (omega arith) (omega arith)
        (e ∙ ap (λ (t : ℕ). c * 2 ^ t) (omega arith)) in
    record {
      value = r.value ∙ ap (λ (t : ℕ). mag xs + 2 ^ t) (omega arith);
      size = r.size;
      small = r.small;
    }
