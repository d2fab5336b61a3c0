-- ===== src/BigNum/Shift.antt =====
-- Shifts of bignums (mario/mario.c: bn_shl, bn_shr_mag, bn_shr).
use Prim.Native.Nat.{bit_or}
use native.Mathlib.Nat.{
  one-le-pow, mod-lt, div-add-mod, lt_of_mul-lt-mul_right, mul-le-mul, mul-le-mul_right,
  le-mul_of_pos_right, div-eq_of_lt, pow-zero,
}
use mario_js.Prelude.{
  ℕ, zero, suc, ◌+◌, ◌-◌, ◌*◌, ◌/◌, ◌%◌, ◌^◌, ◌≤◌, ◌<◌, ◌≡◌, ◌≢◌, ap, sym, ◌∙◌, ◌||◌, List, [], ◌∷◌,
  ◌++◌, length, All, All-append, All-replicate, replicate, drop, u32, u64, low, leb, ◌==◌, ==_iff,
  Bool-cases, inl, inr, if◌then◌else◌, arith,
}
use mario_js.Prelude.Bits.{bit_or_low, mod_unique, pow_add}
use mario_js.Prelude.Int.{ℤ, pos, ◌*ℤ◌}
use mario_js.BigNum.{
  BigNum, Sign, minus, naught, plus, mag, signed, to_ℤ, IsLimb, IsWf, same_sign, sign_of,
  bn_normalize, bn_new, bn_clone, bn_from_int64,
}
use mario_js.BigNum.Limbs.{mag-replicate, bn_normalize-IsWf, to_ℤ-bn_normalize}
use mario_js.BigNum.Spec.{Gives, Gives-clone}
use mario_js.BigNum.Add.{bn_add_abs, bn_sub_abs}

-- `(uint32_t)((x << bitshift) | carry)`; the carry after the last limb has a limb of its own, which
-- stays zero if there is none.
unfoldable pub shl_loop : List ℕ → ℕ → ℕ → List ℕ
shl_loop [] bitshift carry = carry ∷ []
shl_loop (x ∷ xs) bitshift carry =
    bit_or (x * 2 ^ bitshift % u64) carry % u32
    ∷ shl_loop xs bitshift (if bitshift == 0 then 0 else x / 2 ^ (32 - bitshift))

unfoldable pub bn_shl : BigNum → ℕ → BigNum
unfolding bn_clone bn_normalize shl_loop
bn_shl a bits =
    let wordshift = bits / 32 in
    let bitshift = bits % 32 in
    let n = if bitshift == 0 then 0 else 1 in
    if same_sign a.sign naught || bits == 0
    then bn_clone a
    else bn_normalize (record {
      sign = a.sign;
      limbs = replicate wordshift 0 ++ (shl_loop a.limbs bitshift 0 ++ replicate n 0);
    })

-- The limbs from `wordshift` on, each with the low digits of the next.
unfoldable pub shr_loop : List ℕ → ℕ → List ℕ
shr_loop [] bitshift = []
shr_loop (lo ∷ xs) bitshift =
    (if bitshift == 0 then lo else bit_or (lo / 2 ^ bitshift) (low xs * 2 ^ (32 - bitshift) % u32))
    ∷ shr_loop xs bitshift

unfoldable pub bn_shr_mag : BigNum → ℕ → BigNum
unfolding bn_clone bn_normalize shr_loop
bn_shr_mag a bits =
    let wordshift = bits / 32 in
    if length a.limbs == 0 || bits == 0
    then (if bits == 0 then bn_clone a else bn_new)
    else if leb (length a.limbs) wordshift
    then bn_new
    else bn_normalize
        (record { sign = plus; limbs = shr_loop (drop wordshift a.limbs) (bits % 32) })

-- A negative number rounds down: -(((|a| - 1) >> bits) + 1).
unfoldable pub bn_shr : BigNum → ℕ → BigNum
unfolding bn_clone bn_normalize bn_shr_mag bn_sub_abs bn_add_abs bn_from_int64
bn_shr a bits =
    let one = bn_from_int64 (pos 1) in
    let mag1 = bn_sub_abs a.limbs one.limbs in
    let shifted = bn_shr_mag (record mag1 { sign = sign_of plus mag1.limbs }) bits in
    let plus1 = bn_add_abs shifted.limbs one.limbs in
    if same_sign a.sign naught || bits == 0
    then bn_clone a
    else if same_sign a.sign plus
    then bn_shr_mag a bits
    else bn_normalize (record plus1 { sign = sign_of minus plus1.limbs })

base_split : (s : ℕ) → s ≤ 32 → 2 ^ s * 2 ^ (32 - s) ≡ u32
base_split s h = sym (pow_add 2 s (32 - s)) ∙ ap (λ (t : ℕ). 2 ^ t) {y = 32} (omega arith)

pow_pos : (n : ℕ) → 0 < 2 ^ n
pow_pos n = one-le-pow n 2 (omega arith)

-- A limb shifted by `s`: the digits that leave it, and those that stay, with `c` put in below.
cut :
    (s x c : ℕ)
    → s < 32
    → x < u32
    → c < 2 ^ s
    → (bit_or (x * 2 ^ s % u64) c % u32 ≡ x % 2 ^ (32 - s) * 2 ^ s + c)
      × (x * 2 ^ s ≡ u32 * (x / 2 ^ (32 - s)) + x % 2 ^ (32 - s) * 2 ^ s)
      × (x / 2 ^ (32 - s) < 2 ^ s)
cut s x c h k p =
    let w = 2 ^ (32 - s) in
    let b = base_split s (omega arith) in
    let d = div-add-mod x w in
    let r = mod-lt x (pow_pos (32 - s)) in
    let whole : x * 2 ^ s ≡ u32 * (x / w) + x % w * 2 ^ s =
      omega (arith, ap (λ (t : ℕ). t * 2 ^ s) d, ap (λ (t : ℕ). t * (x / w)) b) in
    let fits : x * 2 ^ s ≤ 4294967295 * 4294967296 =
      mul-le-mul {n₁ = x} {m₁ = 2 ^ s} {n₂ = 4294967295} {m₂ = 4294967296} (omega arith)
        (omega (arith, le-mul_of_pos_right (2 ^ s) (pow_pos (32 - s)), b)) in
    let e : bit_or (x * 2 ^ s % u64) c ≡ x * 2 ^ s + c =
      ap (λ (t : ℕ). bit_or t c) {y = x * 2 ^ s} (omega (arith, fits)) ∙ bit_or_low s x c p in
    let room : suc (x % w) * 2 ^ s ≤ w * 2 ^ s = mul-le-mul_right (2 ^ s) r in
    (
      mod_unique u32 (x / w) _ _ (omega (arith, e, whole)) (omega (arith, room, b, p)),
      whole,
      lt_of_mul-lt-mul_right w (omega (arith, d, b, k)),
    )

carry_out : (s x : ℕ) → x < u32 → (if s == 0 then 0 else x / 2 ^ (32 - s)) ≡ x / 2 ^ (32 - s)
carry_out s x h = elim (Bool-cases (s == 0)) [
  | inl e ↦
      rw e (sym (div-eq_of_lt (omega (arith, ap (λ (t : ℕ). 2 ^ (32 - t)) ((==_iff s 0).0 e)))))
  | inr e ↦ rw e
]

shl_loop_lem :
    (xs : List ℕ) (s c : ℕ)
    → s < 32
    → c < 2 ^ s
    → All IsLimb xs
    → (mag (shl_loop xs s c) ≡ mag xs * 2 ^ s + c) × All IsLimb (shl_loop xs s c)
unfolding shl_loop
shl_loop_lem [] s c h p k =
    let small : c < u32 =
      omega (arith, le-mul_of_pos_right (2 ^ s) (pow_pos (32 - s)), base_split s (omega arith)) in
    (omega arith, (small, tt))
shl_loop_lem (x ∷ xs) s c h p k =
    let (e, whole, lt) = cut s x c h k.0 p in
    let ih = shl_loop_lem xs s (x / 2 ^ (32 - s)) h lt k.1 in
    rw (carry_out s x k.0) (omega (arith, e, whole, ih.0), (omega arith, ih.1))

mag-append_zeros : (xs : List ℕ) (n : ℕ) → mag (xs ++ replicate n 0) ≡ mag xs
mag-append_zeros [] n = mag-replicate n
mag-append_zeros (x ∷ xs) n = omega (arith, mag-append_zeros xs n)

mag-zeros_append : (n : ℕ) (xs : List ℕ) → mag (replicate n 0 ++ xs) ≡ mag xs * 2 ^ (n * 32)
mag-zeros_append zero xs = omega (arith, ap (λ (t : ℕ). mag xs * t) (pow-zero 2))
mag-zeros_append (suc n) xs =
    let e =
      ap (λ (t : ℕ). 2 ^ t) {x = suc n * 32} {y = 32 + n * 32} (omega arith)
      ∙ pow_add 2 32 (n * 32) in
    omega (arith, mag-zeros_append n xs, ap (λ (t : ℕ). mag xs * t) e)

signed_scale : (s : Sign) (m k : ℕ) → signed s (m * k) ≡ signed s m *ℤ pos k
unfolding ◌*ℤ◌
signed_scale minus m k = ground arith
signed_scale naught m k = ground arith
signed_scale plus m k = ground arith

scale_one : (z : ℤ) → z ≡ z *ℤ pos 1
unfolding ◌*ℤ◌
scale_one z = ground arith

shl_nonzero :
    (s : Sign) (xs : List ℕ) (bits : ℕ)
    → s ≢ naught
    → All IsLimb xs
    → Gives
        (bn_normalize (record {
          sign = s;
          limbs =
              replicate (bits / 32) 0
              ++ (shl_loop xs (bits % 32) 0 ++ replicate (if bits % 32 == 0 then 0 else 1) 0);
        }))
        (signed s (mag xs) *ℤ pos (2 ^ bits))
shl_nonzero s xs bits h k =
    let n : ℕ = if bits % 32 == 0 then 0 else 1 in
    let (e, small) = shl_loop_lem xs (bits % 32) 0 (omega arith) (pow_pos (bits % 32)) k in
    let p =
      ap (λ (t : ℕ). 2 ^ t) {x = bits} {y = bits % 32 + bits / 32 * 32} (omega arith)
      ∙ pow_add 2 (bits % 32) (bits / 32 * 32) in
    (
      bn_normalize-IsWf s _ h (
          All-append IsLimb _ _ (All-replicate IsLimb _ 0 (omega arith))
            (All-append IsLimb _ _ small (All-replicate IsLimb n 0 (omega arith)))),
      to_ℤ-bn_normalize s _
          ∙ ap (signed s) {y = mag xs * 2 ^ bits} (
              mag-zeros_append (bits / 32) _
              ∙ ap (λ (t : ℕ). t * 2 ^ (bits / 32 * 32)) (mag-append_zeros _ n ∙ e)
              ∙ omega (arith, ap (λ (t : ℕ). mag xs * t) p))
          ∙ signed_scale s (mag xs) (2 ^ bits),
    )

zero_scale : (k : ℕ) → pos 0 ≡ pos 0 *ℤ pos k
unfolding ◌*ℤ◌
zero_scale k = ground arith

shl_by :
    (s : Sign) (xs : List ℕ) (bits : ℕ)
    → IsWf (record { sign = s; limbs = xs })
    → s ≢ naught
    → Gives
        (if bits == 0
          then bn_clone (record { sign = s; limbs = xs })
          else bn_normalize (record {
            sign = s;
            limbs =
                replicate (bits / 32) 0
                ++ (shl_loop xs (bits % 32) 0 ++ replicate (if bits % 32 == 0 then 0 else 1) 0);
          }))
        (signed s (mag xs) *ℤ pos (2 ^ bits))
shl_by s xs bits w h = elim (Bool-cases (bits == 0)) [
  | inl e ↦
      let p = ap (λ (t : ℕ). 2 ^ t) {x = bits} {y = 0} ((==_iff bits 0).0 e) in
      rw e (
        Gives-clone _ _ w
          (scale_one _ ∙ ap (λ (t : ℕ). signed s (mag xs) *ℤ pos t) {x = 1} (sym p)))
  | inr e ↦ rw e (shl_nonzero s xs bits h w.small)
]

shl_signs :
    (s : Sign) (xs : List ℕ) (bits : ℕ)
    → IsWf (record { sign = s; limbs = xs })
    → Gives (bn_shl (record { sign = s; limbs = xs }) bits) (signed s (mag xs) *ℤ pos (2 ^ bits))
unfolding bn_shl
shl_signs naught xs bits w = Gives-clone _ _ w (zero_scale (2 ^ bits))
shl_signs plus xs bits w = shl_by plus xs bits w (λ e. cc)
shl_signs minus xs bits w = shl_by minus xs bits w (λ e. cc)

-- bn_shl of a well-formed number is well formed, and multiplies the integer by 2 ^ bits.
pub bn_shl-Gives :
    (a : BigNum) (bits : ℕ) → IsWf a → Gives (bn_shl a bits) (to_ℤ a *ℤ pos (2 ^ bits))
bn_shl-Gives a bits w = shl_signs a.sign a.limbs bits w
