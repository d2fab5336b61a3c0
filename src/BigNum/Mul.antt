-- ===== src/BigNum/Mul.antt =====
-- Multiplication of bignums (mario/mario.c: bn_mul).
use native.Mathlib.Nat.{
  pow-succ', mul-le-mul, mul-lt-mul_of_pos_right, mul-le-mul_left, one-le-pow, lt_of_le_of_lt,
  le_of_lt,
}
use mario_js.Prelude.{
  ℕ, zero, ◌+◌, ◌*◌, ◌/◌, ◌%◌, ◌^◌, ◌≤◌, ◌<◌, ◌≡◌, ◌≢◌, refl, ap, ◌∙◌, Bool, true, false, ◌||◌,
  List, [], ◌∷◌, length, All, replicate, length-replicate, length-drop, All-replicate, u32, u64,
  low, rest, ◌==◌, Bool-cases, inl, inr, if◌then◌else◌, arith,
}
use mario_js.Prelude.Bits.{pow_add}
use mario_js.Prelude.Int.{ℤ, pos, ◌*ℤ◌}
use mario_js.BigNum.{
  BigNum, Sign, minus, naught, plus, mag, signed, to_ℤ, IsLimb, IsWf, same_sign, bn_normalize,
  bn_new,
}
use mario_js.BigNum.Limbs.{
  mag_split, low-lt, rest-IsLimb, mag-lt, mag-replicate, bn_normalize-IsWf, to_ℤ-bn_normalize,
}
use mario_js.BigNum.Spec.{Gives, bn_new-IsWf}

-- `while (carry)`, over the limbs of the result from `k` on. Running past the end of the buffer would
-- drop a carry; the laws below show that it does not.
unfoldable pub carry_loop : List ℕ → ℕ → List ℕ
carry_loop [] carry = []
carry_loop (r ∷ rs) carry =
    let cur = (r + carry) % u64 in
    let more = cur % u32 ∷ carry_loop rs (cur / u32) in if carry == 0 then r ∷ rs else more

-- The loop over `j`, adding `av * b` to the limbs of the result from `i` on.
unfoldable pub mul_row : ℕ → List ℕ → List ℕ → ℕ → List ℕ
unfolding carry_loop
mul_row av [] rs carry = carry_loop rs carry
mul_row av (y ∷ ys) [] carry = []
mul_row av (y ∷ ys) (r ∷ rs) carry =
    let cur = (r + av * y % u64 + carry) % u64 in cur % u32 ∷ mul_row av ys rs (cur / u32)

-- The loop over `i`: after the row the limb `i` of the result stays as it is.
unfoldable pub mul_loop : List ℕ → List ℕ → List ℕ → List ℕ
unfolding mul_row
mul_loop [] bs r = r
mul_loop (x ∷ xs) bs r = let row = mul_row x bs r 0 in low row ∷ mul_loop xs bs (rest row)

unfoldable pub bn_mul : BigNum → BigNum → BigNum
unfolding mul_loop
bn_mul a b =
    if same_sign a.sign naught || same_sign b.sign naught
    then bn_new
    else bn_normalize (record {
      sign = if same_sign a.sign b.sign then plus else minus;
      limbs = mul_loop a.limbs b.limbs (replicate (length a.limbs + length b.limbs) 0);
    })

-- One limb of a row does not overflow.
row_fits : (r x y c : ℕ) → r < u32 → x < u32 → y < u32 → c < u32 → r + x * y + c < u64
row_fits r x y c h k p q = omega (
  arith,
  mul-le-mul {n₁ = x} {m₁ = y} {n₂ = 4294967295} {m₂ = 4294967295} (omega arith) (omega arith),
)

-- The limbs `rs` of the result become `n`, in as many limbs.
record Sums (rs result : List ℕ) (n : ℕ) : Type 0 where
  value : mag result ≡ n
  size : length result ≡ length rs
  small : All IsLimb result

carry_loop-Sums :
    (rs : List ℕ) (c : ℕ)
    → All IsLimb rs
    → c < u32
    → mag rs + c < u32 ^ length rs
    → Sums rs (carry_loop rs c) (mag rs + c)
unfolding carry_loop
carry_loop-Sums [] c h k fits = record { value = omega arith; size = refl; small = tt }
carry_loop-Sums (r ∷ rs) c h k fits =
    let ih =
      carry_loop-Sums rs ((r + c) % u64 / u32) h.1 (omega arith)
        (omega (arith, pow-succ' u32 (length rs))) in
    elim (Bool-cases (c == 0)) [
      | inl e ↦ rw e (record { value = ground arith; size = refl; small = h })
      | inr e ↦ rw e (record {
        value = omega (arith, ih.value);
        size = omega (arith, ih.size);
        small = (omega arith, ih.small);
      })
    ]

mul_row-Sums :
    (x : ℕ) (ys rs : List ℕ) (c : ℕ)
    → x < u32
    → All IsLimb ys
    → All IsLimb rs
    → c < u32
    → length ys ≤ length rs
    → mag rs + x * mag ys + c < u32 ^ length rs
    → Sums rs (mul_row x ys rs c) (mag rs + x * mag ys + c)
unfolding mul_row
mul_row-Sums x [] rs c hx h k q l fits =
    let s = carry_loop-Sums rs c k q (omega arith) in
    record { value = omega (arith, s.value); size = s.size; small = s.small }
mul_row-Sums x (y ∷ ys) [] c hx h k q l fits = absurd (omega arith)
mul_row-Sums x (y ∷ ys) (r ∷ rs) c hx h k q l fits =
    let cur = (r + x * y % u64 + c) % u64 in
    let e : cur ≡ r + x * y + c = omega (arith, row_fits r x y c k.0 hx h.0 q) in
    let ih =
      mul_row-Sums x ys rs (cur / u32) hx h.1 k.1 (omega arith) (omega arith)
        (omega (arith, e, pow-succ' u32 (length rs))) in
    record {
      value = omega (arith, ih.value, e);
      size = omega (arith, ih.size);
      small = (omega arith, ih.small);
    }

mul_loop-Sums :
    (xs ys rs : List ℕ)
    → All IsLimb xs
    → All IsLimb ys
    → All IsLimb rs
    → length xs + length ys ≤ length rs
    → mag rs + mag xs * mag ys < u32 ^ length rs
    → Sums rs (mul_loop xs ys rs) (mag rs + mag xs * mag ys)
unfolding mul_loop
mul_loop-Sums [] ys rs h k q l fits = record { value = omega arith; size = refl; small = q }
mul_loop-Sums (x ∷ xs) ys [] h k q l fits = absurd (omega arith)
mul_loop-Sums (x ∷ xs) ys (r ∷ rs) h k q l fits =
    let s = mul_row-Sums x ys (r ∷ rs) 0 h.0 k q (omega arith) (omega arith) (omega arith) in
    let row = mul_row x ys (r ∷ rs) 0 in
    let split = mag_split row in
    let n : length (rest row) ≡ length rs = omega (arith, s.size, length-drop 1 row) in
    let p : u32 ^ length (rest row) ≡ u32 ^ length rs = ap (λ (t : ℕ). u32 ^ t) n in
    let ih =
      mul_loop-Sums xs ys (rest row) h.1 k (rest-IsLimb row s.small) (omega (arith, n))
        (omega (arith, p, split, s.value, pow-succ' u32 (length rs), low-lt row s.small)) in
    record {
      value = omega (arith, ih.value, split, s.value);
      size = omega (arith, ih.size, n);
      small = (low-lt row s.small, ih.small);
    }

pub signed_mul :
    (s t : Sign) (m n : ℕ)
    → s ≢ naught
    → t ≢ naught
    → signed (if same_sign s t then plus else minus) (m * n) ≡ signed s m *ℤ signed t n
unfolding ◌*ℤ◌
signed_mul minus minus m n h k = ground arith
signed_mul minus plus m n h k = ground arith
signed_mul plus minus m n h k = ground arith
signed_mul plus plus m n h k = ground arith
signed_mul naught t m n h k = absurd (h refl)
signed_mul s naught m n h k = absurd (k refl)

mul_fits :
    (xs ys : List ℕ)
    → All IsLimb xs
    → All IsLimb ys
    → mag xs * mag ys < u32 ^ (length xs + length ys)
mul_fits xs ys h k = rw (pow_add u32 (length xs) (length ys)) (
    lt_of_le_of_lt (mul-le-mul_left (mag xs) (le_of_lt (mag-lt ys k)))
      (mul-lt-mul_of_pos_right (mag-lt xs h) (one-le-pow (length ys) u32 (omega arith))))

product-Sums :
    (xs ys : List ℕ)
    → All IsLimb xs
    → All IsLimb ys
    → Sums
        (replicate (length xs + length ys) 0)
        (mul_loop xs ys (replicate (length xs + length ys) 0))
        (mag (replicate (length xs + length ys) 0) + mag xs * mag ys)
product-Sums xs ys h k =
    let n = length xs + length ys in
    let l = length-replicate n (zero) in
    mul_loop-Sums xs ys (replicate n 0) h k (All-replicate IsLimb n 0 (omega arith))
      (omega (arith, l))
      (omega (arith, mag-replicate n, mul_fits xs ys h k, ap (λ (t : ℕ). u32 ^ t) l))

mul_signs :
    (s t : Sign) (xs ys : List ℕ)
    → IsWf (record { sign = s; limbs = xs })
    → IsWf (record { sign = t; limbs = ys })
    → s ≢ naught
    → t ≢ naught
    → Gives
        (bn_normalize (record {
          sign = if same_sign s t then plus else minus;
          limbs = mul_loop xs ys (replicate (length xs + length ys) 0);
        }))
        (signed s (mag xs) *ℤ signed t (mag ys))
mul_signs s t xs ys v w h k =
    let p = product-Sums xs ys v.small w.small in
    (
      bn_normalize-IsWf _ _ (either_ne_naught (same_sign s t)) p.small,
      to_ℤ-bn_normalize _ _
          ∙ ap (signed (if same_sign s t then plus else minus)) {y = mag xs * mag ys}
              (omega (arith, p.value, mag-replicate (length xs + length ys)))
          ∙ signed_mul s t (mag xs) (mag ys) h k,
    )
  where
    either_ne_naught : (c : Bool) → (if c then plus else minus) ≢ naught
    either_ne_naught true = λ e. cc
    either_ne_naught false = λ e. cc

zero_mul : (z : ℤ) → pos 0 ≡ pos 0 *ℤ z
unfolding ◌*ℤ◌
zero_mul z = ground arith

mul_zero : (z : ℤ) → pos 0 ≡ z *ℤ pos 0
unfolding ◌*ℤ◌
mul_zero z = ground arith

bn_mul_signs :
    (s t : Sign) (xs ys : List ℕ)
    → IsWf (record { sign = s; limbs = xs })
    → IsWf (record { sign = t; limbs = ys })
    → Gives
        (bn_mul (record { sign = s; limbs = xs }) (record { sign = t; limbs = ys }))
        (signed s (mag xs) *ℤ signed t (mag ys))
unfolding bn_mul
bn_mul_signs naught t xs ys v w = (bn_new-IsWf, zero_mul _)
bn_mul_signs plus naught xs ys v w = (bn_new-IsWf, mul_zero _)
bn_mul_signs minus naught xs ys v w = (bn_new-IsWf, mul_zero _)
bn_mul_signs plus plus xs ys v w = mul_signs plus plus xs ys v w (λ e. cc) (λ e. cc)
bn_mul_signs plus minus xs ys v w = mul_signs plus minus xs ys v w (λ e. cc) (λ e. cc)
bn_mul_signs minus plus xs ys v w = mul_signs minus plus xs ys v w (λ e. cc) (λ e. cc)
bn_mul_signs minus minus xs ys v w = mul_signs minus minus xs ys v w (λ e. cc) (λ e. cc)

-- The product of well-formed numbers is well formed, and stands for the product of the integers.
pub bn_mul-Gives : (a b : BigNum) → IsWf a → IsWf b → Gives (bn_mul a b) (to_ℤ a *ℤ to_ℤ b)
bn_mul-Gives a b v w = bn_mul_signs a.sign b.sign a.limbs b.limbs v w
