-- ===== src/BigNum/Add.antt =====
-- Addition, subtraction and negation of bignums (mario/mario.c: bn_add_abs, bn_sub_abs, bn_add,
-- bn_sub, bn_neg).
use Prim.Native.Nat.{max}
use mario_js.Prelude.{
  ℕ, zero, suc, ◌+◌, ◌-◌, ◌/◌, ◌%◌, ◌≤◌, ◌<◌, ◌≡◌, ◌≢◌, ◌∙◌, List, [], ◌∷◌, length, All, u32, u64,
  low, rest, ltb, Bool-cases, inl, inr, ◌==◌, if◌then◌else◌, arith,
}
use mario_js.Prelude.Int.{ℤ, pos, ◌+ℤ◌, ◌-ℤ◌}
use mario_js.BigNum.{
  BigNum, Sign, minus, naught, plus, mag, signed, to_ℤ, IsLimb, IsWf, flip, same_sign, bn_normalize,
  bn_new, bn_clone, bn_neg,
}
use mario_js.BigNum.Limbs.{mag_split, low-lt, rest-IsLimb, length-rest, IsMag, trim-IsMag}
use mario_js.BigNum.Spec.{
  Gives, Gives-mag, Gives-clone, signed_add, signed-flip, signed_sub, signed_cancel, flip-flip,
  +ℤ_comm, flip-ne_naught, bn_new-IsWf, flip-IsWf, zero_add_signed,
}
use mario_js.BigNum.Order.{Orders, bn_cmp_abs, bn_cmp_abs-Orders, mag-gt-zero}

-- The loop of bn_add_abs with `n` rounds left; the carry that is left becomes a limb.
unfoldable pub add_loop : ℕ → List ℕ → List ℕ → ℕ → List ℕ
add_loop zero xs ys carry = if carry == 0 then [] else carry ∷ []
add_loop (suc n) xs ys carry =
    let s = (low xs + low ys + carry) % u64 in s % u32 ∷ add_loop n (rest xs) (rest ys) (s / u32)

unfoldable pub bn_add_abs : List ℕ → List ℕ → BigNum
unfolding add_loop
bn_add_abs a b =
    bn_normalize (record { sign = naught; limbs = add_loop (max (length a) (length b)) a b 0 })

-- The loop of bn_sub_abs over the limbs of `a`: `d = av - bv - borrow`, plus 2 ^ 32 if that is
-- negative, which is the next borrow.
unfoldable pub sub_loop : List ℕ → List ℕ → ℕ → List ℕ
sub_loop [] ys borrow = []
sub_loop (x ∷ xs) ys borrow =
    let s = low ys + borrow in
    let negative = ltb x s in
    (if negative then x + u32 - s else x - s) ∷ sub_loop xs (rest ys) (if negative then 1 else 0)

unfoldable pub bn_sub_abs : List ℕ → List ℕ → BigNum
unfolding sub_loop
bn_sub_abs a b = bn_normalize (record { sign = naught; limbs = sub_loop a b 0 })

-- What bn_add does with operands of opposite signs, on the answer of bn_cmp_abs.
unfoldable pub add_opposite : Sign → BigNum → BigNum → BigNum
unfolding bn_sub_abs
add_opposite naught a b = bn_new
add_opposite plus a b = record (bn_sub_abs a.limbs b.limbs) { sign = a.sign }
add_opposite minus a b = record (bn_sub_abs b.limbs a.limbs) { sign = b.sign }

unfoldable pub bn_add : BigNum → BigNum → BigNum
unfolding bn_clone bn_add_abs add_opposite
bn_add a b =
    if same_sign a.sign naught
    then bn_clone b
    else if same_sign b.sign naught
    then bn_clone a
    else if same_sign a.sign b.sign
    then record (bn_add_abs a.limbs b.limbs) { sign = a.sign }
    else add_opposite (bn_cmp_abs a.limbs b.limbs) a b

-- bn_add reads `nb`, which is `b` with the sign turned.
unfoldable pub bn_sub : BigNum → BigNum → BigNum
unfolding flip bn_add
bn_sub a b = bn_add a (record b { sign = flip b.sign })

mag-add_loop :
    (n : ℕ) (xs ys : List ℕ) (c : ℕ)
    → length xs ≤ n
    → length ys ≤ n
    → All IsLimb xs
    → All IsLimb ys
    → c ≤ 1
    → mag (add_loop n xs ys c) ≡ mag xs + mag ys + c
unfolding add_loop
mag-add_loop zero [] [] c h k p q r = ground arith
mag-add_loop zero (x ∷ xs) ys c h k p q r = absurd (omega arith)
mag-add_loop zero [] (y ∷ ys) c h k p q r = absurd (omega arith)
mag-add_loop (suc n) xs ys c h k p q r =
    let s = (low xs + low ys + c) % u64 in
    let ih =
      mag-add_loop n (rest xs) (rest ys) (s / u32) (length-rest n xs h) (length-rest n ys k)
        (rest-IsLimb xs p) (rest-IsLimb ys q) (omega (arith, low-lt xs p, low-lt ys q)) in
    omega (arith, ih, low-lt xs p, low-lt ys q, mag_split xs, mag_split ys)

add_loop-IsLimb : (n : ℕ) (xs ys : List ℕ) (c : ℕ) → c < u32 → All IsLimb (add_loop n xs ys c)
unfolding add_loop
add_loop-IsLimb zero xs ys c h = elim (Bool-cases (c == 0)) [
  | inl e ↦ rw e tt
  | inr e ↦ rw e (h, tt)
]
add_loop-IsLimb (suc n) xs ys c h =
    (omega arith, add_loop-IsLimb n (rest xs) (rest ys) _ (omega arith))

pub mag-sub_loop :
    (xs ys : List ℕ) (c : ℕ)
    → All IsLimb xs
    → All IsLimb ys
    → c ≤ 1
    → mag ys + c ≤ mag xs
    → mag (sub_loop xs ys c) + mag ys + c ≡ mag xs
unfolding sub_loop
mag-sub_loop [] ys c p q r h = omega arith
mag-sub_loop (x ∷ xs) ys c p q r h = ground (
  arith,
  low-lt ys q,
  mag_split ys,
  rest-IsLimb ys q,
  mag-sub_loop xs (rest ys) (if ltb x (low ys + c) then 1 else 0),
)

pub sub_loop-IsLimb :
    (xs ys : List ℕ) (c : ℕ) → All IsLimb xs → All IsLimb ys → c ≤ 1 → All IsLimb (sub_loop xs ys c)
unfolding sub_loop
sub_loop-IsLimb [] ys c h k r = tt
sub_loop-IsLimb (x ∷ xs) ys c h k r = (
  ground (arith, low-lt ys k),
  sub_loop-IsLimb xs (rest ys) _ h.1 (rest-IsLimb ys k) (ground arith),
)

pub bn_add_abs-IsMag :
    (xs ys : List ℕ)
    → All IsLimb xs
    → All IsLimb ys
    → IsMag (bn_add_abs xs ys).limbs (mag xs + mag ys)
unfolding bn_add_abs bn_normalize
bn_add_abs-IsMag xs ys h k =
    let n = max (length xs) (length ys) in
    trim-IsMag (add_loop n xs ys 0) _ (add_loop-IsLimb n xs ys 0 (omega arith))
      (mag-add_loop n xs ys 0 (omega arith) (omega arith) h k (omega arith) ∙ omega arith)

pub bn_sub_abs-IsMag :
    (xs ys : List ℕ)
    → All IsLimb xs
    → All IsLimb ys
    → mag ys ≤ mag xs
    → IsMag (bn_sub_abs xs ys).limbs (mag xs - mag ys)
unfolding bn_sub_abs bn_normalize
bn_sub_abs-IsMag xs ys h k le =
    trim-IsMag (sub_loop xs ys 0) _ (sub_loop-IsLimb xs ys 0 h k (omega arith))
      (omega (arith, mag-sub_loop xs ys 0 h k (omega arith) (omega arith)))

module _ (s : Sign) (xs ys : List ℕ) (h : s ≢ naught) where
  -- Both operands have the sign `s`.
  add_same-Gives :
      IsWf (record { sign = s; limbs = xs })
      → IsWf (record { sign = s; limbs = ys })
      → Gives (record (bn_add_abs xs ys) { sign = s }) (signed s (mag xs) +ℤ signed s (mag ys))
  add_same-Gives v w =
      Gives-mag s (bn_add_abs xs ys).limbs (mag xs + mag ys) _ h (omega (arith, mag-gt-zero v h))
        (bn_add_abs-IsMag xs ys v.small w.small) (signed_add s (mag xs) (mag ys))

  add_opposite-Gives :
      (c : Sign)
      → Orders c (mag xs) (mag ys)
      → IsWf (record { sign = s; limbs = xs })
      → IsWf (record { sign = flip s; limbs = ys })
      → Gives
          (add_opposite c (record { sign = s; limbs = xs }) (record { sign = flip s; limbs = ys }))
          (signed s (mag xs) +ℤ signed (flip s) (mag ys))
  unfolding add_opposite
  add_opposite-Gives naught o v w = (bn_new-IsWf, rw o (signed_cancel s (mag ys)))
  add_opposite-Gives plus o v w =
      Gives-mag s (bn_sub_abs xs ys).limbs (mag xs - mag ys) _ h (omega arith)
        (bn_sub_abs-IsMag xs ys v.small w.small (omega arith))
        (signed_sub s (mag xs) (mag ys) (omega arith))
  add_opposite-Gives minus o v w =
      Gives-mag (flip s) (bn_sub_abs ys xs).limbs (mag ys - mag xs) _ (flip-ne_naught s h)
        (omega arith) (bn_sub_abs-IsMag ys xs w.small v.small (omega arith))
        (signed_sub (flip s) (mag ys) (mag xs) (omega arith) ∙ rw (flip-flip s) (+ℤ_comm _ _))

add_signs :
    (s t : Sign) (xs ys : List ℕ)
    → IsWf (record { sign = s; limbs = xs })
    → IsWf (record { sign = t; limbs = ys })
    → Gives
        (bn_add (record { sign = s; limbs = xs }) (record { sign = t; limbs = ys }))
        (signed s (mag xs) +ℤ signed t (mag ys))
unfolding bn_add flip
add_signs naught t xs ys v w = Gives-clone _ _ w (zero_add_signed _)
add_signs plus plus xs ys v w = add_same-Gives plus xs ys (λ e. cc) v w
add_signs minus minus xs ys v w = add_same-Gives minus xs ys (λ e. cc) v w
add_signs plus minus xs ys v w =
    add_opposite-Gives plus xs ys (λ e. cc) _ (bn_cmp_abs-Orders _ _ v w) v w
add_signs minus plus xs ys v w =
    add_opposite-Gives minus xs ys (λ e. cc) _ (bn_cmp_abs-Orders _ _ v w) v w
add_signs s naught xs ys v w = Gives-clone _ _ v (zero_add_signed _ ∙ +ℤ_comm _ _)

-- The sum of well-formed numbers is well formed, and stands for the sum of the integers.
pub bn_add-Gives : (a b : BigNum) → IsWf a → IsWf b → Gives (bn_add a b) (to_ℤ a +ℤ to_ℤ b)
bn_add-Gives a b v w = add_signs a.sign b.sign a.limbs b.limbs v w

+ℤ-neg : (a b : ℤ) → a +ℤ (pos 0 -ℤ b) ≡ a -ℤ b
unfolding ◌+ℤ◌ ◌-ℤ◌
+ℤ-neg a b = ground arith

-- The difference of well-formed numbers is well formed, and stands for the difference of the
-- integers.
pub bn_sub-Gives : (a b : BigNum) → IsWf a → IsWf b → Gives (bn_sub a b) (to_ℤ a -ℤ to_ℤ b)
unfolding bn_sub
bn_sub-Gives a b v w =
    let r = bn_add-Gives a (record b { sign = flip b.sign }) v (flip-IsWf b.sign b.limbs w) in
    (r.0, r.1 ∙ rw (signed-flip b.sign (mag b.limbs)) (+ℤ-neg _ _))

-- bn_neg of a well-formed number is well formed, and stands for the opposite integer.
pub bn_neg-Gives : (a : BigNum) → IsWf a → Gives (bn_neg a) (pos 0 -ℤ to_ℤ a)
unfolding bn_neg
bn_neg-Gives a w = (flip-IsWf a.sign a.limbs w, signed-flip a.sign (mag a.limbs))
