-- ===== src/BigNum/Div.antt =====
-- Binary long division of magnitudes, and the quotient and remainder of bignums (mario/mario.c:
-- bn_sub_abs_inplace, bn_divmod_abs, bn_div, bn_mod).
pub mod Long
pub mod Signed
use Prim.Native.Nat.{bit_or}
use mario_js.Prelude.{
  ℕ, zero, suc, ◌+◌, ◌*◌, ◌/◌, ◌%◌, ◌^◌, Bool, true, false, List, [], ◌∷◌, length, replicate, u32,
  ◌==◌, if◌then◌else◌, Option, none, some,
}
use mario_js.BigNum.{
  BigNum, Sign, minus, naught, plus, sign_of, same_sign, bn_normalize, bn_clone, bn_new, bn_is_zero,
  trim,
}
use mario_js.BigNum.Order.{bn_cmp_abs}
use mario_js.BigNum.Add.{sub_loop}
use mario_js.BigNum.BitAt.{bit_at, set_bit}

-- The same loop as bn_sub_abs, over the limbs of `r` in place.
unfoldable pub bn_sub_abs_inplace : List ℕ → List ℕ → List ℕ
unfolding trim sub_loop
bn_sub_abs_inplace r b = trim (sub_loop r b 0)

-- `rem <<= 1`, a limb at a time with the top digit carried.
unfoldable pub shl_one : List ℕ → ℕ → List ℕ
shl_one [] carry = if carry == 0 then [] else carry ∷ []
shl_one (x ∷ xs) carry = bit_or (x * 2 % u32) carry ∷ shl_one xs (x / 2 ^ 31)

-- `rem->limbs[0] |= 1`: with no limbs in use the buffer holds a zero there.
unfoldable pub set_low : List ℕ → List ℕ
set_low [] = bit_or 0 1 ∷ []
set_low (x ∷ xs) = bit_or x 1 ∷ xs

-- What a comparison below, or not below, leaves of the quotient and the remainder.
unfoldable pub take_bit : Sign → ℕ → List ℕ → List ℕ → List ℕ → List ℕ × List ℕ
unfolding set_bit bn_sub_abs_inplace
take_bit minus bit b q rem = (q, rem)
take_bit naught bit b q rem = (set_bit q bit, bn_sub_abs_inplace rem b)
take_bit plus bit b q rem = (set_bit q bit, bn_sub_abs_inplace rem b)

-- The body of the loop over the bits of `a`.
unfoldable pub divmod_step : List ℕ → List ℕ → ℕ → List ℕ × List ℕ → List ℕ × List ℕ
unfolding shl_one set_low take_bit bit_at
divmod_step a b bit (q, rem) =
    let shifted = shl_one rem 0 in
    let next = if bit_at a bit == 0 then shifted else set_low shifted in
    take_bit (bn_cmp_abs next b) bit b q next

unfoldable pub divmod_loop : ℕ → List ℕ → List ℕ → List ℕ × List ℕ → List ℕ × List ℕ
unfolding divmod_step
divmod_loop zero a b s = s
divmod_loop (suc bit) a b s = divmod_loop bit a b (divmod_step a b bit s)

-- The division proper; the number of bits is a uint32_t. `q` has a limb for each limb of `a`, all zero; its length in use is one past
-- the highest limb that was written, above which bn_normalize would drop the zeros in any case.
unfoldable pub long_division : List ℕ → List ℕ → BigNum × BigNum
unfolding divmod_loop bn_normalize
long_division a b =
    let r = divmod_loop (length a * 32 % u32) a b (replicate (length a) 0, []) in
    (
      bn_normalize (record { sign = plus; limbs = r.0 }),
      bn_normalize (record { sign = sign_of plus r.1; limbs = r.1 }),
    )

-- A smaller dividend is the remainder at once.
unfoldable pub divmod_by : Sign → List ℕ → List ℕ → BigNum × BigNum
unfolding long_division
divmod_by minus a b = (bn_new, record { sign = sign_of plus a; limbs = a })
divmod_by naught a b = long_division a b
divmod_by plus a b = long_division a b

unfoldable pub bn_divmod_abs : List ℕ → List ℕ → BigNum × BigNum
unfolding bn_cmp_abs divmod_by
bn_divmod_abs a b = divmod_by (bn_cmp_abs a b) a b

-- `none` is the NULL for which the caller raises a RangeError.
unfoldable pub bn_div : BigNum → BigNum → Option BigNum
unfolding bn_divmod_abs bn_is_zero
bn_div a b =
    let q = (bn_divmod_abs a.limbs b.limbs).0 in
    if bn_is_zero b
    then none
    else some
        (record q { sign = sign_of (if same_sign a.sign b.sign then plus else minus) q.limbs })

unfoldable pub bn_mod : BigNum → BigNum → Option BigNum
unfolding bn_divmod_abs bn_is_zero
bn_mod a b =
    let r = (bn_divmod_abs a.limbs b.limbs).1 in
    if bn_is_zero b then none else some (record r { sign = sign_of a.sign r.limbs })
