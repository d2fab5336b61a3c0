-- ===== src/BigNum.antt =====
-- The arbitrary-precision integers of mario/mario.c (bignum_t, bn_*): the type, its invariant and the
-- operations that the others are built from.
--
-- `limbs` holds the `len` limbs in use, least significant first, so `len` is the length of the list;
-- the capacity of the buffer and the copies that `bn_grow` makes are not kept. `bn_grow` fills a new
-- buffer with zeros, which is what the loops below read past `len`.
pub mod Limbs
pub mod Order
pub mod Spec
pub mod Add
pub mod Mul
pub mod Small
pub mod BitAt
pub mod Div
pub mod Shift
use mario_js.Prelude.{
  ℕ, zero, suc, ◌+◌, ◌*◌, ◌/◌, ◌%◌, ◌<◌, ◌≡◌, ◌≢◌, ◌↔◌, Bool, true, false, ◌||◌, List, [], ◌∷◌,
  length, All, u32, u64, ltb, ◌==◌, if◌then◌else◌,
}
use mario_js.Prelude.Int.{ℤ, pos, negsuc, sub_ℕ}

-- The `int` that is -1, 0 or +1: the field `sign`, and what the comparisons return.
pub data Sign : Type 0 where
  minus naught plus : Sign

pub record BigNum : Type 0 where
  pub sign : Sign
  pub limbs : List ℕ

-- What a list of limbs stands for, and a bignum.
abbrev pub mag : List ℕ → ℕ
mag [] = 0
mag (x ∷ xs) = x + u32 * mag xs

abbrev pub signed : Sign → ℕ → ℤ
signed minus n = sub_ℕ 0 n
signed naught n = pos 0
signed plus n = pos n

abbrev pub to_ℤ : BigNum → ℤ
to_ℤ b = signed b.sign (mag b.limbs)

abbrev pub IsLimb : ℕ → Type 0
IsLimb x = x < u32

-- No redundant leading zero limb.
abbrev pub IsTrimmed : List ℕ → Type 0
IsTrimmed [] = Unit {0}
IsTrimmed (x ∷ []) = x ≢ 0
IsTrimmed (x ∷ y ∷ ys) = IsTrimmed (y ∷ ys)

-- The invariant that the comment on the library states.
pub record IsWf (b : BigNum) : Type 0 where
  pub small : All IsLimb b.limbs
  pub trimmed : IsTrimmed b.limbs
  pub sign_zero : (b.sign ≡ naught) ↔ (b.limbs ≡ [])

unfoldable pub flip : Sign → Sign
flip minus = plus
flip naught = naught
flip plus = minus

abbrev pub same_sign : Sign → Sign → Bool
same_sign minus minus = true
same_sign naught naught = true
same_sign plus plus = true
same_sign _ _ = false

-- `while (b->len > 0 && b->limbs[b->len-1] == 0) b->len--`
abbrev pub put_limb : ℕ → List ℕ → List ℕ
put_limb x [] = if x == 0 then [] else x ∷ []
put_limb x (y ∷ ys) = x ∷ y ∷ ys

unfoldable pub trim : List ℕ → List ℕ
trim [] = []
trim (x ∷ xs) = put_limb x (trim xs)

abbrev pub sign_of : Sign → List ℕ → Sign
sign_of s [] = naught
sign_of s (x ∷ xs) = s

unfoldable pub bn_normalize : BigNum → BigNum
unfolding trim
bn_normalize b = let l = trim b.limbs in record { sign = sign_of b.sign l; limbs = l }

abbrev pub bn_new : BigNum
bn_new = record { sign = naught; limbs = [] }

-- Only a number with limbs has its sign copied.
unfoldable pub bn_clone : BigNum → BigNum
bn_clone src = record { sign = sign_of src.sign src.limbs; limbs = src.limbs }

unfoldable pub is_empty : List ℕ → Bool
is_empty [] = true
is_empty (x ∷ xs) = false

unfoldable pub bn_is_zero : BigNum → Bool
unfolding is_empty
bn_is_zero b = is_empty b.limbs || same_sign b.sign naught

unfoldable pub bn_from_uint64 : ℕ → BigNum
bn_from_uint64 v = if v == 0 then bn_new else record {
  sign = plus;
  limbs = if v / u32 == 0 then v % u32 ∷ [] else v % u32 ∷ v / u32 ∷ [];
}

-- `(uint64_t)(-(v + 1)) + 1` for a negative `v`
unfoldable pub bn_from_int64 : ℤ → BigNum
unfolding bn_from_uint64
bn_from_int64 (pos n) = bn_from_uint64 n
bn_from_int64 (negsuc n) =
    let b = bn_from_uint64 ((n + 1) % u64) in record b { sign = sign_of minus b.limbs }

unfoldable pub bn_neg : BigNum → BigNum
unfolding flip bn_clone
bn_neg a = record (bn_clone a) { sign = flip a.sign }
