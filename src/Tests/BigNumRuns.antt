-- ===== src/Tests/BigNumRuns.antt =====
-- The big integers of mario/mario.c on concrete numbers.
use mario_js.Prelude.{◌^◌, ◌≡◌, refl, [], ◌∷◌, arith}
use mario_js.Prelude.Int.{pos, ◌+ℤ◌, ◌-ℤ◌, ◌*ℤ◌}
use mario_js.BigNum.{BigNum, minus, plus, to_ℤ, IsWf, bn_new}
use mario_js.BigNum.Limbs.{IsMag, IsMag-IsWf}
use mario_js.BigNum.Spec.{Gives, bn_new-IsWf}
use mario_js.BigNum.Add.{bn_add, bn_sub, bn_add-Gives, bn_sub-Gives}
use mario_js.BigNum.Mul.{bn_mul, bn_mul-Gives}
use mario_js.BigNum.Small.{
  small_inplace-restores, bn_mul_small_inplace, bn_add_small_inplace, bn_divmod_small_inplace,
  Leaves,
}
use mario_js.BigNum.Div.Signed.{Quotient, div_mod-Quotient, NullsJust, div_mod-NullsJust}
use mario_js.BigNum.Shift.{bn_shl, bn_shl-Gives}

abbrev two_limbs : BigNum
two_limbs = record { sign = minus; limbs = 7 ∷ 2 ∷ [] }

abbrev one_limb : BigNum
one_limb = record { sign = plus; limbs = 5 ∷ [] }

two_limbs-IsMag : IsMag (7 ∷ 2 ∷ []) 8589934599
two_limbs-IsMag = record {
  small = (omega arith, (omega arith, tt));
  trimmed = λ e. omega (arith, e);
  value = refl;
}

two_limbs-IsWf : IsWf two_limbs
two_limbs-IsWf = IsMag-IsWf minus (7 ∷ 2 ∷ []) 8589934599 (λ e. cc) (omega arith) two_limbs-IsMag

one_limb-IsMag : IsMag (5 ∷ []) 5
one_limb-IsMag = record { small = (omega arith, tt); trimmed = λ e. omega (arith, e); value = refl }

one_limb-IsWf : IsWf one_limb
one_limb-IsWf = IsMag-IsWf plus (5 ∷ []) 5 (λ e. cc) (omega arith) one_limb-IsMag

div_mod-Quotient_example : Quotient two_limbs one_limb
div_mod-Quotient_example =
    div_mod-Quotient two_limbs one_limb two_limbs-IsWf one_limb-IsWf (omega arith)
      (λ e. ground (arith, e))

div_mod-NullsJust_example : NullsJust two_limbs bn_new
div_mod-NullsJust_example = div_mod-NullsJust two_limbs bn_new bn_new-IsWf

bn_mul-Gives_example : Gives (bn_mul two_limbs one_limb) (to_ℤ two_limbs *ℤ to_ℤ one_limb)
bn_mul-Gives_example = bn_mul-Gives two_limbs one_limb two_limbs-IsWf one_limb-IsWf

bn_add-Gives_example : Gives (bn_add two_limbs one_limb) (to_ℤ two_limbs +ℤ to_ℤ one_limb)
bn_add-Gives_example = bn_add-Gives two_limbs one_limb two_limbs-IsWf one_limb-IsWf

bn_sub-Gives_example : Gives (bn_sub two_limbs one_limb) (to_ℤ two_limbs -ℤ to_ℤ one_limb)
bn_sub-Gives_example = bn_sub-Gives two_limbs one_limb two_limbs-IsWf one_limb-IsWf

bn_shl-Gives_example : Gives (bn_shl two_limbs 37) (to_ℤ two_limbs *ℤ pos (2 ^ 37))
bn_shl-Gives_example = bn_shl-Gives two_limbs 37 two_limbs-IsWf

small_inplace-restores_example :
    Leaves
      (bn_divmod_small_inplace (bn_add_small_inplace (bn_mul_small_inplace two_limbs 10) 9) 10).0
      8589934599
    × ((bn_divmod_small_inplace (bn_add_small_inplace (bn_mul_small_inplace two_limbs 10) 9) 10).1
        ≡ 9)
small_inplace-restores_example =
    small_inplace-restores minus (7 ∷ 2 ∷ []) 10 9 8589934599 (omega arith) (omega arith)
      (omega arith) two_limbs-IsMag
