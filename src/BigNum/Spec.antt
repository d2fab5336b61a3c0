-- ===== src/BigNum/Spec.antt =====
-- What the operations on bignums promise: a well-formed result that stands for an integer; with the
-- laws of signs, of bn_new and of bn_clone (mario/mario.c).
use mario_js.Prelude.{
  ℕ, ◌+◌, ◌-◌, ◌≤◌, ◌<◌, ◌≡◌, ◌≢◌, refl, ap, sym, subst, ◌∙◌, List, [], ◌∷◌, arith,
}
use mario_js.Prelude.Int.{ℤ, pos, ◌+ℤ◌, ◌-ℤ◌}
use mario_js.BigNum.{
  BigNum, Sign, minus, naught, plus, signed, to_ℤ, IsWf, flip, sign_of, bn_new, bn_clone,
}
use mario_js.BigNum.Limbs.{IsMag, IsMag-IsWf}

-- The result is well formed and stands for the integer `z`.
abbrev pub Gives : BigNum → ℤ → Type 0
Gives r z = IsWf r × (to_ℤ r ≡ z)

pub Gives-mag :
    (s : Sign) (xs : List ℕ) (n : ℕ) (z : ℤ)
    → s ≢ naught
    → 0 < n
    → IsMag xs n
    → signed s n ≡ z
    → Gives (record { sign = s; limbs = xs }) z
Gives-mag s xs n z h p w e = (IsMag-IsWf s xs n h p w, ap (signed s) w.value ∙ e)

clone_parts : (s : Sign) (xs : List ℕ) → IsWf (record { sign = s; limbs = xs }) → sign_of s xs ≡ s
clone_parts s [] w = sym (w.sign_zero.1 refl)
clone_parts s (x ∷ xs) w = refl

pub bn_clone_lem : (b : BigNum) → IsWf b → bn_clone b ≡ b
unfolding bn_clone
bn_clone_lem b w = λ i. record { sign = clone_parts b.sign b.limbs w i; limbs = b.limbs }

pub Gives-clone : (b : BigNum) (z : ℤ) → IsWf b → to_ℤ b ≡ z → Gives (bn_clone b) z
Gives-clone b z w e = subst (λ r. Gives r z) (sym (bn_clone_lem b w)) (w, e)

pub signed_add : (s : Sign) (m n : ℕ) → signed s (m + n) ≡ signed s m +ℤ signed s n
unfolding ◌+ℤ◌
signed_add minus m n = ground arith
signed_add naught m n = refl
signed_add plus m n = ground arith

-- The magnitude under the opposite sign.
pub signed-flip : (s : Sign) (n : ℕ) → signed (flip s) n ≡ pos 0 -ℤ signed s n
unfolding ◌-ℤ◌ flip
signed-flip minus n = ground arith
signed-flip naught n = refl
signed-flip plus n = ground arith

pub signed_sub : (s : Sign) (m n : ℕ) → n ≤ m → signed s (m - n) ≡ signed s m +ℤ signed (flip s) n
unfolding ◌+ℤ◌ flip
signed_sub minus m n h = ground arith
signed_sub naught m n h = refl
signed_sub plus m n h = ground arith

pub +ℤ_comm : (a b : ℤ) → a +ℤ b ≡ b +ℤ a
unfolding ◌+ℤ◌
+ℤ_comm a b = ground arith

pub signed_cancel : (s : Sign) (n : ℕ) → pos 0 ≡ signed s n +ℤ signed (flip s) n
unfolding ◌+ℤ◌ flip
signed_cancel minus n = ground arith
signed_cancel naught n = refl
signed_cancel plus n = ground arith

pub flip-flip : (s : Sign) → flip (flip s) ≡ s
unfolding flip
flip-flip minus = refl
flip-flip naught = refl
flip-flip plus = refl

pub flip-ne_naught : (s : Sign) → s ≢ naught → flip s ≢ naught
unfolding flip
flip-ne_naught minus h = λ e. cc
flip-ne_naught naught h = h
flip-ne_naught plus h = λ e. cc

pub bn_new-IsWf : IsWf bn_new
bn_new-IsWf = record { small = tt; trimmed = tt; sign_zero = (λ _. refl, λ _. refl) }

pub flip-IsWf :
    (s : Sign) (xs : List ℕ)
    → IsWf (record { sign = s; limbs = xs })
    → IsWf (record { sign = flip s; limbs = xs })
unfolding flip
flip-IsWf minus xs w = record {
  small = w.small;
  trimmed = w.trimmed;
  sign_zero = (λ e. cc, λ e. cc (w.sign_zero.1 e));
}
flip-IsWf naught xs w = w
flip-IsWf plus xs w = record {
  small = w.small;
  trimmed = w.trimmed;
  sign_zero = (λ e. cc, λ e. cc (w.sign_zero.1 e));
}

pub zero_add_signed : (z : ℤ) → z ≡ pos 0 +ℤ z
unfolding ◌+ℤ◌
zero_add_signed z = ground arith
