-- ===== src/BigNum/Div/Signed.antt =====
-- bn_div and bn_mod (mario/mario.c) with the signs of their operands.
use native.Mathlib.Nat.{mod-lt, div-add-mod, zero-div, zero-mod}
use mario_js.Prelude.{
  ℕ, ◌+◌, ◌*◌, ◌<◌, ◌≡◌, ◌≢◌, refl, ap, sym, ◌∙◌, Bool, true, false, List, [], ◌∷◌, subst,
  if◌then◌else◌, arith, none, some, u32, length, ◌↔◌,
}
use mario_js.Prelude.Int.{ℤ, pos, pos_part, neg_part, ◌+ℤ◌, ◌*ℤ◌}
use mario_js.BigNum.{
  BigNum, Sign, minus, naught, plus, mag, signed, to_ℤ, IsWf, same_sign, bn_is_zero, bn_new,
}
use mario_js.BigNum.Limbs.{IsMag, IsMag-sign_of, mag-pos}
use mario_js.BigNum.Order.{mag-gt-zero, mag-eq-zero}
use mario_js.BigNum.Spec.{signed_add, bn_new-IsWf}
use mario_js.BigNum.Mul.{signed_mul}
use mario_js.BigNum.Div.{bn_div, bn_mod}
use mario_js.BigNum.Div.Long.{bn_divmod_abs-Divides}

abbrev pub abs : ℤ → ℕ
abs z = pos_part z + neg_part z

-- The remainder has the sign of the dividend, or is zero.
abbrev pub SignOf : ℤ → ℤ → Type 0
SignOf r a = (pos_part a ≡ 0 → pos_part r ≡ 0) × (neg_part a ≡ 0 → neg_part r ≡ 0)

-- `q` is `a / b` rounded toward zero, and `r` is what is left, with the sign of `a`.
pub record Truncates (a b q r : ℤ) : Type 0 where
  pub whole : a ≡ q *ℤ b +ℤ r
  pub below : abs r < abs b
  pub side : SignOf r a

truncates_whole :
    (s t u : Sign) (m n q r : ℕ)
    → u ≢ naught
    → t ≢ naught
    → (if same_sign u t then plus else minus) ≡ s
    → m ≡ n * q + r
    → signed s m ≡ signed u q *ℤ signed t n +ℤ signed s r
truncates_whole s t u m n q r h k e w =
    ap (signed s) {y = q * n + r} (omega (arith, w))
    ∙ signed_add s (q * n) r
    ∙ ap (λ z. z +ℤ signed s r) (ap (λ v. signed v (q * n)) (sym e) ∙ signed_mul u t q n h k)

signed-Truncates :
    (s t : Sign) (m n q r : ℕ)
    → s ≢ naught
    → t ≢ naught
    → m ≡ n * q + r
    → r < n
    → Truncates
        (signed s m)
        (signed t n)
        (signed (if same_sign s t then plus else minus) q)
        (signed s r)
signed-Truncates plus plus m n q r h k e l = record {
  whole = truncates_whole plus plus plus m n q r h k refl e;
  below = ground arith;
  side = ground arith;
}
signed-Truncates plus minus m n q r h k e l = record {
  whole = truncates_whole plus minus minus m n q r k k refl e;
  below = ground arith;
  side = ground arith;
}
signed-Truncates minus plus m n q r h k e l = record {
  whole = truncates_whole minus plus minus m n q r h k refl e;
  below = ground arith;
  side = ground arith;
}
signed-Truncates minus minus m n q r h k e l = record {
  whole = truncates_whole minus minus plus m n q r (λ z. cc) k refl e;
  below = ground arith;
  side = ground arith;
}
signed-Truncates naught t m n q r h k e l = absurd (h refl)
signed-Truncates s naught m n q r h k e l = absurd (k refl)

-- bn_div and bn_mod give the quotient and the remainder.
pub record Quotient (a b : BigNum) : Type 0 where
  pub q : BigNum
  pub r : BigNum
  pub quotient : bn_div a b ≡ some q
  pub remainder : bn_mod a b ≡ some r
  pub q_IsWf : IsWf q
  pub r_IsWf : IsWf r
  pub truncates : Truncates (to_ℤ a) (to_ℤ b) (to_ℤ q) (to_ℤ r)

is_zero_parts :
    (s : Sign) (xs : List ℕ)
    → IsWf (record { sign = s; limbs = xs })
    → s ≢ naught
    → bn_is_zero (record { sign = s; limbs = xs }) ≡ false
unfolding bn_is_zero
is_zero_parts s [] w h = absurd (h (w.sign_zero.1 refl))
is_zero_parts minus (x ∷ xs) w h = refl
is_zero_parts naught (x ∷ xs) w h = absurd (h refl)
is_zero_parts plus (x ∷ xs) w h = refl

empty_of_zero : (xs : List ℕ) → IsMag xs 0 → xs ≡ []
empty_of_zero [] w = refl
empty_of_zero (x ∷ xs) w = absurd (omega (arith, mag-pos x xs w.trimmed, w.value))

-- A zero dividend.
zero-Truncates : (z : ℤ) → 0 < abs z → Truncates (pos 0) z (pos 0) (pos 0)
unfolding ◌+ℤ◌ ◌*ℤ◌
zero-Truncates z h = record { whole = ground arith; below = h; side = ground arith }

either_ne_naught : (c : Bool) → (if c then plus else minus) ≢ naught
either_ne_naught true = λ e. cc
either_ne_naught false = λ e. cc

abs-signed : (s : Sign) (n : ℕ) → s ≢ naught → abs (signed s n) ≡ n
abs-signed minus n h = ground arith
abs-signed naught n h = absurd (h refl)
abs-signed plus n h = omega arith

module _ (t : Sign) (xs ys : List ℕ) (w : IsWf (record { sign = t; limbs = ys })) (k : t ≢ naught)
    (l : length xs * 32 < u32) where
  signs-Quotient :
      (s : Sign)
      → IsWf (record { sign = s; limbs = xs })
      → s ≢ naught
      → Quotient (record { sign = s; limbs = xs }) (record { sign = t; limbs = ys })
  unfolding bn_div bn_mod
  signs-Quotient s v h =
      let z = is_zero_parts t ys w k in
      let (dq, dr) =
        bn_divmod_abs-Divides xs ys v.small w.small w.trimmed v.trimmed l (mag-gt-zero w k) in
      let (qw, qv) =
        IsMag-sign_of (if same_sign s t then plus else minus) _ _ (either_ne_naught _) dq in
      let (rw', rv) = IsMag-sign_of s _ _ h dr in
      record {
        q = _;
        r = _;
        quotient = rw z;
        remainder = rw z;
        q_IsWf = qw;
        r_IsWf = rw';
        truncates =
            rw (qv, rv)
              (signed-Truncates s t (mag xs) (mag ys) _ _ h k (sym (div-add-mod (mag xs) (mag ys)))
                (mod-lt (mag xs) (mag-gt-zero w k)));
      }

  zero-Quotient :
      IsWf (record { sign = naught; limbs = xs })
      → Quotient (record { sign = naught; limbs = xs }) (record { sign = t; limbs = ys })
  unfolding bn_div bn_mod
  zero-Quotient v =
      let z = is_zero_parts t ys w k in
      let (dq, dr) =
        bn_divmod_abs-Divides xs ys v.small w.small w.trimmed v.trimmed l (mag-gt-zero w k) in
      let m = mag-eq-zero v refl in
      let q_empty = empty_of_zero _ (subst (IsMag _) (rw m (zero-div (mag ys))) dq) in
      let r_empty = empty_of_zero _ (subst (IsMag _) (rw m (zero-mod (mag ys))) dr) in
      record {
        q = bn_new;
        r = bn_new;
        quotient = rw (z, q_empty);
        remainder = rw (z, r_empty);
        q_IsWf = bn_new-IsWf;
        r_IsWf = bn_new-IsWf;
        truncates = zero-Truncates _ (omega (arith, abs-signed t (mag ys) k, mag-gt-zero w k));
      }

sign_ne : (s : Sign) (xs : List ℕ) → signed s (mag xs) ≢ pos 0 → s ≢ naught
sign_ne s xs h e = h (ap (λ u. signed u (mag xs)) e)

signs-Quotient_all :
    (s t : Sign) (xs ys : List ℕ)
    → IsWf (record { sign = s; limbs = xs })
    → IsWf (record { sign = t; limbs = ys })
    → t ≢ naught
    → length xs * 32 < u32
    → Quotient (record { sign = s; limbs = xs }) (record { sign = t; limbs = ys })
signs-Quotient_all naught t xs ys v w k l = zero-Quotient t xs ys w k l v
signs-Quotient_all plus t xs ys v w k l = signs-Quotient t xs ys w k l plus v (λ e. cc)
signs-Quotient_all minus t xs ys v w k l = signs-Quotient t xs ys w k l minus v (λ e. cc)

-- For well-formed numbers, a dividend of fewer than 2^27 limbs and a divisor other than zero, bn_div and
-- bn_mod return well-formed numbers `q` and `r` with `a = q * b + r` and `|r| < |b|`, where `r` is zero or
-- has the sign of `a`.
pub div_mod-Quotient :
    (a b : BigNum) → IsWf a → IsWf b → length a.limbs * 32 < u32 → to_ℤ b ≢ pos 0 → Quotient a b
div_mod-Quotient a b v w l h =
    signs-Quotient_all a.sign b.sign a.limbs b.limbs v w (sign_ne b.sign b.limbs h) l

-- Both return NULL just where the divisor is zero.
abbrev pub NullsJust : BigNum → BigNum → Type 0
NullsJust a b = ((bn_div a b ≡ none) ↔ (to_ℤ b ≡ pos 0)) × ((bn_mod a b ≡ none) ↔ (to_ℤ b ≡ pos 0))

nonzero-NullsJust :
    (a : BigNum) (t : Sign) (ys : List ℕ)
    → IsWf (record { sign = t; limbs = ys })
    → t ≢ naught
    → to_ℤ (record { sign = t; limbs = ys }) ≢ pos 0
    → NullsJust a (record { sign = t; limbs = ys })
unfolding bn_div bn_mod
nonzero-NullsJust a t ys w k h = rw (is_zero_parts t ys w k) (
  (λ e. absurd (ground (arith, e)), λ e. absurd (h e)),
  (λ e. absurd (ground (arith, e)), λ e. absurd (h e)),
)

parts-NullsJust :
    (a : BigNum) (t : Sign) (ys : List ℕ)
    → IsWf (record { sign = t; limbs = ys })
    → NullsJust a (record { sign = t; limbs = ys })
unfolding bn_div bn_mod
parts-NullsJust a naught [] w = ((λ e. refl, λ e. refl), (λ e. refl, λ e. refl))
parts-NullsJust a naught (y ∷ ys) w = absurd (cons≢nil (w.sign_zero.0 refl))
  where
    cons≢nil : y ∷ ys ≡ [] → ⊥
    cons≢nil p = cc
parts-NullsJust a minus ys w =
    nonzero-NullsJust a minus ys w (λ z. cc) (λ e. ground (arith, e, mag-gt-zero w (λ z. cc)))
parts-NullsJust a plus ys w =
    nonzero-NullsJust a plus ys w (λ z. cc) (λ e. ground (arith, e, mag-gt-zero w (λ z. cc)))

-- For any dividend and a well-formed divisor, bn_div returns NULL just where the divisor's value is zero, and
-- so does bn_mod.
pub div_mod-NullsJust : (a b : BigNum) → IsWf b → NullsJust a b
div_mod-NullsJust a b w = parts-NullsJust a b.sign b.limbs w
