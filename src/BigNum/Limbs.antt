-- ===== src/BigNum/Limbs.antt =====
-- Laws of limb lists: their bounds, and what bn_normalize (mario/mario.c) does to them.
use native.Mathlib.Nat.{pow-succ'}
use mario_js.Prelude.{
  ℕ, zero, suc, ◌+◌, ◌*◌, ◌^◌, ◌≤◌, ◌<◌, ◌≡◌, ◌≢◌, refl, ap, ◌∙◌, List, [], ◌∷◌, length, All,
  replicate, u32, low, rest, arith, inl, inr, Bool-cases, ◌==◌,
}
use mario_js.BigNum.{
  Sign, minus, naught, plus, mag, to_ℤ, IsLimb, IsTrimmed, IsWf, trim, put_limb, sign_of,
  bn_normalize, signed,
}

pub mag_split : (xs : List ℕ) → mag xs ≡ low xs + u32 * mag (rest xs)
mag_split [] = refl
mag_split (x ∷ xs) = refl

pub low-lt : (xs : List ℕ) → All IsLimb xs → low xs < u32
low-lt [] h = omega arith
low-lt (x ∷ xs) h = h.0

pub rest-IsLimb : (xs : List ℕ) → All IsLimb xs → All IsLimb (rest xs)
rest-IsLimb [] h = tt
rest-IsLimb (x ∷ xs) h = h.1

pub length-rest : (n : ℕ) (xs : List ℕ) → length xs ≤ suc n → length (rest xs) ≤ n
length-rest n [] h = omega arith
length-rest n (x ∷ xs) h = omega arith

pub mag-lt : (xs : List ℕ) → All IsLimb xs → mag xs < u32 ^ length xs
mag-lt [] h = omega arith
mag-lt (x ∷ xs) h = omega (arith, mag-lt xs h.1, h.0, pow-succ' u32 (length xs))

pub mag-replicate : (n : ℕ) → mag (replicate n 0) ≡ 0
mag-replicate zero = refl
mag-replicate (suc n) = omega (arith, mag-replicate n)

mag-put_limb : (x : ℕ) (xs : List ℕ) → mag (put_limb x xs) ≡ x + u32 * mag xs
mag-put_limb x [] = ground arith
mag-put_limb x (y ∷ ys) = refl

pub mag-trim : (xs : List ℕ) → mag (trim xs) ≡ mag xs
unfolding trim
mag-trim [] = refl
mag-trim (x ∷ xs) = omega (arith, mag-put_limb x (trim xs), mag-trim xs)

put_limb-IsTrimmed : (x : ℕ) (xs : List ℕ) → IsTrimmed xs → IsTrimmed (put_limb x xs)
put_limb-IsTrimmed x [] h = elim (Bool-cases (x == 0)) [
  | inl e ↦ rw e tt
  | inr e ↦ rw e (λ z. ground arith)
]
put_limb-IsTrimmed x (y ∷ ys) h = h

pub trim-IsTrimmed : (xs : List ℕ) → IsTrimmed (trim xs)
unfolding trim
trim-IsTrimmed [] = tt
trim-IsTrimmed (x ∷ xs) = put_limb-IsTrimmed x (trim xs) (trim-IsTrimmed xs)

put_limb-IsLimb : (x : ℕ) (xs : List ℕ) → x < u32 → All IsLimb xs → All IsLimb (put_limb x xs)
put_limb-IsLimb x [] h k = elim (Bool-cases (x == 0)) [ inl e ↦ rw e tt | inr e ↦ rw e (h, tt) ]
put_limb-IsLimb x (y ∷ ys) h k = (h, k)

pub trim-IsLimb : (xs : List ℕ) → All IsLimb xs → All IsLimb (trim xs)
unfolding trim
trim-IsLimb [] h = tt
trim-IsLimb (x ∷ xs) h = put_limb-IsLimb x (trim xs) h.0 (trim-IsLimb xs h.1)

-- A trimmed list with limbs is not zero.
pub mag-pos : (x : ℕ) (xs : List ℕ) → IsTrimmed (x ∷ xs) → 0 < mag (x ∷ xs)
mag-pos x [] h = omega arith
mag-pos x (y ∷ ys) h = omega (arith, mag-pos y ys h)

-- Limbs in range and trimmed, under the sign that bn_normalize gives them.
pub sign_of-IsWf :
    (s : Sign) (xs : List ℕ)
    → s ≢ naught
    → All IsLimb xs
    → IsTrimmed xs
    → IsWf (record { sign = sign_of s xs; limbs = xs })
sign_of-IsWf s [] h small trimmed = record {
  small = small;
  trimmed = trimmed;
  sign_zero = (λ _. refl, λ _. refl);
}
sign_of-IsWf s (x ∷ xs) h small trimmed = record {
  small = small;
  trimmed = trimmed;
  sign_zero = (λ e. absurd (h e), λ e. cc);
}

pub signed-sign_of : (s : Sign) (xs : List ℕ) → signed (sign_of s xs) (mag xs) ≡ signed s (mag xs)
signed-sign_of minus [] = refl
signed-sign_of naught [] = refl
signed-sign_of plus [] = refl
signed-sign_of s (x ∷ xs) = refl

pub bn_normalize-IsWf :
    (s : Sign) (xs : List ℕ)
    → s ≢ naught
    → All IsLimb xs
    → IsWf (bn_normalize (record { sign = s; limbs = xs }))
unfolding bn_normalize
bn_normalize-IsWf s xs h small =
    sign_of-IsWf s (trim xs) h (trim-IsLimb xs small) (trim-IsTrimmed xs)

pub to_ℤ-bn_normalize :
    (s : Sign) (xs : List ℕ)
    → to_ℤ (bn_normalize (record { sign = s; limbs = xs })) ≡ signed s (mag xs)
unfolding bn_normalize
to_ℤ-bn_normalize s xs = signed-sign_of s (trim xs) ∙ ap (signed s) (mag-trim xs)

-- The limbs are in range and trimmed, and stand for `n`: what the routines on magnitudes return.
pub record IsMag (xs : List ℕ) (n : ℕ) : Type 0 where
  pub small : All IsLimb xs
  pub trimmed : IsTrimmed xs
  pub value : mag xs ≡ n

pub trim-IsMag : (xs : List ℕ) (n : ℕ) → All IsLimb xs → mag xs ≡ n → IsMag (trim xs) n
trim-IsMag xs n h e = record {
  small = trim-IsLimb xs h;
  trimmed = trim-IsTrimmed xs;
  value = mag-trim xs ∙ e;
}

pub IsMag-IsWf :
    (s : Sign) (xs : List ℕ) (n : ℕ)
    → s ≢ naught
    → 0 < n
    → IsMag xs n
    → IsWf (record { sign = s; limbs = xs })
IsMag-IsWf s [] n h p w = absurd (omega (arith, w.value))
IsMag-IsWf s (x ∷ xs) n h p w = sign_of-IsWf s (x ∷ xs) h w.small w.trimmed

pub IsMag-sign_of :
    (s : Sign) (xs : List ℕ) (n : ℕ)
    → s ≢ naught
    → IsMag xs n
    → IsWf (record { sign = sign_of s xs; limbs = xs })
      × (signed (sign_of s xs) (mag xs) ≡ signed s n)
IsMag-sign_of s xs n h w =
    (sign_of-IsWf s xs h w.small w.trimmed, signed-sign_of s xs ∙ ap (signed s) w.value)
