-- ===== src/Gc/Count.antt =====
-- The flags that a walk of gc_mark (mario/mario.c) has still to set, whose number bounds its depth.
use mario_js.Prelude.{
  ℕ, zero, suc, ◌+◌, ◌≤◌, ◌<◌, ◌≡◌, refl, sym, ap, ◌∙◌, inl, inr, Bool, true, false, List, [], ◌∷◌,
  length, get_or, set, if◌then◌else◌, Bool-cases, arith,
}
use mario_js.Gc.{same_flag}

-- The number of flags that are not yet `mark`.
unfoldable pub undone : Bool → List Bool → ℕ
undone mark [] = 0
undone mark (x ∷ xs) = (if same_flag x mark then 0 else 1) + undone mark xs

pub same_flag_refl : (a : Bool) → same_flag a a ≡ true
same_flag_refl true = refl
same_flag_refl false = refl

pub same_flag_lem : (a b : Bool) → same_flag a b ≡ true → a ≡ b
same_flag_lem true true e = refl
same_flag_lem true false e = sym e
same_flag_lem false true e = e
same_flag_lem false false e = refl

pub undone-set :
    (mark : Bool) (xs : List Bool) (i : ℕ)
    → i < length xs
    → same_flag (get_or xs i false) mark ≡ false
    → suc (undone mark (set xs i mark)) ≡ undone mark xs
unfolding undone
undone-set mark [] i h e = absurd (omega arith)
undone-set mark (x ∷ xs) zero h e = rw (e, same_flag_refl mark) (omega arith)
undone-set mark (x ∷ xs) (suc i) h e =
    let r = undone-set mark xs i (omega arith) e in omega (arith, r)

pub undone-grows :
    (mark : Bool) (xs ys : List Bool)
    → length ys ≡ length xs
    → ((i : ℕ) → get_or xs i false ≡ mark → get_or ys i false ≡ mark)
    → undone mark ys ≤ undone mark xs
unfolding undone
undone-grows mark [] [] l h = omega arith
undone-grows mark [] (y ∷ ys) l h = absurd (omega arith)
undone-grows mark (x ∷ xs) [] l h = absurd (omega arith)
undone-grows mark (x ∷ xs) (y ∷ ys) l h =
    let r = undone-grows mark xs ys (omega arith) (λ i. h (suc i)) in
    elim (Bool-cases (same_flag x mark)) [
      | inl e ↦
          let f : same_flag y mark ≡ true =
            ap (λ t. same_flag t mark) (h 0 (same_flag_lem x mark e)) ∙ same_flag_refl mark in
          rw (e, f) (omega (arith, r))
      | inr e ↦ ground (arith, r, e)
    ]

pub undone-length : (mark : Bool) (xs : List Bool) → undone mark xs ≤ length xs
unfolding undone
undone-length mark [] = omega arith
undone-length mark (x ∷ xs) = let r = undone-length mark xs in ground (arith, r)
