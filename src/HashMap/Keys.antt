-- ===== src/HashMap/Keys.antt =====
-- strcmp on keys (mario/mario.c) and their equality.
use mario_js.Prelude.{ℕ, ◌≡◌, refl, true, List, [], ◌∷◌, arith}
use mario_js.HashMap.{same_key}

pub same_key_refl : (k : List ℕ) → same_key k k ≡ true
unfolding same_key
same_key_refl [] = refl
same_key_refl (x ∷ xs) = ground (arith, same_key_refl xs)

pub eq_of_same_key : (j k : List ℕ) → same_key j k ≡ true → j ≡ k
unfolding same_key
eq_of_same_key [] [] h = refl
eq_of_same_key [] (y ∷ ys) h = cc
eq_of_same_key (x ∷ xs) [] h = cc
eq_of_same_key (x ∷ xs) (y ∷ ys) h = ground (arith, eq_of_same_key xs ys)

pub same_key_symm : (j k : List ℕ) → same_key j k ≡ same_key k j
unfolding same_key
same_key_symm [] [] = refl
same_key_symm [] (y ∷ ys) = refl
same_key_symm (x ∷ xs) [] = refl
same_key_symm (x ∷ xs) (y ∷ ys) = ground (arith, same_key_symm xs ys)
