-- ===== src/Gc/Pointers.antt =====
-- Lists of roots of the garbage collector of mario/mario.c, counted.
use mario_js.Prelude.{ℕ, ◌+◌, ◌≡◌, Bool, List, [], ◌∷◌, ◌++◌, if◌then◌else◌, arith}
use mario_js.Gc.{Pointer}

-- How many of the pointers pass a test.
unfoldable pub count : (Pointer → Bool) → List Pointer → ℕ
count test [] = 0
count test (p ∷ ps) = (if test p then 1 else 0) + count test ps

module _ (test : Pointer → Bool) where
  pub count-append : (ps qs : List Pointer) → count test (ps ++ qs) ≡ count test ps + count test qs
  unfolding count
  count-append [] qs = omega arith
  count-append (p ∷ ps) qs = let r = count-append ps qs in omega (arith, r)
