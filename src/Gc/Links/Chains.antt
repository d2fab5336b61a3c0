-- ===== src/Gc/Links/Chains.antt =====
-- Chains of vars through their fields `next` and `prev` (mario/mario.c).
use mario_js.Prelude.{
  ℕ, zero, suc, ◌≤◌, ◌<◌, ◌≡◌, refl, sym, subst, ◌∙◌, false, List, [], ◌∷◌, ◌++◌, length, get_or,
  get_or-set, set, ◌==◌, ==_iff, none, some, arith,
}
use mario_js.Gc.{Pointer}
use mario_js.Gc.Weak.Balance.{occurs}

abbrev pub field_at : List Pointer → ℕ → Pointer
field_at field i = get_or field i none

-- The vars `xs` are linked in this order: `first` points to the first of them, the last one's `next`
-- is `behind`, and the first one's `prev` is `before`.
unfoldable pub Linked : List Pointer → List Pointer → Pointer → List ℕ → Pointer → Pointer → Type 0
Linked next prev before [] first behind = first ≡ behind
Linked next prev before (x ∷ xs) first behind =
    (first ≡ some x)
    × (field_at prev x ≡ before)
    × Linked next prev (some x) xs (field_at next x) behind

abbrev pub last_of : Pointer → List ℕ → Pointer
last_of before [] = before
last_of before (x ∷ xs) = last_of (some x) xs

pub last_of-append :
    (before : Pointer) (xs ys : List ℕ) → last_of before (xs ++ ys) ≡ last_of (last_of before xs) ys
last_of-append before [] ys = refl
last_of-append before (x ∷ xs) ys = last_of-append (some x) xs ys

pub last_of-occurs :
    (before : Pointer) (y : ℕ) (ys : List ℕ) (z : ℕ)
    → last_of before (y ∷ ys) ≡ some z
    → 1 ≤ occurs z (y ∷ ys)
unfolding occurs
last_of-occurs before y [] z e = let h : y ≡ z = ground (arith, e) in ground (arith, h)
last_of-occurs before y (x ∷ ys) z e = let r = last_of-occurs (some y) x ys z e in omega (arith, r)

pub set-other :
    (field : List Pointer) (i k : ℕ) (v : Pointer)
    → (k == i) ≡ false
    → field_at (set field i v) k ≡ field_at field k
set-other [] i k v e = refl
set-other (x ∷ xs) zero zero v e = absurd (ground (arith, e))
set-other (x ∷ xs) zero (suc k) v e = refl
set-other (x ∷ xs) (suc i) zero v e = refl
set-other (x ∷ xs) (suc i) (suc k) v e = set-other xs i k v (ground (arith, e))

pub set-same :
    (field : List Pointer) (i : ℕ) (v : Pointer) → i < length field → field_at (set field i v) i ≡ v
set-same field i v h = get_or-set field i i v none h ∙ rw ((==_iff i i).1 refl) refl

apart : (i x : ℕ) (xs : List ℕ) → occurs i (x ∷ xs) ≡ 0 → ((x == i) ≡ false) × (occurs i xs ≡ 0)
unfolding occurs
apart i x xs h = ground (arith, h)

-- A write at a var outside the chain leaves it.
pub next-outside :
    (next prev : List Pointer) (i : ℕ) (v before : Pointer) (xs : List ℕ) (first behind : Pointer)
    → occurs i xs ≡ 0
    → Linked next prev before xs first behind
    → Linked (set next i v) prev before xs first behind
unfolding Linked
next-outside next prev i v before [] first behind h l = l
next-outside next prev i v before (x ∷ xs) first behind h l =
    let a = apart i x xs h in
    (
      l.0,
      l.1,
      subst (λ q. Linked (set next i v) prev (some x) xs q behind) (sym (set-other next i x v a.0))
          (next-outside next prev i v (some x) xs (field_at next x) behind a.1 l.2),
    )

pub prev-outside :
    (next prev : List Pointer) (i : ℕ) (v before : Pointer) (xs : List ℕ) (first behind : Pointer)
    → occurs i xs ≡ 0
    → Linked next prev before xs first behind
    → Linked next (set prev i v) before xs first behind
unfolding Linked
prev-outside next prev i v before [] first behind h l = l
prev-outside next prev i v before (x ∷ xs) first behind h l =
    let a = apart i x xs h in
    (
      l.0,
      set-other prev i x v a.0 ∙ l.1,
      prev-outside next prev i v (some x) xs (field_at next x) behind a.1 l.2,
    )

pub Linked-append :
    (next prev : List Pointer) (before : Pointer) (xs ys : List ℕ) (first middle behind : Pointer)
    → Linked next prev before xs first middle
    → Linked next prev (last_of before xs) ys middle behind
    → Linked next prev before (xs ++ ys) first behind
unfolding Linked
Linked-append next prev before [] ys first middle behind l m =
    subst (λ q. Linked next prev before ys q behind) (sym l) m
Linked-append next prev before (x ∷ xs) ys first middle behind l m =
    (l.0, l.1, Linked-append next prev (some x) xs ys (field_at next x) middle behind l.2 m)

pub Linked-split :
    (next prev : List Pointer) (before : Pointer) (xs : List ℕ) (y : ℕ) (ys : List ℕ)
    (first behind : Pointer)
    → Linked next prev before (xs ++ y ∷ ys) first behind
    → Linked next prev before xs first (some y)
      × Linked next prev (last_of before xs) (y ∷ ys) (some y) behind
unfolding Linked
Linked-split next prev before [] y ys first behind l = (l.0, (refl, l.1, l.2))
Linked-split next prev before (x ∷ xs) y ys first behind l =
    let r = Linked-split next prev (some x) xs y ys (field_at next x) behind l.2 in
    ((l.0, l.1, r.0), r.1)
