-- ===== src/Gc/Links/Writes.antt =====
-- Writes at the ends of a chain of vars (mario/mario.c).
use mario_js.Prelude.{
  ℕ, ◌≤◌, ◌<◌, ◌≡◌, refl, sym, ap, subst, ◌∙◌, false, List, [], ◌∷◌, length, length-set, ◌==◌,
  ==_iff, none, some, arith,
}
use mario_js.Gc.{Pointer}
use mario_js.Gc.Links.{write_field, write_end}
use mario_js.Gc.Links.Chains.{
  field_at, Linked, last_of, last_of-occurs, set-other, set-same, next-outside, prev-outside,
}
use mario_js.Gc.Weak.Balance.{occurs}

last_of-some : (y : ℕ) (ys : List ℕ) → (z : ℕ) × (last_of (some y) ys ≡ some z)
last_of-some y [] = (y, refl)
last_of-some y (x ∷ ys) = last_of-some x ys

different : (y z : ℕ) (ys : List ℕ) → occurs z (y ∷ ys) ≤ 1 → 1 ≤ occurs z ys → (y == z) ≡ false
unfolding occurs
different y z ys h k = ground (arith, h, k)

pub tail-once :
    (y : ℕ) (ys : List ℕ) → ((z : ℕ) → occurs z (y ∷ ys) ≤ 1) → (z : ℕ) → occurs z ys ≤ 1
unfolding occurs
tail-once y ys h z = let k = h z in ground (arith, k)

pub in_tail : (y z : ℕ) (ys : List ℕ) → 1 ≤ occurs z ys → 1 ≤ occurs z (y ∷ ys)
unfolding occurs
in_tail y z ys h = omega (arith, h)

pub at_head : (y : ℕ) (ys : List ℕ) → 1 ≤ occurs y (y ∷ ys)
unfolding occurs
at_head y ys = let e = (==_iff y y).1 refl in ground (arith, e)

pub head_alone : (n : ℕ) (xs : List ℕ) → occurs n (n ∷ xs) ≤ 1 → occurs n xs ≡ 0
unfolding occurs
head_alone n xs h = let e = (==_iff n n).1 refl in ground (arith, e, h)

pub length-write_field :
    (field : List Pointer) (p v : Pointer) → length (write_field field p v) ≡ length field
length-write_field field none v = refl
length-write_field field (some i) v = length-set field i v

module _ (prev : List Pointer) (v : Pointer) where
  -- A write to `next` of the last var changes where the chain leads.
  retarget-Linked :
      (next : List Pointer) (before : Pointer) (y : ℕ) (ys : List ℕ) (first behind : Pointer)
      → ((z : ℕ) → occurs z (y ∷ ys) ≤ 1)
      → ((z : ℕ) → 1 ≤ occurs z (y ∷ ys) → z < length next)
      → Linked next prev before (y ∷ ys) first behind
      → Linked (write_field next (last_of (some y) ys) v) prev before (y ∷ ys) first v
  unfolding Linked
  retarget-Linked next before y [] first behind once inside l =
      (l.0, l.1, set-same next y v (inside y (at_head y [])))
  retarget-Linked next before y (x ∷ ys) first behind once inside l =
      let last = last_of-some x ys in
      let z = last.0 in
      let found = last_of-occurs (some y) x ys z last.1 in
      let apart = different y z (x ∷ ys) (once z) found in
      let same : field_at (write_field next (last_of (some x) ys) v) y ≡ field_at next y =
        ap (λ p. field_at (write_field next p v) y) last.1 ∙ set-other next z y v apart in
      let rest =
        retarget-Linked next (some y) x ys (field_at next y) behind (tail-once y (x ∷ ys) once)
          (λ k h. inside k (in_tail y k (x ∷ ys) h)) l.2 in
      (
        l.0,
        l.1,
        subst (λ q. Linked (write_field next (last_of (some x) ys) v) prev (some y) (x ∷ ys) q v)
            (sym same) rest,
      )

  pub end-Linked :
      (next : List Pointer) (xs : List ℕ) (first behind : Pointer)
      → ((z : ℕ) → occurs z xs ≤ 1)
      → ((z : ℕ) → 1 ≤ occurs z xs → z < length next)
      → Linked next prev none xs first behind
      → Linked
          (write_field next (last_of none xs) v)
          prev
          none
          xs
          (write_end first (last_of none xs) v)
          v
  unfolding Linked
  end-Linked next [] first behind once inside l = refl
  end-Linked next (y ∷ ys) first behind once inside l =
      let same : write_end first (last_of (some y) ys) v ≡ first =
        ap (λ p. write_end first p v) (last_of-some y ys).1 in
      subst (λ q. Linked (write_field next (last_of (some y) ys) v) prev none (y ∷ ys) q v)
        (sym same) (retarget-Linked next none y ys first behind once inside l)

-- A write through a pointer to no var of the chain leaves it.
pub next-elsewhere :
    (next prev : List Pointer) (p v before : Pointer) (xs : List ℕ) (first behind : Pointer)
    → ((i : ℕ) → p ≡ some i → occurs i xs ≡ 0)
    → Linked next prev before xs first behind
    → Linked (write_field next p v) prev before xs first behind
next-elsewhere next prev none v before xs first behind h l = l
next-elsewhere next prev (some i) v before xs first behind h l =
    next-outside next prev i v before xs first behind (h i refl) l

pub prev-elsewhere :
    (next prev : List Pointer) (p v before : Pointer) (xs : List ℕ) (first behind : Pointer)
    → ((i : ℕ) → p ≡ some i → occurs i xs ≡ 0)
    → Linked next prev before xs first behind
    → Linked next (write_field prev p v) before xs first behind
prev-elsewhere next prev none v before xs first behind h l = l
prev-elsewhere next prev (some i) v before xs first behind h l =
    prev-outside next prev i v before xs first behind (h i refl) l

-- A write to `prev` of the first var changes what the chain hangs on.
pub relink-Linked :
    (next prev : List Pointer) (before before' : Pointer) (xs : List ℕ) (first : Pointer)
    → ((z : ℕ) → occurs z xs ≤ 1)
    → ((z : ℕ) → 1 ≤ occurs z xs → z < length prev)
    → Linked next prev before xs first none
    → Linked next (write_field prev first before') before' xs first none
unfolding Linked
relink-Linked next prev before before' [] first once inside l = l
relink-Linked next prev before before' (n ∷ xs) first once inside l =
    let alone : occurs n xs ≡ 0 = head_alone n xs (once n) in
    subst (λ q. Linked next (write_field prev q before') before' (n ∷ xs) q none) (sym (l.0))
      (
        refl,
        set-same prev n before' (inside n (at_head n xs)),
        prev-outside next prev n before' (some n) xs (field_at next n) none alone (l.2),
      )
