-- ===== src/Gc/Weak/Dying.antt =====
-- What the death of a var does to the registry of weak references of mario/mario.c.
use mario_js.Prelude.{
  ℕ, ◌+◌, ◌≡◌, refl, inl, inr, Bool, true, false, ◌&&◌, List, [], ◌∷◌, ◌==◌, if◌then◌else◌,
  Bool-cases, All, arith,
}
use mario_js.Gc.{Pointer}
use mario_js.Gc.Pointers.{count, count-append}
use mario_js.Gc.Weak.{
  WeakCell, Weak, dying_walk, vm_weak_target_dying, registered_values, finalizer_values,
  gc_mark_weak,
}

dying-misses :
    (t : ℕ) (cells pending : List WeakCell)
    → All (λ c. (c.target == t) ≡ false) (dying_walk t cells pending).0
unfolding dying_walk
dying-misses t [] pending = tt
dying-misses t (c ∷ cells) pending =
    let next = if c.target == t && c.is_fr then c ∷ pending else pending in
    let rest = dying-misses t cells next in
    elim (Bool-cases (c.target == t)) [
      | inl e ↦ rw e (dying-misses t cells (if c.is_fr then c ∷ pending else pending))
      | inr e ↦ rw e (e, dying-misses t cells pending)
    ]

module _ (test : Pointer → Bool) where
  -- What a cell adds to the values of its list.
  values : WeakCell → ℕ
  values c = count test (c.held ∷ c.callback ∷ [])

  pending-count :
      (c : WeakCell) (cells : List WeakCell)
      → count test (finalizer_values (c ∷ cells)) ≡ values c + count test (finalizer_values cells)
  unfolding count values finalizer_values
  pending-count c cells = omega arith

  pair-count :
      (b : Bool) (p q : Pointer) (ps : List Pointer)
      → count test (if b then p ∷ q ∷ ps else ps)
        ≡ (if b then count test (p ∷ q ∷ []) else 0) + count test ps
  unfolding count
  pair-count true p q ps = omega arith
  pair-count false p q ps = omega arith

  registered-count :
      (c : WeakCell) (cells : List WeakCell)
      → count test (registered_values (c ∷ cells))
        ≡ (if c.is_fr then values c else 0) + count test (registered_values cells)
  unfolding values registered_values
  registered-count c cells = pair-count c.is_fr c.held c.callback (registered_values cells)

  -- `dies` and `is_fr` stand for the two tests of the cell `c`.
  walk-count_case :
      (dies is_fr : Bool) (c : WeakCell) (cells pending : List WeakCell)
      (walk : List WeakCell → List WeakCell × List WeakCell × List ℕ)
      → is_fr ≡ c.is_fr
      → ((out : List WeakCell)
          → count test (registered_values (walk out).0) + count test (finalizer_values (walk out).1)
            ≡ count test (registered_values cells) + count test (finalizer_values out))
      → let r = walk (if dies && is_fr then c ∷ pending else pending) in
        count test (registered_values (if dies then r.0 else c ∷ r.0))
          + count test (finalizer_values r.1)
        ≡ count test (registered_values (c ∷ cells)) + count test (finalizer_values pending)
  walk-count_case true true c cells pending walk f ih =
      let r = ih (c ∷ pending) in
      let a = registered-count c cells in
      let b = pending-count c pending in ground (arith, r, a, b, f)
  walk-count_case true false c cells pending walk f ih =
      let r = ih pending in let a = registered-count c cells in ground (arith, r, a, f)
  walk-count_case false is_fr c cells pending walk f ih =
      let r = ih pending in
      let a = registered-count c cells in
      let b = registered-count c (walk pending).0 in omega (arith, r, a, b)

  walk-count :
      (t : ℕ) (cells pending : List WeakCell)
      → count test (registered_values (dying_walk t cells pending).0)
          + count test (finalizer_values (dying_walk t cells pending).1)
        ≡ count test (registered_values cells) + count test (finalizer_values pending)
  unfolding dying_walk
  walk-count t [] pending = refl
  walk-count t (c ∷ cells) pending =
      walk-count_case (c.target == t) c.is_fr c cells pending (dying_walk t cells) refl
        (walk-count t cells)

-- After the death of a var no cell observes it, and the marking visits the same held values and
-- callbacks as before it, each as often: the cells that the sweep moves stay roots in both phases.
pub vm_weak_target_dying-Marks :
    (t : ℕ) (weak : Weak)
    → All (λ c. (c.target == t) ≡ false) (vm_weak_target_dying t weak).weak.weak_cells
      × ((test : Pointer → Bool)
          → count test (gc_mark_weak (vm_weak_target_dying t weak).weak)
            ≡ count test (gc_mark_weak weak))
unfolding vm_weak_target_dying gc_mark_weak
vm_weak_target_dying-Marks t weak = (
  dying-misses t weak.weak_cells weak.pending_finalizers,
  λ test.
      let r = dying_walk t weak.weak_cells weak.pending_finalizers in
      let w = walk-count test t weak.weak_cells weak.pending_finalizers in
      let a =
        count-append test (registered_values weak.weak_cells)
          (finalizer_values weak.pending_finalizers) in
      let b = count-append test (registered_values r.0) (finalizer_values r.1) in
      omega (arith, w, a, b),
)
