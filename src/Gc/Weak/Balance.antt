-- ===== src/Gc/Weak/Balance.antt =====
-- The references that the registry of weak references (mario/mario.c) owns.
use mario_js.Prelude.{
  ℕ, ◌+◌, ◌≡◌, refl, inl, inr, Bool, true, false, ◌&&◌, List, [], ◌∷◌, ◌++◌, ◌==◌, if◌then◌else◌,
  Bool-cases, none, some, arith,
}
use mario_js.Gc.{Pointer}
use mario_js.Gc.Weak.{
  WeakCell, weakref_cell, finalizer_cell, Weak, Effect, given, weak_cell_free, free_all, take_out,
  vm_weak_add_ref, vm_weak_remove_ref, vm_weak_add_finalizer, vm_weak_unregister,
  vm_weak_remove_registry, dying_walk, vm_weak_target_dying, weak_registry_free, observed_by,
  registered_with, owned_by,
}
use mario_js.Gc.Weak.Ops.{
  WeakOp, add_ref, remove_ref, add_finalizer, unregister, remove_registry, target_dying,
  registry_free, weak_step, weak_run,
}

unfoldable pub occurs : ℕ → List ℕ → ℕ
occurs v [] = 0
occurs v (x ∷ xs) = (if x == v then 1 else 0) + occurs v xs

-- The vars that the cells of both lists hold a reference to, once for each.
unfoldable pub owned : Weak → List ℕ
unfolding free_all
owned weak = free_all weak.weak_cells ++ free_all weak.pending_finalizers

module _ (v : ℕ) where
  pub occurs-append : (xs ys : List ℕ) → occurs v (xs ++ ys) ≡ occurs v xs + occurs v ys
  unfolding occurs
  occurs-append [] ys = omega arith
  occurs-append (x ∷ xs) ys = let r = occurs-append xs ys in omega (arith, r)

  free_all-cons :
      (c : WeakCell) (cells : List WeakCell)
      → occurs v (free_all (c ∷ cells)) ≡ occurs v (weak_cell_free c) + occurs v (free_all cells)
  unfolding free_all
  free_all-cons c cells = occurs-append (weak_cell_free c) (free_all cells)

  take_out-balance :
      (test : WeakCell → Bool) (cells out : List WeakCell)
      → occurs v (free_all (take_out test cells out).0)
          + occurs v (free_all (take_out test cells out).1)
        ≡ occurs v (free_all cells) + occurs v (free_all out)
  unfolding take_out
  take_out-balance test [] out = refl
  take_out-balance test (c ∷ cells) out = elim (Bool-cases (test c)) [
    | inl e ↦
        let r = take_out-balance test cells (c ∷ out) in
        let a = free_all-cons c out in
        let b = free_all-cons c cells in rw e (omega (arith, r, a, b))
    | inr e ↦
        let r = take_out-balance test cells out in
        let a = free_all-cons c (take_out test cells out).0 in
        let b = free_all-cons c cells in rw e (omega (arith, r, a, b))
  ]

  -- A WeakRef cell holds no reference.
  free-weakref : (c : WeakCell) → c.is_fr ≡ false → occurs v (weak_cell_free c) ≡ 0
  unfolding weak_cell_free occurs
  free-weakref c e = rw e refl

  -- `dies` and `is_fr` stand for the two tests of the cell `c`.
  dying-balance_case :
      (dies is_fr : Bool) (c : WeakCell) (cells pending : List WeakCell)
      (walk : List WeakCell → List WeakCell × List WeakCell × List ℕ)
      → ((out : List WeakCell)
          → occurs v (free_all (walk out).0) + occurs v (free_all (walk out).1)
            ≡ occurs v (free_all cells) + occurs v (free_all out))
      → (is_fr ≡ false → occurs v (weak_cell_free c) ≡ 0)
      → let r = walk (if dies && is_fr then c ∷ pending else pending) in
        occurs v (free_all (if dies then r.0 else c ∷ r.0)) + occurs v (free_all r.1)
        ≡ occurs v (free_all (c ∷ cells)) + occurs v (free_all pending)
  dying-balance_case true true c cells pending walk ih no_ref =
      let r = ih (c ∷ pending) in
      let a = free_all-cons c pending in let b = free_all-cons c cells in omega (arith, r, a, b)
  dying-balance_case true false c cells pending walk ih no_ref =
      let r = ih pending in
      let a = no_ref refl in let b = free_all-cons c cells in omega (arith, r, a, b)
  dying-balance_case false is_fr c cells pending walk ih no_ref =
      let r = ih pending in
      let a = free_all-cons c (walk pending).0 in
      let b = free_all-cons c cells in omega (arith, r, a, b)

  dying-balance :
      (t : ℕ) (cells pending : List WeakCell)
      → occurs v (free_all (dying_walk t cells pending).0)
          + occurs v (free_all (dying_walk t cells pending).1)
        ≡ occurs v (free_all cells) + occurs v (free_all pending)
  unfolding dying_walk
  dying-balance t [] pending = refl
  dying-balance t (c ∷ cells) pending =
      dying-balance_case (c.target == t) c.is_fr c cells pending (dying_walk t cells)
        (dying-balance t cells) (free-weakref c)

  owned-append :
      (w : Weak)
      → occurs v (owned w)
        ≡ occurs v (free_all w.weak_cells) + occurs v (free_all w.pending_finalizers)
  unfolding owned
  owned-append w = occurs-append (free_all w.weak_cells) (free_all w.pending_finalizers)

  take_out-owned :
      (test : WeakCell → Bool) (w : Weak)
      → let r = take_out test w.weak_cells [] in
        occurs v (owned (record w { weak_cells = r.0 })) + occurs v (free_all r.1)
        ≡ occurs v (owned w)
  unfolding occurs free_all
  take_out-owned test w =
      let r = take_out test w.weak_cells [] in
      let a = take_out-balance test w.weak_cells [] in
      let b = owned-append w in
      let c = owned-append (record w { weak_cells = r.0 }) in omega (arith, a, b, c)

  -- What one operation takes and releases.
  Balanced : Weak → Effect → Type 0
  Balanced w e = occurs v (owned e.weak) + occurs v e.unrefs ≡ occurs v (owned w) + occurs v e.refs

  cons-owned :
      (c : WeakCell) (w : Weak)
      → occurs v (owned (record w { weak_cells = c ∷ w.weak_cells }))
        ≡ occurs v (weak_cell_free c) + occurs v (owned w)
  cons-owned c w =
      let a = owned-append (record w { weak_cells = c ∷ w.weak_cells }) in
      let b = owned-append w in let d = free_all-cons c w.weak_cells in omega (arith, a, b, d)

  occurs-nil : occurs v [] ≡ 0
  unfolding occurs
  occurs-nil = refl

  given-swap : (a : ℕ) (p : Pointer) → occurs v (given p ++ a ∷ []) ≡ occurs v (a ∷ given p)
  unfolding occurs
  given-swap a none = refl
  given-swap a (some b) = omega arith

  taken-Balanced :
      (test : WeakCell → Bool) (w : Weak)
      → let r = take_out test w.weak_cells [] in
        occurs v (owned (record w { weak_cells = r.0 })) + occurs v (free_all r.1)
        ≡ occurs v (owned w) + occurs v []
  taken-Balanced test w = let t = take_out-owned test w in let n = occurs-nil in omega (arith, t, n)

  dying-Balanced : (t : ℕ) (w : Weak) → Balanced w (vm_weak_target_dying t w)
  unfolding Balanced vm_weak_target_dying
  dying-Balanced t w =
      let r = dying_walk t w.weak_cells w.pending_finalizers in
      let a = owned-append w in
      let b = owned-append (record { weak_cells = r.0; pending_finalizers = r.1 }) in
      let c = dying-balance t w.weak_cells w.pending_finalizers in
      let n = occurs-nil in omega (arith, a, b, c, n)

  free-Balanced : (w : Weak) → Balanced w (weak_registry_free w)
  unfolding Balanced weak_registry_free owned free_all occurs
  free-Balanced w = omega arith

  step-Balanced : (op : WeakOp) (w : Weak) → Balanced w (weak_step op w)
  unfolding Balanced weak_step vm_weak_add_ref vm_weak_remove_ref vm_weak_add_finalizer
      vm_weak_unregister vm_weak_remove_registry weak_cell_free
  step-Balanced (add_ref target weakref) w =
      let n = occurs-nil in
      let c = cons-owned (weakref_cell target weakref) w in omega (arith, n, c)
  step-Balanced (remove_ref weakref) w = taken-Balanced (observed_by weakref) w
  step-Balanced (add_finalizer registry target callback held token) w =
      let n = occurs-nil in
      let c = cons-owned (finalizer_cell registry target callback held token) w in
      let s = given-swap callback held in omega (arith, n, c, s)
  step-Balanced (unregister registry token) w = taken-Balanced (registered_with registry token) w
  step-Balanced (remove_registry registry) w = taken-Balanced (owned_by registry) w
  step-Balanced (target_dying target) w = dying-Balanced target w
  step-Balanced registry_free w = free-Balanced w

-- Over any sequence of operations on the registry, every var is passed to var_ref as often as to
-- var_unref, but for the references that the cells left over still own, beyond those of the start.
pub weak_run-Balanced :
    (v : ℕ) (ops : List WeakOp) (w : Weak)
    → occurs v (owned (weak_run ops w).weak) + occurs v (weak_run ops w).unrefs
      ≡ occurs v (owned w) + occurs v (weak_run ops w).refs
unfolding weak_run Balanced
weak_run-Balanced v [] w = refl
weak_run-Balanced v (op ∷ ops) w =
    let e = weak_step op w in
    let rest = weak_run ops e.weak in
    let a = step-Balanced v op w in
    let b = weak_run-Balanced v ops e.weak in
    let c = occurs-append v e.unrefs rest.unrefs in
    let d = occurs-append v e.refs rest.refs in omega (arith, a, b, c, d)
