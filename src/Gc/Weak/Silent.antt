-- ===== src/Gc/Weak/Silent.antt =====
-- The registry of weak references (mario/mario.c) never writes through a WeakRef that was removed.
use mario_js.Prelude.{
  ℕ, ◌≡◌, refl, inl, inr, Bool, true, false, not, ◌&&◌, List, [], ◌∷◌, ◌++◌, ◌==◌, if◌then◌else◌,
  Bool-cases, All, none, some, arith,
}
use mario_js.Gc.{Pointer}
use mario_js.Gc.Weak.{
  WeakCell, Weak, Effect, given, same_pointer, observed_by, take_out, vm_weak_add_ref,
  vm_weak_remove_ref, vm_weak_add_finalizer, vm_weak_unregister, registered_with, owned_by,
  vm_weak_remove_registry, dying_walk, vm_weak_target_dying, weak_registry_free,
}
use mario_js.Gc.Weak.Ops.{
  WeakOp, add_ref, remove_ref, add_finalizer, unregister, remove_registry, target_dying,
  registry_free, weak_step, weak_run,
}
use mario_js.Gc.Weak.Balance.{occurs, occurs-append}

-- No cell of the registry belongs to the WeakRef.
abbrev pub Unobserved : ℕ → List WeakCell → Type 0
Unobserved w = All (λ c. observed_by w c ≡ false)

-- The operation registers the WeakRef.
abbrev pub adds_ref : ℕ → WeakOp → Bool
adds_ref w (add_ref target weakref) = weakref == w
adds_ref w (remove_ref weakref) = false
adds_ref w (add_finalizer registry target callback held token) = false
adds_ref w (unregister registry token) = false
adds_ref w (remove_registry registry) = false
adds_ref w (target_dying target) = false
adds_ref w registry_free = false

pub kept-All {κ} :
    (P : WeakCell → Type κ) (gone : Bool) (c : WeakCell) (cells : List WeakCell)
    → P c
    → All P cells
    → All P (if gone then cells else c ∷ cells)
kept-All P true c cells h k = k
kept-All P false c cells h k = (h, k)

take_out-All {κ} :
    (P : WeakCell → Type κ) (test : WeakCell → Bool) (cells out : List WeakCell)
    → All P cells
    → All P (take_out test cells out).0
unfolding take_out
take_out-All P test [] out h = h
take_out-All P test (c ∷ cells) out h =
    let next = if test c then c ∷ out else out in
    kept-All P (test c) c (take_out test cells next).0 h.0 (take_out-All P test cells next h.1)

take_out-misses :
    (test : WeakCell → Bool) (cells out : List WeakCell)
    → All (λ c. test c ≡ false) (take_out test cells out).0
unfolding take_out
take_out-misses test [] out = tt
take_out-misses test (c ∷ cells) out = elim (Bool-cases (test c)) [
  | inl e ↦ rw e (take_out-misses test cells (c ∷ out))
  | inr e ↦ rw e (e, take_out-misses test cells out)
]

module _ (w : ℕ) where
  cleared-misses :
      (dies is_fr : Bool) (p : Pointer) (rest : List ℕ)
      → (not is_fr && same_pointer p (some w)) ≡ false
      → occurs w rest ≡ 0
      → occurs w (if dies && not is_fr then given p ++ rest else rest) ≡ 0
  unfolding occurs same_pointer
  cleared-misses false is_fr p rest h k = k
  cleared-misses true true p rest h k = k
  cleared-misses true false none rest h k = k
  cleared-misses true false (some a) rest h k = rw h (omega (arith, k))

  dying-Unobserved :
      (t : ℕ) (cells pending : List WeakCell)
      → Unobserved w cells
      → Unobserved w (dying_walk t cells pending).0 × (occurs w (dying_walk t cells pending).2 ≡ 0)
  unfolding dying_walk observed_by occurs
  dying-Unobserved t [] pending h = (tt, refl)
  dying-Unobserved t (c ∷ cells) pending h =
      let next = if c.target == t && c.is_fr then c ∷ pending else pending in
      let rest = dying-Unobserved t cells next h.1 in
      (
        kept-All (λ c. observed_by w c ≡ false) (c.target == t) c (dying_walk t cells next).0 h.0
            rest.0,
        cleared-misses (c.target == t) c.is_fr c.weakref (dying_walk t cells next).2 h.0 rest.1,
      )

  Silent : Effect → Type 0
  Silent e = Unobserved w e.weak.weak_cells × (occurs w e.cleared ≡ 0)

  occurs-none : occurs w [] ≡ 0
  unfolding occurs
  occurs-none = refl

  step-Silent :
      (op : WeakOp) (weak : Weak)
      → adds_ref w op ≡ false
      → Unobserved w weak.weak_cells
      → Silent (weak_step op weak)
  unfolding Silent weak_step observed_by same_pointer vm_weak_add_ref vm_weak_remove_ref
      vm_weak_add_finalizer vm_weak_unregister vm_weak_remove_registry vm_weak_target_dying
      weak_registry_free
  step-Silent (add_ref target weakref) weak a h = ((a, h), occurs-none)
  step-Silent (remove_ref weakref) weak a h = (
    take_out-All (λ c. observed_by w c ≡ false) (observed_by weakref) weak.weak_cells [] h,
    occurs-none,
  )
  step-Silent (add_finalizer registry target callback held token) weak a h =
      ((refl, h), occurs-none)
  step-Silent (unregister registry token) weak a h = (
    take_out-All (λ c. observed_by w c ≡ false) (registered_with registry token) weak.weak_cells []
        h,
    occurs-none,
  )
  step-Silent (remove_registry registry) weak a h = (
    take_out-All (λ c. observed_by w c ≡ false) (owned_by registry) weak.weak_cells [] h,
    occurs-none,
  )
  step-Silent (target_dying target) weak a h =
      dying-Unobserved target weak.weak_cells weak.pending_finalizers h
  step-Silent registry_free weak a h = (tt, occurs-none)

  run-Silent :
      (ops : List WeakOp) (weak : Weak)
      → All (λ op. adds_ref w op ≡ false) ops
      → Unobserved w weak.weak_cells
      → Silent (weak_run ops weak)
  unfolding Silent weak_run
  run-Silent [] weak a h = (h, occurs-none)
  run-Silent (op ∷ ops) weak a h =
      let e = weak_step op weak in
      let first = step-Silent op weak a.0 h in
      let rest = run-Silent ops e.weak a.1 first.0 in
      let joined = occurs-append w e.cleared (weak_run ops e.weak).cleared in
      let x = first.1 in let y = rest.1 in (rest.0, omega (arith, joined, x, y))

-- Once a WeakRef is removed from the registry, no operation of any sequence that does not register it
-- again sets its value: a dying target never writes through a WeakRef that was freed.
pub vm_weak_remove_ref-Silent :
    (w : ℕ) (weak : Weak) (ops : List WeakOp)
    → All (λ op. adds_ref w op ≡ false) ops
    → occurs w (weak_run ops (vm_weak_remove_ref w weak).weak).cleared ≡ 0
unfolding Silent vm_weak_remove_ref
vm_weak_remove_ref-Silent w weak ops a =
    (run-Silent w ops (vm_weak_remove_ref w weak).weak a
      (take_out-misses (observed_by w) weak.weak_cells [])).1
