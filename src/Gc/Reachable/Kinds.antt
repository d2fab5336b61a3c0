-- ===== src/Gc/Reachable/Kinds.antt =====
-- The lists of roots that gc_vars (mario/mario.c) visits, against the kinds of roots.
use mathlib.Core.List.{Memᴰ}
use mario_js.Prelude.{
  ◌≡◌, refl, subst, sym, inl, inr, false, Bool-cases, List, [], ◌∷◌, ◌++◌, ◌==◌, if◌then◌else◌,
  Option, some, none, arith,
}
use mario_js.Gc.{Pointer}
use mario_js.Gc.Roots.{
  GcVm, StackSlot, null_slot, var_slot, node_slot, Scope, PendingSave, gc_mark_stack, gc_mark_cache,
  gc_mark_scopes, saved_values, gc_mark_wanchor_pool, first_roots, last_roots, pending_roots,
  mark_roots, unmark_roots,
}
use mario_js.Gc.Weak.{WeakCell, registered_values, finalizer_values, gc_mark_weak}
use mario_js.Gc.Reachable.{
  FixedRoot, Saved, DeferredRoot, IsRoot, Mem-split, Mem-flat, one_Mem, two_Mem,
}

unfoldable pub slot_pointers : StackSlot → List Pointer
slot_pointers null_slot = []
slot_pointers (var_slot v) = some v ∷ []
slot_pointers (node_slot v) = v ∷ []

pub stack_flat :
    (s : StackSlot) (slots : List StackSlot)
    → gc_mark_stack (s ∷ slots) ≡ slot_pointers s ++ gc_mark_stack slots
unfolding gc_mark_stack slot_pointers
stack_flat null_slot slots = refl
stack_flat (var_slot v) slots = refl
stack_flat (node_slot v) slots = refl

unfoldable pub scope_pointers : Option Scope → List Pointer
scope_pointers none = []
scope_pointers (some sc) = sc.scope_var ∷ sc.func_var ∷ []

pub scopes_flat :
    (s : Option Scope) (scopes : List (Option Scope))
    → gc_mark_scopes (s ∷ scopes) ≡ scope_pointers s ++ gc_mark_scopes scopes
unfolding gc_mark_scopes scope_pointers
scopes_flat none scopes = refl
scopes_flat (some sc) scopes = refl

unfoldable pub cell_pointers : WeakCell → List Pointer
cell_pointers c = if c.is_fr then c.held ∷ c.callback ∷ [] else []

pub cells_flat :
    (c : WeakCell) (cells : List WeakCell)
    → registered_values (c ∷ cells) ≡ cell_pointers c ++ registered_values cells
unfolding registered_values cell_pointers
cells_flat c cells = elim (Bool-cases c.is_fr) [ inl e ↦ rw e refl | inr e ↦ rw e refl ]

unfoldable pub called_pointers : WeakCell → List Pointer
called_pointers c = c.held ∷ c.callback ∷ []

pub called_flat :
    (c : WeakCell) (cells : List WeakCell)
    → finalizer_values (c ∷ cells) ≡ called_pointers c ++ finalizer_values cells
unfolding finalizer_values called_pointers
called_flat c cells = refl

module _ (p : Pointer) where
  first_Saved :
      (ps : PendingSave) (saves : List PendingSave)
      → (Memᴰ p (saved_values saves) → Saved p saves)
      → ps.bad ≡ false
      → Memᴰ p (ps.saved_value ∷ saved_values saves)
      → Saved p (ps ∷ saves)
  first_Saved ps saves rest e (Memᴰ.head same) = Saved.now e same
  first_Saved ps saves rest e (Memᴰ.tail h) = Saved.later e (rest h)

  none_Mem : {A : Type 0} → Memᴰ p [] → A
  none_Mem m = elim m [ ]

  Mem-Saved : (saves : List PendingSave) → Memᴰ p (saved_values saves) → Saved p saves
  unfolding saved_values
  Mem-Saved [] m = elim m [ ]
  Mem-Saved (ps ∷ saves) m = elim (Bool-cases ps.bad) [
    | inl e ↦ none_Mem (rw e at m)
    | inr e ↦ first_Saved ps saves (Mem-Saved saves) e (rw e at m)
  ]

  module _ (vm : GcVm) where
    from_stack : Memᴰ p (gc_mark_stack vm.stack) → FixedRoot vm p
    unfolding slot_pointers gc_mark_stack
    from_stack m =
        let (s, at, h) = Mem-flat slot_pointers gc_mark_stack refl stack_flat p vm.stack m in
        by_slot s at h
      where
        by_slot : (s : StackSlot) → Memᴰ s vm.stack → Memᴰ p (slot_pointers s) → FixedRoot vm p
        by_slot null_slot at h = elim h [ ]
        by_slot (var_slot v) at h = FixedRoot.stack_var at (one_Mem p (some v) h)
        by_slot (node_slot v) at h =
            FixedRoot.stack_node (subst (λ q. Memᴰ (node_slot q) vm.stack) (sym (one_Mem p v h)) at)

    from_scopes : Memᴰ p (gc_mark_scopes vm.scopes) → FixedRoot vm p
    unfolding scope_pointers gc_mark_scopes
    from_scopes m =
        let (s, at, h) = Mem-flat scope_pointers gc_mark_scopes refl scopes_flat p vm.scopes m in
        by_scope s at h
      where
        by_scope :
            (s : Option Scope) → Memᴰ s vm.scopes → Memᴰ p (scope_pointers s) → FixedRoot vm p
        by_scope none at h = elim h [ ]
        by_scope (some sc) at h = elim (two_Mem p sc.scope_var sc.func_var h) [
          | inl e ↦ FixedRoot.scope_var at e
          | inr e ↦ FixedRoot.scope_func at e
        ]

    from_cells : Memᴰ p (registered_values vm.weak.weak_cells) → FixedRoot vm p
    unfolding cell_pointers registered_values
    from_cells m =
        let (c, at, h) =
          Mem-flat cell_pointers registered_values refl cells_flat p vm.weak.weak_cells m in
        by_cell c at h
      where
        by_cell :
            (c : WeakCell)
            → Memᴰ c vm.weak.weak_cells
            → Memᴰ p (if c.is_fr then c.held ∷ c.callback ∷ [] else [])
            → FixedRoot vm p
        by_cell c at h = elim (Bool-cases c.is_fr) [
          | inl e ↦ FixedRoot.held at e (two_Mem p c.held c.callback (rw e at h))
          | inr e ↦ none_Mem (rw e at h)
        ]

    from_finalizers : Memᴰ p (finalizer_values vm.weak.pending_finalizers) → FixedRoot vm p
    unfolding called_pointers finalizer_values
    from_finalizers m =
        let (c, at, h) =
          Mem-flat called_pointers finalizer_values refl called_flat p vm.weak.pending_finalizers
            m in
        FixedRoot.finalizer at (two_Mem p c.held c.callback h)

    from_cache : Memᴰ p (gc_mark_cache vm) → FixedRoot vm p
    unfolding gc_mark_cache
    from_cache m = elim (Bool-cases (vm.cache_size == 0)) [
      | inl e ↦ none_Mem (rw e at m)
      | inr e ↦ FixedRoot.cached (λ z. ground (arith, e, z)) (rw e at m)
    ]

    first_FixedRoot : Memᴰ p (first_roots vm) → FixedRoot vm p
    unfolding first_roots
    first_FixedRoot (Memᴰ.head e) = FixedRoot.root_object e
    first_FixedRoot (Memᴰ.tail m) =
        let stack = gc_mark_stack vm.stack in
        let cache = gc_mark_cache vm in
        let scopes = gc_mark_scopes vm.scopes in
        elim (Mem-split p (stack ++ cache ++ scopes) vm.c_roots m) [
          | inl h ↦ elim (Mem-split p (stack ++ cache) scopes h) [
            | inl k ↦ elim (Mem-split p stack cache k) [
              | inl l ↦ from_stack l
              | inr l ↦ from_cache l
            ]
            | inr k ↦ from_scopes k
          ]
          | inr h ↦ FixedRoot.c_root h
        ]

    weak_FixedRoot : Memᴰ p (gc_mark_weak vm.weak) → FixedRoot vm p
    unfolding gc_mark_weak
    weak_FixedRoot m =
        elim (Mem-split p (registered_values vm.weak.weak_cells)
          (finalizer_values vm.weak.pending_finalizers) m) [
            | inl h ↦ from_cells h
            | inr h ↦ from_finalizers h
          ]

    anchors_FixedRoot : Memᴰ p (gc_mark_wanchor_pool vm) → FixedRoot vm p
    unfolding gc_mark_wanchor_pool
    anchors_FixedRoot m = elim (Mem-split p vm.wanchor_pool (vm.wanchor_nil ∷ []) m) [
      | inl h ↦ FixedRoot.anchor h
      | inr h ↦ FixedRoot.anchor_nil (one_Mem p vm.wanchor_nil h)
    ]

    last_FixedRoot : Memᴰ p (last_roots vm) → FixedRoot vm p
    unfolding last_roots
    last_FixedRoot (Memᴰ.head e) = FixedRoot.shared_true e
    last_FixedRoot (Memᴰ.tail (Memᴰ.head e)) = FixedRoot.shared_false e
    last_FixedRoot (Memᴰ.tail (Memᴰ.tail (Memᴰ.head e))) = FixedRoot.shared_null e
    last_FixedRoot (Memᴰ.tail (Memᴰ.tail (Memᴰ.tail m))) =
        elim (Mem-split p (gc_mark_weak vm.weak) (gc_mark_wanchor_pool vm) m) [
          | inl h ↦ weak_FixedRoot h
          | inr h ↦ anchors_FixedRoot h
        ]

    pub unmark_FixedRoot : Memᴰ p (unmark_roots vm) → FixedRoot vm p
    unfolding unmark_roots
    unmark_FixedRoot m = elim (Mem-split p (first_roots vm) (last_roots vm) m) [
      | inl h ↦ first_FixedRoot h
      | inr h ↦ last_FixedRoot h
    ]

    pending_DeferredRoot : Memᴰ p (pending_roots vm) → DeferredRoot vm p
    unfolding pending_roots
    pending_DeferredRoot (Memᴰ.head e) = DeferredRoot.parked e
    pending_DeferredRoot (Memᴰ.tail m) = DeferredRoot.saved (Mem-Saved vm.pending_saves m)

    pub mark_IsRoot : Memᴰ p (mark_roots vm) → IsRoot vm p
    unfolding mark_roots
    mark_IsRoot m = elim (Mem-split p (first_roots vm) (pending_roots vm ++ last_roots vm) m) [
      | inl h ↦ inl (first_FixedRoot h)
      | inr h ↦ elim (Mem-split p (pending_roots vm) (last_roots vm) h) [
        | inl k ↦ inr (pending_DeferredRoot k)
        | inr k ↦ inl (last_FixedRoot k)
      ]
    ]
