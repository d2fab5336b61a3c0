-- ===== src/Gc/Reachable/Visited.antt =====
-- Each kind of root is among those that gc_vars (mario/mario.c) visits.
use mathlib.Core.List.{Memᴰ}
use mario_js.Prelude.{
  ◌≡◌, refl, ◌≢◌, inl, inr, true, Bool-cases, List, [], ◌∷◌, ◌++◌, take, ◌==◌, if◌then◌else◌, some,
  arith,
}
use mario_js.Gc.{Pointer}
use mario_js.Gc.Roots.{
  GcVm, var_slot, node_slot, PendingSave, gc_mark_stack, gc_mark_cache, gc_mark_scopes,
  saved_values, gc_mark_wanchor_pool, first_roots, last_roots, pending_roots, mark_roots,
  unmark_roots,
}
use mario_js.Gc.Weak.{registered_values, finalizer_values, gc_mark_weak}
use mario_js.Gc.Reachable.{
  FixedRoot, Saved, DeferredRoot, IsRoot, Mem-left, Mem-right, Mem-split, flat-Mem, Mem_two,
}
use mario_js.Gc.Reachable.Kinds.{
  slot_pointers, stack_flat, scope_pointers, scopes_flat, cell_pointers, cells_flat,
  called_pointers, called_flat,
}

module _ (p : Pointer) where
  Saved-Mem : (saves : List PendingSave) → Saved p saves → Memᴰ p (saved_values saves)
  unfolding saved_values
  Saved-Mem [] h = elim h [ ]
  Saved-Mem (ps ∷ saves) (Saved.now e same) = rw e (Memᴰ.head same)
  Saved-Mem (ps ∷ saves) (Saved.later e h) = rw e (Memᴰ.tail (Saved-Mem saves h))

  module _ (vm : GcVm) where
    before_first :
        Memᴰ p (gc_mark_stack vm.stack ++ gc_mark_cache vm ++ gc_mark_scopes vm.scopes)
        → Memᴰ p (first_roots vm)
    unfolding first_roots
    before_first h = Memᴰ.tail (
        Mem-left p (gc_mark_stack vm.stack ++ gc_mark_cache vm ++ gc_mark_scopes vm.scopes)
          vm.c_roots h)

    stack_first : Memᴰ p (gc_mark_stack vm.stack) → Memᴰ p (first_roots vm)
    stack_first h = before_first (
        Mem-left p (gc_mark_stack vm.stack ++ gc_mark_cache vm) (gc_mark_scopes vm.scopes)
          (Mem-left p (gc_mark_stack vm.stack) (gc_mark_cache vm) h))

    cache_first : Memᴰ p (gc_mark_cache vm) → Memᴰ p (first_roots vm)
    cache_first h = before_first (
        Mem-left p (gc_mark_stack vm.stack ++ gc_mark_cache vm) (gc_mark_scopes vm.scopes)
          (Mem-right p (gc_mark_stack vm.stack) (gc_mark_cache vm) h))

    scopes_first : Memᴰ p (gc_mark_scopes vm.scopes) → Memᴰ p (first_roots vm)
    scopes_first h =
        before_first
          (Mem-right p (gc_mark_stack vm.stack ++ gc_mark_cache vm) (gc_mark_scopes vm.scopes) h)

    c_roots_first : Memᴰ p vm.c_roots → Memᴰ p (first_roots vm)
    unfolding first_roots
    c_roots_first h = Memᴰ.tail (
        Mem-right p (gc_mark_stack vm.stack ++ gc_mark_cache vm ++ gc_mark_scopes vm.scopes)
          vm.c_roots h)

    weak_last : Memᴰ p (gc_mark_weak vm.weak) → Memᴰ p (last_roots vm)
    unfolding last_roots
    weak_last h =
        Memᴰ.tail
          (Memᴰ.tail (Memᴰ.tail (Mem-left p (gc_mark_weak vm.weak) (gc_mark_wanchor_pool vm) h)))

    anchors_last : Memᴰ p (gc_mark_wanchor_pool vm) → Memᴰ p (last_roots vm)
    unfolding last_roots
    anchors_last h =
        Memᴰ.tail
          (Memᴰ.tail (Memᴰ.tail (Mem-right p (gc_mark_weak vm.weak) (gc_mark_wanchor_pool vm) h)))

    in_first : Memᴰ p (first_roots vm) → Memᴰ p (unmark_roots vm)
    unfolding unmark_roots
    in_first = Mem-left p (first_roots vm) (last_roots vm)

    in_last : Memᴰ p (last_roots vm) → Memᴰ p (unmark_roots vm)
    unfolding unmark_roots
    in_last = Mem-right p (first_roots vm) (last_roots vm)

    cells_last : Memᴰ p (registered_values vm.weak.weak_cells) → Memᴰ p (unmark_roots vm)
    unfolding gc_mark_weak
    cells_last h = in_last (
        weak_last (
          Mem-left p (registered_values vm.weak.weak_cells)
            (finalizer_values vm.weak.pending_finalizers) h))

    finalizers_last :
        Memᴰ p (finalizer_values vm.weak.pending_finalizers) → Memᴰ p (unmark_roots vm)
    unfolding gc_mark_weak
    finalizers_last h = in_last (
        weak_last (
          Mem-right p (registered_values vm.weak.weak_cells)
            (finalizer_values vm.weak.pending_finalizers) h))

    pub FixedRoot_unmark : FixedRoot vm p → Memᴰ p (unmark_roots vm)
    unfolding first_roots last_roots gc_mark_cache gc_mark_wanchor_pool gc_mark_stack gc_mark_scopes
        registered_values finalizer_values slot_pointers scope_pointers cell_pointers
        called_pointers
    FixedRoot_unmark (FixedRoot.root_object e) = in_first (Memᴰ.head e)
    FixedRoot_unmark (FixedRoot.stack_var {v = v} at e) = in_first (
        stack_first (
          flat-Mem slot_pointers gc_mark_stack refl stack_flat p vm.stack (var_slot v) at
            (Memᴰ.head e)))
    FixedRoot_unmark (FixedRoot.stack_node at) = in_first (
        stack_first (
          flat-Mem slot_pointers gc_mark_stack refl stack_flat p vm.stack (node_slot p) at
            (Memᴰ.head refl)))
    FixedRoot_unmark (FixedRoot.cached ne h) = in_first (cache_first (in_cache ne h))
      where
        in_cache :
            vm.cache_size ≢ 0 → Memᴰ p (take vm.cache_used vm.cache) → Memᴰ p (gc_mark_cache vm)
        in_cache n m = elim (Bool-cases (vm.cache_size == 0)) [
          | inl e ↦ absurd (n (ground (arith, e)))
          | inr e ↦ rw e m
        ]
    FixedRoot_unmark (FixedRoot.scope_var {sc = sc} at e) = in_first (
        scopes_first (
          flat-Mem scope_pointers gc_mark_scopes refl scopes_flat p vm.scopes (some sc) at
            (Memᴰ.head e)))
    FixedRoot_unmark (FixedRoot.scope_func {sc = sc} at e) = in_first (
        scopes_first (
          flat-Mem scope_pointers gc_mark_scopes refl scopes_flat p vm.scopes (some sc) at
            (Memᴰ.tail (Memᴰ.head e))))
    FixedRoot_unmark (FixedRoot.c_root h) = in_first (c_roots_first h)
    FixedRoot_unmark (FixedRoot.shared_true e) = in_last (Memᴰ.head e)
    FixedRoot_unmark (FixedRoot.shared_false e) = in_last (Memᴰ.tail (Memᴰ.head e))
    FixedRoot_unmark (FixedRoot.shared_null e) = in_last (Memᴰ.tail (Memᴰ.tail (Memᴰ.head e)))
    FixedRoot_unmark (FixedRoot.held {c = c} at is either) = cells_last (
        flat-Mem cell_pointers registered_values refl cells_flat p vm.weak.weak_cells c at
          (in_cell is))
      where
        in_cell : c.is_fr ≡ true → Memᴰ p (if c.is_fr then c.held ∷ c.callback ∷ [] else [])
        in_cell f = rw f (Mem_two p c.held c.callback either)
    FixedRoot_unmark (FixedRoot.finalizer {c = c} at either) = finalizers_last (
        flat-Mem called_pointers finalizer_values refl called_flat p vm.weak.pending_finalizers c at
          (Mem_two p c.held c.callback either))
    FixedRoot_unmark (FixedRoot.anchor h) =
        in_last (anchors_last (Mem-left p vm.wanchor_pool (vm.wanchor_nil ∷ []) h))
    FixedRoot_unmark (FixedRoot.anchor_nil e) =
        in_last (anchors_last (Mem-right p vm.wanchor_pool (vm.wanchor_nil ∷ []) (Memᴰ.head e)))

    unmark_mark : Memᴰ p (unmark_roots vm) → Memᴰ p (mark_roots vm)
    unfolding unmark_roots mark_roots
    unmark_mark m = elim (Mem-split p (first_roots vm) (last_roots vm) m) [
      | inl h ↦ Mem-left p (first_roots vm) (pending_roots vm ++ last_roots vm) h
      | inr h ↦
          Mem-right p (first_roots vm) (pending_roots vm ++ last_roots vm)
            (Mem-right p (pending_roots vm) (last_roots vm) h)
    ]

    pending_mark : Memᴰ p (pending_roots vm) → Memᴰ p (mark_roots vm)
    unfolding mark_roots
    pending_mark h =
        Mem-right p (first_roots vm) (pending_roots vm ++ last_roots vm)
          (Mem-left p (pending_roots vm) (last_roots vm) h)

    pub IsRoot_mark : IsRoot vm p → Memᴰ p (mark_roots vm)
    unfolding pending_roots
    IsRoot_mark (inl h) = unmark_mark (FixedRoot_unmark h)
    IsRoot_mark (inr (DeferredRoot.parked e)) = pending_mark (Memᴰ.head e)
    IsRoot_mark (inr (DeferredRoot.saved h)) =
        pending_mark (Memᴰ.tail (Saved-Mem vm.pending_saves h))
