-- ===== src/Gc/Roots.antt =====
-- The roots of the garbage collector of mario/mario.c, in the order of gc_vars, and its two marking
-- phases.
--
-- The roots are read before the first call of gc_mark, which changes none of them. The stack is the
-- list of its slots below stack_top, from the top; every other array or linked list is the list of what
-- the source's loop meets, in its order.
use mario_js.Prelude.{
  ℕ, Bool, true, false, not, ◌&&◌, List, [], ◌∷◌, ◌++◌, map, take, get_or, ◌==◌, if◌then◌else◌,
  Option, none, some,
}
use mario_js.Gc.{Pointer, Heap, Marks, v_st_gc, var_at, plain_call, mark_each, gc_mark}
use mario_js.Gc.Weak.{Weak, gc_mark_weak}

-- What a slot of the stack holds: NULL, a var, or a node, of which the var counts.
pub data StackSlot : Type 0 where
  null_slot : StackSlot
  var_slot : ℕ → StackSlot
  node_slot : Pointer → StackSlot

pub record Scope : Type 0 where
  pub scope_var : Pointer
  pub func_var : Pointer

-- A transfer saved by an enclosing vm_run; `bad` is what pending_save_bad answers for the link to it.
pub record PendingSave : Type 0 where
  pub bad : Bool
  pub saved_value : Pointer

-- The fields of vm_t that gc_vars reads.
pub record GcVm : Type 0 where
  pub root : Pointer
  pub stack : List StackSlot
  pub cache_size : ℕ
  pub cache_used : ℕ
  pub cache : List Pointer
  pub scopes : List (Option Scope)
  pub c_roots : List Pointer
  pub pending_value : Pointer
  pub pending_saves : List PendingSave
  pub var_true : Pointer
  pub var_false : Pointer
  pub var_null : Pointer
  pub weak : Weak
  pub wanchor_pool : List Pointer
  pub wanchor_nil : Pointer

unfoldable pub gc_mark_stack : List StackSlot → List Pointer
gc_mark_stack [] = []
gc_mark_stack (null_slot ∷ slots) = gc_mark_stack slots
gc_mark_stack (var_slot v ∷ slots) = some v ∷ gc_mark_stack slots
gc_mark_stack (node_slot v ∷ slots) = v ∷ gc_mark_stack slots

unfoldable pub gc_mark_cache : GcVm → List Pointer
gc_mark_cache vm = if vm.cache_size == 0 then [] else take vm.cache_used vm.cache

unfoldable pub gc_mark_scopes : List (Option Scope) → List Pointer
gc_mark_scopes [] = []
gc_mark_scopes (none ∷ scopes) = gc_mark_scopes scopes
gc_mark_scopes (some sc ∷ scopes) = sc.scope_var ∷ sc.func_var ∷ gc_mark_scopes scopes

-- The loop over pending_saves ends at the first bad link. That it then sets the list to NULL, which the
-- marking does not read again, is left out.
unfoldable pub saved_values : List PendingSave → List Pointer
saved_values [] = []
saved_values (ps ∷ saves) = if ps.bad then [] else ps.saved_value ∷ saved_values saves

unfoldable pub gc_mark_wanchor_pool : GcVm → List Pointer
gc_mark_wanchor_pool vm = vm.wanchor_pool ++ vm.wanchor_nil ∷ []

-- The roots that both phases visit before the deferred transfers, and those behind these.
unfoldable pub first_roots : GcVm → List Pointer
unfolding gc_mark_stack gc_mark_cache gc_mark_scopes
first_roots vm =
    vm.root ∷ gc_mark_stack vm.stack ++ gc_mark_cache vm ++ gc_mark_scopes vm.scopes ++ vm.c_roots

unfoldable pub last_roots : GcVm → List Pointer
unfolding gc_mark_weak gc_mark_wanchor_pool
last_roots vm =
    vm.var_true ∷ vm.var_false ∷ vm.var_null ∷ gc_mark_weak vm.weak ++ gc_mark_wanchor_pool vm

unfoldable pub pending_roots : GcVm → List Pointer
unfolding saved_values
pending_roots vm = vm.pending_value ∷ saved_values vm.pending_saves

unfoldable pub mark_roots : GcVm → List Pointer
unfolding first_roots pending_roots last_roots
mark_roots vm = first_roots vm ++ (pending_roots vm ++ last_roots vm)

-- The second phase leaves the deferred transfers out.
unfoldable pub unmark_roots : GcVm → List Pointer
unfolding first_roots last_roots
unmark_roots vm = first_roots vm ++ last_roots vm

unfoldable pub mark_phase : Heap → ℕ → GcVm → Marks → Option Marks
unfolding mark_each gc_mark mark_roots
mark_phase heap fuel vm marks =
    mark_each (gc_mark heap true fuel) (map plain_call (mark_roots vm)) (some marks)

unfoldable pub unmark_phase : Heap → ℕ → GcVm → Marks → Option Marks
unfolding mark_each gc_mark unmark_roots
unmark_phase heap fuel vm marks =
    mark_each (gc_mark heap false fuel) (map plain_call (unmark_roots vm)) (some marks)

-- The test of the sweep for the var `i`. What the sweep does with a var that passes it (the write of gc_vars
-- for the var at its head, and var_free, which tears the value down and lets go of what it held) is left out.
unfoldable pub is_swept : Heap → Marks → ℕ → Bool
unfolding var_at
is_swept heap marks i = (var_at heap i).status == v_st_gc && not (get_or marks.marked i false)
