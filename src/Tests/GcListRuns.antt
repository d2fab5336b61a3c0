-- ===== src/Tests/GcListRuns.antt =====
-- The lists and the registries of the garbage collector of mario/mario.c at concrete states.
use mario_js.Prelude.{
  ℕ, zero, suc, ◌+◌, ◌-◌, ◌/◌, ◌≤◌, ◌<◌, ◌≡◌, refl, ◌↔◌, Bool, true, false, List, [], ◌∷◌, ◌++◌,
  length, take, ◌==◌, All, Option, none, some, arith,
}
use mario_js.Gc.{Pointer, Func, no_func, Heap, v_st_ref, vm_closure_chain_max}
use mario_js.Gc.Weak.{
  Weak, finalizer_cell, weakref_cell, vm_weak_remove_ref, vm_weak_target_dying, gc_mark_weak,
}
use mario_js.Gc.Weak.Ops.{target_dying, registry_free, weak_run}
use mario_js.Gc.Weak.Balance.{occurs, owned, weak_run-Balanced}
use mario_js.Gc.Weak.Silent.{vm_weak_remove_ref-Silent}
use mario_js.Gc.Weak.Dying.{vm_weak_target_dying-Marks}
use mario_js.Gc.Pointers.{count}
use mario_js.Gc.Trigger.{GcState, collects, gc, gc_trig_var_num_def, gc-Grows}
use mario_js.Gc.CRoots.{CRoots, parked, live_ones, push_all, vm_pop_c_roots, push_all-Pops}
use mario_js.Gc.Closure.{ChainEnds, EndsIn, func_bind_closure_func, func_bind_closure_func-Ends}
use mario_js.Gc.Links.{GcLinks, add_to_gc, remove_from_gc}
use mario_js.Gc.Links.Chains.{Linked}
use mario_js.Gc.Links.Refine.{Holds, add_to_gc-Holds}
use mario_js.Gc.Links.Free.{VarLists, is_freed, move_freed}
use mario_js.Gc.Links.Moved.{FreeChain, Lists}
use mario_js.Gc.Links.Loop.{kept, joined}
use mario_js.Gc.Links.Stale.{stale, move_freed-Parts}
use mario_js.Gc.Links.Remove.{remove_from_gc-Holds}

occurs_at_most : (z a b : ℕ) → (a == b) ≡ false → occurs z (a ∷ b ∷ []) ≤ 1
unfolding occurs
occurs_at_most z a b e = ground (arith, e)

occurs_inside : (z : ℕ) → 1 ≤ occurs z (0 ∷ 2 ∷ []) → z < 3
unfolding occurs
occurs_inside z h = ground (arith, h)

-- The vars 0 and 2 are on the list of the collector, and 1 is not.
abbrev two_vars : GcLinks
two_vars = record {
  next = some 2 ∷ none ∷ none ∷ [];
  prev = none ∷ none ∷ some 0 ∷ [];
  status = 2 ∷ 0 ∷ 2 ∷ [];
  gc_vars = some 0;
  gc_vars_tail = some 2;
  gc_vars_num = 2;
  gc_trig_var_num = 128;
  gc_defer = 0;
  gc_pending = false;
}

two_vars-Holds : Holds two_vars (0 ∷ 2 ∷ [])
unfolding Linked
two_vars-Holds = record {
  chain = (refl, refl, (refl, refl, refl));
  tail = refl;
  once = λ z. occurs_at_most z 0 2 refl;
  inside = λ z h. (occurs_inside z h, occurs_inside z h);
  number = refl;
}

occurs_not : occurs 1 (0 ∷ 2 ∷ []) ≡ 0
unfolding occurs
occurs_not = refl

add_to_gc-Holds_example : Holds (add_to_gc 1 two_vars) (0 ∷ 2 ∷ 1 ∷ [])
add_to_gc-Holds_example =
    add_to_gc-Holds two_vars (0 ∷ 2 ∷ []) 1 two_vars-Holds occurs_not (omega arith) (omega arith)
      (omega arith)

remove_from_gc-Holds_example : Holds (remove_from_gc 0 two_vars) (2 ∷ [])
remove_from_gc-Holds_example = remove_from_gc-Holds two_vars [] 0 (2 ∷ []) two_vars-Holds

-- The sweep has freed the var 2, behind the head, and there is no free var yet.
abbrev one_freed : VarLists
one_freed = record {
  links = record two_vars { status = 2 ∷ 0 ∷ 1 ∷ [] };
  free_var_buffer = none;
  free_var_buffer_num = 0;
}

one_freed-Lists : Lists one_freed (0 ∷ 2 ∷ []) []
unfolding Linked FreeChain occurs
one_freed-Lists = record {
  watched = record {
    chain = (refl, refl, (refl, refl, refl));
    tail = refl;
    once = λ z. occurs_at_most z 0 2 refl;
    inside = λ z h. (occurs_inside z h, occurs_inside z h);
    number = refl;
  };
  free = refl;
  apart = λ z. let h = occurs_at_most z 0 2 refl in omega (arith, h);
}

-- Ahead of the head 0 the sweep has freed the var 1 too.
move_freed-Parts_example :
    (s' : VarLists) × (move_freed 3 (some 0) (stale 0 (some 1) 1 one_freed)
      ≡ some (stale 0 (some 1) 1 s'))
    × Lists s' (0 ∷ kept (is_freed one_freed) (2 ∷ [])) (joined (is_freed one_freed) (2 ∷ []) [])
move_freed-Parts_example =
    move_freed-Parts 0 (some 1) 1 3 one_freed (2 ∷ []) [] one_freed-Lists refl (omega arith)

-- One finalizer and one WeakRef for the var 7.
abbrev two_cells : Weak
two_cells = record {
  weak_cells = weakref_cell 7 5 ∷ finalizer_cell (some 1) 7 2 (some 3) none ∷ [];
  pending_finalizers = [];
}

weak_run-Balanced_example :
    occurs 3 (owned (weak_run (target_dying 7 ∷ registry_free ∷ []) two_cells).weak)
      + occurs 3 (weak_run (target_dying 7 ∷ registry_free ∷ []) two_cells).unrefs
    ≡ occurs 3 (owned two_cells)
      + occurs 3 (weak_run (target_dying 7 ∷ registry_free ∷ []) two_cells).refs
weak_run-Balanced_example = weak_run-Balanced 3 (target_dying 7 ∷ registry_free ∷ []) two_cells

vm_weak_remove_ref-Silent_example :
    occurs 5 (weak_run (target_dying 7 ∷ []) (vm_weak_remove_ref 5 two_cells).weak).cleared ≡ 0
vm_weak_remove_ref-Silent_example =
    vm_weak_remove_ref-Silent 5 two_cells (target_dying 7 ∷ []) (refl, tt)

vm_weak_target_dying-Marks_example :
    All (λ c. (c.target == 7) ≡ false) (vm_weak_target_dying 7 two_cells).weak.weak_cells
    × ((test : Pointer → Bool)
        → count test (gc_mark_weak (vm_weak_target_dying 7 two_cells).weak)
          ≡ count test (gc_mark_weak two_cells))
vm_weak_target_dying-Marks_example = vm_weak_target_dying-Marks 7 two_cells

-- The WeakRef is cleared, and the finalizer waits.
dying_run : (vm_weak_target_dying 7 two_cells).cleared ≡ 5 ∷ []
unfolding vm_weak_target_dying
dying_run = refl

abbrev full_gc : GcState
full_gc = record { is_doing_gc = false; gc_defer = 0; gc_vars_num = 200; gc_trig_var_num = 128 }

full_gc-collects : collects false full_gc ≡ true
unfolding collects
full_gc-collects = refl

gc-Grows_example :
    (collects false (record (gc 100 false full_gc) { gc_vars_num = 150 }) ≡ true)
    ↔ ((gc_trig_var_num_def ≤ 150) × (100 + 100 / 2 ≤ 150))
gc-Grows_example = gc-Grows 100 150 false full_gc full_gc-collects (omega arith) refl

abbrev one_live : Heap
one_live = record {
  vars =
      record {
        magic = 0;
        type = 4;
        status = v_st_ref;
        is_func = false;
        has_vm = true;
        value = none;
        children = record { buckets = []; size = 0 };
      }
      ∷ [];
  funcs = [];
}

abbrev no_roots : CRoots
no_roots = record { slots = []; c_roots_top = 0 }

push_all-Pops_example :
    parked (vm_pop_c_roots 1 (push_all (λ size. true) none one_live (some 0 ∷ none ∷ []) no_roots))
    ≡ take
        (length (parked no_roots ++ live_ones one_live (some 0 ∷ none ∷ [])) - 1)
        (parked no_roots ++ live_ones one_live (some 0 ∷ none ∷ []))
push_all-Pops_example =
    push_all-Pops (λ size. true) none one_live (some 0 ∷ none ∷ []) 1 no_roots (λ size. refl)
      (omega arith)

-- The function 0 stands in the function 1, to which it is bound.
abbrev bound_func : Option ℕ → Func
bound_func outer = record {
  owner = none;
  owner_var = none;
  closure_var = none;
  closure_func = outer;
  closure_func_ref = none;
}

abbrev two_funcs : List Func
two_funcs = bound_func (some 1) ∷ bound_func none ∷ []

two_funcs-End : (k : ℕ) → ChainEnds two_funcs (some k)
unfolding EndsIn no_func
two_funcs-End zero = (2, tt)
two_funcs-End (suc zero) = (1, tt)
two_funcs-End (suc (suc k)) = (1, tt)

two_funcs-EndsIn : EndsIn two_funcs (suc vm_closure_chain_max) (some 0)
unfolding EndsIn
two_funcs-EndsIn = tt

-- Binding the outer function to the inner one would close a cycle.
func_bind_closure_func-Ends_example :
    ChainEnds (func_bind_closure_func 1 (some 0) two_funcs) (some 1)
func_bind_closure_func-Ends_example =
    func_bind_closure_func-Ends two_funcs 1 (some 0) (omega arith) two_funcs-End two_funcs-EndsIn 1
