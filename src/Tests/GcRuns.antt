-- ===== src/Tests/GcRuns.antt =====
-- The garbage collector of mario/mario.c on a concrete heap.
use mario_js.Prelude.{
  ℕ, ◌≡◌, refl, ◌↔◌, Bool, true, false, List, [], ◌∷◌, length, replicate, get_or, get_or-replicate,
  none, some, arith,
}
use mario_js.HashMap.{HashMap, Chain}
use mario_js.Gc.{Pointer, Func, Var, Heap, Marks, v_st_gc, var_at, calls_of}
use mario_js.Gc.Roots.{
  GcVm, null_slot, var_slot, node_slot, mark_roots, mark_phase, unmark_phase, is_swept,
}
use mario_js.Gc.Weak.{Weak}
use mario_js.Gc.Paths.{Targets}
use mario_js.Gc.Refers.{Refers, calls_of-Refers}
use mario_js.Gc.Collect.{Idle, Unmarked, ReachFrom, mark_phase-Reach, mark_phase-Sweeps}
use mario_js.Gc.Reachable.{FixedRoot, Leads, Any, Reachable}
use mario_js.Gc.Unmark.{Flagged, unmark_phase-Leaves, unmark_phase-Clears}

abbrev members : List Pointer → HashMap Pointer
members ps = record { buckets = chain ps ∷ []; size = length ps }
  where
    chain : List Pointer → Chain Pointer
    chain [] = []
    chain (p ∷ qs) = (97 ∷ [], p) ∷ chain qs

abbrev object : List Pointer → Var
object ps = record {
  magic = 0;
  type = 4;
  status = v_st_gc;
  is_func = false;
  has_vm = true;
  value = none;
  children = members ps;
}

-- A root that has a function as its member, whose closure is an object that has the root for a member; an
-- object that nothing leads to but itself, and the value of a deferred transfer.
abbrev closure_of_2 : Func
closure_of_2 = record {
  owner = none;
  owner_var = some 1;
  closure_var = some 2;
  closure_func = none;
  closure_func_ref = none;
}

abbrev function_var : Var
function_var = record (object []) { is_func = true; value = some 0 }

abbrev small_heap : Heap
small_heap = record {
  vars =
      object (some 1 ∷ [])
      ∷ function_var
      ∷ object (some 0 ∷ [])
      ∷ object (some 3 ∷ [])
      ∷ object []
      ∷ [];
  funcs = closure_of_2 ∷ [];
}

abbrev clear_marks : Marks
clear_marks = record { marked = replicate 5 false; marking = replicate 5 false }

abbrev no_weak : Weak
no_weak = record { weak_cells = []; pending_finalizers = [] }

abbrev small_vm : Pointer → GcVm
small_vm parked_value = record {
  root = some 0;
  stack = null_slot ∷ node_slot none ∷ var_slot 0 ∷ [];
  cache_size = 0;
  cache_used = 0;
  cache = [];
  scopes = none ∷ [];
  c_roots = [];
  pending_value = parked_value;
  pending_saves = [];
  var_true = none;
  var_false = none;
  var_null = none;
  weak = no_weak;
  wanchor_pool = [];
  wanchor_nil = none;
}

clear_marks-Idle : Idle small_heap clear_marks
clear_marks-Idle = record {
  marked_places = refl;
  marking_places = refl;
  not_marking = λ i. get_or-replicate 5 i false;
}

clear_marks-Unmarked : Unmarked clear_marks
clear_marks-Unmarked i = get_or-replicate 5 i false

mark_phase-Reach_example :
    (m' : Marks) × (mark_phase small_heap 6 (small_vm (some 4)) clear_marks ≡ some m')
    × Idle small_heap m'
    × ((i : ℕ)
        → (get_or m'.marked i false ≡ true)
          ↔ ReachFrom small_heap (mark_roots (small_vm (some 4))) i)
mark_phase-Reach_example =
    mark_phase-Reach small_heap 6 (small_vm (some 4)) clear_marks clear_marks-Idle
      clear_marks-Unmarked (omega arith)

mark_phase-Sweeps_example :
    (m' : Marks) × (mark_phase small_heap 6 (small_vm none) clear_marks ≡ some m')
    × ((i : ℕ)
        → (is_swept small_heap m' i ≡ true)
          ↔ (((var_at small_heap i).status ≡ v_st_gc) × ¬ (Reachable small_heap (small_vm none) i)))
mark_phase-Sweeps_example =
    mark_phase-Sweeps small_heap 6 (small_vm none) clear_marks clear_marks-Idle clear_marks-Unmarked
      (omega arith)

-- What the first phase computes.
abbrev marks_with : Bool → Marks
marks_with last = record {
  marked = true ∷ true ∷ true ∷ false ∷ last ∷ [];
  marking = replicate 5 false;
}

marked_run : (mark_phase small_heap 6 (small_vm (some 4)) clear_marks) ≡ some (marks_with true)
unfolding mark_phase
marked_run = refl

first_marks-Idle : Idle small_heap (marks_with true)
first_marks-Idle = record {
  marked_places = refl;
  marking_places = refl;
  not_marking = λ i. get_or-replicate 5 i false;
}

unmark_phase-Clears_example :
    (m' : Marks) × (unmark_phase small_heap 6 (small_vm (some 4)) (marks_with true) ≡ some m')
    × Idle small_heap m'
    × ((i : ℕ)
        → Flagged m' i ↔ (
            Flagged (marks_with true) i
            × ¬ (Leads small_heap (FixedRoot (small_vm (some 4))) (Flagged (marks_with true)) i)))
unmark_phase-Clears_example =
    unmark_phase-Clears small_heap 6 (small_vm (some 4)) (marks_with true) first_marks-Idle
      (omega arith)

unmark_phase-Leaves_example :
    (m' : Marks) × (m'' : Marks) × (mark_phase small_heap 6 (small_vm (some 4)) clear_marks
      ≡ some m')
    × (unmark_phase small_heap 6 (small_vm (some 4)) m' ≡ some m'')
    × Idle small_heap m''
    × ((i : ℕ)
        → Flagged m'' i ↔ (
            Reachable small_heap (small_vm (some 4)) i
            × ¬ (Leads small_heap (FixedRoot (small_vm (some 4))) Any i)))
unmark_phase-Leaves_example =
    unmark_phase-Leaves small_heap 6 (small_vm (some 4)) clear_marks clear_marks-Idle
      clear_marks-Unmarked (omega arith)

-- The value of the deferred transfer keeps its mark.
stale_mark :
    unmark_phase small_heap 6 (small_vm (some 4)) (marks_with true)
    ≡ some
        (record { marked = false ∷ false ∷ false ∷ false ∷ true ∷ []; marking = replicate 5 false })
unfolding unmark_phase
stale_mark = refl

-- Were the object 3 its member by the next collection, the walk would stop at the value, and the sweep
-- take the object.
abbrev later_heap : Heap
later_heap = record small_heap {
  vars =
      object (some 1 ∷ [])
      ∷ function_var
      ∷ object (some 0 ∷ [])
      ∷ object []
      ∷ object (some 3 ∷ [])
      ∷ [];
}

abbrev stale_marks : Marks
stale_marks = record {
  marked = false ∷ false ∷ false ∷ false ∷ true ∷ [];
  marking = replicate 5 false;
}

stale_mark_hides : mark_phase later_heap 6 (small_vm (some 4)) stale_marks ≡ some (marks_with true)
unfolding mark_phase
stale_mark_hides = refl

hidden-is_swept : is_swept later_heap (marks_with true) 3 ≡ true
unfolding is_swept
hidden-is_swept = refl

calls_of-Refers_example : Targets small_heap (calls_of small_heap 1) 2 ↔ Refers small_heap 1 2
calls_of-Refers_example = calls_of-Refers small_heap 1 2
