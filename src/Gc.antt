-- ===== src/Gc.antt =====
-- The marking of the garbage collector of mario/mario.c (gc_mark and gc_vars) and the test with which
-- gc begins.
--
-- A heap is the list of its vars and the list of its functions (func_t), and a pointer to one of them
-- is an index, with `none` for NULL. A pointer to memory that is no var, which mario_ptr_wild or the
-- checks of the header in var_empty find, is an index whose var fails these checks; an index behind the
-- end of the list reads as such a var. The two flags that the marking writes, gc_marked and gc_marking,
-- are kept beside the fields that it only reads. A member is the pointer to the var of its node.
--
-- gc_mark is recursive; its model has fuel, for the depth of the recursion, and answers `none` when the
-- fuel does not suffice.
pub mod Weak
pub mod Roots
pub mod Count
pub mod Paths
pub mod Reachable
pub mod Refers
pub mod Pointers
pub mod Walk
pub mod Visit
pub mod Collect
pub mod Unmark
pub mod Trigger
pub mod CRoots
pub mod Closure
pub mod Links
use mario_js.Prelude.{
  ℕ, zero, suc, Bool, true, false, not, ◌&&◌, ◌||◌, List, [], ◌∷◌, ◌++◌, map, get_or, set, ltb, leb,
  ◌==◌, if◌then◌else◌, Option, none, some,
}
use mario_js.HashMap.{HashMap, hash_map_init, hash_map_iterate}

abbrev pub Pointer : Type 0
Pointer = Option ℕ

-- The type with the largest number, and the numbers of the status: V_ST_FREE, V_ST_GC_FREE, V_ST_GC
-- and V_ST_REF.
abbrev pub v_bigint : ℕ
v_bigint = 9

abbrev pub v_st_free : ℕ
v_st_free = 0

abbrev pub v_st_gc_free : ℕ
v_st_gc_free = 1

abbrev pub v_st_gc : ℕ
v_st_gc = 2

abbrev pub v_st_ref : ℕ
v_st_ref = 3

abbrev pub vm_closure_chain_max : ℕ
vm_closure_chain_max = 4096

-- The fields of a func_t that hold vars and functions; `closure_func` is an index of `funcs`.
pub record Func : Type 0 where
  pub owner : Pointer
  pub owner_var : Pointer
  pub closure_var : Pointer
  pub closure_func : Option ℕ
  pub closure_func_ref : Pointer

-- `value` is read for a function only, where it is an index of `funcs`.
pub record Var : Type 0 where
  pub magic : ℕ
  pub type : ℕ
  pub status : ℕ
  pub is_func : Bool
  pub has_vm : Bool
  pub value : Option ℕ
  pub children : HashMap Pointer

pub record Heap : Type 0 where
  pub vars : List Var
  pub funcs : List Func

pub record Marks : Type 0 where
  pub marked : List Bool
  pub marking : List Bool

-- What a pointer to no var and no function reads.
unfoldable pub no_var : Var
unfolding hash_map_init
no_var = record {
  magic = 0;
  type = 0;
  status = v_st_free;
  is_func = false;
  has_vm = false;
  value = none;
  children = hash_map_init;
}

unfoldable pub no_func : Func
no_func = record {
  owner = none;
  owner_var = none;
  closure_var = none;
  closure_func = none;
  closure_func_ref = none;
}

unfoldable pub var_at : Heap → ℕ → Var
unfolding no_var
var_at heap i = get_or heap.vars i no_var

unfoldable pub func_at : Heap → ℕ → Func
unfolding no_func
func_at heap k = get_or heap.funcs k no_func

unfoldable pub var_empty : Var → Bool
var_empty v =
    not (v.magic == 0)
    || ltb v_bigint v.type
    || ltb v_st_ref v.status
    || not v.has_vm
    || leb v.status v_st_gc_free

-- The var that a pointer leads to, unless var_empty holds of the pointer.
unfoldable pub live_at : Heap → Pointer → Pointer
unfolding var_at var_empty
live_at heap none = none
live_at heap (some i) = if var_empty (var_at heap i) then none else some i

unfoldable pub var_get_func : Var → Option ℕ
var_get_func v = if v.is_func then v.value else none

-- A call of gc_mark: whether it is made only where gc_marking is false, and its var.
abbrev pub Call : Type 0
Call = Bool × Pointer

-- The loop over the captured chain, whose first argument counts the rounds that chain_guard leaves.
unfoldable pub closure_calls : Heap → ℕ → Pointer → Option ℕ → List Call
unfolding func_at
closure_calls heap zero closure closure_func = []
closure_calls heap (suc rounds) none none = []
closure_calls heap (suc rounds) (some c) none = (true, some c) ∷ []
closure_calls heap (suc rounds) closure (some k) =
    let f = func_at heap k in
    (true, closure) ∷ (true, f.owner_var) ∷ closure_calls heap rounds f.closure_var f.closure_func

unfoldable pub func_calls : Heap → Option ℕ → List Call
unfolding closure_calls func_at
func_calls heap none = []
func_calls heap (some k) =
    let f = func_at heap k in
    (false, f.owner) ∷ closure_calls heap vm_closure_chain_max f.closure_var f.closure_func

abbrev pub plain_call : Pointer → Call
plain_call p = (false, p)

-- gc_mark_callback passes on the var of a member.
unfoldable pub child_call : List ℕ × Pointer → Call
child_call entry = plain_call entry.1

-- The calls of gc_mark that gc_mark makes for the var `i`, in their order.
unfoldable pub calls_of : Heap → ℕ → List Call
unfolding var_at var_get_func func_calls child_call hash_map_iterate
calls_of heap i =
    let v = var_at heap i in
    map child_call (hash_map_iterate v.children) ++ func_calls heap (var_get_func v)

unfoldable pub is_marking : Marks → Pointer → Bool
is_marking marks none = false
is_marking marks (some i) = get_or marks.marking i false

abbrev pub same_flag : Bool → Bool → Bool
same_flag a b = if a then b else not b

unfoldable pub enter : ℕ → Bool → Marks → Marks
enter i mark marks = record { marked = set marks.marked i mark; marking = set marks.marking i true }

unfoldable pub leave : ℕ → Marks → Marks
leave i marks = record marks { marking = set marks.marking i false }

-- gc_mark on the vars of a list of calls, for a given gc_mark.
unfoldable pub mark_call : (Pointer → Marks → Option Marks) → Call → Marks → Option Marks
unfolding is_marking
mark_call gc_mark (guarded, p) marks =
    if guarded && is_marking marks p then some marks else gc_mark p marks

unfoldable pub mark_each :
    (Pointer → Marks → Option Marks) → List Call → Option Marks → Option Marks
unfolding mark_call
mark_each gc_mark [] result = result
mark_each gc_mark (c ∷ cs) none = none
mark_each gc_mark (c ∷ cs) (some marks) = mark_each gc_mark cs (mark_call gc_mark c marks)

unfoldable pub left : ℕ → Option Marks → Option Marks
unfolding leave
left i none = none
left i (some marks) = some (leave i marks)

unfoldable pub gc_mark : Heap → Bool → ℕ → Pointer → Marks → Option Marks
unfolding live_at enter left mark_each calls_of
gc_mark heap mark zero p marks = none
gc_mark heap mark (suc fuel) p marks = elim (live_at heap p) [
  | none ↦ some marks
  | some i ↦
      if same_flag (get_or marks.marked i false) mark
      then some marks
      else left i (mark_each (gc_mark heap mark fuel) (calls_of heap i) (some (enter i mark marks)))
]
