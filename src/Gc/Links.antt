-- ===== src/Gc/Links.antt =====
-- The doubly linked list of the vars that the collector watches (add_to_gc and remove_from_gc of
-- mario/mario.c).
--
-- The fields `next` and `prev` of all vars are two lists of pointers, and a var is its index. The
-- guards for a var without a VM are left out: the var of a call is one with a VM.
pub mod Chains
pub mod Writes
pub mod Refine
pub mod Remove
pub mod Free
pub mod Moved
pub mod Moves
pub mod Loop
pub mod Stale
use mario_js.Prelude.{
  ℕ, zero, suc, ◌+◌, ◌-◌, ◌%◌, Bool, true, false, ◌&&◌, ◌||◌, List, [], ◌∷◌, get_or, set, ltb, ◌==◌,
  if◌then◌else◌, Option, none, some, u32,
}
use mario_js.Gc.{Pointer, v_st_gc}

pub record GcLinks : Type 0 where
  pub next : List Pointer
  pub prev : List Pointer
  pub status : List ℕ
  pub gc_vars : Pointer
  pub gc_vars_tail : Pointer
  pub gc_vars_num : ℕ
  pub gc_trig_var_num : ℕ
  pub gc_defer : ℕ
  pub gc_pending : Bool

-- `p->field = value`, or the other place that the code writes where `p` is NULL.
abbrev pub write_field : List Pointer → Pointer → Pointer → List Pointer
write_field field none value = field
write_field field (some i) value = set field i value

abbrev pub write_end : Pointer → Pointer → Pointer → Pointer
write_end end none value = value
write_end end (some i) value = end

unfoldable pub add_to_gc : ℕ → GcLinks → GcLinks
add_to_gc var s =
    let num = (s.gc_vars_num + 1) % u32 in
    record s {
      prev = set s.prev var s.gc_vars_tail;
      next = set (write_field s.next s.gc_vars_tail (some var)) var none;
      gc_vars = write_end s.gc_vars s.gc_vars_tail (some var);
      gc_vars_tail = some var;
      status = set s.status var v_st_gc;
      gc_vars_num = num;
      gc_pending = s.gc_pending || (ltb s.gc_trig_var_num num && s.gc_defer == 0);
    }

unfoldable pub remove_from_gc : ℕ → GcLinks → GcLinks
remove_from_gc var s =
    let before = get_or s.prev var none in
    let after = get_or s.next var none in
    record s {
      next = set (write_field s.next before after) var none;
      gc_vars = write_end s.gc_vars before after;
      prev = set (write_field s.prev after before) var none;
      gc_vars_tail = write_end s.gc_vars_tail after before;
      gc_vars_num = s.gc_vars_num - 1;
    }
