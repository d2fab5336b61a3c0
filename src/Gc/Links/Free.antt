-- ===== src/Gc/Links/Free.antt =====
-- The second step of gc_vars (mario/mario.c), which moves the vars that the sweep has freed from the list
-- of the collector to the list of free vars (add_to_free). A free var keeps its VM.
use mario_js.Prelude.{
  ℕ, zero, suc, ◌+◌, ◌%◌, Bool, get_or, set, ◌==◌, if◌then◌else◌, Option, none, some, u32,
}
use mario_js.Gc.{Pointer, v_st_free, v_st_gc_free}
use mario_js.Gc.Links.{GcLinks, write_field, remove_from_gc}

pub record VarLists : Type 0 where
  pub links : GcLinks
  pub free_var_buffer : Pointer
  pub free_var_buffer_num : ℕ

unfoldable pub add_to_free : ℕ → VarLists → VarLists
add_to_free var s = record {
  links = record s.links {
    status = set s.links.status var v_st_free;
    prev = write_field s.links.prev s.free_var_buffer (some var);
    next = set s.links.next var s.free_var_buffer;
  };
  free_var_buffer = some var;
  free_var_buffer_num = (s.free_var_buffer_num + 1) % u32;
}

abbrev pub is_freed : VarLists → ℕ → Bool
is_freed s var = get_or s.links.status var v_st_free == v_st_gc_free

unfoldable pub move_var : ℕ → VarLists → VarLists
unfolding remove_from_gc add_to_free
move_var var s =
    if is_freed s var then add_to_free var (record s { links = remove_from_gc var s.links }) else s

-- The loop from a var of the list on, whose first argument counts the rounds.
unfoldable pub move_freed : ℕ → Pointer → VarLists → Option VarLists
unfolding move_var
move_freed zero v s = none
move_freed (suc fuel) none s = some s
move_freed (suc fuel) (some var) s = move_freed fuel (get_or s.links.next var none) (move_var var s)
