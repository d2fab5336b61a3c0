-- ===== src/Gc/Weak.antt =====
-- The registry of weak references and finalizers of mario/mario.c (weak_cell_t and the operations
-- vm_weak_...).
--
-- A var is its index. What an operation does outside of the registry is kept in its effect: the vars
-- that it passes to var_ref and to var_unref and the WeakRef vars whose value it sets to NULL, in their
-- order. var_unref can tear a var down and so call the registry again: the cells are unlinked by then,
-- and the calls that it makes are further operations. The operations return at once where an argument
-- that must not be NULL is NULL; here such an argument is a var.
pub mod Ops
pub mod Balance
pub mod Silent
pub mod Dying
use mario_js.Prelude.{
  ℕ, zero, Bool, true, false, not, ◌&&◌, List, [], ◌∷◌, ◌++◌, ◌==◌, if◌then◌else◌, Option, none,
  some,
}
use mario_js.Gc.{Pointer}

pub record WeakCell : Type 0 where
  pub is_fr : Bool
  pub target : ℕ
  pub weakref : Pointer
  pub registry : Pointer
  pub callback : Pointer
  pub held : Pointer
  pub token : Pointer

pub record Weak : Type 0 where
  pub weak_cells : List WeakCell
  pub pending_finalizers : List WeakCell

pub record Effect : Type 0 where
  pub weak : Weak
  pub refs : List ℕ
  pub unrefs : List ℕ
  pub cleared : List ℕ
  pub removed : Bool

unfoldable pub same_pointer : Pointer → Pointer → Bool
same_pointer none none = true
same_pointer none (some b) = false
same_pointer (some a) none = false
same_pointer (some a) (some b) = a == b

-- The var that a pointer names, if it is not NULL.
abbrev pub given : Pointer → List ℕ
given none = []
given (some v) = v ∷ []

unfoldable pub weak_cell_free : WeakCell → List ℕ
weak_cell_free c = if c.is_fr then given c.held ++ given c.callback else []

unfoldable pub free_all : List WeakCell → List ℕ
unfolding weak_cell_free
free_all [] = []
free_all (c ∷ cells) = weak_cell_free c ++ free_all cells

-- Unlinks the cells with a property, and pushes them on another list.
unfoldable pub take_out :
    (WeakCell → Bool) → List WeakCell → List WeakCell → List WeakCell × List WeakCell
take_out test [] out = ([], out)
take_out test (c ∷ cells) out =
    let rest = take_out test cells (if test c then c ∷ out else out) in
    (if test c then rest.0 else c ∷ rest.0, rest.1)

abbrev pub quiet : Weak → Effect
quiet weak = record { weak = weak; refs = []; unrefs = []; cleared = []; removed = false }

-- The cells that weak_cell_new makes, as the operations fill them.
abbrev pub weakref_cell : ℕ → ℕ → WeakCell
weakref_cell target weakref = record {
  is_fr = false;
  target = target;
  weakref = some weakref;
  registry = none;
  callback = none;
  held = none;
  token = none;
}

abbrev pub finalizer_cell : Pointer → ℕ → ℕ → Pointer → Pointer → WeakCell
finalizer_cell registry target callback held token = record {
  is_fr = true;
  target = target;
  weakref = none;
  registry = registry;
  callback = some callback;
  held = held;
  token = token;
}

unfoldable pub vm_weak_add_ref : ℕ → ℕ → Weak → Effect
vm_weak_add_ref target weakref weak =
    quiet (record weak { weak_cells = weakref_cell target weakref ∷ weak.weak_cells })

unfoldable pub observed_by : ℕ → WeakCell → Bool
unfolding same_pointer
observed_by weakref c = not c.is_fr && same_pointer c.weakref (some weakref)

unfoldable pub vm_weak_remove_ref : ℕ → Weak → Effect
unfolding take_out observed_by free_all
vm_weak_remove_ref weakref weak =
    let r = take_out (observed_by weakref) weak.weak_cells [] in
    record (quiet (record weak { weak_cells = r.0 })) { unrefs = free_all r.1 }

unfoldable pub vm_weak_add_finalizer : Pointer → ℕ → ℕ → Pointer → Pointer → Weak → Effect
vm_weak_add_finalizer registry target callback held token weak =
    let c = finalizer_cell registry target callback held token in
    record (quiet (record weak { weak_cells = c ∷ weak.weak_cells })) {
      refs = callback ∷ given held;
    }

unfoldable pub registered_with : ℕ → ℕ → WeakCell → Bool
unfolding same_pointer
registered_with registry token c =
    c.is_fr && same_pointer c.registry (some registry) && same_pointer c.token (some token)

unfoldable pub is_nonempty : List WeakCell → Bool
is_nonempty [] = false
is_nonempty (c ∷ cells) = true

unfoldable pub vm_weak_unregister : ℕ → ℕ → Weak → Effect
unfolding take_out registered_with free_all is_nonempty
vm_weak_unregister registry token weak =
    let r = take_out (registered_with registry token) weak.weak_cells [] in
    record (quiet (record weak { weak_cells = r.0 })) {
      unrefs = free_all r.1;
      removed = is_nonempty r.1;
    }

unfoldable pub owned_by : ℕ → WeakCell → Bool
unfolding same_pointer
owned_by registry c = c.is_fr && same_pointer c.registry (some registry)

unfoldable pub vm_weak_remove_registry : ℕ → Weak → Effect
unfolding take_out owned_by free_all
vm_weak_remove_registry registry weak =
    let r = take_out (owned_by registry) weak.weak_cells [] in
    record (quiet (record weak { weak_cells = r.0 })) { unrefs = free_all r.1 }

-- The walk of vm_weak_target_dying: the cells that stay, the pending ones and the WeakRef vars cleared.
unfoldable pub dying_walk :
    ℕ → List WeakCell → List WeakCell → List WeakCell × List WeakCell × List ℕ
dying_walk target [] pending = ([], pending, [])
dying_walk target (c ∷ cells) pending =
    let dies = c.target == target in
    let rest = dying_walk target cells (if dies && c.is_fr then c ∷ pending else pending) in
    (
      if dies then rest.0 else c ∷ rest.0,
      rest.1,
      if dies && not c.is_fr then given c.weakref ++ rest.2 else rest.2,
    )

unfoldable pub vm_weak_target_dying : ℕ → Weak → Effect
unfolding dying_walk
vm_weak_target_dying target weak =
    let r = dying_walk target weak.weak_cells weak.pending_finalizers in
    record (quiet (record { weak_cells = r.0; pending_finalizers = r.1 })) { cleared = r.2 }

unfoldable pub weak_registry_free : Weak → Effect
unfolding free_all
weak_registry_free weak = record (quiet (record { weak_cells = []; pending_finalizers = [] })) {
  unrefs = free_all weak.weak_cells ++ free_all weak.pending_finalizers;
}

-- The marking visits the held values and the callbacks of both lists.
unfoldable pub registered_values : List WeakCell → List Pointer
registered_values [] = []
registered_values (c ∷ cells) =
    let rest = registered_values cells in if c.is_fr then c.held ∷ c.callback ∷ rest else rest

unfoldable pub finalizer_values : List WeakCell → List Pointer
finalizer_values [] = []
finalizer_values (c ∷ cells) = c.held ∷ c.callback ∷ finalizer_values cells

unfoldable pub gc_mark_weak : Weak → List Pointer
unfolding registered_values finalizer_values
gc_mark_weak weak = registered_values weak.weak_cells ++ finalizer_values weak.pending_finalizers
