-- ===== src/Gc/Weak/Ops.antt =====
-- Sequences of operations on the registry of weak references of mario/mario.c.
use mario_js.Prelude.{ℕ, List, [], ◌∷◌, ◌++◌, ◌||◌}
use mario_js.Gc.{Pointer}
use mario_js.Gc.Weak.{
  Weak, Effect, quiet, vm_weak_add_ref, vm_weak_remove_ref, vm_weak_add_finalizer,
  vm_weak_unregister, vm_weak_remove_registry, vm_weak_target_dying, weak_registry_free,
}

pub data WeakOp : Type 0 where
  add_ref : ℕ → ℕ → WeakOp
  remove_ref : ℕ → WeakOp
  add_finalizer : Pointer → ℕ → ℕ → Pointer → Pointer → WeakOp
  unregister : ℕ → ℕ → WeakOp
  remove_registry : ℕ → WeakOp
  target_dying : ℕ → WeakOp
  registry_free : WeakOp

unfoldable pub weak_step : WeakOp → Weak → Effect
unfolding vm_weak_add_ref vm_weak_remove_ref vm_weak_add_finalizer vm_weak_unregister
    vm_weak_remove_registry vm_weak_target_dying weak_registry_free
weak_step (add_ref target weakref) weak = vm_weak_add_ref target weakref weak
weak_step (remove_ref weakref) weak = vm_weak_remove_ref weakref weak
weak_step (add_finalizer registry target callback held token) weak =
    vm_weak_add_finalizer registry target callback held token weak
weak_step (unregister registry token) weak = vm_weak_unregister registry token weak
weak_step (remove_registry registry) weak = vm_weak_remove_registry registry weak
weak_step (target_dying target) weak = vm_weak_target_dying target weak
weak_step registry_free weak = weak_registry_free weak

-- The second of two effects, with what the first did before it.
abbrev pub behind : Effect → Effect → Effect
behind first second = record {
  weak = second.weak;
  refs = first.refs ++ second.refs;
  unrefs = first.unrefs ++ second.unrefs;
  cleared = first.cleared ++ second.cleared;
  removed = first.removed || second.removed;
}

unfoldable pub weak_run : List WeakOp → Weak → Effect
unfolding weak_step
weak_run [] weak = quiet weak
weak_run (op ∷ ops) weak = let first = weak_step op weak in behind first (weak_run ops first.weak)
