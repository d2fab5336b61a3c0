-- ===== src/Gc/Reachable.antt =====
-- The roots of the garbage collector of mario/mario.c, kind by kind, and the vars that the program can reach
-- from them.
pub mod Kinds
pub mod Visited
pub mod Routes
use mathlib.Core.List.{Memᴰ}
use mario_js.Prelude.{
  ℕ, ◌≡◌, refl, ap, subst, sym, ◌∙◌, ◌↔◌, ◌≢◌, ◌⊎◌, inl, inr, Bool, true, false, Bool-cases, List,
  [], ◌∷◌, ◌++◌, map, take, ◌==◌, if◌then◌else◌, some, none, arith,
}
use mario_js.Gc.{Pointer, Heap, live_at, plain_call, calls_of}
use mario_js.Gc.Roots.{
  GcVm, StackSlot, null_slot, var_slot, node_slot, Scope, PendingSave, gc_mark_stack, gc_mark_cache,
  gc_mark_scopes, saved_values, gc_mark_wanchor_pool, first_roots, last_roots, pending_roots,
  mark_roots, unmark_roots,
}
use mario_js.Gc.Weak.{WeakCell, registered_values, finalizer_values, gc_mark_weak}
use mario_js.Gc.Paths.{Targets, FreeReach}
use mario_js.Gc.Refers.{Refers, calls_of-Refers}

-- What the VM holds on to at all times: the root object, the vars and the nodes' vars on the stack, the
-- cached constants in use, the vars and functions of the scopes, the vars that native code protects, the
-- shared `true`, `false` and `null`, what the registered and the pending finalizers are to be called with,
-- and the anchors.
pub data FixedRoot (vm : GcVm) (p : Pointer) : Type 0 where
  root_object : p ≡ vm.root → FixedRoot vm p
  stack_var : {v : ℕ} → Memᴰ (var_slot v) vm.stack → p ≡ some v → FixedRoot vm p
  stack_node : Memᴰ (node_slot p) vm.stack → FixedRoot vm p
  cached : vm.cache_size ≢ 0 → Memᴰ p (take vm.cache_used vm.cache) → FixedRoot vm p
  scope_var : {sc : Scope} → Memᴰ (some sc) vm.scopes → p ≡ sc.scope_var → FixedRoot vm p
  scope_func : {sc : Scope} → Memᴰ (some sc) vm.scopes → p ≡ sc.func_var → FixedRoot vm p
  c_root : Memᴰ p vm.c_roots → FixedRoot vm p
  shared_true : p ≡ vm.var_true → FixedRoot vm p
  shared_false : p ≡ vm.var_false → FixedRoot vm p
  shared_null : p ≡ vm.var_null → FixedRoot vm p
  held :
      {c : WeakCell}
      → Memᴰ c vm.weak.weak_cells
      → c.is_fr ≡ true
      → (p ≡ c.held) ⊎ (p ≡ c.callback)
      → FixedRoot vm p
  finalizer :
      {c : WeakCell}
      → Memᴰ c vm.weak.pending_finalizers
      → (p ≡ c.held) ⊎ (p ≡ c.callback)
      → FixedRoot vm p
  anchor : Memᴰ p vm.wanchor_pool → FixedRoot vm p
  anchor_nil : p ≡ vm.wanchor_nil → FixedRoot vm p

-- The values of the transfers saved before the first bad link.
pub data Saved (p : Pointer) : List PendingSave → Type 0 where
  now :
      {ps : PendingSave} {saves : List PendingSave}
      → ps.bad ≡ false
      → p ≡ ps.saved_value
      → Saved p (ps ∷ saves)
  later :
      {ps : PendingSave} {saves : List PendingSave}
      → ps.bad ≡ false
      → Saved p saves
      → Saved p (ps ∷ saves)

-- What a deferred transfer of control holds on to.
pub data DeferredRoot (vm : GcVm) (p : Pointer) : Type 0 where
  parked : p ≡ vm.pending_value → DeferredRoot vm p
  saved : Saved p vm.pending_saves → DeferredRoot vm p

abbrev pub IsRoot : GcVm → Pointer → Type 0
IsRoot vm p = FixedRoot vm p ⊎ DeferredRoot vm p

-- The live vars that such roots lead to by the references of vars, through vars of a kind only.
pub data Leads (heap : Heap) (roots : Pointer → Type 0) (free : ℕ → Type 0) : ℕ → Type 0 where
  from_root :
      {p : Pointer} {j : ℕ} → roots p → live_at heap p ≡ some j → free j → Leads heap roots free j
  along : {i j : ℕ} → Leads heap roots free i → Refers heap i j → free j → Leads heap roots free j

abbrev pub Any : ℕ → Type 0
Any i = i ≡ i

-- The vars that the program can reach.
abbrev pub Reachable : Heap → GcVm → ℕ → Type 0
Reachable heap vm = Leads heap (IsRoot vm) Any

-- Members of lists that are put together.
pub Mem-left : {A : Type 0} (x : A) (xs ys : List A) → Memᴰ x xs → Memᴰ x (xs ++ ys)
Mem-left x [] ys m = elim m [ ]
Mem-left x (y ∷ xs) ys (Memᴰ.head e) = Memᴰ.head e
Mem-left x (y ∷ xs) ys (Memᴰ.tail m) = Memᴰ.tail (Mem-left x xs ys m)

pub Mem-right : {A : Type 0} (x : A) (xs ys : List A) → Memᴰ x ys → Memᴰ x (xs ++ ys)
Mem-right x [] ys m = m
Mem-right x (y ∷ xs) ys m = Memᴰ.tail (Mem-right x xs ys m)

pub Mem-split : {A : Type 0} (x : A) (xs ys : List A) → Memᴰ x (xs ++ ys) → Memᴰ x xs ⊎ Memᴰ x ys
Mem-split x [] ys m = inr m
Mem-split x (y ∷ xs) ys (Memᴰ.head e) = inl (Memᴰ.head e)
Mem-split x (y ∷ xs) ys (Memᴰ.tail m) = elim (Mem-split x xs ys m) [
  | inl h ↦ inl (Memᴰ.tail h)
  | inr h ↦ inr h
]

-- A list that is put together from one for each of some things.
module _ {A B : Type 0} (f : A → List B) (g : List A → List B) (ends : g [] ≡ [])
    (flat : (x : A) (xs : List A) → g (x ∷ xs) ≡ f x ++ g xs) (p : B) where
  pub Mem-flat : (xs : List A) → Memᴰ p (g xs) → (x : A) × Memᴰ x xs × Memᴰ p (f x)
  Mem-flat [] m = elim (subst (Memᴰ p) ends m) [ ]
  Mem-flat (x ∷ xs) m = elim (Mem-split p (f x) (g xs) (subst (Memᴰ p) (flat x xs) m)) [
    | inl h ↦ (x, Memᴰ.head refl, h)
    | inr h ↦ let r = Mem-flat xs h in (r.0, Memᴰ.tail (r.1), r.2)
  ]

  pub flat-Mem : (xs : List A) (x : A) → Memᴰ x xs → Memᴰ p (f x) → Memᴰ p (g xs)
  flat-Mem [] x m h = elim m [ ]
  flat-Mem (y ∷ xs) x (Memᴰ.head e) h =
      subst (Memᴰ p) (sym (flat y xs)) (Mem-left p (f y) (g xs) (subst (λ z. Memᴰ p (f z)) e h))
  flat-Mem (y ∷ xs) x (Memᴰ.tail m) h =
      subst (Memᴰ p) (sym (flat y xs)) (Mem-right p (f y) (g xs) (flat-Mem xs x m h))

pub one_Mem : {A : Type 0} (x y : A) → Memᴰ x (y ∷ []) → x ≡ y
one_Mem x y (Memᴰ.head e) = e
one_Mem x y (Memᴰ.tail m) = elim m [ ]

pub two_Mem : {A : Type 0} (x y z : A) → Memᴰ x (y ∷ z ∷ []) → (x ≡ y) ⊎ (x ≡ z)
two_Mem x y z (Memᴰ.head e) = inl e
two_Mem x y z (Memᴰ.tail m) = inr (one_Mem x z m)

pub Mem_two : {A : Type 0} (x y z : A) → (x ≡ y) ⊎ (x ≡ z) → Memᴰ x (y ∷ z ∷ [])
Mem_two x y z (inl e) = Memᴰ.head e
Mem_two x y z (inr e) = Memᴰ.tail (Memᴰ.head e)
