-- ===== src/Gc/Refers.antt =====
-- The vars that a var refers to, and the calls that gc_mark of mario/mario.c makes for it.
use mathlib.Core.List.{Memᴰ}
use mario_js.Prelude.{
  ℕ, zero, suc, ◌-◌, ◌≡◌, refl, ap, subst, sym, ◌∙◌, ◌↔◌, ◌⊎◌, inl, inr, List, [], ◌∷◌, ◌++◌, map,
  Option, none, some, arith,
}
use mario_js.HashMap.{hash_map_iterate}
use mario_js.Gc.{
  Pointer, Call, Heap, var_at, func_at, live_at, var_get_func, closure_calls, func_calls,
  child_call, calls_of, vm_closure_chain_max,
}
use mario_js.Gc.Paths.{Targets}

-- A function on the chain of captured functions that begins at a pointer, among so many of it.
pub data OnChain (heap : Heap) : ℕ → Option ℕ → ℕ → Type 0 where
  here : {rounds k : ℕ} → OnChain heap (suc rounds) (some k) k
  outer :
      {rounds k f : ℕ}
      → OnChain heap rounds (func_at heap k).closure_func f
      → OnChain heap (suc rounds) (some k) f

-- A live var is the value of a member of the var `i`, or where `i` is a function its home object, a scope
-- captured on its chain, or the var of a function around it.
pub data Refers (heap : Heap) (i j : ℕ) : Type 0 where
  member :
      (entry : List ℕ × Pointer)
      → Memᴰ entry (hash_map_iterate (var_at heap i).children)
      → live_at heap entry.1 ≡ some j
      → Refers heap i j
  home :
      {k : ℕ}
      → var_get_func (var_at heap i) ≡ some k
      → live_at heap (func_at heap k).owner ≡ some j
      → Refers heap i j
  captured :
      {k f : ℕ}
      → var_get_func (var_at heap i) ≡ some k
      → OnChain heap vm_closure_chain_max (some k) f
      → live_at heap (func_at heap f).closure_var ≡ some j
      → Refers heap i j
  around :
      {k f : ℕ}
      → var_get_func (var_at heap i) ≡ some k
      → OnChain heap vm_closure_chain_max (func_at heap k).closure_func f
      → live_at heap (func_at heap f).owner_var ≡ some j
      → Refers heap i j

module _ (heap : Heap) (j : ℕ) where
  calls-append :
      (cs ds : List Call) → Targets heap (cs ++ ds) j ↔ (Targets heap cs j ⊎ Targets heap ds j)
  unfolding Targets
  calls-append [] ds = (λ t. inr t, λ t. elim t [ inl h ↦ absurd h | inr h ↦ h ])
  calls-append (c ∷ cs) ds =
      let r = calls-append cs ds in
      (
        λ t. elim t [
          | inl h ↦ inl (inl h)
          | inr h ↦ elim (r.0 h) [ inl a ↦ inl (inr a) | inr b ↦ inr b ]
        ],
        λ t. elim t [
          | inl h ↦ elim h [ inl a ↦ inl a | inr a ↦ inr (r.1 (inl a)) ]
          | inr h ↦ inr (r.1 (inr h))
        ],
      )

  child-Targets :
      (entries : List (List ℕ × Pointer))
      → Targets heap (map child_call entries) j
      → (e : List ℕ × Pointer) × Memᴰ e entries × (live_at heap e.1 ≡ some j)
  unfolding Targets child_call
  child-Targets [] t = absurd t
  child-Targets (e ∷ entries) t = elim t [
    | inl h ↦ (e, Memᴰ.head refl, h)
    | inr h ↦ let r = child-Targets entries h in (r.0, Memᴰ.tail r.1, r.2)
  ]

  Targets-child :
      (entries : List (List ℕ × Pointer)) (e : List ℕ × Pointer)
      → Memᴰ e entries
      → live_at heap e.1 ≡ some j
      → Targets heap (map child_call entries) j
  unfolding Targets child_call
  Targets-child [] e m h = elim m [ ]
  Targets-child (x ∷ entries) e (Memᴰ.head same) h =
      inl (ap (λ (q : List ℕ × Pointer). live_at heap q.1) (sym same) ∙ h)
  Targets-child (x ∷ entries) e (Memᴰ.tail m) h = inr (Targets-child entries e m h)

  -- What the walk over the chain from `p` visits, when it begins with the scope `c`.
  Chained : ℕ → Pointer → Option ℕ → Type 0
  Chained rounds c p =
      (live_at heap c ≡ some j)
      ⊎ (((f : ℕ) × OnChain heap rounds p f × (live_at heap (func_at heap f).closure_var ≡ some j))
          ⊎ ((f : ℕ) × OnChain heap (suc rounds) p f
              × (live_at heap (func_at heap f).owner_var ≡ some j)))

  chain-Targets :
      (rounds : ℕ) (c : Pointer) (p : Option ℕ)
      → Targets heap (closure_calls heap (suc rounds) c p) j
      → Chained rounds c p
  unfolding Targets Chained closure_calls
  chain-Targets rounds none none t = absurd t
  chain-Targets rounds (some c) none t = elim t [ inl h ↦ inl h | inr h ↦ absurd h ]
  chain-Targets zero c (some k) t = elim t [
    | inl h ↦ inl h
    | inr h ↦ elim h [ inl a ↦ inr (inr (k, OnChain.here, a)) | inr a ↦ absurd a ]
  ]
  chain-Targets (suc rounds) c (some k) t = elim t [
    | inl h ↦ inl h
    | inr h ↦ elim h [
      | inl a ↦ inr (inr (k, OnChain.here, a))
      | inr a ↦
          elim (chain-Targets rounds (func_at heap k).closure_var (func_at heap k).closure_func a) [
            | inl b ↦ inr (inl (k, OnChain.here, b))
            | inr b ↦ elim b [
              | inl (f, on, live) ↦ inr (inl (f, OnChain.outer on, live))
              | inr (f, on, live) ↦ inr (inr (f, OnChain.outer on, live))
            ]
          ]
    ]
  ]

  scope-Targets :
      (rounds : ℕ) (c : Pointer) (p : Option ℕ)
      → live_at heap c ≡ some j
      → Targets heap (closure_calls heap (suc rounds) c p) j
  unfolding Targets closure_calls live_at
  scope-Targets rounds none none h = absurd (ground (arith, h))
  scope-Targets rounds (some c) none h = inl h
  scope-Targets rounds c (some k) h = inl h

  around-Targets :
      (rounds : ℕ) (c : Pointer) (p : Option ℕ) (f : ℕ)
      → OnChain heap (suc rounds) p f
      → live_at heap (func_at heap f).owner_var ≡ some j
      → Targets heap (closure_calls heap (suc rounds) c p) j
  unfolding Targets closure_calls
  around-Targets rounds c none f on h = elim on [ ]
  around-Targets rounds c (some k) f OnChain.here h = inr (inl h)
  around-Targets zero c (some k) f (OnChain.outer on) h = elim on [ ]
  around-Targets (suc rounds) c (some k) f (OnChain.outer on) h = inr (
      inr (around-Targets rounds (func_at heap k).closure_var (func_at heap k).closure_func f on h))

  captured-Targets :
      (rounds : ℕ) (c : Pointer) (p : Option ℕ) (f : ℕ)
      → OnChain heap rounds p f
      → live_at heap (func_at heap f).closure_var ≡ some j
      → Targets heap (closure_calls heap (suc rounds) c p) j
  unfolding Targets closure_calls
  captured-Targets zero c p f on h = elim on [ ]
  captured-Targets (suc rounds) c none f on h = elim on [ ]
  captured-Targets (suc rounds) c (some k) f OnChain.here h =
      inr (inr (scope-Targets rounds (func_at heap k).closure_var (func_at heap k).closure_func h))
  captured-Targets (suc rounds) c (some k) f (OnChain.outer on) h = inr (
      inr
        (captured-Targets rounds (func_at heap k).closure_var (func_at heap k).closure_func f on h))

  chain-Refers :
      (i k : ℕ)
      → var_get_func (var_at heap i) ≡ some k
      → Chained
          (vm_closure_chain_max - 1)
          (func_at heap k).closure_var
          (func_at heap k).closure_func
      → Refers heap i j
  unfolding Chained
  chain-Refers i k e t = elim t [
    | inl h ↦ Refers.captured e OnChain.here h
    | inr h ↦ elim h [
      | inl (f, on, live) ↦ Refers.captured e (OnChain.outer on) live
      | inr (f, on, live) ↦ Refers.around e on live
    ]
  ]

  func-Refers :
      (i : ℕ) (o : Option ℕ)
      → var_get_func (var_at heap i) ≡ o
      → Targets heap (func_calls heap o) j
      → Refers heap i j
  unfolding Targets func_calls
  func-Refers i none e t = absurd t
  func-Refers i (some k) e t = elim t [
    | inl h ↦ Refers.home e h
    | inr h ↦ chain-Refers i k e (
        chain-Targets (vm_closure_chain_max - 1) (func_at heap k).closure_var
          (func_at heap k).closure_func h)
  ]

  into_scope :
      (k f : ℕ)
      → OnChain heap vm_closure_chain_max (some k) f
      → live_at heap (func_at heap f).closure_var ≡ some j
      → Targets heap
          (closure_calls heap vm_closure_chain_max
            (func_at heap k).closure_var
            (func_at heap k).closure_func)
          j
  into_scope k f OnChain.here live =
      scope-Targets (vm_closure_chain_max - 1) (func_at heap f).closure_var
        (func_at heap f).closure_func live
  into_scope k f (OnChain.outer on) live =
      captured-Targets (vm_closure_chain_max - 1) (func_at heap k).closure_var
        (func_at heap k).closure_func f on live

  func-Targets :
      (i k : ℕ)
      → var_get_func (var_at heap i) ≡ some k
      → Targets heap (func_calls heap (some k)) j
      → Targets heap (calls_of heap i) j
  unfolding calls_of
  func-Targets i k e t =
      (calls-append (map child_call (hash_map_iterate (var_at heap i).children))
          (func_calls heap (var_get_func (var_at heap i)))).1
        (inr (subst (λ o. Targets heap (func_calls heap o) j) (sym e) t))

  Refers-Targets : (i : ℕ) → Refers heap i j → Targets heap (calls_of heap i) j
  unfolding calls_of func_calls Targets
  Refers-Targets i (Refers.member entry m live) =
      (calls-append (map child_call (hash_map_iterate (var_at heap i).children))
          (func_calls heap (var_get_func (var_at heap i)))).1
        (inl (Targets-child (hash_map_iterate (var_at heap i).children) entry m live))
  Refers-Targets i (Refers.home {k = k} e live) = func-Targets i k e (inl live)
  Refers-Targets i (Refers.captured {k = k} {f = f} e on live) =
      func-Targets i k e (inr (into_scope k f on live))
  Refers-Targets i (Refers.around {k = k} {f = f} e on live) = func-Targets i k e (
      inr (
        around-Targets (vm_closure_chain_max - 1) (func_at heap k).closure_var
          (func_at heap k).closure_func f on live))

-- The live vars that gc_mark calls itself for at a var are just those that the var refers to.
pub calls_of-Refers : (heap : Heap) (i j : ℕ) → Targets heap (calls_of heap i) j ↔ Refers heap i j
unfolding calls_of
calls_of-Refers heap i j =
    let v = var_at heap i in
    let split =
      calls-append heap j (map child_call (hash_map_iterate v.children))
        (func_calls heap (var_get_func v)) in
    (
      λ t. elim (split.0 t) [
        | inl h ↦
            let (e, m, live) = child-Targets heap j (hash_map_iterate v.children) h in
            Refers.member e m live
        | inr h ↦ func-Refers heap j i (var_get_func v) refl h
      ],
      Refers-Targets heap j i,
    )
