-- ===== src/Gc/Paths.antt =====
-- The graph of the vars that gc_mark of mario/mario.c walks.
use mario_js.Prelude.{
  ℕ, zero, suc, ◌≤◌, ◌<◌, ◌≡◌, refl, sym, ap, subst, ◌∙◌, ◌⊎◌, inl, inr, Bool, true, false, List,
  [], ◌∷◌, ◌++◌, map, length, get_or, if◌then◌else◌, ltb, Bool-cases, none, some, arith,
}
use mario_js.Gc.{Var, Pointer, plain_call, Call, Heap, no_var, var_at, var_empty, live_at, calls_of}

-- The live vars that the calls are for.
unfoldable pub Targets : Heap → List Call → ℕ → Type 0
Targets heap [] j = ⊥
Targets heap (c ∷ cs) j = (live_at heap c.1 ≡ some j) ⊎ Targets heap cs j

-- The live vars that a chain of calls leads to.
pub data Reach (heap : Heap) (cs : List Call) : ℕ → Type 0 where
  root : {j : ℕ} → Targets heap cs j → Reach heap cs j
  step : {i j : ℕ} → Reach heap cs i → Targets heap (calls_of heap i) j → Reach heap cs j

-- The live vars that a chain of calls leads to through free vars only.
pub data FreeReach (heap : Heap) (free : ℕ → Type 0) (cs : List Call) : ℕ → Type 0 where
  root : {j : ℕ} → Targets heap cs j → free j → FreeReach heap free cs j
  step :
      {i j : ℕ}
      → FreeReach heap free cs i
      → Targets heap (calls_of heap i) j
      → free j
      → FreeReach heap free cs j

module _ (heap : Heap) (free : ℕ → Type 0) (cs : List Call) where
  pub FreeReach-Reach : (k : ℕ) → FreeReach heap free cs k → Reach heap cs k
  FreeReach-Reach k (FreeReach.root t h) = Reach.root t
  FreeReach-Reach k (FreeReach.step {i = i} s t h) = Reach.step (FreeReach-Reach i s) t

  -- A chain behind a var is one from where that var is reached.
  pub FreeReach-under :
      (wider : ℕ → Type 0)
      → ((j : ℕ) → wider j → free j)
      → (i : ℕ) → FreeReach heap free cs i
      → (k : ℕ) → FreeReach heap wider (calls_of heap i) k
      → FreeReach heap free cs k
  FreeReach-under wider f i r k (FreeReach.root t h) = FreeReach.step r t (f k h)
  FreeReach-under wider f i r k (FreeReach.step {i = j} s t h) =
      FreeReach.step (FreeReach-under wider f i r j s) t (f k h)

  pub FreeReach-map :
      (ds : List Call) (wider : ℕ → Type 0)
      → ((j : ℕ) → Targets heap cs j → Targets heap ds j)
      → ((j : ℕ) → free j → wider j)
      → (k : ℕ) → FreeReach heap free cs k
      → FreeReach heap wider ds k
  FreeReach-map ds wider f g k (FreeReach.root t h) = FreeReach.root (f k t) (g k h)
  FreeReach-map ds wider f g k (FreeReach.step {i = i} s t h) =
      FreeReach.step (FreeReach-map ds wider f g i s) t (g k h)

get_or-past : (xs : List Var) (i : ℕ) (d : Var) → length xs ≤ i → get_or xs i d ≡ d
get_or-past [] i d h = refl
get_or-past (x ∷ xs) zero d h = absurd (omega arith)
get_or-past (x ∷ xs) (suc i) d h = get_or-past xs i d (omega arith)

pick_some : (b : Bool) (k i : ℕ) → (if b then none else some k) ≡ some i → (b ≡ false) × (k ≡ i)
pick_some true k i e = absurd (ground (arith, e))
pick_some false k i e = (refl, ground (arith, e))

pub live_at_lem :
    (heap : Heap) (p : Pointer) (i : ℕ)
    → live_at heap p ≡ some i
    → (p ≡ some i) × (var_empty (var_at heap i) ≡ false)
unfolding live_at
live_at_lem heap none i e = absurd (ground (arith, e))
live_at_lem heap (some k) i e =
    let h = pick_some (var_empty (var_at heap k)) k i e in
    (ap some h.1, subst (λ t. var_empty (var_at heap t) ≡ false) h.1 h.0)

-- The index of a live var is within the heap.
pub live_at-lt :
    (heap : Heap) (p : Pointer) (i : ℕ) → live_at heap p ≡ some i → i < length heap.vars
unfolding var_at var_empty no_var
live_at-lt heap p i e = elim (Bool-cases (ltb i (length heap.vars))) [
  | inl lt ↦ ground arith
  | inr ge ↦
      let past = get_or-past heap.vars i no_var (ground arith) in
      let live = (live_at_lem heap p i e).1 in
      let f : true ≡ false = ap var_empty (sym past) ∙ live in absurd (ground (arith, f))
]

module _ (heap : Heap) (j : ℕ) where
  pub Targets-left :
      (ps qs : List Pointer)
      → Targets heap (map plain_call ps) j
      → Targets heap (map plain_call (ps ++ qs)) j
  unfolding Targets
  Targets-left [] qs t = absurd t
  Targets-left (p ∷ ps) qs t = elim t [ inl h ↦ inl h | inr h ↦ inr (Targets-left ps qs h) ]

  pub Targets-right :
      (ps qs : List Pointer)
      → Targets heap (map plain_call qs) j
      → Targets heap (map plain_call (ps ++ qs)) j
  unfolding Targets
  Targets-right [] qs t = t
  Targets-right (p ∷ ps) qs t = inr (Targets-right ps qs t)

  pub Targets-append :
      (ps qs : List Pointer)
      → Targets heap (map plain_call (ps ++ qs)) j
      → Targets heap (map plain_call ps) j ⊎ Targets heap (map plain_call qs) j
  unfolding Targets
  Targets-append [] qs t = inr t
  Targets-append (p ∷ ps) qs t = elim t [
    | inl h ↦ inl (inl h)
    | inr h ↦ elim (Targets-append ps qs h) [ inl f ↦ inl (inr f) | inr f ↦ inr f ]
  ]
