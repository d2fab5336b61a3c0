-- ===== src/Gc/Collect.antt =====
-- The two marking phases of gc_vars (mario/mario.c), and the test of its sweep.
use mario_js.Prelude.{
  ℕ, ◌<◌, ◌≡◌, refl, sym, ◌∙◌, ◌↔◌, inl, inr, Bool, true, false, not, List, map, length, get_or,
  Bool-cases, some, arith,
}
use mario_js.Gc.{Pointer, Call, Heap, Marks, v_st_gc, var_at, plain_call, mark_each, gc_mark}
use mario_js.Gc.Roots.{GcVm, mark_roots, mark_phase, is_swept}
use mario_js.Gc.Count.{undone-length}
use mario_js.Gc.Paths.{Reach, FreeReach, FreeReach-Reach}
use mario_js.Gc.Reachable.{IsRoot, Any, Reachable}
use mario_js.Gc.Reachable.Kinds.{mark_IsRoot}
use mario_js.Gc.Reachable.Visited.{IsRoot_mark}
use mario_js.Gc.Reachable.Routes.{FreeReach-Leads, Leads-FreeReach}
use mario_js.Gc.Walk.{Undone, Ready, Walk, mark_each-Ends}
use mario_js.Gc.Visit.{gc_mark-Ends}

-- The flags have one place for each var, and no walk is under way.
pub record Idle (heap : Heap) (marks : Marks) : Type 0 where
  pub marked_places : length marks.marked ≡ length heap.vars
  pub marking_places : length marks.marking ≡ length heap.vars
  pub not_marking : (i : ℕ) → get_or marks.marking i false ≡ false

abbrev pub Unmarked : Marks → Type 0
Unmarked marks = (i : ℕ) → get_or marks.marked i false ≡ false

-- The live vars that the roots of a phase lead to.
abbrev pub ReachFrom : Heap → List Pointer → ℕ → Type 0
ReachFrom heap roots i = Reach heap (map plain_call roots) i

Idle-Ready : (heap : Heap) (mark : Bool) (m : Marks) → Idle heap m → Ready heap mark m
Idle-Ready heap mark m idle =
    let a = idle.marked_places in
    let b = idle.marking_places in
    (
      (omega (arith, a), omega (arith, b)),
      λ i f. let n = idle.not_marking i in absurd (ground (arith, f, n)),
    )

Walk-Idle :
    (heap : Heap) (mark : Bool) (cs : List Call) (m m' : Marks)
    → Idle heap m
    → Walk heap mark cs m m'
    → Idle heap m'
Walk-Idle heap mark cs m m' idle w = record {
  marked_places = w.same_length.0 ∙ idle.marked_places;
  marking_places = w.same_length.1 ∙ idle.marking_places;
  not_marking = λ i. elim (Bool-cases (get_or m'.marking i false)) [
    | inl e ↦ absurd (let n = idle.not_marking i in let f = w.flags i e in ground (arith, f, n))
    | inr e ↦ e
  ];
}

pub not_itself : (a : Bool) → a ≡ not a → ⊥
not_itself true e = ground (arith, e)
not_itself false e = ground (arith, e)

-- A walk sets the flag of each var that it can reach, if it finds none of them set.
pub Walk-complete :
    (heap : Heap) (mark : Bool) (cs : List Call) (m m' : Marks)
    → Walk heap mark cs m m'
    → ((i : ℕ) → Reach heap cs i → get_or m.marked i false ≡ not mark)
    → (i : ℕ) → Reach heap cs i
    → get_or m'.marked i false ≡ mark
Walk-complete heap mark cs m m' w fresh i (Reach.root t) = w.heads i t
Walk-complete heap mark cs m m' w fresh i (Reach.step {i = k} s t) =
    elim (w.closed k (Walk-complete heap mark cs m m' w fresh k s)) [
      | inl e ↦ absurd (not_itself mark (sym e ∙ fresh k s))
      | inr f ↦ f i t
    ]

pub phase-Ends :
    (heap : Heap) (mark : Bool) (fuel : ℕ) (roots : List Pointer) (m : Marks)
    → Idle heap m
    → length heap.vars < fuel
    → (m' : Marks) × (mark_each (gc_mark heap mark fuel) (map plain_call roots) (some m) ≡ some m')
      × Walk heap mark (map plain_call roots) m m'
      × Idle heap m'
phase-Ends heap mark fuel roots m idle lt =
    let bound = undone-length mark m.marked in
    let places = idle.marked_places in
    let r =
      mark_each-Ends heap mark fuel (gc_mark heap mark fuel) (gc_mark-Ends heap mark fuel)
        (map plain_call roots) m (Idle-Ready heap mark m idle) (omega (arith, bound, places, lt)) in
    (r.0, r.1, r.2, Walk-Idle heap mark (map plain_call roots) m (r.0) idle (r.2))

-- From flags that are clear, the marking phase ends, and it has then flagged just the live vars that
-- the roots lead to; enough fuel is one more than the number of the vars.
pub mark_phase-Reach :
    (heap : Heap) (fuel : ℕ) (vm : GcVm) (m : Marks)
    → Idle heap m
    → Unmarked m
    → length heap.vars < fuel
    → (m' : Marks) × (mark_phase heap fuel vm m ≡ some m')
      × Idle heap m'
      × ((i : ℕ) → (get_or m'.marked i false ≡ true) ↔ ReachFrom heap (mark_roots vm) i)
unfolding mark_phase
mark_phase-Reach heap fuel vm m idle clear lt =
    let r = phase-Ends heap true fuel (mark_roots vm) m idle lt in
    let w = r.2 in
    (
      r.0,
      r.1,
      r.3,
      λ i. (
        λ e. elim (w.sound i e) [
          | inl d ↦ let n = clear i in absurd (ground (arith, d, n))
          | inr p ↦ FreeReach-Reach heap (Undone true m) (map plain_call (mark_roots vm)) i p
        ],
        Walk-complete heap true (map plain_call (mark_roots vm)) m (r.0) w (λ k p. clear k) i,
      ),
    )

Reach-FreeReach : (heap : Heap) (cs : List Call) (i : ℕ) → Reach heap cs i → FreeReach heap Any cs i
Reach-FreeReach heap cs i (Reach.root t) = FreeReach.root t refl
Reach-FreeReach heap cs i (Reach.step {i = k} s t) =
    FreeReach.step (Reach-FreeReach heap cs k s) t refl

-- The vars that the roots lead to are those that the program can reach.
ReachFrom-Reachable :
    (heap : Heap) (vm : GcVm) (i : ℕ) → ReachFrom heap (mark_roots vm) i ↔ Reachable heap vm i
ReachFrom-Reachable heap vm i = (
  λ r.
      FreeReach-Leads heap (mark_roots vm) (IsRoot vm) Any (λ p. mark_IsRoot p vm) i
        (Reach-FreeReach heap (map plain_call (mark_roots vm)) i r),
  λ l.
      FreeReach-Reach heap Any (map plain_call (mark_roots vm)) i
        (Leads-FreeReach heap (mark_roots vm) (IsRoot vm) Any (λ p. IsRoot_mark p vm) i l),
)

pub mark_phase-Reachable :
    (heap : Heap) (fuel : ℕ) (vm : GcVm) (m : Marks)
    → Idle heap m
    → Unmarked m
    → length heap.vars < fuel
    → (m' : Marks) × (mark_phase heap fuel vm m ≡ some m')
      × Idle heap m'
      × ((i : ℕ) → (get_or m'.marked i false ≡ true) ↔ Reachable heap vm i)
mark_phase-Reachable heap fuel vm m idle clear lt =
    let r = mark_phase-Reach heap fuel vm m idle clear lt in
    (
      r.0,
      r.1,
      r.2,
      λ i. (
        λ e. (ReachFrom-Reachable heap vm i).0 ((r.3 i).0 e),
        λ l. (r.3 i).1 ((ReachFrom-Reachable heap vm i).1 l),
      ),
    )

-- From flags that are clear, the marking phase ends with flags for which the test of the sweep holds, on
-- the same heap, of just the vars with the status V_ST_GC that no path of references leads to from a root of
-- the VM: the root object, the stack, the cached constants in use, the scopes, the protected vars, the
-- deferred transfers, the shared values, the finalizers' values or the anchors.
pub mark_phase-Sweeps :
    (heap : Heap) (fuel : ℕ) (vm : GcVm) (m : Marks)
    → Idle heap m
    → Unmarked m
    → length heap.vars < fuel
    → (m' : Marks) × (mark_phase heap fuel vm m ≡ some m')
      × ((i : ℕ)
          → (is_swept heap m' i ≡ true)
            ↔ (((var_at heap i).status ≡ v_st_gc) × ¬ (Reachable heap vm i)))
unfolding is_swept
mark_phase-Sweeps heap fuel vm m idle clear lt =
    let r = mark_phase-Reachable heap fuel vm m idle clear lt in
    (
      r.0,
      r.1,
      λ i. (
        λ e. (ground (arith, e), λ p. let f = (r.3 i).1 p in absurd (ground (arith, e, f))),
        λ h. elim (Bool-cases (get_or (r.0).marked i false)) [
          | inl e ↦ absurd (h.1 ((r.3 i).0 e))
          | inr e ↦ let s = h.0 in ground (arith, s, e)
        ],
      ),
    )
