-- ===== src/Gc/Unmark.antt =====
-- The second marking phase of gc_vars (mario/mario.c), which clears the flags of the first.
use mario_js.Prelude.{
  ℕ, ◌<◌, ◌≡◌, refl, ◌↔◌, inl, inr, Bool, true, false, map, length, get_or, Bool-cases, some, arith,
}
use mario_js.Gc.{Heap, Marks, plain_call}
use mario_js.Gc.Roots.{GcVm, unmark_roots, mark_phase, unmark_phase}
use mario_js.Gc.Paths.{FreeReach, FreeReach-map}
use mario_js.Gc.Walk.{Undone, Walk}
use mario_js.Gc.Reachable.{FixedRoot, Leads, Any, Reachable}
use mario_js.Gc.Reachable.Kinds.{unmark_FixedRoot}
use mario_js.Gc.Reachable.Visited.{FixedRoot_unmark}
use mario_js.Gc.Reachable.Routes.{FreeReach-Leads, Leads-FreeReach}
use mario_js.Gc.Collect.{Idle, Unmarked, phase-Ends, mark_phase-Reachable}

-- The flag of a var is set.
abbrev pub Flagged : Marks → ℕ → Type 0
Flagged m i = get_or m.marked i false ≡ true

not_both : (b : Bool) → b ≡ true → b ≡ false → ⊥
not_both b e f = ground (arith, e, f)

set_of_not : (b : Bool) → ¬ (b ≡ false) → b ≡ true
set_of_not true n = refl
set_of_not false n = absurd (n refl)

-- A walk clears the flags of the vars that it can reach through vars with the flag.
Walk-clears :
    (heap : Heap) (vm : GcVm) (m m' : Marks)
    → Walk heap false (map plain_call (unmark_roots vm)) m m'
    → (i : ℕ) → FreeReach heap (Flagged m) (map plain_call (unmark_roots vm)) i
    → get_or m'.marked i false ≡ false
Walk-clears heap vm m m' w i (FreeReach.root t h) = w.heads i t
Walk-clears heap vm m m' w i (FreeReach.step {i = k} s t h) =
    elim (w.closed k (Walk-clears heap vm m m' w k s)) [
      | inl e ↦ absurd (not_both (get_or m.marked k false) (flagged s) e)
      | inr f ↦ f i t
    ]
  where
    flagged : FreeReach heap (Flagged m) (map plain_call (unmark_roots vm)) k → Flagged m k
    flagged (FreeReach.root t h) = h
    flagged (FreeReach.step s t h) = h

-- From any flags, the second phase ends, and leaves set just the flags that were set of the vars to which no
-- path of references leads from a root of the VM other than a deferred transfer's through vars whose flags
-- are set; enough fuel is one more than the number of the vars.
pub unmark_phase-Clears :
    (heap : Heap) (fuel : ℕ) (vm : GcVm) (m : Marks)
    → Idle heap m
    → length heap.vars < fuel
    → (m' : Marks) × (unmark_phase heap fuel vm m ≡ some m')
      × Idle heap m'
      × ((i : ℕ) → Flagged m' i ↔ (Flagged m i × ¬ (Leads heap (FixedRoot vm) (Flagged m) i)))
unfolding unmark_phase
unmark_phase-Clears heap fuel vm m idle lt =
    let (m', ends, w, idle') = phase-Ends heap false fuel (unmark_roots vm) m idle lt in
    let roots = map plain_call (unmark_roots vm) in
    (
      m',
      ends,
      idle',
      λ i. (
        λ e. (
          elim (Bool-cases (get_or m.marked i false)) [
            | inl f ↦ f
            | inr f ↦ absurd (not_both (get_or m'.marked i false) e (w.grows i f))
          ],
          λ l. absurd (
              not_both (get_or m'.marked i false) e (
                Walk-clears heap vm m m' w i (
                  Leads-FreeReach heap (unmark_roots vm) (FixedRoot vm) (Flagged m)
                    (λ p. FixedRoot_unmark p vm) i l))),
        ),
        λ h. elim (Bool-cases (get_or m'.marked i false)) [
          | inl e ↦ e
          | inr e ↦ elim (w.sound i e) [
            | inl f ↦ absurd (not_both (get_or m.marked i false) (h.0) f)
            | inr p ↦ absurd (
                h.1 (
                  FreeReach-Leads heap (unmark_roots vm) (FixedRoot vm) (Flagged m)
                    (λ p. unmark_FixedRoot p vm) i
                    (FreeReach-map heap (Undone false m) roots roots (Flagged m) (λ j t. t)
                      (λ j n. set_of_not (get_or m.marked j false) n) i p)))
          ]
        ],
      ),
    )

module _ (heap : Heap) (vm : GcVm) where
  fixed-Reachable : (i : ℕ) → Leads heap (FixedRoot vm) Any i → Reachable heap vm i
  fixed-Reachable i (Leads.from_root r live h) = Leads.from_root (inl r) live h
  fixed-Reachable i (Leads.along {i = k} s t h) = Leads.along (fixed-Reachable k s) t h

  forget_flags :
      (free : ℕ → Type 0) (i : ℕ)
      → Leads heap (FixedRoot vm) free i
      → Leads heap (FixedRoot vm) Any i
  forget_flags free i (Leads.from_root r live h) = Leads.from_root r live refl
  forget_flags free i (Leads.along {i = k} s t h) = Leads.along (forget_flags free k s) t refl

  -- Where the reachable vars have the property, every path is through vars that have it.
  keep_flags :
      (free : ℕ → Type 0)
      → ((j : ℕ) → Reachable heap vm j → free j)
      → (i : ℕ) → Leads heap (FixedRoot vm) Any i
      → Leads heap (FixedRoot vm) free i
  keep_flags free f i (Leads.from_root r live h) =
      Leads.from_root r live (f i (Leads.from_root (inl r) live h))
  keep_flags free f i (Leads.along {i = k} s t h) =
      Leads.along (keep_flags free f k s) t (f i (Leads.along (fixed-Reachable k s) t h))

-- From flags that are clear, the two phases one after the other on one heap and VM end, and a flag is set
-- afterwards just for the vars that a path of references leads to from the roots but none from a root other
-- than a deferred transfer's.
pub unmark_phase-Leaves :
    (heap : Heap) (fuel : ℕ) (vm : GcVm) (m : Marks)
    → Idle heap m
    → Unmarked m
    → length heap.vars < fuel
    → (m' : Marks) × (m'' : Marks) × (mark_phase heap fuel vm m ≡ some m')
      × (unmark_phase heap fuel vm m' ≡ some m'')
      × Idle heap m''
      × ((i : ℕ) → Flagged m'' i ↔ (Reachable heap vm i × ¬ (Leads heap (FixedRoot vm) Any i)))
unmark_phase-Leaves heap fuel vm m idle clear lt =
    let (m', marks, idle', flags) = mark_phase-Reachable heap fuel vm m idle clear lt in
    let (m'', ends, idle'', left) = unmark_phase-Clears heap fuel vm m' idle' lt in
    (
      m',
      m'',
      marks,
      ends,
      idle'',
      λ i. (
        λ e.
            let h = (left i).0 e in
            (
              (flags i).0 (h.0),
              λ l. h.1 (keep_flags heap vm (Flagged m') (λ j r. (flags j).1 r) i l),
            ),
        λ h. (left i).1 ((flags i).1 (h.0), λ l. h.1 (forget_flags heap vm (Flagged m') i l)),
      ),
    )
