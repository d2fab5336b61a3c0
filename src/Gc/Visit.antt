-- ===== src/Gc/Visit.antt =====
-- gc_mark (mario/mario.c) on a var that it has not visited, and the end of gc_mark.
use mario_js.Prelude.{
  ℕ, zero, suc, ◌<◌, ◌≡◌, refl, sym, ap, subst, ◌∙◌, ◌⊎◌, inl, inr, Bool, true, false, List, [],
  ◌∷◌, length, length-set, get_or, get_or-set, set, ◌==◌, ==_iff, Bool-cases, Option-cases, Option,
  some, arith,
}
use mario_js.Gc.{Pointer, Heap, Marks, live_at, calls_of, same_flag, enter, leave, left, gc_mark}
use mario_js.Gc.Count.{undone, same_flag_lem, undone-set}
use mario_js.Gc.Paths.{Targets, FreeReach, FreeReach-under, live_at-lt}
use mario_js.Gc.Walk.{
  Done, Undone, Marking, Ready, Walk, Walk-skip, Ends, MarksBelow, mark_each-Ends, some_inj,
}

-- A write of a flag is read where it was written, and nowhere else.
flag-set :
    (xs : List Bool) (i k : ℕ) (v : Bool)
    → i < length xs
    → ((k ≡ i) × (get_or (set xs i v) k false ≡ v))
      ⊎ (get_or (set xs i v) k false ≡ get_or xs k false)
flag-set xs i k v h = elim (Bool-cases (k == i)) [
  | inl e ↦ let same : k ≡ i = ground arith in inl (same, get_or-set xs k i v false h ∙ rw e refl)
  | inr e ↦ inr (get_or-set xs k i v false h ∙ rw e refl)
]

flag-set_hit : (xs : List Bool) (i : ℕ) (v : Bool) → i < length xs → get_or (set xs i v) i false ≡ v
flag-set_hit xs i v h = get_or-set xs i i v false h ∙ rw ((==_iff i i).1 refl) refl

unlike : (a b : Bool) → same_flag a b ≡ false → a ≡ b → ⊥
unlike true true e same = absurd (ground (arith, e))
unlike true false e same = absurd (ground (arith, same))
unlike false true e same = absurd (ground (arith, same))
unlike false false e same = absurd (ground (arith, e))

module _ (heap : Heap) (mark : Bool) (i : ℕ) (m : Marks) (r : Ready heap mark m)
    (lt : i < length heap.vars) (fresh : same_flag (get_or m.marked i false) mark ≡ false) where
  lt_marked : i < length m.marked
  lt_marked = let s = (r.0).0 in omega (arith, s, lt)

  lt_marking : i < length m.marking
  lt_marking = let s = (r.0).1 in omega (arith, s, lt)

  first_time : Undone mark m i
  first_time d = unlike (get_or m.marked i false) mark fresh d

  enter-hit : Done mark (enter i mark m) i
  unfolding enter
  enter-hit = flag-set_hit m.marked i mark lt_marked

  enter-keeps : (k : ℕ) → Done mark m k → Done mark (enter i mark m) k
  unfolding enter
  enter-keeps k d = elim (flag-set m.marked i k mark lt_marked) [ inl e ↦ e.1 | inr e ↦ e ∙ d ]

  enter-back : (k : ℕ) → Done mark (enter i mark m) k → (k ≡ i) ⊎ Done mark m k
  unfolding enter
  enter-back k d = elim (flag-set m.marked i k mark lt_marked) [
    | inl e ↦ inl (e.0)
    | inr e ↦ inr (sym e ∙ d)
  ]

  enter-flags : (k : ℕ) → Marking (enter i mark m) k → (k ≡ i) ⊎ Marking m k
  unfolding enter
  enter-flags k f = elim (flag-set m.marking i k true lt_marking) [
    | inl e ↦ inl (e.0)
    | inr e ↦ inr (sym e ∙ f)
  ]

  enter-undone : suc (undone mark (enter i mark m).marked) ≡ undone mark m.marked
  unfolding enter
  enter-undone = undone-set mark m.marked i lt_marked fresh

  enter-Ready : Ready heap mark (enter i mark m)
  unfolding enter
  enter-Ready =
      let a = length-set m.marked i mark in
      let b = length-set m.marking i true in
      let s0 = (r.0).0 in
      let s1 = (r.0).1 in
      (
        (omega (arith, a, s0), omega (arith, b, s1)),
        λ k f. elim (enter-flags k f) [
          | inl e ↦ subst (Done mark (enter i mark m)) (sym e) enter-hit
          | inr e ↦ enter-keeps k (r.1 k e)
        ],
      )

  -- The flag gc_marking of the var itself is clear again at the end.
  leave-flags :
      (m1 : Marks)
      → length m1.marking ≡ length (enter i mark m).marking
      → (k : ℕ) → Marking (leave i m1) k
      → ((k == i) ≡ false) × Marking m1 k
  unfolding leave enter
  leave-flags m1 l k f =
      let n = length-set m.marking i true in
      let b = lt_marking in
      let h : i < length m1.marking = omega (arith, l, n, b) in
      let g = get_or-set m1.marking k i false false h in
      elim (Bool-cases (k == i)) [
        | inl e ↦ absurd (ground (arith, f, g, e))
        | inr e ↦ (e, ground (arith, f, g, e))
      ]

  visit-Walk :
      (guarded : Bool) (p : Pointer) (m1 : Marks)
      → live_at heap p ≡ some i
      → Walk heap mark (calls_of heap i) (enter i mark m) m1
      → Walk heap mark ((guarded, p) ∷ []) m (leave i m1)
  unfolding enter leave Targets
  visit-Walk guarded p m1 live w = record {
    same_length =
        let a = length-set m.marked i mark in
        let b = length-set m.marking i true in
        let c = length-set m1.marking i false in
        let d = w.same_length.0 in let e = w.same_length.1 in (d ∙ a, c ∙ e ∙ b);
    grows = λ k d. w.grows k (enter-keeps k d);
    heads = λ j t. elim t [
      | inl h ↦ subst (Done mark m1) (some_inj i j (sym live ∙ h)) (w.grows i enter-hit)
      | inr h ↦ absurd h
    ];
    closed = λ k d. elim (w.closed k d) [
      | inl e ↦ elim (enter-back k e) [
        | inl same ↦ inr (
            subst (λ x. (j : ℕ) → Targets heap (calls_of heap x) j → Done mark m1 j) (sym same)
              w.heads)
        | inr f ↦ inl f
      ]
      | inr e ↦ inr e
    ];
    sound = λ k d. elim (w.sound k d) [
      | inl e ↦ elim (enter-back k e) [
        | inl same ↦ inr (
            FreeReach.root (inl (live ∙ ap some (sym same)))
              (subst (λ x. Undone mark m x) (sym same) first_time))
        | inr f ↦ inl f
      ]
      | inr e ↦ inr (
          FreeReach-under heap (Undone mark m) ((guarded, p) ∷ []) (Undone mark (enter i mark m))
            (λ j n d. n (enter-keeps j d)) i (FreeReach.root (inl live) first_time) k e)
    ];
    flags = λ k f.
        let g = leave-flags m1 w.same_length.1 k f in
        elim (enter-flags k (w.flags k (g.1))) [
          | inl same ↦ let n = g.0 in absurd (ground (arith, same, n))
          | inr h ↦ h
        ];
  }

module _ (heap : Heap) (mark : Bool) where
  visit-Ends :
      (guarded : Bool) (p : Pointer) (i : ℕ) (m : Marks) (result : Option Marks)
      → Ready heap mark m
      → live_at heap p ≡ some i
      → same_flag (get_or m.marked i false) mark ≡ false
      → Ends heap mark (calls_of heap i) (enter i mark m) result
      → Ends heap mark ((guarded, p) ∷ []) m (left i result)
  unfolding left
  visit-Ends guarded p i m result r live fresh inner = (
    leave i (inner.0),
    ap (left i) (inner.1),
    visit-Walk heap mark i m r (live_at-lt heap p i live) fresh guarded p (inner.0) live (inner.2),
  )

  -- gc_mark ends where the fuel is more than the number of the flags that are not set.
  pub gc_mark-Ends : (fuel : ℕ) → MarksBelow heap mark fuel (gc_mark heap mark fuel)
  unfolding gc_mark Targets
  gc_mark-Ends zero guarded p m r lt = absurd (omega arith)
  gc_mark-Ends (suc fuel) guarded p m r lt = elim (Option-cases (live_at heap p)) [
    | inl e ↦
        rw (gc_mark, e)
          (
            m,
            refl,
            Walk-skip heap mark ((guarded, p) ∷ []) m
                (λ j t. elim t [ inl h ↦ absurd (ground (arith, h, e)) | inr h ↦ absurd h ]),
          )
    | inr (i, e) ↦ elim (Bool-cases (same_flag (get_or m.marked i false) mark)) [
      | inl d ↦
          rw (gc_mark, e, d)
            (
              m,
              refl,
              Walk-skip heap mark ((guarded, p) ∷ []) m (λ j t. elim t [
                | inl h ↦
                    subst (Done mark m) (some_inj i j (sym e ∙ h))
                      (same_flag_lem (get_or m.marked i false) mark d)
                | inr h ↦ absurd h
              ]),
            )
      | inr d ↦
          let at = live_at-lt heap p i e in
          let less = enter-undone heap mark i m r at d in
          let inner =
            mark_each-Ends heap mark fuel (gc_mark heap mark fuel) (gc_mark-Ends fuel)
              (calls_of heap i) (enter i mark m) (enter-Ready heap mark i m r at d)
              (omega (arith, less, lt)) in
          rw (gc_mark, e, d) (visit-Ends guarded p i m _ r e d inner)
    ]
  ]
