-- ===== src/Gc/Walk.antt =====
-- One walk of gc_mark (mario/mario.c) over the graph of the vars: it ends, and which vars it flags.
use mario_js.Prelude.{
  ℕ, ◌≤◌, ◌<◌, ◌≡◌, refl, ap, subst, ◌∙◌, ◌⊎◌, inl, inr, Bool, true, false, List, [], ◌∷◌, length,
  get_or, Bool-cases, Option, none, some, arith,
}
use mario_js.Gc.{Pointer, Call, Heap, Marks, calls_of, is_marking, mark_call, mark_each}
use mario_js.Gc.Count.{undone, undone-grows}
use mario_js.Gc.Paths.{Targets, FreeReach, FreeReach-map, live_at_lem}

-- The flags of `marks` have a place for each var of the heap.
abbrev pub Sized : Heap → Marks → Type 0
Sized heap marks =
    (length heap.vars ≤ length marks.marked) × (length heap.vars ≤ length marks.marking)

abbrev pub Done : Bool → Marks → ℕ → Type 0
Done mark marks i = get_or marks.marked i false ≡ mark

abbrev pub Undone : Bool → Marks → ℕ → Type 0
Undone mark marks i = ¬ (Done mark marks i)

abbrev pub Marking : Marks → ℕ → Type 0
Marking marks i = get_or marks.marking i false ≡ true

-- What gc_mark relies on when it begins.
abbrev pub Ready : Heap → Bool → Marks → Type 0
Ready heap mark marks = Sized heap marks × ((i : ℕ) → Marking marks i → Done mark marks i)

-- What the calls of a list do to the flags.
pub record Walk (heap : Heap) (mark : Bool) (cs : List Call) (m m' : Marks) : Type 0 where
  pub same_length : (length m'.marked ≡ length m.marked) × (length m'.marking ≡ length m.marking)
  pub grows : (i : ℕ) → Done mark m i → Done mark m' i
  pub heads : (j : ℕ) → Targets heap cs j → Done mark m' j
  pub closed :
      (i : ℕ)
      → Done mark m' i
      → Done mark m i ⊎ ((j : ℕ) → Targets heap (calls_of heap i) j → Done mark m' j)
  pub sound : (i : ℕ) → Done mark m' i → Done mark m i ⊎ FreeReach heap (Undone mark m) cs i
  pub flags : (i : ℕ) → Marking m' i → Marking m i

module _ (heap : Heap) (mark : Bool) where
  -- Nothing is done where each call is for no var or for one that is done.
  pub Walk-skip :
      (cs : List Call) (m : Marks)
      → ((j : ℕ) → Targets heap cs j → Done mark m j)
      → Walk heap mark cs m m
  Walk-skip cs m h = record {
    same_length = (refl, refl);
    grows = λ i d. d;
    heads = h;
    closed = λ i d. inl d;
    sound = λ i d. inl d;
    flags = λ i f. f;
  }

  pub Walk-Ready :
      (cs : List Call) (m m' : Marks)
      → Ready heap mark m
      → Walk heap mark cs m m'
      → Ready heap mark m'
  Walk-Ready cs m m' r w =
      let l0 = w.same_length.0 in
      let l1 = w.same_length.1 in
      let s0 = (r.0).0 in
      let s1 = (r.0).1 in
      ((omega (arith, l0, s0), omega (arith, l1, s1)), λ i f. w.grows i (r.1 i (w.flags i f)))

  pub Walk-append :
      (c : Call) (cs : List Call) (m m1 m2 : Marks)
      → Walk heap mark (c ∷ []) m m1
      → Walk heap mark cs m1 m2
      → Walk heap mark (c ∷ cs) m m2
  unfolding Targets
  Walk-append c cs m m1 m2 v w = record {
    same_length = (w.same_length.0 ∙ v.same_length.0, w.same_length.1 ∙ v.same_length.1);
    grows = λ i d. w.grows i (v.grows i d);
    heads = λ j t. elim t [ inl h ↦ w.grows j (v.heads j (inl h)) | inr h ↦ w.heads j h ];
    closed = λ i d. elim (w.closed i d) [
      | inl e ↦ elim (v.closed i e) [ inl f ↦ inl f | inr f ↦ inr (λ j t. w.grows j (f j t)) ]
      | inr e ↦ inr e
    ];
    sound = λ i d. elim (w.sound i d) [
      | inl e ↦ elim (v.sound i e) [
        | inl f ↦ inl f
        | inr f ↦ inr (
            FreeReach-map heap (Undone mark m) (c ∷ []) (c ∷ cs) (Undone mark m)
              (λ j t. elim t [ inl h ↦ inl h | inr h ↦ absurd h ]) (λ j n. n) i f)
      ]
      | inr e ↦ inr (
          FreeReach-map heap (Undone mark m1) cs (c ∷ cs) (Undone mark m) (λ j t. inr t)
            (λ j n d. n (v.grows j d)) i e)
    ];
    flags = λ i f. v.flags i (w.flags i f);
  }

  pub Walk-undone :
      (cs : List Call) (m m' : Marks)
      → Walk heap mark cs m m'
      → undone mark m'.marked ≤ undone mark m.marked
  Walk-undone cs m m' w = undone-grows mark m.marked m'.marked w.same_length.0 w.grows

pub some_inj : (k j : ℕ) → some k ≡ some j → k ≡ j
some_inj k j e = ground (arith, e)

-- The calls end, in a walk.
abbrev pub Ends : Heap → Bool → List Call → Marks → Option Marks → Type 0
Ends heap mark cs m r = (m' : Marks) × (r ≡ some m') × Walk heap mark cs m m'

-- A function that does what gc_mark does, where fewer than `bound` flags are not set.
abbrev pub MarksBelow : Heap → Bool → ℕ → (Pointer → Marks → Option Marks) → Type 0
MarksBelow heap mark bound g =
    (guarded : Bool) (p : Pointer) (m : Marks)
    → Ready heap mark m
    → undone mark m.marked < bound
    → Ends heap mark ((guarded, p) ∷ []) m (g p m)

module _ (heap : Heap) (mark : Bool) (bound : ℕ) (g : Pointer → Marks → Option Marks)
    (works : MarksBelow heap mark bound g) where
  mark_call-Ends :
      (c : Call) (m : Marks)
      → Ready heap mark m
      → undone mark m.marked < bound
      → Ends heap mark (c ∷ []) m (mark_call g c m)
  unfolding mark_call Targets is_marking
  mark_call-Ends (false, p) m r lt = works false p m r lt
  mark_call-Ends (true, none) m r lt = works true none m r lt
  mark_call-Ends (true, some k) m r lt = elim (Bool-cases (get_or m.marking k false)) [
    | inl e ↦ (
      m,
      rw e refl,
      Walk-skip heap mark ((true, some k) ∷ []) m (λ j t. elim t [
        | inl h ↦ subst (Done mark m) (some_inj k j (live_at_lem heap (some k) j h).0) (r.1 k e)
        | inr h ↦ absurd h
      ]),
    )
    | inr e ↦ rw e (works true (some k) m r lt)
  ]

  pub mark_each-Ends :
      (cs : List Call) (m : Marks)
      → Ready heap mark m
      → undone mark m.marked < bound
      → Ends heap mark cs m (mark_each g cs (some m))
  unfolding mark_each Targets
  mark_each-Ends [] m r lt = (m, refl, Walk-skip heap mark [] m (λ j t. absurd t))
  mark_each-Ends (c ∷ cs) m r lt =
      let first = mark_call-Ends c m r lt in
      let m1 = first.0 in
      let less = Walk-undone heap mark (c ∷ []) m m1 first.2 in
      let others =
        mark_each-Ends cs m1 (Walk-Ready heap mark (c ∷ []) m m1 r first.2)
          (omega (arith, less, lt)) in
      (
        others.0,
        ap (mark_each g cs) (first.1) ∙ others.1,
        Walk-append heap mark c cs m m1 others.0 first.2 others.2,
      )
