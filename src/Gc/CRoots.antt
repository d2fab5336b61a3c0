-- ===== src/Gc/CRoots.antt =====
-- The roots that natives park (vm_push_c_root and vm_pop_c_roots of mario/mario.c).
--
-- c_roots is an array of c_roots_cap slots, of which those below c_roots_top are read; `fill` is what a
-- slot holds that a reallocation has added. The number of slots stays below 2 ^ 31.
use mathlib.Core.List.{append-nil, append_assoc}
use mario_js.Prelude.{
  ℕ, zero, suc, ◌-◌, ◌*◌, ◌≤◌, ◌<◌, ◌≡◌, refl, sym, ap, ◌∙◌, inl, inr, Bool, true, false, List, [],
  ◌∷◌, ◌++◌, length, set, take, replicate, ltb, leb, ◌==◌, if◌then◌else◌, Bool-cases, Option, none,
  some, length-append, length-set, length-replicate, length-take, take-append, take-set, arith,
}
use mario_js.Gc.{Pointer, Heap, live_at}

pub record CRoots : Type 0 where
  pub slots : List Pointer
  pub c_roots_top : ℕ

-- What gc_vars visits.
unfoldable pub parked : CRoots → List Pointer
parked r = take r.c_roots_top r.slots

-- The array after the test for room: `none` where the reallocation fails. `allocates` says what
-- mario_realloc answers for a number of slots.
unfoldable pub with_room : (allocates : ℕ → Bool) → Pointer → CRoots → Option CRoots
with_room allocates fill r =
    let cap = length r.slots in
    let wanted = if cap == 0 then 16 else cap * 2 in
    if leb cap r.c_roots_top
    then (if allocates wanted
        then some (record r { slots = r.slots ++ replicate (wanted - cap) fill })
        else none)
    else some r

abbrev pub park : Pointer → CRoots → CRoots
park v r = record { slots = set r.slots r.c_roots_top v; c_roots_top = suc r.c_roots_top }

-- `!var_empty(v)`
unfoldable pub is_live : Heap → Pointer → Bool
unfolding live_at
is_live heap v = elim (live_at heap v) [ none ↦ false | some i ↦ true ]

unfoldable pub vm_push_c_root : (allocates : ℕ → Bool) → Pointer → Heap → Pointer → CRoots → CRoots
unfolding with_room is_live
vm_push_c_root allocates fill heap v r =
    if is_live heap v then elim (with_room allocates fill r) [ none ↦ r | some s ↦ park v s ] else r

unfoldable pub vm_pop_c_roots : ℕ → CRoots → CRoots
vm_pop_c_roots zero r = r
vm_pop_c_roots (suc n) r =
    let top = r.c_roots_top - 1 in
    let rest = vm_pop_c_roots n (record { slots = set r.slots top none; c_roots_top = top }) in
    if ltb 0 r.c_roots_top then rest else r

-- The used slots are slots of the array.
abbrev pub Fits : CRoots → Type 0
Fits r = r.c_roots_top ≤ length r.slots

take_full : (n : ℕ) (xs : List Pointer) → n ≡ length xs → take n xs ≡ xs
take_full zero [] h = refl
take_full zero (x ∷ xs) h = absurd (omega arith)
take_full (suc n) [] h = refl
take_full (suc n) (x ∷ xs) h = ap (λ t. x ∷ t) (take_full n xs (omega arith))

take-set_past :
    (n i : ℕ) (xs : List Pointer) (v : Pointer) → n ≤ i → take n (set xs i v) ≡ take n xs
take-set_past zero i xs v h = refl
take-set_past (suc n) i [] v h = refl
take-set_past (suc n) zero (x ∷ xs) v h = absurd (omega arith)
take-set_past (suc n) (suc i) (x ∷ xs) v h = ap (λ t. x ∷ t) (take-set_past n i xs v (omega arith))

park-parked :
    (v : Pointer) (r : CRoots)
    → r.c_roots_top < length r.slots
    → (parked (park v r) ≡ parked r ++ v ∷ []) × Fits (park v r)
unfolding parked
park-parked v r h =
    let l = length-set r.slots r.c_roots_top v in
    (take-set r.c_roots_top r.slots v h, omega (arith, h, l))

module _ (allocates : ℕ → Bool) (fill : Pointer) (works : (n : ℕ) → allocates n ≡ true) where
  -- Where the reallocations succeed there is room for one more root, and the others stay.
  with_room_lem :
      (r : CRoots)
      → Fits r
      → (s : CRoots) × (with_room allocates fill r ≡ some s)
        × (parked s ≡ parked r)
        × (s.c_roots_top < length s.slots)
  unfolding with_room parked
  with_room_lem r h = elim (Bool-cases (leb (length r.slots) r.c_roots_top)) [
    | inl e ↦
        let cap = length r.slots in
        let wanted = if cap == 0 then 16 else cap * 2 in
        let full : r.c_roots_top ≡ length r.slots = ground arith in
        let more = replicate (wanted - cap) fill in
        let l = length-append r.slots more in
        let m = length-replicate (wanted - cap) fill in
        let w : cap < wanted = ground arith in
        (
          record r { slots = r.slots ++ more },
          rw (e, works wanted) refl,
          take-append r.c_roots_top r.slots more full ∙ sym (take_full r.c_roots_top r.slots full),
          omega (arith, l, m, w, full),
        )
    | inr e ↦ (r, rw e refl, refl, ground arith)
  ]

abbrev pop_one : CRoots → CRoots
pop_one r = record { slots = set r.slots (r.c_roots_top - 1) none; c_roots_top = r.c_roots_top - 1 }

taken :
    (n : ℕ) (r : CRoots)
    → ltb 0 r.c_roots_top ≡ true
    → vm_pop_c_roots (suc n) r ≡ vm_pop_c_roots n (pop_one r)
unfolding vm_pop_c_roots
taken n r e = rw e refl

empty_pop : (n : ℕ) (r : CRoots) → ltb 0 r.c_roots_top ≡ false → vm_pop_c_roots (suc n) r ≡ r
unfolding vm_pop_c_roots
empty_pop n r e = rw e refl

-- How many roots are visited, and what the removal of some leaves of them.
pop-top : (n : ℕ) (r : CRoots) → (vm_pop_c_roots n r).c_roots_top ≡ r.c_roots_top - n
unfolding vm_pop_c_roots
pop-top zero r = omega arith
pop-top (suc n) r = elim (Bool-cases (ltb 0 r.c_roots_top)) [
  | inl e ↦
      let h = pop-top n (pop_one r) in
      ap (λ (x : CRoots). x.c_roots_top) (taken n r e) ∙ omega (arith, h)
  | inr e ↦
      let h : r.c_roots_top ≡ 0 = ground arith in
      ap (λ (x : CRoots). x.c_roots_top) (empty_pop n r e) ∙ omega (arith, h)
]

pub pop-parked :
    (n : ℕ) (r : CRoots) → parked (vm_pop_c_roots n r) ≡ take (r.c_roots_top - n) r.slots
unfolding parked vm_pop_c_roots
pop-parked zero r =
    ap (λ (k : ℕ). take k r.slots) {x = r.c_roots_top} {y = r.c_roots_top - 0} (omega arith)
pop-parked (suc n) r = elim (Bool-cases (ltb 0 r.c_roots_top)) [
  | inl e ↦
      let top = r.c_roots_top - 1 in
      ap parked (taken n r e)
      ∙ pop-parked n (pop_one r)
      ∙ take-set_past (top - n) top r.slots none (omega arith)
      ∙ ap (λ (k : ℕ). take k r.slots) {x = top - n} {y = r.c_roots_top - suc n} (omega arith)
  | inr e ↦
      let h : r.c_roots_top ≡ 0 = ground arith in
      ap parked (empty_pop n r e)
      ∙ ap (λ (k : ℕ). take k r.slots) {x = r.c_roots_top} {y = r.c_roots_top - suc n}
          (omega (arith, h))
]

take-take : (n m : ℕ) (xs : List Pointer) → n ≤ m → take n xs ≡ take n (take m xs)
take-take zero m xs h = refl
take-take (suc n) zero xs h = absurd (omega arith)
take-take (suc n) (suc m) [] h = refl
take-take (suc n) (suc m) (x ∷ xs) h = ap (λ t. x ∷ t) (take-take n m xs (omega arith))

-- The pointers that vm_push_c_root does not pass over.
unfoldable pub live_ones : Heap → List Pointer → List Pointer
live_ones heap [] = []
live_ones heap (v ∷ vs) = if is_live heap v then v ∷ live_ones heap vs else live_ones heap vs

unfoldable pub push_all : (allocates : ℕ → Bool) → Pointer → Heap → List Pointer → CRoots → CRoots
unfolding vm_push_c_root
push_all allocates fill heap [] r = r
push_all allocates fill heap (v ∷ vs) r =
    push_all allocates fill heap vs (vm_push_c_root allocates fill heap v r)

joined_ones :
    (b : Bool) (v : Pointer) (ps qs : List Pointer)
    → (if b then ps ++ v ∷ [] else ps) ++ qs ≡ ps ++ (if b then v ∷ qs else qs)
joined_ones true v ps qs = append_assoc ps (v ∷ []) qs
joined_ones false v ps qs = refl

pop-take :
    (n : ℕ) (r : CRoots)
    → Fits r
    → parked (vm_pop_c_roots n r) ≡ take (length (parked r) - n) (parked r)
unfolding parked
pop-take n r h =
    let l = length-take r.c_roots_top r.slots h in
    pop-parked n r
    ∙ take-take (r.c_roots_top - n) r.c_roots_top r.slots (omega arith)
    ∙ ap (λ (k : ℕ). take k (take r.c_roots_top r.slots)) {x = r.c_roots_top - n}
        {y = length (take r.c_roots_top r.slots) - n} (omega (arith, l))

module _ (allocates : ℕ → Bool) (fill : Pointer) (works : (n : ℕ) → allocates n ≡ true)
    (heap : Heap) where
  push-parked :
      (v : Pointer) (r : CRoots)
      → Fits r
      → let s = vm_push_c_root allocates fill heap v r in
        Fits s × (parked s ≡ (if is_live heap v then parked r ++ v ∷ [] else parked r))
  unfolding vm_push_c_root
  push-parked v r h = elim (Bool-cases (is_live heap v)) [
    | inl e ↦
        let room = with_room_lem allocates fill works r h in
        let p = park-parked v (room.0) (room.3) in
        rw (e, room.1) (p.1, p.0 ∙ ap (λ ps. ps ++ v ∷ []) (room.2))
    | inr e ↦ rw e (h, refl)
  ]

  push_all-parked :
      (vs : List Pointer) (r : CRoots)
      → Fits r
      → let s = push_all allocates fill heap vs r in
        Fits s × (parked s ≡ parked r ++ live_ones heap vs)
  unfolding push_all live_ones
  push_all-parked [] r h = (h, sym (append-nil (parked r)))
  push_all-parked (v ∷ vs) r h =
      let first = push-parked v r h in
      let rest = push_all-parked vs (vm_push_c_root allocates fill heap v r) first.0 in
      (
        rest.0,
        rest.1
            ∙ ap (λ ps. ps ++ live_ones heap vs) first.1
            ∙ joined_ones (is_live heap v) v (parked r) (live_ones heap vs),
      )

-- The array is a stack of roots: where the reallocations succeed, what natives push and pop leaves the
-- roots parked before, then the live ones of those pushed, less as many at the end as are popped. A
-- dead pointer is passed over, so that the pop meant for it removes a root of another native.
pub push_all-Pops :
    (allocates : ℕ → Bool) (fill : Pointer) (heap : Heap) (vs : List Pointer) (n : ℕ) (r : CRoots)
    → ((size : ℕ) → allocates size ≡ true)
    → Fits r
    → let roots = parked r ++ live_ones heap vs in
      parked (vm_pop_c_roots n (push_all allocates fill heap vs r)) ≡ take (length roots - n) roots
push_all-Pops allocates fill heap vs n r works h =
    let p = push_all-parked allocates fill works heap vs r h in
    pop-take n (push_all allocates fill heap vs r) p.0 ∙ ap (λ ps. take (length ps - n) ps) p.1
