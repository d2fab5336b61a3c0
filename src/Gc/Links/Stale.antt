-- ===== src/Gc/Links/Stale.antt =====
-- The second step of gc_vars (mario/mario.c) on the list that its sweep leaves where it freed vars at the head.
use mathlib.Core.List.{append_assoc}
use mario_js.Prelude.{
  ℕ, zero, suc, ◌+◌, ◌-◌, ◌%◌, ◌≤◌, ◌<◌, ◌≡◌, refl, sym, ap, subst, ◌∙◌, inl, inr, false, List, [],
  ◌∷◌, ◌++◌, length, set, ◌==◌, Bool-cases, none, some, u32, arith,
}
use mathlib.Core.Option
use mario_js.Gc.{Pointer, v_st_free}
use mario_js.Gc.Links.{write_field, write_end, remove_from_gc}
use mario_js.Gc.Links.Free.{VarLists, add_to_free, is_freed, move_freed}
use mario_js.Gc.Links.Chains.{field_at, Linked, set-other}
use mario_js.Gc.Links.Writes.{at_head, head_alone, in_tail}
use mario_js.Gc.Links.Moved.{Lists, first-occurs}
use mario_js.Gc.Links.Moves.{moved-Lists}
use mario_js.Gc.Links.Loop.{
  first_of, next-first, moved_round, kept_round, kept, joined, move_freed-Moves,
}
use mario_js.Gc.Weak.Balance.{occurs, occurs-append}

set_comm :
    (xs : List Pointer) (i j : ℕ) (a b : Pointer)
    → (j == i) ≡ false
    → set (set xs i a) j b ≡ set (set xs j b) i a
set_comm [] i j a b e = refl
set_comm (x ∷ xs) zero zero a b e = absurd (ground (arith, e))
set_comm (x ∷ xs) zero (suc j) a b e = refl
set_comm (x ∷ xs) (suc i) zero a b e = refl
set_comm (x ∷ xs) (suc i) (suc j) a b e = ap (λ t. x ∷ t) (set_comm xs i j a b (ground (arith, e)))

-- A pointer to another var than `h`, or none.
Avoids : ℕ → Pointer → Type 0
Avoids h p = (i : ℕ) → p ≡ some i → (i == h) ≡ false

write_comm :
    (field : List Pointer) (h : ℕ) (q p v : Pointer)
    → Avoids h p
    → write_field (set field h q) p v ≡ set (write_field field p v) h q
unfolding Avoids
write_comm field h q none v a = refl
write_comm field h q (some i) v a = set_comm field h i q v (a i refl)

-- A var passed from the one list to the other.
abbrev moved : ℕ → VarLists → VarLists
moved x s = add_to_free x (record s { links = remove_from_gc x s.links })

module _ (h : ℕ) (q : Pointer) (surplus : ℕ) where
  -- The list where the var `h` at its head has a `prev` left over, and so many vars are counted beyond it.
  abbrev pub stale : VarLists → VarLists
  stale s = record s {
    links = record s.links {
      prev = set s.links.prev h q;
      gc_vars_num = s.links.gc_vars_num + surplus;
    };
  }

  module _ (s : VarLists) (x : ℕ) (other : (x == h) ≡ false)
      (behind : Avoids h (field_at s.links.next x)) (buffer : Avoids h s.free_var_buffer)
      (counted : 0 < s.links.gc_vars_num) where
    -- What a move leaves, by the `prev` of the var, the field `prev` and the number.
    abbrev built : Pointer → List Pointer → ℕ → VarLists
    built before prev num = record {
      links = record s.links {
        next =
            set (set (write_field s.links.next before (field_at s.links.next x)) x none) x
              s.free_var_buffer;
        prev = prev;
        status = set s.links.status x v_st_free;
        gc_vars = write_end s.links.gc_vars before (field_at s.links.next x);
        gc_vars_tail = write_end s.links.gc_vars_tail (field_at s.links.next x) before;
        gc_vars_num = num;
      };
      free_var_buffer = some x;
      free_var_buffer_num = (s.free_var_buffer_num + 1) % u32;
    }

    abbrev written : List Pointer → Pointer → List Pointer
    written prev before =
        write_field (set (write_field prev (field_at s.links.next x) before) x none)
          s.free_var_buffer (some x)

    written-stale :
        (before : Pointer)
        → written (set s.links.prev h q) before ≡ set (written s.links.prev before) h q
    written-stale before =
        let after = field_at s.links.next x in
        let prev = s.links.prev in
        ap (λ f. write_field (set f x none) s.free_var_buffer (some x))
          (write_comm prev h q after before behind)
        ∙ ap (λ f. write_field f s.free_var_buffer (some x))
            (set_comm (write_field prev after before) h x q none other)
        ∙ write_comm (set (write_field prev after before) x none) h q s.free_var_buffer (some x)
            buffer

    moved-stale : moved x (stale s) ≡ stale (moved x s)
    unfolding add_to_free remove_from_gc
    moved-stale =
        let prev = s.links.prev in
        let n = s.links.gc_vars_num in
        ap (λ b. built b (written (set prev h q) b) (n + surplus - 1)) (set-other prev h x q other)
        ∙ ap (λ p. built (field_at prev x) p (n + surplus - 1)) (written-stale (field_at prev x))
        ∙ ap (λ (k : ℕ). built (field_at prev x) (set (written prev (field_at prev x)) h q) k)
            {x = n + surplus - 1} {y = n - 1 + surplus} (omega (arith, counted))

  not_head : (k : ℕ) (xs : List ℕ) → occurs h (h ∷ xs) ≤ 1 → 1 ≤ occurs k xs → (k == h) ≡ false
  not_head k xs once m = elim (Bool-cases (k == h)) [
    | inl e ↦
        let same : k ≡ h = ground (arith, e) in
        let n : 1 ≤ occurs h xs = subst (λ t. 1 ≤ occurs t xs) same m in
        let c = head_alone h xs once in absurd (omega (arith, c, n))
    | inr e ↦ e
  ]

  first-occurs_in : (zs : List ℕ) (i : ℕ) → first_of zs ≡ some i → 1 ≤ occurs i zs
  first-occurs_in [] i e = absurd (ground (arith, e))
  first-occurs_in (w ∷ zs) i e =
      let same : w ≡ i = ground (arith, e) in subst (λ k. 1 ≤ occurs k (w ∷ zs)) same (at_head w zs)

  module _ (s : VarLists) (ys : List ℕ) (z : ℕ) (zs fs : List ℕ)
      (l : Lists s (h ∷ ys ++ z ∷ zs) fs) where
    in_middle : (k : ℕ) → 1 ≤ occurs k (z ∷ zs) → (k == h) ≡ false
    in_middle k m =
        let a = occurs-append k ys (z ∷ zs) in
        not_head k (ys ++ z ∷ zs) (l.watched.once h) (omega (arith, a, m))

    buffer-Avoids : Avoids h s.free_var_buffer
    unfolding Avoids
    buffer-Avoids i e = elim (Bool-cases (i == h)) [
      | inl f ↦
          let same : i ≡ h = ground (arith, f) in
          let m = first-occurs s.links.next s.free_var_buffer fs i l.free e in
          let n : 1 ≤ occurs h fs = subst (λ t. 1 ≤ occurs t fs) same m in
          let a = l.apart h in let b = at_head h (ys ++ z ∷ zs) in absurd (omega (arith, a, b, n))
      | inr f ↦ f
    ]

    behind-Avoids : Avoids h (field_at s.links.next z)
    unfolding Avoids
    behind-Avoids i e =
        in_middle i
          (in_tail z i zs (first-occurs_in zs i (sym (next-first s (h ∷ ys) z zs fs l) ∙ e)))

    one_move : moved z (stale s) ≡ stale (moved z s)
    one_move =
        let n = l.watched.number in
        moved-stale s z (in_middle z (at_head z zs)) behind-Avoids buffer-Avoids (omega (arith, n))

  -- The loop behind the head does the same to both.
  stale_run :
      (fuel : ℕ) (ys zs fs : List ℕ) (s : VarLists)
      → Lists s (h ∷ ys ++ zs) fs
      → move_freed fuel (first_of zs) (stale s) ≡ Option.map stale (move_freed fuel (first_of zs) s)
  unfolding move_freed
  stale_run zero ys zs fs s l = refl
  stale_run (suc fuel) ys [] fs s l = refl
  stale_run (suc fuel) ys (z ∷ zs) fs s l =
      let next = next-first s (h ∷ ys) z zs fs l in
      elim (Bool-cases (is_freed s z)) [
        | inl e ↦
            moved_round fuel (stale s) z zs next e
            ∙ ap (move_freed fuel (first_of zs)) (one_move s ys z zs fs l)
            ∙ stale_run fuel ys zs (z ∷ fs) (moved z s) (moved-Lists s (h ∷ ys) z zs fs l)
            ∙ ap (Option.map stale) (sym (moved_round fuel s z zs next e))
        | inr e ↦
            kept_round fuel (stale s) z zs next e
            ∙ stale_run fuel (ys ++ z ∷ []) zs fs s
                (subst (λ t. Lists s (h ∷ t) fs) (sym (append_assoc ys (z ∷ []) zs)) l)
            ∙ ap (Option.map stale) (sym (kept_round fuel s z zs next e))
      ]

  -- Where the list of the collector has a head that is not freed, and is sound but for a `prev` left over at
  -- that head and a surplus in its number, as a sweep that freed vars ahead of it leaves the list, and the free
  -- list is sound and apart from it, the second step of gc_vars ends after one round for each var and one
  -- more. The list then has the vars that are not freed, in their order, sound but for the same `prev` and the
  -- same surplus, and the free list has those that are in front of the others, the last one first.
  pub move_freed-Parts :
      (fuel : ℕ) (s : VarLists) (xs fs : List ℕ)
      → Lists s (h ∷ xs) fs
      → is_freed s h ≡ false
      → length (h ∷ xs) < fuel
      → (s' : VarLists) × (move_freed fuel s.links.gc_vars (stale s) ≡ some (stale s'))
        × Lists s' (h ∷ kept (is_freed s) xs) (joined (is_freed s) xs fs)
  unfolding kept joined Linked
  move_freed-Parts zero s xs fs l e lt = absurd (omega arith)
  move_freed-Parts (suc fuel) s xs fs l e lt =
      let next = next-first s [] h xs fs l in
      let head : s.links.gc_vars ≡ some h = l.watched.chain.0 in
      let r = move_freed-Moves (suc fuel) s (h ∷ xs) fs l lt in
      (
        r.0,
        ap (λ v. move_freed (suc fuel) v (stale s)) head
            ∙ kept_round fuel (stale s) h xs next e
            ∙ stale_run fuel [] xs fs s l
            ∙ ap (Option.map stale) (
                sym (kept_round fuel s h xs next e)
                ∙ ap (λ v. move_freed (suc fuel) v s) (sym head)
                ∙ r.1),
        rw e at r.2,
      )
