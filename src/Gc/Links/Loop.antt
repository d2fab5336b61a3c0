-- ===== src/Gc/Links/Loop.antt =====
-- The loop of the second step of gc_vars (mario/mario.c).
use mathlib.Core.List.{append_assoc}
use mario_js.Prelude.{
  ℕ, zero, suc, ◌≤◌, ◌<◌, ◌≡◌, refl, sym, ap, subst, ◌∙◌, inl, inr, Bool, true, false, List, [],
  ◌∷◌, ◌++◌, length, get_or, set, ◌==◌, if◌then◌else◌, Bool-cases, none, some, arith,
}
use mario_js.Gc.{Pointer, v_st_free, v_st_gc_free}
use mario_js.Gc.Links.{remove_from_gc}
use mario_js.Gc.Links.Free.{VarLists, add_to_free, is_freed, move_var, move_freed}
use mario_js.Gc.Links.Chains.{field_at, Linked, Linked-split}
use mario_js.Gc.Links.Writes.{at_head, head_alone, in_tail}
use mario_js.Gc.Links.Moved.{Lists}
use mario_js.Gc.Links.Moves.{moved-Lists}
use mario_js.Gc.Weak.Balance.{occurs, occurs-append}

abbrev pub first_of : List ℕ → Pointer
first_of [] = none
first_of (z ∷ zs) = some z

-- The vars that stay, and the free ones with those that join them, the last one first.
unfoldable pub kept : (ℕ → Bool) → List ℕ → List ℕ
kept freed [] = []
kept freed (z ∷ zs) = if freed z then kept freed zs else z ∷ kept freed zs

unfoldable pub joined : (ℕ → Bool) → List ℕ → List ℕ → List ℕ
joined freed [] fs = fs
joined freed (z ∷ zs) fs = joined freed zs (if freed z then z ∷ fs else fs)

first-Linked :
    (next prev : List Pointer) (before : Pointer) (zs : List ℕ) (first : Pointer)
    → Linked next prev before zs first none
    → first ≡ first_of zs
unfolding Linked
first-Linked next prev before [] first l = l
first-Linked next prev before (z ∷ zs) first l = l.0

pub next-first :
    (s : VarLists) (ys : List ℕ) (z : ℕ) (zs fs : List ℕ)
    → Lists s (ys ++ z ∷ zs) fs
    → field_at s.links.next z ≡ first_of zs
unfolding Linked
next-first s ys z zs fs h =
    let parts =
      Linked-split s.links.next s.links.prev none ys z zs s.links.gc_vars none h.watched.chain in
    first-Linked s.links.next s.links.prev (some z) zs (field_at s.links.next z) (parts.1).2

set-status :
    (st : List ℕ) (i k v d : ℕ) → (k == i) ≡ false → get_or (set st i v) k d ≡ get_or st k d
set-status [] i k v d e = refl
set-status (x ∷ xs) zero zero v d e = absurd (ground (arith, e))
set-status (x ∷ xs) zero (suc k) v d e = refl
set-status (x ∷ xs) (suc i) zero v d e = refl
set-status (x ∷ xs) (suc i) (suc k) v d e = set-status xs i k v d (ground (arith, e))

other-is_freed :
    (s : VarLists) (x k : ℕ)
    → (k == x) ≡ false
    → is_freed (add_to_free x (record s { links = remove_from_gc x s.links })) k ≡ is_freed s k
unfolding add_to_free remove_from_gc
other-is_freed s x k e =
    ap (λ (t : ℕ). t == v_st_gc_free) (set-status s.links.status x k v_st_free v_st_free e)

another :
    (ys : List ℕ) (z : ℕ) (zs : List ℕ) (k : ℕ)
    → occurs z (ys ++ z ∷ zs) ≤ 1
    → 1 ≤ occurs k zs
    → (k == z) ≡ false
another ys z zs k h m = elim (Bool-cases (k == z)) [
  | inl e ↦
      let same : k ≡ z = ground (arith, e) in
      let n : 1 ≤ occurs z zs = subst (λ t. 1 ≤ occurs t zs) same m in
      let a = occurs-append z ys (z ∷ zs) in
      let b = at_head z zs in
      let c = head_alone z zs (omega (arith, a, h)) in absurd (omega (arith, c, n))
  | inr e ↦ e
]

-- One round of the loop.
pub moved_round :
    (fuel : ℕ) (s : VarLists) (z : ℕ) (zs : List ℕ)
    → field_at s.links.next z ≡ first_of zs
    → is_freed s z ≡ true
    → move_freed (suc fuel) (some z) s
      ≡ move_freed fuel
          (first_of zs)
          (add_to_free z (record s { links = remove_from_gc z s.links }))
unfolding move_freed move_var
moved_round fuel s z zs n e = rw (n, e) refl

pub kept_round :
    (fuel : ℕ) (s : VarLists) (z : ℕ) (zs : List ℕ)
    → field_at s.links.next z ≡ first_of zs
    → is_freed s z ≡ false
    → move_freed (suc fuel) (some z) s ≡ move_freed fuel (first_of zs) s
unfolding move_freed move_var
kept_round fuel s z zs n e = rw (n, e) refl

-- The loop from the vars `zs` on, behind the vars `ys` that it has passed.
move_freed-Lists :
    (freed : ℕ → Bool) (fuel : ℕ) (ys zs fs : List ℕ) (s : VarLists)
    → Lists s (ys ++ zs) fs
    → ((k : ℕ) → 1 ≤ occurs k zs → is_freed s k ≡ freed k)
    → length zs < fuel
    → (s' : VarLists) × (move_freed fuel (first_of zs) s ≡ some s')
      × Lists s' (ys ++ kept freed zs) (joined freed zs fs)
unfolding move_freed kept joined
move_freed-Lists freed zero ys zs fs s h f lt = absurd (omega arith)
move_freed-Lists freed (suc fuel) ys [] fs s h f lt = (s, refl, h)
move_freed-Lists freed (suc fuel) ys (z ∷ zs) fs s h f lt =
    let next = next-first s ys z zs fs h in
    let test = f z (at_head z zs) in
    elim (Bool-cases (freed z)) [
      | inl e ↦
          let s1 = add_to_free z (record s { links = remove_from_gc z s.links }) in
          let rest =
            move_freed-Lists freed fuel ys zs (z ∷ fs) s1 (moved-Lists s ys z zs fs h)
              (λ k m.
                other-is_freed s z k (another ys z zs k (h.watched.once z) m)
                ∙ f k (in_tail z k zs m))
              (omega (arith, lt)) in
          (rest.0, moved_round fuel s z zs next (test ∙ e) ∙ rest.1, rw e rest.2)
      | inr e ↦
          let join = append_assoc ys (z ∷ []) zs in
          let rest =
            move_freed-Lists freed fuel (ys ++ z ∷ []) zs fs s
              (subst (λ l. Lists s l fs) (sym join) h) (λ k m. f k (in_tail z k zs m))
              (omega (arith, lt)) in
          (
            rest.0,
            kept_round fuel s z zs next (test ∙ e) ∙ rest.1,
            rw e (
                subst (λ l. Lists rest.0 l (joined freed zs fs))
                  (append_assoc ys (z ∷ []) (kept freed zs)) rest.2),
          )
    ]

-- Where the list of the collector is sound, its head without a `prev` and its number right, and the free list is
-- sound and apart from it, the second step of gc_vars ends after one round for each var and one more. The
-- list of the collector then is sound with the vars that are not freed, in their order, and the free list has
-- those that are in front of the others, the last one first.
pub move_freed-Moves :
    (fuel : ℕ) (s : VarLists) (xs fs : List ℕ)
    → Lists s xs fs
    → length xs < fuel
    → (s' : VarLists) × (move_freed fuel s.links.gc_vars s ≡ some s')
      × Lists s' (kept (is_freed s) xs) (joined (is_freed s) xs fs)
move_freed-Moves fuel s xs fs h lt =
    let head = first-Linked s.links.next s.links.prev none xs s.links.gc_vars h.watched.chain in
    let r = move_freed-Lists (is_freed s) fuel [] xs fs s h (λ k m. refl) lt in
    (r.0, ap (λ v. move_freed fuel v s) head ∙ r.1, r.2)
