-- ===== src/Gc/Links/Remove.antt =====
-- remove_from_gc of mario/mario.c as an operation on the list of the vars.
use mario_js.Prelude.{
  ℕ, ◌+◌, ◌≤◌, ◌<◌, ◌≡◌, sym, ap, subst, ◌∙◌, inl, inr, List, [], ◌∷◌, ◌++◌, length, length-append,
  length-set, set, ltb, Bool-cases, none, some, arith,
}
use mario_js.Gc.{Pointer}
use mario_js.Gc.Links.{GcLinks, write_field, write_end, remove_from_gc}
use mario_js.Gc.Links.Chains.{
  field_at, Linked, last_of, last_of-append, last_of-occurs, next-outside, prev-outside,
  Linked-append, Linked-split,
}
use mario_js.Gc.Links.Writes.{
  length-write_field, next-elsewhere, prev-elsewhere, relink-Linked, tail-once, at_head, in_tail,
  head_alone, end-Linked,
}
use mario_js.Gc.Weak.Balance.{occurs, occurs-append}
use mario_js.Gc.Links.Refine.{Holds}

some_value : (p : Pointer) (a b : ℕ) → p ≡ some a → p ≡ some b → a ≡ b
some_value p a b e f = ground (arith, e, f)

pub last_case :
    (ys : List ℕ) (z : ℕ) → last_of none ys ≡ some z → {P : Type 0} → (1 ≤ occurs z ys → P) → P
last_case [] z e f = absurd (ground (arith, e))
last_case (y ∷ ys) z e f = f (last_of-occurs none y ys z e)

first_case :
    (next prev : List Pointer) (before : Pointer) (zs : List ℕ) (first : Pointer) (i : ℕ)
    → Linked next prev before zs first none
    → first ≡ some i
    → 1 ≤ occurs i zs
unfolding Linked
first_case next prev before [] first i l e = absurd (ground (arith, l, e))
first_case next prev before (n ∷ zs) first i l e =
    subst (λ k. 1 ≤ occurs k (n ∷ zs)) (some_value first n i l.0 e) (at_head n zs)

module _ (ys : List ℕ) (x : ℕ) (zs : List ℕ) (once : (z : ℕ) → occurs z (ys ++ x ∷ zs) ≤ 1) where
  sides : (z : ℕ) → occurs z ys + occurs z (x ∷ zs) ≤ 1
  sides z = let a = occurs-append z ys (x ∷ zs) in let o = once z in omega (arith, a, o)

  x-outside : (occurs x ys ≡ 0) × (occurs x zs ≡ 0)
  x-outside =
      let s = sides x in
      let h = at_head x zs in (omega (arith, s, h), head_alone x zs (omega (arith, s)))

  zs-outside : (z : ℕ) → 1 ≤ occurs z ys → occurs z zs ≡ 0
  zs-outside z h = elim (Bool-cases (ltb 0 (occurs z zs))) [
    | inl e ↦
        let m = in_tail x z zs (ground (arith, e)) in
        let s = sides z in absurd (omega (arith, s, m, h))
    | inr e ↦ ground (arith, e)
  ]

  ys-outside : (z : ℕ) → 1 ≤ occurs z zs → occurs z ys ≡ 0
  ys-outside z h = let m = in_tail x z zs h in let s = sides z in omega (arith, s, m)

  last-ys : (z : ℕ) → last_of none ys ≡ some z → occurs z zs ≡ 0
  last-ys z e = last_case ys z e (zs-outside z)

  first-zs :
      (next prev : List Pointer) (before first : Pointer) (i : ℕ)
      → Linked next prev before zs first none
      → first ≡ some i
      → occurs i ys ≡ 0
  first-zs next prev before first i l e = ys-outside i (first_case next prev before zs first i l e)

remove-chain :
    (s : GcLinks) (ys : List ℕ) (x : ℕ) (zs : List ℕ)
    → Holds s (ys ++ x ∷ zs)
    → Linked
        (remove_from_gc x s).next
        (remove_from_gc x s).prev
        none
        (ys ++ zs)
        (remove_from_gc x s).gc_vars
        none
unfolding remove_from_gc Linked
remove-chain s ys x zs h =
    let before = field_at s.prev x in
    let after = field_at s.next x in
    let parts = Linked-split s.next s.prev none ys x zs s.gc_vars none h.chain in
    let hangs : before ≡ last_of none ys = (parts.1).1 in
    let out = x-outside ys x zs h.once in
    let next1 = write_field s.next before after in
    let prev1 = write_field s.prev after before in
    let first1 = write_end s.gc_vars before after in
    let once_ys : (z : ℕ) → occurs z ys ≤ 1 =
      λ z. let t = sides ys x zs h.once z in omega (arith, t) in
    let once_zs : (z : ℕ) → occurs z zs ≤ 1 =
      tail-once x zs (λ z. let t = sides ys x zs h.once z in omega (arith, t)) in
    let in_front : (z : ℕ) → 1 ≤ occurs z ys → (z < length s.next) × (z < length s.prev) =
      λ z m. h.inside z (let a = occurs-append z ys (x ∷ zs) in omega (arith, a, m)) in
    let in_rest : (z : ℕ) → 1 ≤ occurs z zs → (z < length s.next) × (z < length s.prev) = λ z m.
      h.inside z
        (let a = occurs-append z ys (x ∷ zs) in let b = in_tail x z zs m in omega (arith, a, b)) in
    let front : Linked next1 s.prev none ys first1 after =
      subst
        (λ p.
          Linked (write_field s.next p after) s.prev none ys (write_end s.gc_vars p after) after)
        (sym hangs)
        (end-Linked s.prev after s.next ys s.gc_vars (some x) once_ys (λ z m. (in_front z m).0)
          parts.0) in
    let rest0 : Linked next1 s.prev (some x) zs after none =
      next-elsewhere s.next s.prev before after (some x) zs after none
        (λ i e. last-ys ys x zs h.once i (sym hangs ∙ e)) (parts.1).2 in
    let rest : Linked next1 prev1 before zs after none =
      relink-Linked next1 s.prev (some x) before zs after once_zs (λ z m. (in_rest z m).1) rest0 in
    let front1 : Linked next1 prev1 none ys first1 after =
      prev-elsewhere next1 s.prev after before none ys first1 after
        (λ i e. first-zs ys x zs h.once next1 s.prev (some x) after i rest0 e) front in
    let cleared : Linked (set next1 x none) (set prev1 x none) none ys first1 after =
      prev-outside (set next1 x none) prev1 x none none ys first1 after out.0
        (next-outside next1 prev1 x none none ys first1 after out.0 front1) in
    let others : Linked (set next1 x none) (set prev1 x none) before zs after none =
      prev-outside (set next1 x none) prev1 x none before zs after none out.1
        (next-outside next1 prev1 x none before zs after none out.1 rest) in
    Linked-append (set next1 x none) (set prev1 x none) none ys zs first1 after none cleared
      (subst (λ p. Linked (set next1 x none) (set prev1 x none) p zs after none) hangs others)

tail_case :
    (next prev : List Pointer) (x : ℕ) (front after tail : Pointer) (zs : List ℕ)
    → Linked next prev (some x) zs after none
    → tail ≡ last_of (some x) zs
    → write_end tail after front ≡ last_of front zs
unfolding Linked
tail_case next prev x front after tail [] l e = ap (λ p. write_end tail p front) l
tail_case next prev x front after tail (n ∷ zs) l e = ap (λ p. write_end tail p front) l.0 ∙ e

remove-tail :
    (s : GcLinks) (ys : List ℕ) (x : ℕ) (zs : List ℕ)
    → Holds s (ys ++ x ∷ zs)
    → (remove_from_gc x s).gc_vars_tail ≡ last_of none (ys ++ zs)
unfolding remove_from_gc Linked
remove-tail s ys x zs h =
    let parts = Linked-split s.next s.prev none ys x zs s.gc_vars none h.chain in
    ap (λ p. write_end s.gc_vars_tail (field_at s.next x) p) (parts.1).1
    ∙ tail_case s.next s.prev x (last_of none ys) (field_at s.next x) s.gc_vars_tail zs (parts.1).2
        (h.tail ∙ last_of-append none ys (x ∷ zs))
    ∙ sym (last_of-append none ys zs)

removed-occurs :
    (ys : List ℕ) (x : ℕ) (zs : List ℕ) (z : ℕ) → occurs z (ys ++ zs) ≤ occurs z (ys ++ x ∷ zs)
unfolding occurs
removed-occurs ys x zs z =
    let a = occurs-append z ys zs in let b = occurs-append z ys (x ∷ zs) in omega (arith, a, b)

-- remove_from_gc takes a var off the list, wherever on it the var stands, and the others stay in order.
pub remove_from_gc-Holds :
    (s : GcLinks) (ys : List ℕ) (var : ℕ) (zs : List ℕ)
    → Holds s (ys ++ var ∷ zs)
    → Holds (remove_from_gc var s) (ys ++ zs)
unfolding remove_from_gc
remove_from_gc-Holds s ys x zs h =
    let before = field_at s.prev x in
    let after = field_at s.next x in
    let n0 = length-set (write_field s.next before after) x none in
    let n1 = length-write_field s.next before after in
    let p0 = length-set (write_field s.prev after before) x none in
    let p1 = length-write_field s.prev after before in
    record {
      chain = remove-chain s ys x zs h;
      tail = remove-tail s ys x zs h;
      once = λ z. let a = removed-occurs ys x zs z in let o = h.once z in omega (arith, a, o);
      inside = λ z m.
          let a = removed-occurs ys x zs z in
          let i = h.inside z (omega (arith, a, m)) in
          let i0 = i.0 in let i1 = i.1 in (omega (arith, n0, n1, i0), omega (arith, p0, p1, i1));
      number =
          let a = length-append ys zs in
          let b = length-append ys (x ∷ zs) in let n = h.number in omega (arith, a, b, n);
    }
