-- ===== src/Gc/Links/Refine.antt =====
-- add_to_gc and remove_from_gc of mario/mario.c as operations on the list of the vars.
use mario_js.Prelude.{
  ℕ, ◌+◌, ◌≤◌, ◌<◌, ◌≡◌, refl, sym, subst, ◌∙◌, ◌⊎◌, inl, inr, List, [], ◌∷◌, ◌++◌, length,
  length-append, length-set, set, ◌==◌, Bool-cases, none, some, u32, arith,
}
use mario_js.Gc.Links.{GcLinks, write_field, write_end, add_to_gc}
use mario_js.Gc.Links.Chains.{
  Linked, last_of, last_of-append, set-same, next-outside, prev-outside, Linked-append,
}
use mario_js.Gc.Links.Writes.{length-write_field, end-Linked}
use mario_js.Gc.Weak.Balance.{occurs, occurs-append}

-- The list of the collector is `xs`: linked in both directions, with its ends and its number, and no
-- var in it twice.
pub record Holds (s : GcLinks) (xs : List ℕ) : Type 0 where
  pub chain : Linked s.next s.prev none xs s.gc_vars none
  pub tail : s.gc_vars_tail ≡ last_of none xs
  pub once : (z : ℕ) → occurs z xs ≤ 1
  pub inside : (z : ℕ) → 1 ≤ occurs z xs → (z < length s.next) × (z < length s.prev)
  pub number : s.gc_vars_num ≡ length xs

occurs-single : (z x : ℕ) → (occurs z (x ∷ []) ≡ 0) ⊎ ((x ≡ z) × (occurs z (x ∷ []) ≡ 1))
unfolding occurs
occurs-single z x = elim (Bool-cases (x == z)) [
  | inl e ↦ inr (ground (arith, e), ground (arith, e))
  | inr e ↦ inl (ground (arith, e))
]

add-chain :
    (s : GcLinks) (xs : List ℕ) (var : ℕ)
    → Holds s xs
    → occurs var xs ≡ 0
    → var < length s.next
    → var < length s.prev
    → Linked
        (add_to_gc var s).next
        (add_to_gc var s).prev
        none
        (xs ++ var ∷ [])
        (add_to_gc var s).gc_vars
        none
unfolding add_to_gc Linked
add-chain s xs var h fresh in_next in_prev =
    let next1 = write_field s.next s.gc_vars_tail (some var) in
    let first1 = write_end s.gc_vars s.gc_vars_tail (some var) in
    let len = length-write_field s.next s.gc_vars_tail (some var) in
    let ended : Linked next1 s.prev none xs first1 (some var) =
      subst
        (λ t.
          Linked (write_field s.next t (some var)) s.prev none xs (write_end s.gc_vars t (some var))
            (some var))
        (sym h.tail)
        (end-Linked s.prev (some var) s.next xs s.gc_vars none h.once (λ z m. (h.inside z m).0)
          h.chain) in
    let kept =
      prev-outside (set next1 var none) s.prev var s.gc_vars_tail none xs first1 (some var) fresh
        (next-outside next1 s.prev var none none xs first1 (some var) fresh ended) in
    Linked-append (set next1 var none) (set s.prev var s.gc_vars_tail) none xs (var ∷ []) first1
      (some var) none kept
      (
        refl,
        set-same s.prev var s.gc_vars_tail in_prev ∙ h.tail,
        set-same next1 var none (omega (arith, len, in_next)),
      )

-- add_to_gc puts a var that is not on the list at its end, while the number of vars fits its counter.
pub add_to_gc-Holds :
    (s : GcLinks) (xs : List ℕ) (var : ℕ)
    → Holds s xs
    → occurs var xs ≡ 0
    → var < length s.next
    → var < length s.prev
    → length xs + 1 < u32
    → Holds (add_to_gc var s) (xs ++ var ∷ [])
unfolding add_to_gc
add_to_gc-Holds s xs var h fresh in_next in_prev small =
    let next1 = write_field s.next s.gc_vars_tail (some var) in
    let len = length-write_field s.next s.gc_vars_tail (some var) in
    record {
      chain = add-chain s xs var h fresh in_next in_prev;
      tail = sym (last_of-append none xs (var ∷ []));
      once = λ z.
          let a = occurs-append z xs (var ∷ []) in
          let o = h.once z in
          elim (occurs-single z var) [
            | inl e ↦ omega (arith, a, o, e)
            | inr e ↦
                let f : occurs z xs ≡ 0 = subst (λ k. occurs k xs ≡ 0) e.0 fresh in
                let g = e.1 in omega (arith, a, f, g)
          ];
      inside = λ z m.
          let a = occurs-append z xs (var ∷ []) in
          let l0 = length-set next1 var none in
          let l1 = length-set s.prev var s.gc_vars_tail in
          elim (occurs-single z var) [
            | inl e ↦
                let i = h.inside z (omega (arith, a, m, e)) in
                let i0 = i.0 in let i1 = i.1 in (omega (arith, l0, len, i0), omega (arith, l1, i1))
            | inr e ↦
                let same = e.0 in
                (omega (arith, l0, len, in_next, same), omega (arith, l1, in_prev, same))
          ];
      number =
          let l = length-append xs (var ∷ []) in let n = h.number in omega (arith, l, n, small);
    }
