-- ===== src/Gc/Links/Moved.antt =====
-- The lists behind the second step of gc_vars (mario/mario.c).
use mario_js.Prelude.{
  ℕ, ◌+◌, ◌≤◌, ◌≡◌, refl, sym, subst, false, List, [], ◌∷◌, length-set, set, ◌==◌, none, some,
  arith,
}
use mario_js.Gc.{Pointer}
use mario_js.Gc.Links.{GcLinks, write_field}
use mario_js.Gc.Links.Free.{VarLists}
use mario_js.Gc.Links.Chains.{field_at, set-other, next-outside}
use mario_js.Gc.Links.Writes.{length-write_field, prev-elsewhere, at_head}
use mario_js.Gc.Links.Refine.{Holds}
use mario_js.Gc.Weak.Balance.{occurs}

-- The free vars, from the first on.
unfoldable pub FreeChain : List Pointer → Pointer → List ℕ → Type 0
FreeChain next first [] = first ≡ none
FreeChain next first (f ∷ fs) = (first ≡ some f) × FreeChain next (field_at next f) fs

-- The two lists, which have no var in common.
pub record Lists (s : VarLists) (xs fs : List ℕ) : Type 0 where
  pub watched : Holds s.links xs
  pub free : FreeChain s.links.next s.free_var_buffer fs
  pub apart : (z : ℕ) → occurs z xs + occurs z fs ≤ 1

pub free-outside :
    (next : List Pointer) (i : ℕ) (v first : Pointer) (fs : List ℕ)
    → occurs i fs ≡ 0
    → FreeChain next first fs
    → FreeChain (set next i v) first fs
unfolding FreeChain occurs
free-outside next i v first [] h c = c
free-outside next i v first (f ∷ fs) h c =
    let other : (f == i) ≡ false = ground (arith, h) in
    (
      c.0,
      subst (λ q. FreeChain (set next i v) q fs) (sym (set-other next i f v other))
          (free-outside next i v (field_at next f) fs (ground (arith, h)) c.1),
    )

pub free-elsewhere :
    (next : List Pointer) (p v first : Pointer) (fs : List ℕ)
    → ((i : ℕ) → p ≡ some i → occurs i fs ≡ 0)
    → FreeChain next first fs
    → FreeChain (write_field next p v) first fs
free-elsewhere next none v first fs h c = c
free-elsewhere next (some i) v first fs h c = free-outside next i v first fs (h i refl) c

pub first-occurs :
    (next : List Pointer) (first : Pointer) (fs : List ℕ) (i : ℕ)
    → FreeChain next first fs
    → first ≡ some i
    → 1 ≤ occurs i fs
unfolding FreeChain
first-occurs next first [] i c e = absurd (ground (arith, c, e))
first-occurs next first (f ∷ fs) i c e =
    let same : f ≡ i = ground (arith, c.0, e) in
    subst (λ k. 1 ≤ occurs k (f ∷ fs)) same (at_head f fs)

-- Writes outside of the list leave it.
pub outside-Holds :
    (s : GcLinks) (xs : List ℕ) (x : ℕ) (v p w : Pointer) (st : List ℕ)
    → Holds s xs
    → occurs x xs ≡ 0
    → ((i : ℕ) → p ≡ some i → occurs i xs ≡ 0)
    → Holds (record s { status = st; prev = write_field s.prev p w; next = set s.next x v }) xs
outside-Holds s xs x v p w st h o e =
    let a = length-write_field s.prev p w in
    let b = length-set s.next x v in
    record {
      chain =
          prev-elsewhere (set s.next x v) s.prev p w none xs s.gc_vars none e
            (next-outside s.next s.prev x v none xs s.gc_vars none o h.chain);
      tail = h.tail;
      once = h.once;
      inside = λ z m.
          let i = h.inside z m in
          let i0 = i.0 in let i1 = i.1 in (omega (arith, b, i0), omega (arith, a, i1));
      number = h.number;
    }
