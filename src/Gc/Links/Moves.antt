-- ===== src/Gc/Links/Moves.antt =====
-- The second step of gc_vars (mario/mario.c) on the two lists of vars.
use mario_js.Prelude.{
  ℕ, ◌+◌, ◌<◌, ◌≡◌, refl, sym, subst, ◌∙◌, List, [], ◌∷◌, ◌++◌, length, length-set, set, none, some,
  arith,
}
use mario_js.Gc.{v_st_free}
use mario_js.Gc.Links.{write_field, remove_from_gc}
use mario_js.Gc.Links.Free.{VarLists, add_to_free}
use mario_js.Gc.Links.Chains.{field_at, Linked, set-same, Linked-split}
use mario_js.Gc.Links.Writes.{length-write_field, at_head}
use mario_js.Gc.Links.Remove.{last_case, remove_from_gc-Holds}
use mario_js.Gc.Links.Moved.{
  FreeChain, Lists, free-outside, free-elsewhere, first-occurs, outside-Holds,
}
use mario_js.Gc.Weak.Balance.{occurs, occurs-append}

occurs-middle :
    (z : ℕ) (ys : List ℕ) (x : ℕ) (zs : List ℕ)
    → occurs z (ys ++ x ∷ zs) ≡ occurs z (ys ++ zs) + occurs z (x ∷ [])
unfolding occurs
occurs-middle z ys x zs =
    let a = occurs-append z ys (x ∷ zs) in let b = occurs-append z ys zs in omega (arith, a, b)

occurs-head : (z x : ℕ) (fs : List ℕ) → occurs z (x ∷ fs) ≡ occurs z (x ∷ []) + occurs z fs
unfolding occurs
occurs-head z x fs = omega arith

module _ (s : VarLists) (ys : List ℕ) (x : ℕ) (zs fs : List ℕ)
    (lists : Lists s (ys ++ x ∷ zs) fs) where
  x-free : occurs x fs ≡ 0
  x-free =
      let a = lists.apart x in
      let b = occurs-middle x ys x zs in let c = at_head x [] in omega (arith, a, b, c)

  x-rest : occurs x (ys ++ zs) ≡ 0
  x-rest =
      let a = lists.apart x in
      let b = occurs-middle x ys x zs in let c = at_head x [] in omega (arith, a, b, c)

  before-free : (i : ℕ) → field_at s.links.prev x ≡ some i → occurs i fs ≡ 0
  unfolding Linked
  before-free i e =
      let h = lists.watched in
      let parts =
        Linked-split s.links.next s.links.prev none ys x zs s.links.gc_vars none h.chain in
      last_case ys i (sym (parts.1).1 ∙ e) (λ m.
        let a = lists.apart i in let b = occurs-append i ys (x ∷ zs) in omega (arith, a, b, m))

  removed-FreeChain : FreeChain (remove_from_gc x s.links).next s.free_var_buffer fs
  unfolding remove_from_gc
  removed-FreeChain =
      free-outside (write_field s.links.next (field_at s.links.prev x) (field_at s.links.next x)) x
        none s.free_var_buffer fs x-free
        (free-elsewhere s.links.next (field_at s.links.prev x) (field_at s.links.next x)
          s.free_var_buffer fs before-free lists.free)

  buffer-outside : (i : ℕ) → s.free_var_buffer ≡ some i → occurs i (ys ++ zs) ≡ 0
  buffer-outside i e =
      let m = first-occurs s.links.next s.free_var_buffer fs i lists.free e in
      let a = lists.apart i in let b = occurs-middle i ys x zs in omega (arith, a, b, m)

  x-inside : x < length (remove_from_gc x s.links).next
  unfolding remove_from_gc
  x-inside =
      let a = occurs-middle x ys x zs in
      let c = at_head x [] in
      let i = (lists.watched.inside x (omega (arith, a, c))).0 in
      let n = length-write_field s.links.next (field_at s.links.prev x) (field_at s.links.next x) in
      let k =
        length-set (write_field s.links.next (field_at s.links.prev x) (field_at s.links.next x)) x
          none in
      omega (arith, i, n, k)

  pub moved-Lists :
      Lists (add_to_free x (record s { links = remove_from_gc x s.links })) (ys ++ zs) (x ∷ fs)
  unfolding add_to_free FreeChain
  moved-Lists =
      let l = remove_from_gc x s.links in
      record {
        watched =
            outside-Holds l (ys ++ zs) x s.free_var_buffer s.free_var_buffer (some x)
              (set l.status x v_st_free) (remove_from_gc-Holds s.links ys x zs lists.watched) x-rest
              buffer-outside;
        free = (
          refl,
          subst (λ q. FreeChain (set l.next x s.free_var_buffer) q fs)
              (sym (set-same l.next x s.free_var_buffer x-inside))
              (free-outside l.next x s.free_var_buffer s.free_var_buffer fs x-free
                removed-FreeChain),
        );
        apart = λ z.
            let a = lists.apart z in
            let b = occurs-middle z ys x zs in let c = occurs-head z x fs in omega (arith, a, b, c);
      }
