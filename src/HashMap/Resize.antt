-- ===== src/HashMap/Resize.antt =====
-- The resize of the hash map of mario/mario.c, and where its entries stand afterwards.
use mathlib.Core.List.{flatten}
use mario_js.Prelude.{
  ℕ, zero, suc, ◌+◌, ◌<◌, ◌≡◌, ◌≢◌, refl, ap, subst, sym, ◌∙◌, Bool, Option-cases, inl, inr, List,
  [], ◌∷◌, ◌++◌, length, length-set, get_or, replicate, get_or-replicate, length-replicate,
  if◌then◌else◌, Option, none, some, arith,
}
use mario_js.HashMap.{Chain, same_key, find_entry, bucket_of, push_entry, rehash_chain, rehash}
use mario_js.HashMap.Keys.{eq_of_same_key, same_key_refl}
use mario_js.HashMap.Chains.{AllKeys, IsDistinct, or_else, find_entry-append, find_entry-AllKeys}
use mario_js.HashMap.Buckets.{
  IsPlaced, view, view-set, chain-IsPlaced, set-IsPlaced, length-flatten-set, bucket_of-lt,
}

AllKeys-map {ℓ κ μ} :
    {V : Type ℓ} (P : List ℕ → Type κ) (Q : List ℕ → Type μ) (c : Chain V)
    → ((k : List ℕ) → P k → Q k)
    → AllKeys P c
    → AllKeys Q c
AllKeys-map P Q [] f h = tt
AllKeys-map P Q (e ∷ c) f h = (f e.0 h.0, AllKeys-map P Q c f h.1)

module _ {ℓ} {V : Type ℓ} (cs : Bool) where
  -- Entries in their buckets, with their number.
  pub record Holds (bs : List (Chain V)) (capacity entries : ℕ) : Type ℓ where
    pub width : length bs ≡ capacity
    pub placed : IsPlaced cs capacity 0 bs
    pub count : length (flatten bs) ≡ entries

  -- A chain does not have the keys of another bucket.
  absent_elsewhere :
      (q : List ℕ) (n i : ℕ) (c : Chain V)
      → AllKeys (λ k. bucket_of cs k n ≡ i) c
      → bucket_of cs q n ≢ i
      → find_entry q c ≡ none
  absent_elsewhere q n i c h ne = elim (Option-cases (find_entry q c)) [
    | inl e ↦ e
    | inr (v, e) ↦ absurd (ne (find_entry-AllKeys (λ k. bucket_of cs k n ≡ i) q v c h e))
  ]

  flatten_below :
      (bs : List (Chain V)) (q : List ℕ) (n i : ℕ)
      → IsPlaced cs n i bs
      → bucket_of cs q n < i
      → find_entry q (flatten bs) ≡ none
  unfolding flatten find_entry
  flatten_below [] q n i h lt = refl
  flatten_below (c ∷ bs) q n i h lt =
      find_entry-append q c (flatten bs)
      ∙ rw (absent_elsewhere q n i c h.0 (omega arith))
          (flatten_below bs q n (suc i) h.2 (omega arith))

  -- All the entries in a row give what the bucket of the key gives.
  find_entry-flatten :
      (bs : List (Chain V)) (q : List ℕ) (n i j : ℕ)
      → IsPlaced cs n i bs
      → i + j ≡ bucket_of cs q n
      → find_entry q (flatten bs) ≡ find_entry q (get_or bs j [])
  unfolding flatten
  find_entry-flatten [] q n i j h e = refl
  find_entry-flatten (c ∷ bs) q n i zero h e =
      find_entry-append q c (flatten bs)
      ∙ rw (flatten_below bs q n (suc i) h.2 (omega arith)) (or_else_none (find_entry q c))
    where
      or_else_none : (o : Option V) → or_else o none ≡ o
      or_else_none none = refl
      or_else_none (some v) = refl
  find_entry-flatten (c ∷ bs) q n i (suc j) h e =
      find_entry-append q c (flatten bs)
      ∙ rw (absent_elsewhere q n i c h.0 (omega arith))
          (find_entry-flatten bs q n (suc i) j h.2 (omega arith))

  append-IsDistinct :
      (c d : Chain V)
      → IsDistinct c
      → IsDistinct d
      → AllKeys (λ k. find_entry k d ≡ none) c
      → IsDistinct (c ++ d)
  append-IsDistinct [] d h k p = k
  append-IsDistinct (e ∷ c) d h k p =
      (find_entry-append e.0 c d ∙ rw h.0 p.0, append-IsDistinct c d h.1 k p.1)

  flatten-IsDistinct :
      (bs : List (Chain V)) (n i : ℕ) → IsPlaced cs n i bs → IsDistinct (flatten bs)
  unfolding flatten
  flatten-IsDistinct [] n i h = tt
  flatten-IsDistinct (c ∷ bs) n i h =
      append-IsDistinct c (flatten bs) h.1 (flatten-IsDistinct bs n (suc i) h.2)
        (AllKeys-map _ _ c (λ k e. flatten_below bs k n (suc i) h.2 (omega (arith, e))) h.0)

  -- Linking an absent key in its bucket.
  pub push_entry-Holds :
      (bs : List (Chain V)) (k : List ℕ) (v : V) (n t : ℕ)
      → 0 < n
      → Holds bs n t
      → view cs bs k ≡ none
      → Holds (push_entry cs bs k v) n (t + 1)
        × ((q : List ℕ)
            → view cs (push_entry cs bs k v) q ≡ (if same_key k q then some v else view cs bs q))
  unfolding push_entry view find_entry
  push_entry-Holds bs k v n t pos h absent =
      let i = bucket_of cs k (length bs) in
      let old = get_or bs i [] in
      let home = ap (λ t. bucket_of cs k t) h.width in
      let (keys, once) =
        chain-IsPlaced cs bs n 0 (bucket_of cs k (length bs)) _ (omega arith) h.placed in
      (
        record {
          width = length-set bs i _ ∙ h.width;
          placed =
              set-IsPlaced cs bs ((k, v) ∷ old) n 0 i i (omega arith) h.placed (sym home, keys)
                (absent, once);
          count = omega (
            arith,
            h.count,
            length-flatten-set cs bs i ((k, v) ∷ old)
                (bucket_of-lt cs k (length bs) (omega (arith, h.width))),
          );
        },
        view-set cs bs k ((k, v) ∷ old) (some v) (omega (arith, h.width)) (λ q. refl),
      )

  rehash_chain-Holds :
      (es : Chain V) (bs : List (Chain V)) (n t : ℕ)
      → 0 < n
      → Holds bs n t
      → IsDistinct es
      → ((q : List ℕ) → find_entry q es ≢ none → view cs bs q ≡ none)
      → Holds (rehash_chain cs es bs) n (t + length es)
        × ((q : List ℕ)
            → view cs (rehash_chain cs es bs) q ≡ or_else (find_entry q es) (view cs bs q))
  unfolding rehash_chain find_entry
  rehash_chain-Holds [] bs n t pos h d apart =
      (subst (Holds bs n) {x = t} {y = t + 0} (omega arith) h, λ q. refl)
  rehash_chain-Holds ((k, v) ∷ es) bs n t pos h d apart =
      let (h', v') =
        push_entry-Holds bs k v n t pos h (apart k (rw (same_key_refl k) (λ e. some≢none e))) in
      let (hr, vr) =
        rehash_chain-Holds es (push_entry cs bs k v) n (t + 1) pos h' d.1
          (λ q f. ground (arith, v' q, apart q, eq_of_same_key k q, d.0, f)) in
      (
        subst (Holds (rehash_chain cs es (push_entry cs bs k v)) n) {y = t + suc (length es)}
            (omega arith) hr,
        λ q. ground (arith, vr q, v' q, eq_of_same_key k q, d.0),
      )
    where
      some≢none : some v ≡ none → ⊥
      some≢none e = cc

  rehash_chain-append :
      (c d : Chain V) (bs : List (Chain V))
      → rehash_chain cs (c ++ d) bs ≡ rehash_chain cs d (rehash_chain cs c bs)
  unfolding rehash_chain
  rehash_chain-append [] d bs = refl
  rehash_chain-append ((k, v) ∷ c) d bs = rehash_chain-append c d (push_entry cs bs k v)

  rehash-flatten : (bs new : List (Chain V)) → rehash cs bs new ≡ rehash_chain cs (flatten bs) new
  unfolding rehash flatten
  rehash-flatten [] new = refl
  rehash-flatten (c ∷ bs) new =
      rehash-flatten bs (rehash_chain cs c new) ∙ sym (rehash_chain-append c (flatten bs) new)

  pub empty-Holds :
      (n : ℕ)
      → Holds (replicate n []) n 0
        × ((q : List ℕ) → view cs (replicate {A = Chain V} n []) q ≡ none)
  unfolding view find_entry flatten
  empty-Holds n = (
    record { width = length-replicate n []; placed = placed n 0; count = counted n },
    λ q. rw (
        get_or-replicate {A = Chain V} n (bucket_of cs q (length (replicate {A = Chain V} n [])))
          []),
  )
    where
      placed : (m i : ℕ) → IsPlaced cs n i (replicate {A = Chain V} m [])
      placed zero i = tt
      placed (suc m) i = (tt, tt, placed m (suc i))

      counted : (m : ℕ) → length (flatten {A = List ℕ × V} (replicate m [])) ≡ 0
      counted zero = refl
      counted (suc m) = counted m

  -- Rehashing into a fresh array of `m` buckets.
  pub rehash-Holds :
      (bs : List (Chain V)) (n t m : ℕ)
      → 0 < m
      → Holds bs n t
      → Holds (rehash cs bs (replicate m [])) m t
        × ((q : List ℕ) → view cs (rehash cs bs (replicate m [])) q ≡ view cs bs q)
  rehash-Holds bs n t m pos h =
      let (empty, none_yet) = empty-Holds m in
      let (held, seen) =
        rehash_chain-Holds (flatten bs) (replicate m []) m 0 pos empty
          (flatten-IsDistinct bs n 0 h.placed) (λ q found. none_yet q) in
      rw rehash-flatten (
        subst (Holds (rehash_chain cs (flatten bs) (replicate m [])) m) {y = t}
            (omega (arith, h.count)) held,
        λ q. seen q ∙ ap (or_else (find_entry q (flatten bs))) (none_yet q) ∙ flatten-view q,
      )
    where
      or_else_none : (o : Option V) → or_else o none ≡ o
      or_else_none none = refl
      or_else_none (some v) = refl

      flatten-view : (q : List ℕ) → or_else (find_entry q (flatten bs)) none ≡ view cs bs q
      flatten-view q =
          or_else_none (find_entry q (flatten bs))
          ∙ find_entry-flatten bs q n 0 (bucket_of cs q n) h.placed (omega arith)
          ∙ unfold view in ap (λ t. find_entry q (get_or bs (bucket_of cs q t) [])) (sym h.width)
