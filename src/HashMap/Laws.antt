-- ===== src/HashMap/Laws.antt =====
-- The hash map of mario/mario.c as a finite map from keys to values: its validity and its operations.
use mathlib.Core.List.{flatten}
use mario_js.Prelude.{
  ℕ, zero, ◌+◌, ◌-◌, ◌*◌, ◌%◌, ◌<◌, ◌≡◌, refl, ap, subst, sym, ◌∙◌, Bool, true, false, Bool-cases,
  Option-cases, inl, inr, List, [], ◌∷◌, length, length-set, get_or, set, replicate, ltb, ◌==◌,
  if◌then◌else◌, Option, none, some, arith, u32,
}
use mario_js.HashMap.{
  Chain, HashMap, same_key, find_entry, update_entry, unlink_entry, bucket_of, push_entry, grow,
  rehash, hash_map_init, hash_map_ensure_buckets, insert_found, insert_entry, remove_found,
  link_fresh, hash_map_add, hash_map_add_fresh, hash_map_get, hash_map_remove, hash_map_clean,
}
use mario_js.HashMap.Keys.{eq_of_same_key}
use mario_js.HashMap.Chains.{
  find_entry-update, find_entry-unlink, update_entry-IsDistinct, unlink_entry-IsDistinct,
  update_entry-AllKeys, unlink_entry-AllKeys, length-update_entry, length-unlink_entry,
}
use mario_js.HashMap.Buckets.{
  IsPlaced, view, view-set, chain-IsPlaced, set-IsPlaced, length-flatten-set, bucket_of-lt,
}
use mario_js.HashMap.Resize.{push_entry-Holds, rehash-Holds, empty-Holds}

abbrev pub is_none {ℓ} : {V : Type ℓ} → Option V → Bool
is_none none = true
is_none (some v) = false

module _ {ℓ} {V : Type ℓ} (cs : Bool) where
  -- Every entry stands in the bucket of its key, no key occurs twice, and `size` counts the entries.
  -- A map with no buckets has no entries.
  pub record IsValid (m : HashMap V) : Type ℓ where
    pub placed : IsPlaced cs (length m.buckets) 0 m.buckets
    pub counted : length (flatten m.buckets) ≡ m.size

  -- Room for one more entry and one more doubling in `uint32_t`.
  pub record HasRoom (m : HashMap V) : Type 0 where
    pub entries : m.size < u32 - 1
    pub doubles : length m.buckets * 2 < u32

  get-view :
      (m : HashMap V) (q : List ℕ)
      → 0 < length m.buckets
      → hash_map_get cs m q ≡ view cs m.buckets q
  unfolding hash_map_get view
  get-view m q h = ground arith

  -- The map `m'` holds what `m` holds, in at least one bucket.
  record Readied (m m' : HashMap V) : Type ℓ where
    valid : IsValid m'
    room : m'.size < u32 - 1
    some_bucket : 0 < length m'.buckets
    same_size : m'.size ≡ m.size
    same : (q : List ℕ) → view cs m'.buckets q ≡ hash_map_get cs m q

  init-Readied : (m : HashMap V) → IsValid m → length m.buckets ≡ 0 → Readied m hash_map_init
  unfolding hash_map_init hash_map_get
  init-Readied m v e =
      let (h, none_yet) = empty-Holds {V = V} cs 16 in
      record {
        valid = record { placed = h.placed; counted = h.count };
        room = omega arith;
        some_bucket = omega arith;
        same_size = no_entries m.buckets e ∙ v.counted;
        same = λ q. none_yet q ∙ ground arith;
      }
    where
      no_entries : (bs : List (Chain V)) → length bs ≡ 0 → zero ≡ length (flatten bs)
      no_entries [] h = unfold flatten in refl
      no_entries (b ∷ bs) h = absurd (omega arith)

  ensure-Readied : (m : HashMap V) → IsValid m → HasRoom m → Readied m (hash_map_ensure_buckets m)
  unfolding hash_map_ensure_buckets
  ensure-Readied m v r = elim (Bool-cases (length m.buckets == 0)) [
    | inl e ↦ rw e (init-Readied m v (ground arith))
    | inr e ↦ rw e (record {
      valid = v;
      room = r.entries;
      some_bucket = ground arith;
      same_size = refl;
      same = λ q. sym (get-view m q (ground arith));
    })
  ]

  grow-Readied :
      (m m' : HashMap V) → Readied m m' → length m'.buckets * 2 < u32 → Readied m (grow cs m')
  unfolding grow
  grow-Readied m m' r lt =
      let n = length m'.buckets in
      elim (Bool-cases (ltb (n * 3 % u32) (m'.size * 4 % u32))) [
        | inr e ↦ rw e r
        | inl e ↦
            let pos : 0 < n * 2 % u32 = omega (arith, r.some_bucket) in
            let (h, seen) =
              rehash-Holds cs m'.buckets n m'.size (n * 2 % u32) pos
                (record { width = refl; placed = r.valid.placed; count = r.valid.counted }) in
            rw e (record {
              valid = record {
                placed =
                    subst
                      (λ t.
                        IsPlaced cs t 0
                          (rehash cs m'.buckets (replicate {A = Chain V} (n * 2 % u32) [])))
                      (sym h.width) h.placed;
                counted = h.count;
              };
              room = r.room;
              some_bucket = omega (arith, h.width);
              same_size = r.same_size;
              same = λ q. seen q ∙ r.same q;
            })
      ]

  -- What `m'` holds after `v` was stored under `k` in `m`, or what was there removed.
  pub record Updates (m m' : HashMap V) (k : List ℕ) (v : Option V) : Type ℓ where
    pub valid : IsValid m'
    pub lookups :
        (q : List ℕ) → hash_map_get cs m' q ≡ (if same_key k q then v else hash_map_get cs m q)

  link-Updates :
      (m m' : HashMap V) (k : List ℕ) (v : V)
      → Readied m m'
      → view cs m'.buckets k ≡ none
      → Updates m (link_fresh cs m' k v) k (some v) × ((link_fresh cs m' k v).size ≡ m.size + 1)
  unfolding link_fresh
  link-Updates m m' k v r absent =
      let n = length m'.buckets in
      let (h, seen) =
        push_entry-Holds cs m'.buckets k v n m'.size r.some_bucket
          (record { width = refl; placed = r.valid.placed; count = r.valid.counted }) absent in
      let bs : List (Chain V) = push_entry cs m'.buckets k v in
      (
        record {
          valid = record {
            placed = subst (λ t. IsPlaced cs t 0 bs) (sym h.width) h.placed;
            counted = omega (arith, h.count, r.room);
          };
          lookups = λ q.
              get-view (link_fresh cs m' k v) q (omega (arith, h.width, r.some_bucket))
              ∙ seen q
              ∙ ap (λ t. if same_key k q then some v else t) (r.same q);
        },
        omega (arith, r.room, r.same_size),
      )

  update-Updates :
      (m m' : HashMap V) (k : List ℕ) (v old : V)
      → Readied m m'
      → find_entry k (get_or m'.buckets (bucket_of cs k (length m'.buckets)) []) ≡ some old
      → Updates m
          (record m' {
            buckets =
                set m'.buckets
                  (bucket_of cs k (length m'.buckets))
                  (update_entry k v (get_or m'.buckets (bucket_of cs k (length m'.buckets)) []));
          })
          k
          (some v)
  update-Updates m m' k v old r found =
      let n = length m'.buckets in
      let i = bucket_of cs k n in
      let chain = get_or m'.buckets i [] in
      let new = update_entry k v chain in
      let lt = bucket_of-lt cs k n r.some_bucket in
      let (keys, once) = chain-IsPlaced cs m'.buckets n 0 i i (omega arith) r.valid.placed in
      let width = length-set m'.buckets i new in
      record {
        valid = record {
          placed =
              subst (λ t. IsPlaced cs t 0 (set m'.buckets i new)) (sym width)
                (set-IsPlaced cs m'.buckets new n 0 i i (omega arith) r.valid.placed
                  (update_entry-AllKeys (λ q. bucket_of cs q n ≡ i) k v chain keys)
                  (update_entry-IsDistinct k v chain once));
          counted = omega (
            arith,
            length-flatten-set cs m'.buckets i new lt,
            length-update_entry k v chain,
            r.valid.counted,
          );
        };
        lookups = λ q.
            get-view (record m' { buckets = set m'.buckets i new }) q
              (omega (arith, width, r.some_bucket))
            ∙ view-set cs m'.buckets k new (some v) r.some_bucket
                (λ p. find_entry-update p k v old chain found) q
            ∙ ap (λ t. if same_key k q then some v else t) (r.same q);
      }

  insert-Updates :
      (m m' : HashMap V) (k : List ℕ) (v : V)
      → Readied m m'
      → Updates m (insert_entry cs m' k v) k (some v)
        × ((insert_entry cs m' k v).size
            ≡ (if is_none (hash_map_get cs m k) then m.size + 1 else m.size))
  unfolding insert_entry insert_found
  insert-Updates m m' k v r =
      let i = bucket_of cs k (length m'.buckets) in
      elim (Option-cases (find_entry k (get_or m'.buckets i []))) [
        | inl e ↦
            let seen : hash_map_get cs m k ≡ none = sym (r.same k) ∙ unfold view in e in
            let (u, size) = link-Updates m m' k v r (unfold view in e) in rw (e, seen) (u, size)
        | inr (old, e) ↦
            let seen : hash_map_get cs m k ≡ some old = sym (r.same k) ∙ unfold view in e in
            rw (e, seen) (update-Updates m m' k v old r e, r.same_size)
      ]

  add-Readied :
      (m : HashMap V) → IsValid m → HasRoom m → Readied m (grow cs (hash_map_ensure_buckets m))
  unfolding hash_map_ensure_buckets hash_map_init
  add-Readied m v r = grow-Readied m _ (ensure-Readied m v r) (ground (arith, r.doubles))

  -- hash_map_add on a valid map with room gives a valid map, in which the key has the value, every
  -- other key has what it had, and the size has grown by one exactly if the key was absent.
  pub hash_map_add-Updates :
      (m : HashMap V) (k : List ℕ) (v : V)
      → IsValid m
      → HasRoom m
      → Updates m (hash_map_add cs m k v) k (some v)
        × ((hash_map_add cs m k v).size
            ≡ (if is_none (hash_map_get cs m k) then m.size + 1 else m.size))
  unfolding hash_map_add
  hash_map_add-Updates m k v w r = insert-Updates m _ k v (add-Readied m w r)

  -- For a key that the map does not hold, hash_map_add_fresh does what hash_map_add does.
  pub hash_map_add_fresh-eq-add :
      (m : HashMap V) (k : List ℕ) (v : V)
      → IsValid m
      → HasRoom m
      → hash_map_get cs m k ≡ none
      → hash_map_add_fresh cs m k v ≡ hash_map_add cs m k v
  unfolding hash_map_add hash_map_add_fresh insert_entry
  hash_map_add_fresh-eq-add m k v w r absent =
      let ready = add-Readied m w r in
      let bs = (grow cs (hash_map_ensure_buckets m)).buckets in
      let e : find_entry k (get_or bs (bucket_of cs k (length bs)) []) ≡ none =
        unfold view in (ready.same k ∙ absent) in
      rw e

  remove-found :
      (m : HashMap V) (k : List ℕ) (v : V)
      → IsValid m
      → 0 < length m.buckets
      → m.size < u32
      → find_entry k (get_or m.buckets (bucket_of cs k (length m.buckets)) []) ≡ some v
      → Updates m (remove_found cs (some v) m k).0 k none
        × ((remove_found cs (some v) m k).0.size + 1 ≡ m.size)
  unfolding remove_found
  remove-found m k v w pos bound found =
      let n = length m.buckets in
      let i = bucket_of cs k n in
      let chain = get_or m.buckets i [] in
      let new = unlink_entry k chain in
      let lt = bucket_of-lt cs k n pos in
      let (keys, once) = chain-IsPlaced cs m.buckets n 0 i i (omega arith) w.placed in
      let width = length-set m.buckets i new in
      let counts : length (flatten (set m.buckets i new)) + 1 ≡ m.size = omega (
        arith,
        length-flatten-set cs m.buckets i new lt,
        length-unlink_entry k v chain found,
        w.counted,
      ) in
      (
        record {
          valid = record {
            placed =
                subst (λ t. IsPlaced cs t 0 (set m.buckets i new)) (sym width)
                  (set-IsPlaced cs m.buckets new n 0 i i (omega arith) w.placed
                    (unlink_entry-AllKeys (λ q. bucket_of cs q n ≡ i) k chain keys)
                    (unlink_entry-IsDistinct k chain once));
            counted = omega (arith, counts, bound);
          };
          lookups = λ q.
              get-view (remove_found cs (some v) m k).0 q (omega (arith, width, pos))
              ∙ view-set cs m.buckets k new none pos (λ p. find_entry-unlink p k chain once) q
              ∙ ap (λ t. if same_key k q then none else t) (sym (get-view m q pos));
        },
        omega (arith, counts, bound),
      )

  nothing-Updates :
      (m : HashMap V) (k : List ℕ) → IsValid m → hash_map_get cs m k ≡ none → Updates m m k none
  nothing-Updates m k w seen = record {
    valid = w;
    lookups = λ q. elim (Bool-cases (same_key k q)) [
      | inl e ↦ rw e (ap (hash_map_get cs m) (sym (eq_of_same_key k q e)) ∙ seen)
      | inr e ↦ rw e
    ];
  }

  -- hash_map_remove on a valid map returns what the key has, and gives a valid map in which the key
  -- has nothing, every other key has what it had, and the size is one less exactly if the key was
  -- there.
  pub hash_map_remove-Updates :
      (m : HashMap V) (k : List ℕ)
      → IsValid m
      → m.size < u32
      → ((hash_map_remove cs m k).1 ≡ hash_map_get cs m k)
        × Updates m (hash_map_remove cs m k).0 k none
        × ((hash_map_remove cs m k).0.size + (if is_none (hash_map_get cs m k) then 0 else 1)
            ≡ m.size)
  unfolding hash_map_remove remove_found
  hash_map_remove-Updates m k w bound = elim (Bool-cases (length m.buckets == 0)) [
    | inl e ↦
        let seen : hash_map_get cs m k ≡ none = unfold hash_map_get in rw e in
        rw (e, seen) (refl, nothing-Updates m k w seen, omega arith)
    | inr e ↦
        let pos : 0 < length m.buckets = ground arith in
        let bs = m.buckets in
        elim (Option-cases (find_entry k (get_or bs (bucket_of cs k (length bs)) []))) [
          | inl f ↦
              let seen : hash_map_get cs m k ≡ none = unfold hash_map_get in rw (e, f) in
              rw (e, f, seen) (refl, nothing-Updates m k w seen, omega arith)
          | inr (v, f) ↦
              let (u, size) = remove-found m k v w pos bound f in
              let seen : hash_map_get cs m k ≡ some v = unfold hash_map_get in rw (e, f) in
              rw (e, f, seen) (refl, u, size)
        ]
  ]

  -- hash_map_clean leaves a valid map without buckets, of size 0, in which no key has a value; the
  -- entries that it frees are as many as the map counted.
  pub hash_map_clean-empties :
      (m : HashMap V)
      → IsValid m
      → IsValid (hash_map_clean m).0
        × ((q : List ℕ) → hash_map_get cs (hash_map_clean m).0 q ≡ none)
        × ((hash_map_clean m).0.size ≡ 0)
        × (length (hash_map_clean m).1 ≡ m.size)
  unfolding hash_map_clean hash_map_get
  hash_map_clean-empties m w =
      (record { placed = tt; counted = unfold flatten in refl }, λ q. refl, refl, w.counted)
