-- ===== src/HashMap/Capacity.antt =====
-- How many buckets the hash map of mario/mario.c has after an insertion.
use mario_js.Prelude.{
  ℕ, ◌*◌, ◌%◌, ◌≤◌, ◌<◌, ◌≡◌, refl, ◌∙◌, Bool, Bool-cases, inl, inr, List, [], ◌∷◌, length,
  length-set, length-replicate, get_or, replicate, ltb, ◌==◌, arith, u32,
}
use mario_js.HashMap.{
  Chain, HashMap, bucket_of, push_entry, rehash_chain, rehash, grow, hash_map_init,
  hash_map_ensure_buckets, link_fresh, hash_map_add_fresh,
}

module _ {ℓ} {V : Type ℓ} (cs : Bool) where
  length-push_entry :
      (bs : List (Chain V)) (k : List ℕ) (v : V) → length (push_entry cs bs k v) ≡ length bs
  unfolding push_entry
  length-push_entry bs k v =
      let i = bucket_of cs k (length bs) in length-set bs i ((k, v) ∷ get_or bs i [])

  length-rehash_chain :
      (c : Chain V) (bs : List (Chain V)) → length (rehash_chain cs c bs) ≡ length bs
  unfolding rehash_chain
  length-rehash_chain [] bs = refl
  length-rehash_chain ((k, v) ∷ c) bs =
      length-rehash_chain c (push_entry cs bs k v) ∙ length-push_entry bs k v

  length-rehash : (old bs : List (Chain V)) → length (rehash cs old bs) ≡ length bs
  unfolding rehash
  length-rehash [] bs = refl
  length-rehash (c ∷ old) bs = length-rehash old (rehash_chain cs c bs) ∙ length-rehash_chain c bs

  -- A map of fewer than 2 ^ 20 entries does not outgrow 2 ^ 22 buckets.
  grow-small :
      (m : HashMap V)
      → m.size < 1048576
      → length m.buckets ≤ 4194304
      → length (grow cs m).buckets ≤ 4194304
  unfolding grow
  grow-small m small h =
      let n = length m.buckets in
      elim (Bool-cases (ltb (n * 3 % u32) (m.size * 4 % u32))) [
        | inr e ↦ rw e h
        | inl e ↦
            let more : n * 3 % u32 < m.size * 4 % u32 = ground arith in
            let wide = length-replicate {A = Chain V} (n * 2 % u32) [] in
            rw e (omega (arith, length-rehash m.buckets (replicate (n * 2 % u32) []), wide))
      ]

  ensure-small :
      (m : HashMap V)
      → length m.buckets ≤ 4194304
      → length (hash_map_ensure_buckets m).buckets ≤ 4194304
  unfolding hash_map_ensure_buckets hash_map_init
  ensure-small m h = elim (Bool-cases (length m.buckets == 0)) [
    | inl e ↦ rw e (omega (arith, length-replicate {A = Chain V} 16 []))
    | inr e ↦ rw e h
  ]

  pub hash_map_add_fresh-small :
      (m : HashMap V) (k : List ℕ) (v : V)
      → m.size < 1048576
      → length m.buckets ≤ 4194304
      → length (hash_map_add_fresh cs m k v).buckets ≤ 4194304
  unfolding hash_map_add_fresh link_fresh hash_map_ensure_buckets hash_map_init
  hash_map_add_fresh-small m k v small h =
      let ready = hash_map_ensure_buckets m in
      let fewer : ready.size < 1048576 = ground arith in
      omega (
        arith,
        length-push_entry (grow cs ready).buckets k v,
        grow-small ready fewer (ensure-small m h),
      )
