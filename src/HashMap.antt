-- ===== src/HashMap.antt =====
-- The string-keyed hash map of mario/mario.c (hash_map_t): chains of entries in a growing array of
-- buckets.
--
-- A key is the list of the bytes of a C string, without its NUL; a value is a non-null pointer, of any
-- type. A chain is the list of its entries from the bucket's head. `buckets` is the array, whose length
-- is the field `capacity`; a cleaned map has no buckets and capacity 0. The pools that recycle entries
-- and bucket arrays (hentry_alloc, hentry_release, buckets_release) change no map and are not kept, and
-- neither are the fields that name the owner of a map and of its keys.
pub mod Keys
pub mod Chains
pub mod Buckets
pub mod Resize
pub mod Capacity
pub mod Laws
use mathlib.Core.List.{flatten}
use mario_js.Prelude.{
  ℕ, zero, suc, ◌+◌, ◌-◌, ◌*◌, ◌/◌, ◌%◌, Bool, true, false, ◌&&◌, List, [], ◌∷◌, length, replicate,
  get_or, set, u32, ltb, ◌==◌, if◌then◌else◌, Option, none, some,
}

-- `strcmp(a, b) == 0`
unfoldable pub same_key : List ℕ → List ℕ → Bool
same_key [] [] = true
same_key [] (y ∷ ys) = false
same_key (x ∷ xs) [] = false
same_key (x ∷ xs) (y ∷ ys) = x == y && same_key xs ys

-- `hash += *key` converts a char to uint32_t: where char is signed, the bytes from 128 on are negative.
abbrev pub char_value : Bool → ℕ → ℕ
char_value char_signed c = if char_signed && ltb 127 c then u32 - 256 + c else c

-- `hash = (hash << 5) - hash + *key`
unfoldable pub hash_from : Bool → ℕ → List ℕ → ℕ
hash_from char_signed hash [] = hash
hash_from char_signed hash (c ∷ cs) =
    hash_from char_signed (((hash * 32 % u32 + u32 - hash) % u32 + char_value char_signed c) % u32)
      cs

unfoldable pub hash_string : Bool → List ℕ → ℕ
unfolding hash_from
hash_string char_signed key = hash_from char_signed 0 key

abbrev pub Chain {ℓ} : Type ℓ → Type ℓ
Chain V = List (List ℕ × V)

pub record HashMap {ℓ} (V : Type ℓ) : Type ℓ where
  pub buckets : List (Chain V)
  pub size : ℕ

abbrev pub initial_capacity : ℕ
initial_capacity = 16

-- The index of a key's bucket; the first argument says whether the platform's char is signed.
unfoldable pub bucket_of : Bool → List ℕ → ℕ → ℕ
unfolding hash_string
bucket_of char_signed key capacity = hash_string char_signed key % capacity

module _ {ℓ} {V : Type ℓ} where
  unfoldable pub find_entry : List ℕ → Chain V → Option V
  unfolding same_key
  find_entry k [] = none
  find_entry k ((j, v) ∷ c) = if same_key j k then some v else find_entry k c

  -- `entry->value = value` at the first entry with the key
  unfoldable pub update_entry : List ℕ → V → Chain V → Chain V
  unfolding same_key
  update_entry k v [] = []
  update_entry k v ((j, w) ∷ c) = if same_key j k then (j, v) ∷ c else (j, w) ∷ update_entry k v c

  -- Unlinks the first entry with the key.
  unfoldable pub unlink_entry : List ℕ → Chain V → Chain V
  unfolding same_key
  unlink_entry k [] = []
  unlink_entry k ((j, w) ∷ c) = if same_key j k then c else (j, w) ∷ unlink_entry k c

  unfoldable pub hash_map_init : HashMap V
  hash_map_init = record { buckets = replicate initial_capacity []; size = 0 }

  unfoldable pub hash_map_ensure_buckets : HashMap V → HashMap V
  unfolding hash_map_init
  hash_map_ensure_buckets map = if length map.buckets == 0 then hash_map_init else map

module _ {ℓ} {V : Type ℓ} (char_signed : Bool) where
  -- `entry->next = buckets[hash]; buckets[hash] = entry`
  unfoldable pub push_entry : List (Chain V) → List ℕ → V → List (Chain V)
  unfolding bucket_of
  push_entry buckets key value =
      let i = bucket_of char_signed key (length buckets) in
      set buckets i ((key, value) ∷ get_or buckets i [])

  -- The inner loop of a resize, over the entries of one old bucket.
  unfoldable pub rehash_chain : Chain V → List (Chain V) → List (Chain V)
  unfolding push_entry
  rehash_chain [] buckets = buckets
  rehash_chain ((k, v) ∷ c) buckets = rehash_chain c (push_entry buckets k v)

  unfoldable pub rehash : List (Chain V) → List (Chain V) → List (Chain V)
  unfolding rehash_chain
  rehash [] buckets = buckets
  rehash (c ∷ cs) buckets = rehash cs (rehash_chain c buckets)

  -- `size * 4 > capacity * 3`, in uint32_t
  unfoldable pub grow : HashMap V → HashMap V
  unfolding rehash
  grow map =
      let capacity = length map.buckets in
      if ltb (capacity * 3 % u32) (map.size * 4 % u32)
      then record map { buckets = rehash map.buckets (replicate (capacity * 2 % u32) []) }
      else map

  unfoldable pub link_fresh : HashMap V → List ℕ → V → HashMap V
  unfolding push_entry
  link_fresh map key value = record {
    buckets = push_entry map.buckets key value;
    size = (map.size + 1) % u32;
  }

  -- What follows the walk of the key's bucket, on what it found.
  unfoldable pub insert_found : Option V → HashMap V → List ℕ → V → HashMap V
  unfolding bucket_of update_entry link_fresh
  insert_found none map key value = link_fresh map key value
  insert_found (some old) map key value =
      let i = bucket_of char_signed key (length map.buckets) in
      record map { buckets = set map.buckets i (update_entry key value (get_or map.buckets i [])) }

  -- hash_map_add after the resize.
  unfoldable pub insert_entry : HashMap V → List ℕ → V → HashMap V
  unfolding find_entry insert_found
  insert_entry map key value =
      insert_found
        (find_entry key (get_or map.buckets (bucket_of char_signed key (length map.buckets)) []))
        map key value

  unfoldable pub hash_map_add : HashMap V → List ℕ → V → HashMap V
  unfolding hash_map_ensure_buckets grow insert_entry
  hash_map_add map key value = insert_entry (grow (hash_map_ensure_buckets map)) key value

  -- The caller has found the key absent, so the bucket is not walked.
  unfoldable pub hash_map_add_fresh : HashMap V → List ℕ → V → HashMap V
  unfolding hash_map_ensure_buckets grow link_fresh
  hash_map_add_fresh map key value = link_fresh (grow (hash_map_ensure_buckets map)) key value

  unfoldable pub hash_map_get : HashMap V → List ℕ → Option V
  unfolding bucket_of find_entry
  hash_map_get map key =
      if length map.buckets == 0
      then none
      else find_entry key (get_or map.buckets (bucket_of char_signed key (length map.buckets)) [])

  unfoldable pub remove_found : Option V → HashMap V → List ℕ → HashMap V × Option V
  unfolding bucket_of unlink_entry
  remove_found none map key = (map, none)
  remove_found (some v) map key =
      let i = bucket_of char_signed key (length map.buckets) in
      (
        record {
          buckets = set map.buckets i (unlink_entry key (get_or map.buckets i []));
          size = (map.size + u32 - 1) % u32;
        },
        some v,
      )

  -- The map, and the value that was removed.
  unfoldable pub hash_map_remove : HashMap V → List ℕ → HashMap V × Option V
  unfolding find_entry remove_found
  hash_map_remove map key =
      if length map.buckets == 0
      then (map, none)
      else remove_found
          (find_entry key (get_or map.buckets (bucket_of char_signed key (length map.buckets)) []))
          map key

module _ {ℓ} {V : Type ℓ} where
  -- The entries in the order in which the callback sees them.
  unfoldable pub hash_map_iterate : HashMap V → Chain V
  unfolding flatten
  hash_map_iterate map = flatten map.buckets

  -- The emptied map, and the entries in the order in which they are freed.
  unfoldable pub hash_map_clean : HashMap V → HashMap V × Chain V
  unfolding flatten
  hash_map_clean map = (record { buckets = []; size = 0 }, flatten map.buckets)
