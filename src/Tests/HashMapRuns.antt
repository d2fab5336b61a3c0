-- ===== src/Tests/HashMapRuns.antt =====
-- The hash map of mario/mario.c on concrete keys.
use mathlib.Core.List.{flatten}
use mario_js.Prelude.{ℕ, ◌+◌, ◌≡◌, refl, true, [], ◌∷◌, none, some, if◌then◌else◌, arith}
use mario_js.HashMap.{HashMap, hash_map_add, hash_map_add_fresh, hash_map_get, hash_map_remove}
use mario_js.HashMap.Laws.{
  IsValid, HasRoom, Updates, is_none, hash_map_add-Updates, hash_map_add_fresh-eq-add,
  hash_map_remove-Updates,
}

-- A map that no entry was ever added to has no buckets.
abbrev no_entries : HashMap ℕ
no_entries = record { buckets = []; size = 0 }

no_entries-IsValid : IsValid true no_entries
unfolding flatten
no_entries-IsValid = record { placed = tt; counted = refl }

no_entries-HasRoom : HasRoom true no_entries
no_entries-HasRoom = record { entries = omega arith; doubles = omega arith }

abbrev one_entry : HashMap ℕ
one_entry = hash_map_add true no_entries (97 ∷ []) 5

hash_map_add-Updates_example :
    Updates true no_entries one_entry (97 ∷ []) (some 5)
    × (one_entry.size ≡ (if is_none (hash_map_get true no_entries (97 ∷ [])) then 0 + 1 else 0))
hash_map_add-Updates_example =
    hash_map_add-Updates true no_entries (97 ∷ []) 5 no_entries-IsValid no_entries-HasRoom

one_entry-IsValid : IsValid true one_entry
one_entry-IsValid =
    (hash_map_add-Updates true no_entries (97 ∷ []) 5 no_entries-IsValid no_entries-HasRoom).0.valid

one_entry-size : one_entry.size ≡ 1
unfolding hash_map_get
one_entry-size =
    (hash_map_add-Updates true no_entries (97 ∷ []) 5 no_entries-IsValid no_entries-HasRoom).1

hash_map_add_fresh-eq-add_example :
    hash_map_add_fresh true no_entries (97 ∷ []) 5 ≡ hash_map_add true no_entries (97 ∷ []) 5
unfolding hash_map_get
hash_map_add_fresh-eq-add_example =
    hash_map_add_fresh-eq-add true no_entries (97 ∷ []) 5 no_entries-IsValid no_entries-HasRoom refl

hash_map_remove-Updates_example :
    ((hash_map_remove true one_entry (97 ∷ [])).1 ≡ hash_map_get true one_entry (97 ∷ []))
    × Updates true one_entry (hash_map_remove true one_entry (97 ∷ [])).0 (97 ∷ []) none
    × ((hash_map_remove true one_entry (97 ∷ [])).0.size
          + (if is_none (hash_map_get true one_entry (97 ∷ [])) then 0 else 1)
        ≡ one_entry.size)
hash_map_remove-Updates_example =
    hash_map_remove-Updates true one_entry (97 ∷ []) one_entry-IsValid
      (omega (arith, one_entry-size))
