-- ===== src/Tests/ArrayRuns.antt =====
-- The pointer array of mario/mario.c on concrete items.
use mario_js.Prelude.{
  ℕ, ◌+◌, ◌-◌, ◌≤◌, ◌<◌, ◌≡◌, refl, List, length, Option, none, some, if◌then◌else◌, ltb, ◌==◌,
  replicate, length-replicate, arith,
}
use mario_js.Array.{MArray, array_add, array_get, array_remove}
use mario_js.Array.Laws.{IsValid, Holds, array_add-Holds, array_remove-Holds}

-- A block of memory that holds some pointer in every slot.
abbrev fresh_block : ℕ → List (Option ℕ)
fresh_block n = replicate n (some 99)

fresh_block-sized : (n : ℕ) → length (fresh_block n) ≡ n
fresh_block-sized n = length-replicate n (some 99)

abbrev no_items : MArray ℕ
no_items = record { items = none; max_slots = 0; size = 0 }

no_items-IsValid : IsValid no_items
no_items-IsValid = record { measured = refl; fits = omega arith; closed = refl; null = refl }

abbrev one_item : MArray ℕ
one_item = array_add fresh_block no_items (some 4)

one_item-Holds : Holds one_item 1 (λ i. if i == 0 then some 4 else array_get no_items i)
one_item-Holds =
    array_add-Holds fresh_block fresh_block-sized no_items no_items-IsValid (omega arith) (some 4)

one_item-IsValid : IsValid one_item
one_item-IsValid = one_item-Holds.valid

array_remove-Holds_example :
    (one_item.size ≤ 0 → array_remove one_item 0 ≡ (one_item, none))
    × (0 < one_item.size
        → ((array_remove one_item 0).1 ≡ array_get one_item 0)
          × Holds
              (array_remove one_item 0).0
              (one_item.size - 1)
              (λ i. if ltb i 0 then array_get one_item i else array_get one_item (i + 1)))
array_remove-Holds_example = array_remove-Holds one_item one_item-IsValid 0
