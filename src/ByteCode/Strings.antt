-- ===== src/ByteCode/Strings.antt =====
-- The table of strings of mario/mario.c (bc_addstr, bc_getstrindex): the pointer array and the hash map
-- that indexes it, together.
use mario_js.Prelude.{
  ℕ, ◌+◌, ◌-◌, ◌≤◌, ◌<◌, ◌≡◌, refl, ap, sym, subst, ◌∙◌, Bool, true, false, Bool-cases,
  Option-cases, inl, inr, ◌⊎◌, List, length, leb, ◌==◌, if◌then◌else◌, Option, none, some, arith,
}
use mario_js.Array.{MArray, array_get, array_add}
use mario_js.Array.Laws as ArrayLaws
use mario_js.HashMap.{HashMap, same_key, hash_map_get, hash_map_add}
use mario_js.HashMap.Keys.{same_key_refl, eq_of_same_key}
use mario_js.HashMap.Capacity.{hash_map_add_fresh-small}
use mario_js.HashMap.Laws as MapLaws
use mathlib.Core.List.{flatten}
use mario_js.ByteCode.{
  ByteCode, bc_init, off_mask, bc_addstr, index_found, is_empty_str, bc_getstrindex,
}

-- The table and the index are valid and agree: the index gives a string one more than its position.
pub record IsIndexed (cs : Bool) (bc : ByteCode) : Type 0 where
  pub table : ArrayLaws.IsValid bc.mstr_table
  pub index : MapLaws.IsValid cs bc.mstr_index
  pub few_buckets : length bc.mstr_index.buckets ≤ 4194304
  pub in_step : bc.mstr_index.size ≡ bc.mstr_table.size
  pub bounded : bc.mstr_table.size ≤ off_mask
  pub stands :
      (s : List ℕ) (h : ℕ)
      → hash_map_get cs bc.mstr_index s ≡ some h
      → (0 < h) × (h ≤ bc.mstr_table.size) × (array_get bc.mstr_table (h - 1) ≡ some s)
  pub found :
      (i : ℕ) (s : List ℕ)
      → i < bc.mstr_table.size
      → array_get bc.mstr_table i ≡ some s
      → hash_map_get cs bc.mstr_index s ≡ some (i + 1)

-- What bc_getstrindex promises: the position of the string, in a table that keeps its strings.
pub record Interns (cs : Bool) (bc : ByteCode) (str : List ℕ) (bc' : ByteCode) (i : ℕ)
    : Type 0 where
  pub indexed : IsIndexed cs bc'
  pub here : array_get bc'.mstr_table i ≡ some str
  pub inside : i < bc'.mstr_table.size
  pub keeps :
      (j : ℕ) → j < bc.mstr_table.size → array_get bc'.mstr_table j ≡ array_get bc.mstr_table j
  pub same_code : (bc'.code_buf ≡ bc.code_buf) × (bc'.cindex ≡ bc.cindex)

-- The table and the index after the string went behind the others.
module _ (cs : Bool) (table table' : MArray (List ℕ)) (index index' : HashMap ℕ) (str : List ℕ)
    (holds : ArrayLaws.Holds table'
      (table.size + 1)
      (λ i. if i == table.size then some str else array_get table i))
    (updates : MapLaws.Updates cs index index' str (some (table.size + 1)))
    (absent : hash_map_get cs index str ≡ none) where
  at_end : array_get table' table.size ≡ some str
  at_end =
      let same : (table.size == table.size) ≡ true = ground arith in
      holds.gives table.size (omega arith) ∙ rw same refl

  before : (j : ℕ) → j < table.size → array_get table' j ≡ array_get table j
  before j h =
      let other : (j == table.size) ≡ false = ground arith in
      holds.gives j (omega arith) ∙ rw other refl

  stands_after :
      ((s : List ℕ) (h : ℕ)
        → hash_map_get cs index s ≡ some h
        → (0 < h) × (h ≤ table.size) × (array_get table (h - 1) ≡ some s))
      → (s : List ℕ) (h : ℕ) → hash_map_get cs index' s ≡ some h
      → (0 < h) × (h ≤ table'.size) × (array_get table' (h - 1) ≡ some s)
  stands_after old s h e =
      let size = holds.sized in
      elim (Bool-cases (same_key str s)) [
        | inl same ↦
            let hit : some (table.size + 1) ≡ some h = sym (updates.lookups s ∙ rw same refl) ∙ e in
            let here : h ≡ table.size + 1 = ground (arith, hit) in
            let is : str ≡ s = eq_of_same_key str s same in
            (
              omega arith,
              omega arith,
              ap (λ t. array_get table' t) {x = h - 1} {y = table.size} (omega arith)
                  ∙ at_end
                  ∙ ap some is,
            )
        | inr other ↦
            let (low, high, is) = old s h (sym (updates.lookups s ∙ rw other refl) ∙ e) in
            (low, omega arith, before (h - 1) (omega arith) ∙ is)
      ]

  found_after :
      ((i : ℕ) (s : List ℕ)
        → i < table.size
        → array_get table i ≡ some s
        → hash_map_get cs index s ≡ some (i + 1))
      → (i : ℕ) (s : List ℕ) → i < table'.size
      → array_get table' i ≡ some s
      → hash_map_get cs index' s ≡ some (i + 1)
  found_after old i s h e =
      let size = holds.sized in
      elim (Bool-cases (i == table.size)) [
        | inl last ↦
            let end : i ≡ table.size = ground arith in
            let is : some str ≡ some s = sym at_end ∙ ap (λ t. array_get table' t) (sym end) ∙ e in
            let same : str ≡ s = ground (arith, is) in
            let hit : same_key str s ≡ true =
              subst (λ t. same_key str t ≡ true) same (same_key_refl str) in
            updates.lookups s ∙ rw hit (ap (λ (t : ℕ). some (t + 1)) (sym end))
        | inr other ↦
            let old_hit = old i s (ground arith) (sym (before i (ground arith)) ∙ e) in
            elim (Bool-cases (same_key str s)) [
              | inl same ↦
                  let is : str ≡ s = eq_of_same_key str s same in
                  let clash : none ≡ some (i + 1) =
                    sym absent ∙ ap (λ t. hash_map_get cs index t) is ∙ old_hit in
                  absurd (ground (arith, clash))
              | inr differ ↦ updates.lookups s ∙ rw differ old_hit
            ]
      ]

module _ (cs : Bool) (fresh : ℕ → List (Option (List ℕ))) (sized : (n : ℕ) → length (fresh n) ≡ n)
    (bc : ByteCode) (v : IsIndexed cs bc) (str : List ℕ) where
  -- A string that the index does not hold goes behind the others.
  addstr-Interns :
      bc.mstr_table.size < off_mask
      → hash_map_get cs bc.mstr_index str ≡ none
      → Interns cs bc str (bc_addstr fresh cs bc str).0 bc.mstr_table.size
        × ((bc_addstr fresh cs bc str).1 ≡ bc.mstr_table.size)
  unfolding bc_addstr
  addstr-Interns room absent =
      let sz = bc.mstr_table.size in
      let step = v.in_step in
      let roomy : MapLaws.HasRoom cs bc.mstr_index = record {
        entries = omega arith;
        doubles = omega (arith, v.few_buckets);
      } in
      let same =
        MapLaws.hash_map_add_fresh-eq-add cs bc.mstr_index str (sz + 1) v.index roomy absent in
      let (u, size) = MapLaws.hash_map_add-Updates cs bc.mstr_index str (sz + 1) v.index roomy in
      let t =
        ArrayLaws.array_add-Holds fresh sized bc.mstr_table v.table (omega arith) (some str) in
      let test : leb off_mask sz ≡ false = ground arith in
      let index' = hash_map_add cs bc.mstr_index str (sz + 1) in
      let table' = array_add fresh bc.mstr_table (some str) in
      let size' : index'.size ≡ sz + 1 = size ∙ rw absent (ap (λ (t : ℕ). t + 1) step) in
      rw (test, same)
        (
          record {
            indexed = record {
              table = t.valid;
              index = u.valid;
              few_buckets =
                  subst (λ m. length m.buckets ≤ 4194304) same
                    (hash_map_add_fresh-small cs bc.mstr_index str (sz + 1) (omega arith)
                      v.few_buckets);
              in_step = omega (arith, size', t.sized);
              bounded = omega (arith, t.sized);
              stands =
                  stands_after cs bc.mstr_table table' bc.mstr_index index' str t u absent v.stands;
              found =
                  found_after cs bc.mstr_table table' bc.mstr_index index' str t u absent v.found;
            };
            here = at_end cs bc.mstr_table table' bc.mstr_index index' str t u absent;
            inside = omega (arith, t.sized);
            keeps = before cs bc.mstr_table table' bc.mstr_index index' str t u absent;
            same_code = (refl, refl);
          },
          refl,
        )

pub bc_init-IsIndexed : (cs : Bool) → IsIndexed cs bc_init
unfolding bc_init array_get hash_map_get flatten
bc_init-IsIndexed cs = record {
  table = record { measured = refl; fits = omega arith; closed = refl; null = refl };
  index = record { placed = tt; counted = refl };
  few_buckets = omega arith;
  in_step = refl;
  bounded = omega arith;
  stands = λ s h e. absurd (ground (arith, e));
  found = λ i s lt. absurd (omega arith);
}

if-true {ℓ} : {A : Type ℓ} (b : Bool) (x y : A) → b ≡ true → (if b then x else y) ≡ x
if-true b x y e = rw e refl

if-false {ℓ} : {A : Type ℓ} (b : Bool) (x y : A) → b ≡ false → (if b then x else y) ≡ y
if-false b x y e = rw e refl

module _ (cs : Bool) (fresh : ℕ → List (Option (List ℕ))) (sized : (n : ℕ) → length (fresh n) ≡ n)
    (bc : ByteCode) (v : IsIndexed cs bc) (str : List ℕ) (kept : bc.skip_strtab ≡ false)
    (some_str : is_empty_str str ≡ false) where
  looked_up :
      (bc' : ByteCode) (found : Option ℕ)
      → bc'.skip_strtab ≡ false
      → hash_map_get cs bc'.mstr_index str ≡ found
      → bc_getstrindex fresh cs bc' str ≡ index_found fresh cs found bc' str
  unfolding bc_getstrindex
  looked_up bc' found on e =
      if-false _ _ _ on ∙ if-false _ _ _ some_str ∙ ap (λ o. index_found fresh cs o bc' str) e

  again :
      (bc' : ByteCode) (i : ℕ)
      → bc'.skip_strtab ≡ false
      → Interns cs bc str bc' i
      → bc_getstrindex fresh cs bc' str ≡ (bc', i)
  unfolding index_found
  again bc' i on h =
      looked_up bc' (some (i + 1)) on (h.indexed.found i str h.inside h.here)
      ∙ ap (λ (t : ℕ). (bc', t)) {x = i + 1 - 1} {y = i} (omega arith)

  -- A result that interns is given again.
  gives :
      (bc' : ByteCode) (i : ℕ)
      → bc'.skip_strtab ≡ false
      → Interns cs bc str bc' i
      → bc_getstrindex fresh cs bc str ≡ (bc', i)
      → Interns cs bc str (bc_getstrindex fresh cs bc str).0 (bc_getstrindex fresh cs bc str).1
        × (bc_getstrindex fresh cs (bc_getstrindex fresh cs bc str).0 str
            ≡ bc_getstrindex fresh cs bc str)
  gives bc' i on h r = rw r (h, again bc' i on h)

  has_room :
      hash_map_get cs bc.mstr_index str ≡ none
      → (bc.mstr_table.size < off_mask) ⊎ ((h : ℕ) × (hash_map_get cs bc.mstr_index str ≡ some h))
      → bc.mstr_table.size < off_mask
  has_room absent (inl lt) = lt
  has_room absent (inr (h, e)) = absurd (ground (arith, sym absent ∙ e))

  addstr-skip :
      bc.skip_strtab ≡ false
      → bc.mstr_table.size < off_mask
      → (bc_addstr fresh cs bc str).0.skip_strtab ≡ false
  unfolding bc_addstr
  addstr-skip on lt =
      let test : leb off_mask bc.mstr_table.size ≡ false = ground arith in rw test on

  addstr-full : bc.mstr_table.size ≡ off_mask → bc_addstr fresh cs bc str ≡ (bc, off_mask)
  unfolding bc_addstr
  addstr-full full = if-true (leb off_mask bc.mstr_table.size) _ _ (ground arith)

  -- Where skip_strtab is false (it is set in the prescan for hoisting, in which the buffer drops its strings)
  -- and the table and the index agree, bc_getstrindex gives a string that is not empty its position in
  -- the table: the string stands there, every string before keeps its position, the table and the index
  -- still agree, the code is as it was, and a second call gives the same and changes nothing. This holds
  -- while the table has fewer than OFF_MASK strings or has the string; otherwise the buffer stays as it is
  -- and the position is OFF_MASK.
  pub bc_getstrindex-Interns :
      ((bc.mstr_table.size < off_mask) ⊎ ((h : ℕ) × (hash_map_get cs bc.mstr_index str ≡ some h))
        → Interns cs bc str (bc_getstrindex fresh cs bc str).0 (bc_getstrindex fresh cs bc str).1
          × (bc_getstrindex fresh cs (bc_getstrindex fresh cs bc str).0 str
              ≡ bc_getstrindex fresh cs bc str))
      × (bc.mstr_table.size ≡ off_mask
          → hash_map_get cs bc.mstr_index str ≡ none
          → bc_getstrindex fresh cs bc str ≡ (bc, off_mask))
  unfolding index_found
  bc_getstrindex-Interns = elim (Option-cases (hash_map_get cs bc.mstr_index str)) [
    | inr (h, e) ↦
        let (low, high, is) = v.stands str h e in
        let here : Interns cs bc str bc (h - 1) = record {
          indexed = v;
          here = is;
          inside = omega arith;
          keeps = λ j lt. refl;
          same_code = (refl, refl);
        } in
        (
          λ room. gives bc (h - 1) kept here (looked_up bc (some h) kept e),
          λ full absent. absurd (ground (arith, sym e ∙ absent)),
        )
    | inl absent ↦
        let r = looked_up bc none kept absent in
        (
          λ room.
              let lt : bc.mstr_table.size < off_mask = has_room absent room in
              let (there, sz) = addstr-Interns cs fresh sized bc v str lt absent in
              gives (bc_addstr fresh cs bc str).0 bc.mstr_table.size (addstr-skip kept lt) there
                (r ∙ ap (λ t. ((bc_addstr fresh cs bc str).0, t)) sz),
          λ size none_there. r ∙ addstr-full size,
        )
  ]
