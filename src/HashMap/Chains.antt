-- ===== src/HashMap/Chains.antt =====
-- One chain of the hash map of mario/mario.c.
use mario_js.Prelude.{
  ℕ, ◌+◌, ◌≡◌, refl, subst, ◌∙◌, false, Bool-cases, inl, inr, List, [], ◌∷◌, ◌++◌, length, All,
  if◌then◌else◌, Option, none, some, arith,
}
use mario_js.HashMap.{Chain, same_key, find_entry, update_entry, unlink_entry}
use mario_js.HashMap.Keys.{same_key_refl, eq_of_same_key}

module _ {ℓ} {V : Type ℓ} where
  -- No key occurs twice.
  abbrev pub IsDistinct : Chain V → Type ℓ
  IsDistinct [] = Unit {ℓ}
  IsDistinct (e ∷ c) = (find_entry e.0 c ≡ none) × IsDistinct c

  -- What a lookup gives in a chain, and else in `rest`.
  abbrev pub or_else : Option V → Option V → Option V
  or_else none rest = rest
  or_else (some v) rest = some v

  pub find_entry-append :
      (q : List ℕ) (c d : Chain V)
      → find_entry q (c ++ d) ≡ or_else (find_entry q c) (find_entry q d)
  unfolding find_entry
  find_entry-append q [] d = refl
  find_entry-append q ((j, w) ∷ c) d = ground (arith, find_entry-append q c d)

  pub find_entry-update :
      (q k : List ℕ) (v old : V) (c : Chain V)
      → find_entry k c ≡ some old
      → find_entry q (update_entry k v c) ≡ (if same_key k q then some v else find_entry q c)
  unfolding find_entry update_entry
  find_entry-update q k v old [] h = cc
  find_entry-update q k v old ((j, w) ∷ c) h = ground (
    arith,
    find_entry-update q k v old c,
    eq_of_same_key j k,
    eq_of_same_key k q,
    eq_of_same_key j q,
    same_key_refl k,
    same_key_refl q,
  )

  pub find_entry-unlink :
      (q k : List ℕ) (c : Chain V)
      → IsDistinct c
      → find_entry q (unlink_entry k c) ≡ (if same_key k q then none else find_entry q c)
  unfolding find_entry unlink_entry
  find_entry-unlink q k [] h = ground arith
  find_entry-unlink q k ((j, w) ∷ c) h = ground (
    arith,
    find_entry-unlink q k c h.1,
    h.0,
    eq_of_same_key j k,
    eq_of_same_key k q,
    eq_of_same_key j q,
    same_key_refl k,
    same_key_refl q,
  )

  find_entry-update_ne :
      (j k : List ℕ) (v : V) (c : Chain V)
      → same_key j k ≡ false
      → find_entry j (update_entry k v c) ≡ find_entry j c
  unfolding find_entry update_entry
  find_entry-update_ne j k v [] h = refl
  find_entry-update_ne j k v ((i, w) ∷ c) h =
      ground (arith, find_entry-update_ne j k v c, eq_of_same_key i j)

  pub find_entry-unlink_none :
      (j k : List ℕ) (c : Chain V) → find_entry j c ≡ none → find_entry j (unlink_entry k c) ≡ none
  unfolding find_entry unlink_entry
  find_entry-unlink_none j k [] h = refl
  find_entry-unlink_none j k ((i, w) ∷ c) h = ground (arith, find_entry-unlink_none j k c)

  pub update_entry-IsDistinct :
      (k : List ℕ) (v : V) (c : Chain V) → IsDistinct c → IsDistinct (update_entry k v c)
  unfolding update_entry
  update_entry-IsDistinct k v [] h = tt
  update_entry-IsDistinct k v ((j, w) ∷ c) h = elim (Bool-cases (same_key j k)) [
    | inl e ↦ rw e h
    | inr e ↦ rw e (find_entry-update_ne j k v c e ∙ h.0, update_entry-IsDistinct k v c h.1)
  ]

  pub unlink_entry-IsDistinct :
      (k : List ℕ) (c : Chain V) → IsDistinct c → IsDistinct (unlink_entry k c)
  unfolding unlink_entry
  unlink_entry-IsDistinct k [] h = tt
  unlink_entry-IsDistinct k ((j, w) ∷ c) h = elim (Bool-cases (same_key j k)) [
    | inl e ↦ rw e h.1
    | inr e ↦ rw e (find_entry-unlink_none j k c h.0, unlink_entry-IsDistinct k c h.1)
  ]

  -- A fact about every key of a chain.
  abbrev pub AllKeys {κ} : (List ℕ → Type κ) → Chain V → Type κ
  AllKeys P c = All (λ e. P e.0) c

  pub update_entry-AllKeys {κ} :
      (P : List ℕ → Type κ) (k : List ℕ) (v : V) (c : Chain V)
      → AllKeys P c
      → AllKeys P (update_entry k v c)
  unfolding update_entry
  update_entry-AllKeys P k v [] h = tt
  update_entry-AllKeys P k v ((j, w) ∷ c) h = elim (Bool-cases (same_key j k)) [
    | inl e ↦ rw e h
    | inr e ↦ rw e (h.0, update_entry-AllKeys P k v c h.1)
  ]

  pub unlink_entry-AllKeys {κ} :
      (P : List ℕ → Type κ) (k : List ℕ) (c : Chain V) → AllKeys P c → AllKeys P (unlink_entry k c)
  unfolding unlink_entry
  unlink_entry-AllKeys P k [] h = tt
  unlink_entry-AllKeys P k ((j, w) ∷ c) h = elim (Bool-cases (same_key j k)) [
    | inl e ↦ rw e h.1
    | inr e ↦ rw e (h.0, unlink_entry-AllKeys P k c h.1)
  ]

  pub length-update_entry :
      (k : List ℕ) (v : V) (c : Chain V) → length (update_entry k v c) ≡ length c
  unfolding update_entry
  length-update_entry k v [] = refl
  length-update_entry k v ((j, w) ∷ c) = ground (arith, length-update_entry k v c)

  pub length-unlink_entry :
      (k : List ℕ) (v : V) (c : Chain V)
      → find_entry k c ≡ some v
      → length (unlink_entry k c) + 1 ≡ length c
  unfolding unlink_entry find_entry
  length-unlink_entry k v [] h = cc
  length-unlink_entry k v ((j, w) ∷ c) h = ground (arith, length-unlink_entry k v c)

  -- A key that is found is one of the chain's.
  pub find_entry-AllKeys {κ} :
      (P : List ℕ → Type κ) (q : List ℕ) (v : V) (c : Chain V)
      → AllKeys P c
      → find_entry q c ≡ some v
      → P q
  unfolding find_entry
  find_entry-AllKeys P q v [] h e = absurd (none≢some e)
    where
      none≢some : none ≡ some v → ⊥
      none≢some p = cc
  find_entry-AllKeys P q v ((j, w) ∷ c) h e = elim (Bool-cases (same_key j q)) [
    | inl s ↦ subst P (eq_of_same_key j q s) h.0
    | inr s ↦ find_entry-AllKeys P q v c h.1 (rw s at e)
  ]
