-- ===== src/HashMap/Buckets.antt =====
-- Where the entries of the hash map of mario/mario.c stand, what an array of buckets holds under a
-- key, and what replacing the chain of one key changes.
use mathlib.Core.List.{flatten}
use mario_js.Prelude.{
  ℕ, zero, suc, ◌+◌, ◌<◌, ◌≡◌, ap, subst, sym, ◌∙◌, Bool, false, Bool-cases, inl, inr, List, [],
  ◌∷◌, length, length-append, length-set, get_or, set, get_or-set, ◌==◌, ==_iff, if◌then◌else◌,
  Option, arith,
}
use mario_js.HashMap.{Chain, same_key, find_entry, bucket_of}
use mario_js.HashMap.Keys.{eq_of_same_key}
use mario_js.HashMap.Chains.{AllKeys, IsDistinct}

pub bucket_of-lt : (cs : Bool) (k : List ℕ) (n : ℕ) → 0 < n → bucket_of cs k n < n
unfolding bucket_of
bucket_of-lt cs k n h = omega arith

-- A key of another bucket is another key.
other_key :
    (cs : Bool) (q k : List ℕ) (n : ℕ)
    → (bucket_of cs q n == bucket_of cs k n) ≡ false
    → same_key k q ≡ false
other_key cs q k n h = elim (Bool-cases (same_key k q)) [
  | inl e ↦ absurd (ground (arith, h, ap (λ t. bucket_of cs t n) (eq_of_same_key k q e)))
  | inr e ↦ e
]

module _ {ℓ} {V : Type ℓ} (cs : Bool) where
  -- The bucket `i` of `n`, and those after it, hold the keys that hash there, each once.
  abbrev pub IsPlaced : ℕ → ℕ → List (Chain V) → Type ℓ
  IsPlaced n i [] = Unit {ℓ}
  IsPlaced n i (c ∷ bs) =
      AllKeys (λ k. bucket_of cs k n ≡ i) c × IsDistinct c × IsPlaced n (suc i) bs

  unfoldable pub view : List (Chain V) → List ℕ → Option V
  view bs q = find_entry q (get_or bs (bucket_of cs q (length bs)) [])

  pub chain-IsPlaced :
      (bs : List (Chain V)) (n i j k : ℕ)
      → i + j ≡ k
      → IsPlaced n i bs
      → AllKeys (λ q. bucket_of cs q n ≡ k) (get_or bs j []) × IsDistinct (get_or bs j [])
  chain-IsPlaced [] n i j k e h = (tt, tt)
  chain-IsPlaced (c ∷ bs) n i zero k e h =
      let e' : i ≡ k = omega arith in
      (subst (λ t. AllKeys (λ q. bucket_of cs q n ≡ t) c) e' h.0, h.1)
  chain-IsPlaced (c ∷ bs) n i (suc j) k e h = chain-IsPlaced bs n (suc i) j k (omega arith) h.2

  pub set-IsPlaced :
      (bs : List (Chain V)) (c : Chain V) (n i j k : ℕ)
      → i + j ≡ k
      → IsPlaced n i bs
      → AllKeys (λ q. bucket_of cs q n ≡ k) c
      → IsDistinct c
      → IsPlaced n i (set bs j c)
  set-IsPlaced [] c n i j k e h p d = tt
  set-IsPlaced (b ∷ bs) c n i zero k e h p d =
      let e' : k ≡ i = omega arith in
      (subst (λ t. AllKeys (λ q. bucket_of cs q n ≡ t) c) e' p, d, h.2)
  set-IsPlaced (b ∷ bs) c n i (suc j) k e h p d =
      (h.0, h.1, set-IsPlaced bs c n (suc i) j k (omega arith) h.2 p d)

  pub length-flatten-set :
      (bs : List (Chain V)) (j : ℕ) (c : Chain V)
      → j < length bs
      → length (flatten (set bs j c)) + length (get_or bs j []) ≡ length (flatten bs) + length c
  unfolding flatten
  length-flatten-set [] j c h = absurd (omega arith)
  length-flatten-set (b ∷ bs) zero c h =
      omega (arith, length-append c (flatten bs), length-append b (flatten bs))
  length-flatten-set (b ∷ bs) (suc j) c h = omega (
    arith,
    length-append b (flatten bs),
    length-append b (flatten (set bs j c)),
    length-flatten-set bs j c (omega arith),
  )

  -- Replacing the chain of `k` by one that differs at `k` alone.
  pub view-set :
      (bs : List (Chain V)) (k : List ℕ) (c : Chain V) (v : Option V)
      → 0 < length bs
      → ((q : List ℕ)
          → find_entry q c ≡ (
              if same_key k q then v else find_entry q (get_or bs (bucket_of cs k (length bs)) [])))
      → (q : List ℕ)
      → view (set bs (bucket_of cs k (length bs)) c) q ≡ (if same_key k q then v else view bs q)
  unfolding view
  view-set bs k c v pos h q =
      let n = length bs in
      let i = bucket_of cs k n in
      let step = get_or-set bs (bucket_of cs q n) i c [] (bucket_of-lt cs k n pos) in
      elim (Bool-cases (bucket_of cs q n == i)) [
        | inl e ↦
            rw (length-set bs i c, step, e)
              (h q
                ∙ ap (λ t. if same_key k q then v else find_entry q (get_or bs t []))
                    (sym ((==_iff (bucket_of cs q n) i).0 e)))
        | inr e ↦ rw (length-set bs i c, step, e, other_key cs q k n e)
      ]
