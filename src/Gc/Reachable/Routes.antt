-- ===== src/Gc/Reachable/Routes.antt =====
-- The paths of the calls of gc_mark (mario/mario.c) and the paths of references.
use mathlib.Core.List.{Memᴰ}
use mario_js.Prelude.{ℕ, ◌≡◌, refl, ap, sym, ◌∙◌, inl, inr, List, [], ◌∷◌, map, some}
use mario_js.Gc.{Pointer, Heap, live_at, plain_call}
use mario_js.Gc.Paths.{Targets, FreeReach}
use mario_js.Gc.Refers.{calls_of-Refers}
use mario_js.Gc.Reachable.{Leads}

-- The paths of calls from a list of roots, against the paths of references.
module _ (heap : Heap) where
  Targets-Mem :
      (j : ℕ) (ps : List Pointer)
      → Targets heap (map plain_call ps) j
      → (p : Pointer) × Memᴰ p ps × (live_at heap p ≡ some j)
  unfolding Targets
  Targets-Mem j [] t = absurd t
  Targets-Mem j (p ∷ ps) t = elim t [
    | inl h ↦ (p, Memᴰ.head refl, h)
    | inr h ↦ let r = Targets-Mem j ps h in (r.0, Memᴰ.tail (r.1), r.2)
  ]

  Mem-Targets :
      (j : ℕ) (p : Pointer) (ps : List Pointer)
      → Memᴰ p ps
      → live_at heap p ≡ some j
      → Targets heap (map plain_call ps) j
  unfolding Targets
  Mem-Targets j p [] m h = elim m [ ]
  Mem-Targets j p (q ∷ ps) (Memᴰ.head e) h = inl (ap (live_at heap) (sym e) ∙ h)
  Mem-Targets j p (q ∷ ps) (Memᴰ.tail m) h = inr (Mem-Targets j p ps m h)

  module _ (ps : List Pointer) (roots : Pointer → Type 0) (free : ℕ → Type 0) where
    pub FreeReach-Leads :
        ((p : Pointer) → Memᴰ p ps → roots p)
        → (i : ℕ) → FreeReach heap free (map plain_call ps) i
        → Leads heap roots free i
    FreeReach-Leads f i (FreeReach.root t h) =
        let r = Targets-Mem i ps t in Leads.from_root (f (r.0) (r.1)) (r.2) h
    FreeReach-Leads f i (FreeReach.step {i = k} s t h) =
        Leads.along (FreeReach-Leads f k s) ((calls_of-Refers heap k i).0 t) h

    pub Leads-FreeReach :
        ((p : Pointer) → roots p → Memᴰ p ps)
        → (i : ℕ) → Leads heap roots free i
        → FreeReach heap free (map plain_call ps) i
    Leads-FreeReach f i (Leads.from_root {p = p} r live h) =
        FreeReach.root (Mem-Targets i p ps (f p r) live) h
    Leads-FreeReach f i (Leads.along {i = k} s t h) =
        FreeReach.step (Leads-FreeReach f k s) ((calls_of-Refers heap k i).1 t) h
