-- ===== src/Cache/Spec.antt =====
-- What fs/cache.c promises: a list of blocks with their contents, the freshest first. A block that
-- is asked for moves to the front; one that is missing takes the place of the last.
use thunix.Base.{ℕ, ◌≡◌, Bool, true, false, Option, none, some, List, [], ◌∷◌, ◌==◌, if◌then◌else◌}

abbrev pub Lru : Type 0 → Type 0
Lru D = List (ℕ × D)

module _ {D : Type 0} where
  -- the contents of the first entry of block `b`, and the list without that entry
  unfoldable pub pick : ℕ → Lru D → Option (D × Lru D)
  pick b [] = none
  pick b ((k, d) ∷ l) =
      if k == b
      then some (d, l)
      else elim (pick b l) [ none ↦ none | some (e, r) ↦ some (e, (k, d) ∷ r) ]

  unfoldable pub drop_last : Lru D → Lru D
  drop_last [] = []
  drop_last (e ∷ []) = []
  drop_last (e ∷ (e' ∷ l)) = e ∷ drop_last (e' ∷ l)

  -- a failed read leaves `d` in the place of the last entry's contents
  unfoldable pub spoil_last : D → Lru D → Lru D
  spoil_last d [] = []
  spoil_last d ((k, e) ∷ []) = (k, d) ∷ []
  spoil_last d (e ∷ (e' ∷ l)) = e ∷ spoil_last d (e' ∷ l)

  unfoldable pub get : (ℕ → Bool × D) → Lru D → ℕ → Option D × Lru D
  get bread l b = elim (pick b l) [
    | some (d, rest) ↦ (some d, (b, d) ∷ rest)
    | none ↦
        let (failed, d) = bread b in
        if failed then (none, spoil_last d l) else (some d, (b, d) ∷ drop_last l)
  ]

  module _ (bread : ℕ → Bool × D) (l : Lru D) (b : ℕ) where
    pub get-hit :
        (d : D) (rest : Lru D) → pick b l ≡ some (d, rest) → get bread l b ≡ (some d, (b, d) ∷ rest)
    unfolding get
    get-hit d rest p = rw (p, get)

    pub get-failed :
        (d : D) → pick b l ≡ none → bread b ≡ (true, d) → get bread l b ≡ (none, spoil_last d l)
    unfolding get
    get-failed d p e = rw (p, get) (rw e)

    pub get-loaded :
        (d : D)
        → pick b l ≡ none
        → bread b ≡ (false, d)
        → get bread l b ≡ (some d, (b, d) ∷ drop_last l)
    unfolding get
    get-loaded d p e = rw (p, get) (rw e)
