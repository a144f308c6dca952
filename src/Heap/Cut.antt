-- ===== src/Heap/Cut.antt =====
-- mm/malloc.c: a region cut in two, and two regions joined.
use mathlib.Core.List.{Memᴰ}
use thunix.Base.{
  ℕ, ◌+◌, ◌≤◌, ◌<◌, ◌≡◌, refl, ◌∙◌, ◌≢◌, true, false, List, [], ◌∷◌, arith, ◌==◌, if◌then◌else◌,
  if-cases,
}
use thunix.Heap.{Heap, header, mem_end}
use thunix.Heap.Regions.{Tiles, Tiles-le, region_bounds, Tiles-frame}

-- the region `n` listed behind `good`
unfoldable pub insert_after : ℕ → ℕ → List ℕ → List ℕ
insert_after good n [] = []
insert_after good n (r ∷ rs) = if r == good then r ∷ (n ∷ rs) else r ∷ insert_after good n rs

unfoldable pub remove : ℕ → List ℕ → List ℕ
remove s [] = []
remove s (r ∷ rs) = if r == s then rs else r ∷ remove s rs

-- `good` ends at `n` in `h'`, where the rest of it is a region of its own.
pub record Cut (h h' : Heap) (good n : ℕ) : Type 0 where
  pub start : n ≡ good + h'.size good
  pub front : header ≤ h'.size good
  pub back : header ≤ h'.size n
  pub whole : h'.size good + h'.size n ≡ h.size good
  pub sizes : (x : ℕ) → x ≢ good → x ≢ n → h'.size x ≡ h.size x
  pub prevs : (x : ℕ) → x ≢ n → x ≢ good + h.size good → h'.prev x ≡ h.prev x
  pub prev_n : h'.prev n ≡ good
  pub prev_next : good + h.size good < mem_end → h'.prev (good + h.size good) ≡ n

-- `r` has taken in the region `s` behind it.
pub record Joined (h h' : Heap) (r s : ℕ) : Type 0 where
  pub next : s ≡ r + h.size r
  pub inside : s < mem_end
  pub grown : h'.size r ≡ h.size r + h.size s
  pub sizes : (x : ℕ) → x ≢ r → h'.size x ≡ h.size x
  pub prevs : (x : ℕ) → x ≢ s → x ≢ s + h.size s → h'.prev x ≡ h.prev x
  pub prev_next : s + h.size s < mem_end → h'.prev (s + h.size s) ≡ r

-- the regions from `b` on, where the first of them is to name `n`
Tiles-renamed :
    (rs : List ℕ) (h h' : Heap) (p n b : ℕ)
    → ((x : ℕ) → b ≤ x → h'.size x ≡ h.size x)
    → ((x : ℕ) → b < x → h'.prev x ≡ h.prev x)
    → (b < mem_end → h'.prev b ≡ n)
    → Tiles h p b rs
    → Tiles h' n b rs
Tiles-renamed [] h h' p n b sizes prevs named t = t
Tiles-renamed (r ∷ rs) h h' p n b sizes prevs named (e, _, small, t) = (
  e,
  named (omega (arith, Tiles-le rs h b (b + h.size b) t, small)),
  rw same small,
  rw same (
      Tiles-frame rs h h' b (b + h.size b)
        (λ x m.
          let (low, _, _) = region_bounds rs h b (b + h.size b) x t m in
          (sizes x (omega (arith, low)), prevs x (omega (arith, low, small))))
        t),
)
  where
    same : h'.size b ≡ h.size b
    same = sizes b (omega arith)

Cut-Tiles :
    (rs : List ℕ) (h h' : Heap) (p good n : ℕ)
    → Cut h h' good n
    → h.prev good ≡ p
    → Tiles h good (good + h.size good) rs
    → Tiles h' p good (good ∷ n ∷ rs)
Cut-Tiles rs h h' p good n c before t =
    rw (← c.start, end)
      (
        refl,
        c.prevs good (omega (arith, c.start, c.front)) (omega (arith, c.whole, c.front)) ∙ before,
        c.front,
        (refl, c.prev_n, c.back, rest),
      )
  where
    end : n + h'.size n ≡ good + h.size good
    end = omega (arith, c.start, c.whole)

    rest : Tiles h' n (good + h.size good) rs
    rest =
        Tiles-renamed rs h h' good n (good + h.size good)
          (λ x low.
            c.sizes x (omega (arith, c.whole, c.front, low))
              (omega (arith, c.start, c.whole, c.back, low)))
          (λ x low. c.prevs x (omega (arith, c.start, c.whole, low)) (omega (arith, low)))
          c.prev_next t

-- Cutting a region in two leaves a heap with one region more.
pub Tiles-Cut :
    (rs : List ℕ) (h h' : Heap) (p a good n : ℕ)
    → Cut h h' good n
    → Tiles h p a rs
    → Memᴰ good rs
    → Tiles h' p a (insert_after good n rs)
unfolding insert_after
Tiles-Cut [] h h' p a good n c t m = elim m [ ]
Tiles-Cut (r ∷ rs) h h' p a good n c (e, before, small, t) (Memᴰ.head e') =
    rw (found, ← e) (rw (← e') (Cut-Tiles rs h h' p good n c (rw (e', e) before) (rw (e', e) t)))
  where
    found : (r == good) ≡ true
    found = ground arith
Tiles-Cut (r ∷ rs) h h' p a good n c (e, before, small, t) (Memᴰ.tail m) =
    rw (other, same) (e, before', small, Tiles-Cut rs h h' a (a + h.size a) good n c t m)
  where
    low : (a + h.size a ≤ good)
    low = (region_bounds rs h a (a + h.size a) good t m).0

    other : (r == good) ≡ false
    other = ground (arith, low, small, e)

    same : h'.size a ≡ h.size a
    same = c.sizes a (omega (arith, low, small)) (omega (arith, low, small, c.start))

    before' : h'.prev a ≡ p
    before' = c.prevs a (omega (arith, low, small, c.start)) (omega (arith, low, small)) ∙ before

Joined-Tiles :
    (rs : List ℕ) (h h' : Heap) (p r s : ℕ)
    → Joined h h' r s
    → h.prev r ≡ p
    → header ≤ h.size r
    → Tiles h r (r + h.size r) rs
    → Tiles h' p r (r ∷ remove s rs)
unfolding remove
Joined-Tiles [] h h' p r s j before small t = absurd (omega (arith, j.next, j.inside, t))
Joined-Tiles (x ∷ rs) h h' p r s j before small (e, _, small', t) =
    rw (found, end)
      (
        refl,
        j.prevs r (omega (arith, j.next, small)) (omega (arith, j.next, small)) ∙ before,
        omega (arith, j.grown, small),
        rest,
      )
  where
    found : (x == s) ≡ true
    found = ground (arith, e, j.next)

    end : r + h'.size r ≡ s + h.size s
    end = omega (arith, j.next, j.grown)

    t' : Tiles h s (s + h.size s) rs
    t' = rw j.next t

    rest : Tiles h' r (s + h.size s) rs
    rest =
        Tiles-renamed rs h h' s r (s + h.size s)
          (λ x low. j.sizes x (omega (arith, j.next, low, small, small')))
          (λ x low. j.prevs x (omega (arith, low)) (omega (arith, low))) j.prev_next t'

-- Joining two regions leaves a heap with one region less.
pub Tiles-Joined :
    (rs : List ℕ) (h h' : Heap) (p a r s : ℕ)
    → Joined h h' r s
    → Tiles h p a rs
    → Memᴰ r rs
    → Tiles h' p a (remove s rs)
unfolding remove
Tiles-Joined [] h h' p a r s j t m = elim m [ ]
Tiles-Joined (x ∷ rs) h h' p a r s j (e, before, small, t) (Memᴰ.head e') =
    rw (other, ← e)
      (rw (← e')
        (Joined-Tiles rs h h' p r s j (rw (e', e) before) (rw (e', e) small) (rw (e', e) t)))
  where
    other : (x == s) ≡ false
    other = ground (arith, j.next, small, e', e)
Tiles-Joined (x ∷ rs) h h' p a r s j (e, before, small, t) (Memᴰ.tail m) =
    rw (other, same) (e, before', small, Tiles-Joined rs h h' a (a + h.size a) r s j t m)
  where
    low : (a + h.size a ≤ r)
    low = (region_bounds rs h a (a + h.size a) r t m).0

    other : (x == s) ≡ false
    other = ground (arith, low, small, e, j.next)

    same : h'.size a ≡ h.size a
    same = j.sizes a (omega (arith, low, small))

    before' : h'.prev a ≡ p
    before' =
        j.prevs a (omega (arith, low, small, j.next)) (omega (arith, low, small, j.next)) ∙ before

pub remove-Memᴰ : (rs : List ℕ) (x s : ℕ) → x ≢ s → Memᴰ x rs → Memᴰ x (remove s rs)
unfolding remove
remove-Memᴰ [] x s other m = elim m [ ]
remove-Memᴰ (r ∷ rs) x s other (Memᴰ.head e) =
    if-cases (Memᴰ x) (r == s) (λ same. absurd (ground (arith, same, other, e))) (λ _. Memᴰ.head e)
remove-Memᴰ (r ∷ rs) x s other (Memᴰ.tail m) =
    if-cases (Memᴰ x) (r == s) (λ _. m) (λ _. Memᴰ.tail (remove-Memᴰ rs x s other m))
