-- ===== src/Heap/Merge.antt =====
-- mm/malloc.c, `merge_front`, `merge_back`, `merge_both`: each joins regions that lie side by side.
use thunix.Base.{ℕ, ◌+◌, ◌≤◌, ◌<◌, ◌≡◌, refl, sym, ap, ◌∙◌, ◌≢◌, false, arith, ◌==◌, if-cases}
use thunix.Heap.{
  Heap, header, mem_end, get_next, set_prev, merge_front, merge_back, merge_both, put,
}
use thunix.Heap.Cut.{Joined}

pub next_inside : (h : Heap) (r : ℕ) → r + h.size r < mem_end → get_next h r ≡ r + h.size r
unfolding get_next
next_inside h r inside = ground arith

pub next_end : (h : Heap) (r : ℕ) → r + h.size r ≡ mem_end → get_next h r ≡ 0
unfolding get_next
next_end h r end = ground arith

-- `n` is the region that starts at `e`, where one does.
abbrev pub NextAt : ℕ → ℕ → Type 0
NextAt n e = (0 < e) × (e ≤ mem_end) × (e < mem_end → n ≡ e) × (e ≡ mem_end → n ≡ 0)

pub next-NextAt :
    (h : Heap) (r : ℕ)
    → header ≤ h.size r
    → r + h.size r ≤ mem_end
    → NextAt (get_next h r) (r + h.size r)
next-NextAt h r small fits = (omega (arith, small), fits, next_inside h r, next_end h r)

-- `set_prev` writes no other field, and one header at most.
pub set_prev-size : (h : Heap) (next mm : ℕ) → (set_prev h next mm).size ≡ h.size
unfolding set_prev
set_prev-size h next mm =
    if-cases (λ (g : Heap). g.size ≡ h.size) (next == 0) (λ _. refl) (λ _. refl)

pub set_prev-free : (h : Heap) (next mm : ℕ) → (set_prev h next mm).free ≡ h.free
unfolding set_prev
set_prev-free h next mm =
    if-cases (λ (g : Heap). g.free ≡ h.free) (next == 0) (λ _. refl) (λ _. refl)

pub set_prev-other :
    (h : Heap) (n e mm x : ℕ) → NextAt n e → x ≢ e → (set_prev h n mm).prev x ≡ h.prev x
unfolding set_prev
set_prev-other h n e mm x (some_e, fits, inside, end) other =
    if-cases (λ (g : Heap). g.prev x ≡ h.prev x) (n == 0) (λ _. refl)
      (λ is. ground (arith, is, inside, end, other, fits))

pub set_prev-next :
    (h : Heap) (n e mm : ℕ) → NextAt n e → e < mem_end → (set_prev h n mm).prev e ≡ mm
unfolding set_prev
set_prev-next h n e mm (some_e, fits, inside, end) low =
    if-cases (λ (g : Heap). g.prev e ≡ mm) (n == 0)
      (λ is. absurd (ground (arith, is, inside low, some_e))) (λ is. ground (arith, inside low))

-- two neighbours in a heap
pub record Beside (h : Heap) (r s : ℕ) : Type 0 where
  pub next : s ≡ r + h.size r
  pub small : header ≤ h.size r
  pub small' : header ≤ h.size s
  pub fits : s + h.size s ≤ mem_end

-- The form that every merge has: `r` grows by `s`, and what lies behind names it.
grown-Joined :
    (g h : Heap) (n r s : ℕ)
    → Beside h r s
    → NextAt n (s + h.size s)
    → ((x : ℕ) → x ≢ s → g.prev x ≡ h.prev x)
    → ((x : ℕ) → g.size x ≡ put h.size r (h.size r + h.size s) x)
    → Joined h (set_prev g n r) r s
grown-Joined g h n r s b at prevs sizes = record {
  next = b.next;
  inside = omega (arith, b.small', b.fits);
  grown = rw (set_prev-size g n r, sizes r) (ground arith);
  sizes = λ x other. rw (set_prev-size g n r, sizes x) (ground (arith, other));
  prevs = λ x other other'. set_prev-other g n (s + h.size s) r x at other' ∙ prevs x other;
  prev_next = set_prev-next g n (s + h.size s) r at;
}

pub merge_front-Joined :
    (h : Heap) (prev mm : ℕ) → Beside h prev mm → Joined h (merge_front h mm prev) prev mm
unfolding merge_front
merge_front-Joined h prev mm b =
    grown-Joined (record h { size = put h.size prev (h.size prev + h.size mm) }) h (get_next h mm)
      prev mm b (next-NextAt h mm b.small' b.fits) (λ x _. refl) (λ x. refl)

-- a change of one size does not move the end of another region
get_next-put :
    (h : Heap) (r v s : ℕ) → s ≢ r → get_next (record h { size = put h.size r v }) s ≡ get_next h s
unfolding get_next
get_next-put h r v s other = rw apart refl
  where
    apart : (s == r) ≡ false
    apart = ground (arith, other)

pub merge_back-Joined :
    (h : Heap) (mm next : ℕ) → Beside h mm next → Joined h (merge_back h mm next) mm next
unfolding merge_back
merge_back-Joined h mm next b =
    grown-Joined g h (get_next g next) mm next b
      (rw
        (get_next-put (record h { free = put h.free mm 1 }) mm (h.size mm + h.size next) next
          (omega (arith, b.next, b.small)))
        (next-NextAt (record h { free = put h.free mm 1 }) next b.small' b.fits))
      (λ x _. refl) (λ x. refl)
  where
    g : Heap
    g = record h { free = put h.free mm 1; size = put h.size mm (h.size mm + h.size next) }

-- the second of the two steps that `merge_both` amounts to, behind `merge_front`
pub merge_both-Joined :
    (h : Heap) (prev mm next : ℕ)
    → Beside h prev mm
    → Beside h mm next
    → Joined (merge_front h mm prev) (merge_both h mm prev next) prev next
unfolding merge_front merge_both
merge_both-Joined h prev mm next b b' =
    grown-Joined g mid (get_next g next) prev next beside at
      (λ x other. sym (
        set_prev-other _ (get_next h mm) (mm + h.size mm) prev x front_at
          (λ e. other (e ∙ sym b'.next))))
      (λ x. rw mid_size (ground (arith, apart)))
  where
    mid : Heap
    mid = merge_front h mm prev

    g : Heap
    g = record h { size = put h.size prev (h.size prev + (h.size mm + h.size next)) }

    apart : prev < next
    apart = omega (arith, b.next, b.small, b'.next, b'.small)

    front_at : NextAt (get_next h mm) (mm + h.size mm)
    front_at = next-NextAt h mm b.small' b.fits

    mid_size : mid.size ≡ put h.size prev (h.size prev + h.size mm)
    mid_size = set_prev-size _ (get_next h mm) prev

    at_prev : mid.size prev ≡ h.size prev + h.size mm
    at_prev = ap (λ f. f prev) mid_size ∙ ground arith

    at_next : mid.size next ≡ h.size next
    at_next = ap (λ f. f next) mid_size ∙ ground (arith, apart)

    beside : Beside mid prev next
    beside = record {
      next = omega (arith, at_prev, b.next, b'.next);
      small = omega (arith, at_prev, b.small);
      small' = omega (arith, at_next, b'.small');
      fits = omega (arith, at_next, b'.fits);
    }

    at : NextAt (get_next g next) (next + mid.size next)
    at =
        rw
          (
            get_next-put h prev (h.size prev + (h.size mm + h.size next)) next
                (omega (arith, apart)),
            at_next,
          )
          (next-NextAt h next b'.small' b'.fits)
