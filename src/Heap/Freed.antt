-- ===== src/Heap/Freed.antt =====
-- mm/malloc.c: what marking a region free and each merge leave of the regions and their marks.
use mathlib.Core.List.{Memᴰ}
use thunix.Base.{ℕ, ◌≡◌, refl, ◌∙◌, ◌≢◌, List, arith}
use thunix.Heap.{Heap, memory, get_next, merge_front, merge_back, merge_both, put}
use thunix.Heap.Regions.{IsHeap, Tiles-frame}
use thunix.Heap.Cut.{remove, remove-Memᴰ, Tiles-Joined}
use thunix.Heap.Merge.{
  Beside, merge_front-Joined, merge_back-Joined, merge_both-Joined, set_prev-free,
}

-- `mm->free = 1;`
abbrev pub mark : Heap → ℕ → Heap
mark h mm = record h { free = put h.free mm 1 }

-- `g` has the regions `rs`; of the regions of `h` it has freed `mm`, which is now a part of `o`.
pub record Freed (h : Heap) (rs : List ℕ) (o mm : ℕ) (g : Heap) : Type 0 where
  pub heap : IsHeap g rs
  pub owned : g.free o ≢ 0
  pub others : (x : ℕ) → x ≢ mm → g.free x ≡ h.free x

pub Freed-mark :
    (h : Heap) (rs : List ℕ) (o mm : ℕ) (g : Heap) → Freed (mark h mm) rs o mm g → Freed h rs o mm g
Freed-mark h rs o mm g d = record {
  heap = d.heap;
  owned = d.owned;
  others = λ x other. d.others x other ∙ ground (arith, other);
}

pub Beside-mark : (h : Heap) (mm r s : ℕ) → Beside h r s → Beside (mark h mm) r s
Beside-mark h mm r s b = record { next = b.next; small = b.small; small' = b.small'; fits = b.fits }

pub IsHeap-mark : (h : Heap) (rs : List ℕ) (mm : ℕ) → IsHeap h rs → IsHeap (mark h mm) rs
IsHeap-mark h rs mm t = Tiles-frame rs h (mark h mm) 0 memory (λ r m. (refl, refl)) t

pub mark-Freed : (h : Heap) (rs : List ℕ) (mm : ℕ) → IsHeap h rs → Freed h rs mm mm (mark h mm)
mark-Freed h rs mm t = record {
  heap = IsHeap-mark h rs mm t;
  owned = ground arith;
  others = λ x other. ground (arith, other);
}

pub merge_back-Freed :
    (h : Heap) (rs : List ℕ) (mm next : ℕ)
    → IsHeap h rs
    → Memᴰ mm rs
    → Beside h mm next
    → Freed h (remove next rs) mm mm (merge_back h mm next)
unfolding merge_back
merge_back-Freed h rs mm next t m b = record {
  heap =
      Tiles-Joined rs h (merge_back h mm next) 0 memory mm next (merge_back-Joined h mm next b) t m;
  owned = rw (set_prev-free _ (get_next _ next) mm) (ground arith);
  others = λ x other. rw (set_prev-free _ (get_next _ next) mm) (ground (arith, other));
}

pub merge_front-Freed :
    (h : Heap) (rs : List ℕ) (mm prev : ℕ)
    → IsHeap h rs
    → Memᴰ prev rs
    → Beside h prev mm
    → h.free prev ≢ 0
    → Freed h (remove mm rs) prev mm (merge_front h mm prev)
unfolding merge_front
merge_front-Freed h rs mm prev t m b ahead = record {
  heap =
      Tiles-Joined rs h (merge_front h mm prev) 0 memory prev mm (merge_front-Joined h prev mm b) t
        m;
  owned = rw (set_prev-free _ (get_next h mm) prev) ahead;
  others = λ x other. rw (set_prev-free _ (get_next h mm) prev) refl;
}

pub merge_both-Freed :
    (h : Heap) (rs : List ℕ) (mm prev next : ℕ)
    → IsHeap h rs
    → Memᴰ prev rs
    → Beside h prev mm
    → Beside h mm next
    → h.free prev ≢ 0
    → Freed h (remove next (remove mm rs)) prev mm (merge_both h mm prev next)
unfolding merge_both
merge_both-Freed h rs mm prev next t m b b' ahead = record {
  heap =
      Tiles-Joined (remove mm rs) (merge_front h mm prev) (merge_both h mm prev next) 0 memory prev
        next (merge_both-Joined h prev mm next b b')
        (merge_front-Freed h rs mm prev t m b ahead).heap
        (remove-Memᴰ rs prev mm (omega (arith, b.next, b.small)) m);
  owned = rw (set_prev-free _ (get_next _ next) prev) ahead;
  others = λ x other. rw (set_prev-free _ (get_next _ next) prev) refl;
}
