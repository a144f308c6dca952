-- ===== src/Cache/Refine.antt =====
-- fs/cache.c: the linked ring implements the list of `Spec`.
use thunix.Base.{
  ℕ, ◌≡◌, refl, ap, inl, inr, false, Option, none, some, List, [], ◌∷◌, ◌++◌, arith, ◌==◌, ==_iff,
  Bool-cases, length, length-append,
}
use mathlib.Core.List.{append-nil}
use thunix.Cache.{Ptr, head, Cache, update, find, unlink, append}
use thunix.Cache.Spec.{Lru, pick, drop_last, spoil_last}
use thunix.Cache.Ring.{
  ◌∉◌, Distinct, Chain, occurs-append, Distinct-append, split, frame, unlink-Chain, push-Chain,
}

pub last_node :
    (f g : Ptr → Ptr) (a x : Ptr) (l : List Ptr) (b : Ptr)
    → Chain f g a (x ∷ l) b
    → (xs : List Ptr) × (x ∷ l ≡ xs ++ (g b ∷ []))
last_node f g a x [] b (p, q, r) = ([], ground arith)
last_node f g a x (y ∷ l) b (p, q, ch) =
    let (xs, e) = last_node f g x y l b ch in (x ∷ xs, ap (λ k. x ∷ k) e)

module _ {D : Type 0} where
  -- the ring runs from `head` through the entries `l`, freshest first
  pub record IsRing (c : Cache D) (l : List Ptr) : Type 0 where
    pub chain : Chain c.prev c.next head l head
    pub apart : head ∉ l
    pub distinct : Distinct l
    pub count : c.entries ≡ length l

  -- the blocks and contents that the entries hold
  abbrev pub view : (Ptr → ℕ) → (Ptr → D) → List Ptr → Lru D
  view block buffer [] = []
  view block buffer (x ∷ l) = (block x, buffer x) ∷ view block buffer l

  -- entries that a write does not concern
  view-update :
      (block : Ptr → ℕ) (buffer : Ptr → D) (x : Ptr) (b : ℕ) (d : D) (l : List Ptr)
      → x ∉ l
      → view (update block x b) (update buffer x d) l ≡ view block buffer l
  view-update block buffer x b d [] out = refl
  view-update block buffer x b d (y ∷ l) out = ground (arith, view-update block buffer x b d l)

  view-update_buffer :
      (block : Ptr → ℕ) (buffer : Ptr → D) (x : Ptr) (d : D) (l : List Ptr)
      → x ∉ l
      → view block (update buffer x d) l ≡ view block buffer l
  view-update_buffer block buffer x d [] out = refl
  view-update_buffer block buffer x d (y ∷ l) out =
      ground (arith, view-update_buffer block buffer x d l)

  view-append :
      (block : Ptr → ℕ) (buffer : Ptr → D) (xs ys : List Ptr)
      → view block buffer (xs ++ ys) ≡ view block buffer xs ++ view block buffer ys
  view-append block buffer [] ys = refl
  view-append block buffer (x ∷ xs) ys = rw (view-append block buffer xs ys)

  -- Taking an entry that is not the freshest out of the ring, and putting it in front.
  pub to_front :
      (c : Cache D) (z : Ptr) (zs : List Ptr) (x : Ptr) (ys : List Ptr)
      → IsRing c ((z ∷ zs) ++ (x ∷ ys))
      → IsRing (append (unlink c x) (c.prev head) x) (x ∷ ((z ∷ zs) ++ ys))
  unfolding append unlink
  to_front c z zs x ys r =
      let (front, back) = split c.prev c.next head (z ∷ zs) x ys head r.chain in
      let (x_xs, x_ys, both) = Distinct-append (z ∷ zs) x ys r.distinct in
      let u =
        unlink-Chain c.prev c.next head (z ∷ zs) x ys head front back r.apart r.apart r.distinct in
      let p =
        push-Chain (update c.prev (c.next x) (c.prev x)) (update c.next (c.prev x) (c.next x)) head
          ((z ∷ zs) ++ ys) head x u
          (ground
            (arith, r.apart, occurs-append x (z ∷ zs) ys, occurs-append head (z ∷ zs) (x ∷ ys)))
          (ground (arith, r.apart, occurs-append head (z ∷ zs) (x ∷ ys)))
          (ground (arith, r.apart, occurs-append head zs (x ∷ ys), occurs-append head zs ys))
          (ground (arith, r.apart, occurs-append head zs (x ∷ ys), occurs-append head zs ys))
          both in
      record {
        chain =
            frame _ _ _ _ head (x ∷ ((z ∷ zs) ++ ys)) head (λ y h. ground (arith, u.0, front.0))
              (λ y h. ground (arith, u.0, front.0)) p;
        apart = ground (arith, r.apart, occurs-append head zs (x ∷ ys), occurs-append head zs ys);
        distinct = (ground (arith, occurs-append x (z ∷ zs) ys), both);
        count = omega (arith, r.count, length-append {0} zs (x ∷ ys), length-append {0} zs ys);
      }

  -- What the search from the freshest entry on finds.
  pub data Found (c : Cache D) (block : ℕ) (l : List Ptr) : Option Ptr → Type 0 where
    hit :
        (xs : List Ptr) (x : Ptr) (ys : List Ptr)
        → l ≡ xs ++ (x ∷ ys)
        → c.block x ≡ block
        → pick block (view c.block c.buffer l) ≡ some (c.buffer x, view c.block c.buffer (xs ++ ys))
        → Found c block l (some x)
    miss : pick block (view c.block c.buffer l) ≡ none → Found c block l none

  Found-cons :
      (c : Cache D) (block : ℕ) (x : Ptr) (l : List Ptr) (o : Option Ptr)
      → (c.block x == block) ≡ false
      → Found c block l o
      → Found c block (x ∷ l) o
  unfolding pick
  Found-cons c block x l o ne (hit xs y ys e b p) =
      hit (x ∷ xs) y ys (ap (λ k. x ∷ k) e) b (rw (ne, p))
  Found-cons c block x l o ne (miss p) = miss (rw (ne, p))

  pub find-Found :
      (c : Cache D) (block : ℕ) (l : List Ptr) (a b : Ptr)
      → Chain c.prev c.next a l b
      → Found c block l (find c block (length l) (c.prev a))
  unfolding find pick
  find-Found c block [] a b ch = miss refl
  find-Found c block (x ∷ l) a b (p, q, ch) = elim (Bool-cases (c.block x == block)) [
    | inl yes_here ↦
        rw (p, yes_here) (hit [] x l refl ((==_iff _ _).0 yes_here) (rw (pick, yes_here)))
    | inr no_here ↦ rw (p, no_here) (Found-cons c block x l _ no_here (find-Found c block l x b ch))
  ]

  drop_last-view :
      (block : Ptr → ℕ) (buffer : Ptr → D) (xs : List Ptr) (x : Ptr)
      → drop_last (view block buffer (xs ++ (x ∷ []))) ≡ view block buffer xs
  unfolding drop_last
  drop_last-view block buffer [] x = refl
  drop_last-view block buffer (y ∷ []) x = refl
  drop_last-view block buffer (y ∷ (z ∷ xs)) x =
      ap (λ k. (block y, buffer y) ∷ k) (drop_last-view block buffer (z ∷ xs) x)

  pub loaded-view :
      (block : Ptr → ℕ) (buffer : Ptr → D) (xs : List Ptr) (x : Ptr) (b : ℕ) (d : D)
      → x ∉ xs
      → view (update block x b) (update buffer x d) (x ∷ (xs ++ []))
        ≡ (b, d) ∷ drop_last (view block buffer (xs ++ (x ∷ [])))
  loaded-view block buffer xs x b d out =
      rw (append-nil, view-update block buffer x b d xs out, drop_last-view block buffer xs x)
        (ground arith)

  pub spoil_last-view :
      (block : Ptr → ℕ) (buffer : Ptr → D) (xs : List Ptr) (x : Ptr) (d : D)
      → x ∉ xs
      → spoil_last d (view block buffer (xs ++ (x ∷ [])))
        ≡ view block (update buffer x d) (xs ++ (x ∷ []))
  unfolding spoil_last
  spoil_last-view block buffer [] x d out = ground arith
  spoil_last-view block buffer (y ∷ []) x d out = ground arith
  spoil_last-view block buffer (y ∷ (z ∷ xs)) x d out =
      ground (arith, spoil_last-view block buffer (z ∷ xs) x d)
