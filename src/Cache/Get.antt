-- ===== src/Cache/Get.antt =====
-- fs/cache.c: `get_cache_block` on the linked ring implements the list of `Spec`.
use thunix.Base.{
  ℕ, ◌<◌, ◌≡◌, refl, sym, ap, ◌∙◌, inl, inr, Bool, true, false, Option, none, some, List, [], ◌∷◌,
  ◌++◌, arith, ◌==◌, Bool-cases, length, length-append,
}
use mathlib.Core.Option
use mathlib.Core.Path.{subst}
use thunix.Cache.{Ptr, head, Cache, update, find, unlink, append, get_cache_block}
use thunix.Cache.Spec.{pick, get, get-hit, get-failed, get-loaded}
use thunix.Cache.Ring.{Distinct-append}
use thunix.Cache.Refine.{
  IsRing, view, to_front, loaded-view, spoil_last-view, Found, hit, miss, find-Found, last_node,
}

module _ {D : Type 0} where
  -- What a call leaves: a ring that shows the list of the specification, and a pointer to an entry
  -- of the block, with the contents that the specification returns, or NULL where it has none.
  pub record Refines (c : Cache D) (l : List Ptr) (bread : ℕ → Bool × D) (b : ℕ)
      (out : Option Ptr × Cache D) : Type 0 where
    pub order : List Ptr
    pub ring : IsRing out.1 order
    pub same_size : length order ≡ length l
    pub shows : view out.1.block out.1.buffer order ≡ (get bread (view c.block c.buffer l) b).1
    pub reply : Option.map out.1.buffer out.0 ≡ (get bread (view c.block c.buffer l) b).0
    pub names : (p : Ptr) → out.0 ≡ some p → out.1.block p ≡ b

  module _ (bread : ℕ → Bool × D) (c : Cache D) (b : ℕ) where
    fresh_hit :
        (x : Ptr) (l : List Ptr)
        → IsRing c (x ∷ l)
        → (c.block x == b) ≡ true
        → Refines c (x ∷ l) bread b (some x, c)
    unfolding get pick
    fresh_hit x l r h = record {
      order = x ∷ l;
      ring = r;
      same_size = refl;
      shows = ground arith;
      reply = ground arith;
      names = λ p e. ground arith;
    }

    deep_hit :
        (z : Ptr) (zs : List Ptr) (x : Ptr) (ys : List Ptr)
        → IsRing c ((z ∷ zs) ++ (x ∷ ys))
        → c.block x ≡ b
        → pick b (view c.block c.buffer ((z ∷ zs) ++ (x ∷ ys)))
          ≡ some (c.buffer x, view c.block c.buffer ((z ∷ zs) ++ ys))
        → Refines c ((z ∷ zs) ++ (x ∷ ys)) bread b (some x, append (unlink c x) (c.prev head) x)
    unfolding append unlink
    deep_hit z zs x ys r e p = record {
      order = x ∷ ((z ∷ zs) ++ ys);
      ring = to_front c z zs x ys r;
      same_size = omega (arith, length-append {0} zs (x ∷ ys), length-append {0} zs ys);
      shows = sym (
          ap (λ o. o.1) (got p)
          ∙ ap (λ k. (k, c.buffer x) ∷ view c.block c.buffer ((z ∷ zs) ++ ys)) (sym e));
      reply = sym (ap (λ o. o.0) (got p));
      names = λ q h. ground arith;
    }
      where
        got :
            pick b (view c.block c.buffer ((z ∷ zs) ++ (x ∷ ys)))
              ≡ some (c.buffer x, view c.block c.buffer ((z ∷ zs) ++ ys))
            → get bread (view c.block c.buffer ((z ∷ zs) ++ (x ∷ ys))) b
              ≡ (some (c.buffer x), (b, c.buffer x) ∷ view c.block c.buffer ((z ∷ zs) ++ ys))
        got = get-hit bread _ b _ _

    -- a miss, with the stalest entry `x` behind the others
    module _ (z : Ptr) (zs : List Ptr) (x : Ptr) (r : IsRing c ((z ∷ zs) ++ (x ∷ [])))
        (p : pick b (view c.block c.buffer ((z ∷ zs) ++ (x ∷ []))) ≡ none) where
      fill : D → Cache D
      fill d = record c { buffer = update c.buffer x d }

      load : D → Cache D
      unfolding fill
      load d = record (fill d) { block = update c.block x b }

      fill-IsRing : (d : D) → IsRing (fill d) ((z ∷ zs) ++ (x ∷ []))
      unfolding fill
      fill-IsRing d = record {
        chain = r.chain;
        apart = r.apart;
        distinct = r.distinct;
        count = r.count;
      }

      load-IsRing : (d : D) → IsRing (load d) ((z ∷ zs) ++ (x ∷ []))
      unfolding load
      load-IsRing d = record {
        chain = r.chain;
        apart = r.apart;
        distinct = r.distinct;
        count = r.count;
      }

      failed_miss :
          (d : D) → bread b ≡ (true, d) → Refines c ((z ∷ zs) ++ (x ∷ [])) bread b (none, fill d)
      unfolding fill
      failed_miss d e = record {
        order = (z ∷ zs) ++ (x ∷ []);
        ring = fill-IsRing d;
        same_size = refl;
        shows = sym (
            ap (λ o. o.1) (get-failed bread _ b d p e)
            ∙ spoil_last-view c.block c.buffer (z ∷ zs) x d
                (Distinct-append (z ∷ zs) x [] r.distinct).0);
        reply = sym (ap (λ o. o.0) (get-failed bread _ b d p e));
        names = λ q h. cc;
      }

      loaded_miss :
          (d : D)
          → bread b ≡ (false, d)
          → Refines c
              ((z ∷ zs) ++ (x ∷ []))
              bread
              b
              (some x, append (unlink (load d) x) (c.prev head) x)
      unfolding load append unlink
      loaded_miss d e = record {
        order = x ∷ ((z ∷ zs) ++ []);
        ring = to_front (load d) z zs x [] (load-IsRing d);
        same_size = omega (arith, length-append {0} zs (x ∷ []), length-append {0} zs []);
        shows =
            loaded-view c.block c.buffer (z ∷ zs) x b d (Distinct-append (z ∷ zs) x [] r.distinct).0
            ∙ sym (ap (λ o. o.1) (get-loaded bread _ b d p e));
        reply = rw (ap (λ o. o.0) (get-loaded bread _ b d p e)) (ground arith);
        names = λ q h. ground arith;
      }

    miss_Refines :
        (z : Ptr) (zs : List Ptr) (x : Ptr)
        → IsRing c ((z ∷ zs) ++ (x ∷ []))
        → pick b (view c.block c.buffer ((z ∷ zs) ++ (x ∷ []))) ≡ none
        → x ≡ c.next head
        → (c.block (c.prev head) == b) ≡ false
        → find c b c.entries (c.prev head) ≡ none
        → Refines c ((z ∷ zs) ++ (x ∷ [])) bread b (get_cache_block bread c b)
    unfolding get_cache_block fill load
    miss_Refines z zs x r p at fresh lost = elim (Bool-cases (bread b).0) [
      | inl bad ↦
          rw (fresh, lost, get_cache_block, bad, ← at)
            (failed_miss z zs x r p (bread b).1 (ground arith))
      | inr good ↦
          rw (fresh, lost, get_cache_block, good, ← at)
            (loaded_miss z zs x r p (bread b).1 (ground arith))
    ]

    hit_Refines :
        (l xs : List Ptr) (x : Ptr) (ys : List Ptr)
        → IsRing c l
        → l ≡ xs ++ (x ∷ ys)
        → c.block x ≡ b
        → pick b (view c.block c.buffer l) ≡ some (c.buffer x, view c.block c.buffer (xs ++ ys))
        → (c.block (c.prev head) == b) ≡ false
        → find c b c.entries (c.prev head) ≡ some x
        → Refines c l bread b (get_cache_block bread c b)
    unfolding get_cache_block
    hit_Refines l [] x ys r e h p fresh got = absurd (ground (arith, (rw e at r.chain).0))
    hit_Refines l (z ∷ zs) x ys r e h p fresh got =
        rw (fresh, got, get_cache_block, e) (deep_hit z zs x ys (rw e at r) h (rw e at p))

    not_fresh :
        (x y : Ptr) (l : List Ptr) (o : Option Ptr)
        → IsRing c (x ∷ (y ∷ l))
        → (c.block (c.prev head) == b) ≡ false
        → find c b c.entries (c.prev head) ≡ o
        → Found c b (x ∷ (y ∷ l)) o
        → Refines c (x ∷ (y ∷ l)) bread b (get_cache_block bread c b)
    not_fresh x y l o r fresh got (hit xs u ys e h p) =
        hit_Refines (x ∷ (y ∷ l)) xs u ys r e h p fresh got
    not_fresh x y l o r fresh got (miss p) =
        let (xs, e) = last_node c.prev c.next x y l head r.chain.2 in
        let e' : x ∷ (y ∷ l) ≡ (x ∷ xs) ++ (c.next head ∷ []) = ap (λ k. x ∷ k) e in
        rw e' (
          miss_Refines x xs (c.next head) (rw e' at r)
            (subst (λ (k : List Ptr). pick b (view c.block c.buffer k) ≡ none) e' p) refl fresh got)

    -- `get_cache_block` on a ring of at least two entries leaves a ring of as many, which shows the
    -- list that the specification gives; the entry that it returns is of the block asked for and
    -- holds the contents that the specification gives, and it is NULL exactly where that has none.
    pub get_cache_block-Refines :
        (l : List Ptr) → IsRing c l → 1 < length l → Refines c l bread b (get_cache_block bread c b)
    unfolding get_cache_block
    get_cache_block-Refines [] r h = absurd (omega arith)
    get_cache_block-Refines (x ∷ []) r h = absurd (omega arith)
    get_cache_block-Refines (x ∷ (y ∷ l)) r h = elim (Bool-cases (c.block (c.prev head) == b)) [
      | inl same ↦
          rw (same, get_cache_block)
            (rw r.chain.0 (fresh_hit x (y ∷ l) r (ground (arith, r.chain.0))))
      | inr other ↦
          not_fresh x y l _ r other (rw r.count refl)
            (find-Found c b (x ∷ (y ∷ l)) head head r.chain)
    ]
