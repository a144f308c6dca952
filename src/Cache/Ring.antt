-- ===== src/Cache/Ring.antt =====
-- fs/cache.c: rings linked both ways, seen from one direction. `f` leads on and `g` leads back.
use thunix.Base.{◌≡◌, refl, ◌≢◌, Bool, true, false, ◌||◌, List, [], ◌∷◌, ◌++◌, arith, ◌==◌}
use thunix.Cache.{Ptr, update}

abbrev pub occurs : Ptr → List Ptr → Bool
occurs a [] = false
occurs a (x ∷ xs) = (x == a) || occurs a xs

infix 40 ◌∉◌
abbrev pub ◌∉◌ : Ptr → List Ptr → Type 0
a ∉ xs = occurs a xs ≡ false

abbrev pub Distinct : List Ptr → Type 0
Distinct [] = Unit {0}
Distinct (x ∷ xs) = (x ∉ xs) × Distinct xs

-- from `a` the links lead through `xs` to `b`
abbrev pub Chain : (Ptr → Ptr) → (Ptr → Ptr) → Ptr → List Ptr → Ptr → Type 0
Chain f g a [] b = (f a ≡ b) × (g b ≡ a)
Chain f g a (x ∷ xs) b = (f a ≡ x) × (g x ≡ a) × Chain f g x xs b

pub occurs-append :
    (p : Ptr) (front back : List Ptr) → (occurs p front || occurs p back) ≡ occurs p (front ++ back)
occurs-append p [] back = refl
occurs-append p (q ∷ front) back = ground (arith, occurs-append p front back)

pub Distinct-append :
    (xs : List Ptr) (x : Ptr) (ys : List Ptr)
    → Distinct (xs ++ (x ∷ ys))
    → (x ∉ xs) × (x ∉ ys) × Distinct (xs ++ ys)
Distinct-append [] x ys d = (refl, d.0, d.1)
Distinct-append (z ∷ xs) x ys d =
    let (out, out', d') = Distinct-append xs x ys d.1 in
    (
      ground (arith, occurs-append z xs (x ∷ ys)),
      out',
      (ground (arith, occurs-append z xs (x ∷ ys), occurs-append z xs ys), d'),
    )

-- A chain survives a change of the links of other nodes.
pub frame :
    (f g f' g' : Ptr → Ptr) (a : Ptr) (xs : List Ptr) (b : Ptr)
    → ((y : Ptr) → occurs y (a ∷ xs) ≡ true → f' y ≡ f y)
    → ((y : Ptr) → occurs y (b ∷ xs) ≡ true → g' y ≡ g y)
    → Chain f g a xs b
    → Chain f' g' a xs b
frame f g f' g' a [] b same_f same_g c = ground (arith, same_f a, same_g b)
frame f g f' g' a (x ∷ xs) b same_f same_g (p, q, c) = (
  ground (arith, same_f a),
  ground (arith, same_g x),
  frame f g f' g' x xs b (λ y h. same_f y (ground arith)) (λ y h. same_g y (ground arith)) c,
)

pub split :
    (f g : Ptr → Ptr) (a : Ptr) (xs : List Ptr) (x : Ptr) (ys : List Ptr) (b : Ptr)
    → Chain f g a (xs ++ (x ∷ ys)) b
    → Chain f g a xs x × Chain f g x ys b
split f g a [] x ys b (p, q, c) = ((p, q), c)
split f g a (z ∷ xs) x ys b (p, q, c) =
    let (front, back) = split f g z xs x ys b c in ((p, q, front), back)

-- the node before the end of a chain
pub back_mem :
    (f g : Ptr → Ptr) (a : Ptr) (xs : List Ptr) (b : Ptr)
    → Chain f g a xs b
    → occurs (g b) (a ∷ xs) ≡ true
back_mem f g a [] b c = ground arith
back_mem f g a (x ∷ xs) b (p, q, c) = ground (arith, back_mem f g x xs b c)

-- the node behind the start of a chain
pub front_mem :
    (f g : Ptr → Ptr) (a : Ptr) (xs : List Ptr) (b : Ptr)
    → Chain f g a xs b
    → occurs (f a) (b ∷ xs) ≡ true
front_mem f g a [] b c = ground arith
front_mem f g a (x ∷ xs) b c = ground arith

not_mem-ne : (x y : Ptr) (xs : List Ptr) → x ∉ xs → occurs y xs ≡ true → x ≢ y
not_mem-ne x y xs out i e = cc

-- Taking the node `x` out of a chain: its neighbours are linked to each other.
pub unlink-Chain :
    (f g : Ptr → Ptr) (a : Ptr) (xs : List Ptr) (x : Ptr) (ys : List Ptr) (b : Ptr)
    → Chain f g a xs x
    → Chain f g x ys b
    → a ∉ xs ++ (x ∷ ys)
    → b ∉ xs ++ (x ∷ ys)
    → Distinct (xs ++ (x ∷ ys))
    → Chain (update f (g x) (f x)) (update g (f x) (g x)) a (xs ++ ys) b
unlink-Chain f g a [] x [] b front back na nb d = ground arith
unlink-Chain f g a [] x (y ∷ ys) b front (p, q, back) na nb d = (
  ground arith,
  ground arith,
  frame f g _ _ y ys b (λ z h. ground arith) (λ z h. ground arith) back,
)
unlink-Chain f g a (z ∷ xs) x ys b (p, q, front) back na nb d =
    let a_ne : a ≢ g x =
      not_mem-ne a (g x) (z ∷ xs) (ground (arith, occurs-append a xs (x ∷ ys)))
        (back_mem f g z xs x front) in
    let z_ne : z ≢ f x =
      not_mem-ne z (f x) (b ∷ ys) (ground (arith, occurs-append z xs (x ∷ ys)))
        (front_mem f g x ys b back) in
    (ground arith, ground arith, unlink-Chain f g z xs x ys b front back d.0 (ground arith) d.1)

-- Putting a new node `x` in front of a chain.
pub push-Chain :
    (f g : Ptr → Ptr) (a : Ptr) (xs : List Ptr) (b x : Ptr)
    → Chain f g a xs b
    → x ∉ a ∷ xs
    → x ≢ b
    → a ∉ xs
    → b ∉ xs
    → Distinct xs
    → Chain (update (update f x (f a)) a x) (update (update g (f a) x) x a) a (x ∷ xs) b
push-Chain f g a [] b x c out ne na nb d = ground arith
push-Chain f g a (y ∷ xs) b x (p, q, c) out ne na nb d = (
  ground arith,
  ground arith,
  (ground arith, ground arith, frame f g _ _ y xs b (λ z h. ground arith) (λ z h. ground arith) c),
)
