-- ===== src/Paths/Parts.antt =====
-- fs/namei.c: the text of a path, and how `namei` takes a part of it to its array.
use thunix.Base.{
  ℕ, zero, suc, ◌+◌, ◌≤◌, ◌<◌, ◌≡◌, refl, sym, ap, ◌∙◌, ◌≢◌, ◌⊎◌, true, false, ◌||◌, some, List, [],
  ◌∷◌, ◌++◌, arith, leb, ◌==◌, length, Memory, store, store_self, store_ne,
}
use thunix.Strings.Scan.{CStr, CStr-moved}
use thunix.Paths.{max_name_len, slash, skip_slashes, take_part}

-- no byte of a part is a NUL or a slash
abbrev pub IsPart : List ℕ → Type 0
IsPart [] = Unit
IsPart (x ∷ xs) = (x ≢ 0) × (x ≢ slash) × IsPart xs

abbrev pub slashes : ℕ → List ℕ → List ℕ
slashes zero xs = xs
slashes (suc k) xs = slash ∷ slashes k xs

-- a path: its parts, each with the number of slashes behind it
abbrev pub path_text : List (List ℕ × ℕ) → List ℕ
path_text [] = []
path_text ((c, k) ∷ ps) = c ++ slashes k (path_text ps)

-- parts of 1 to 255 bytes, with a slash at least between two
abbrev pub IsPath : List (List ℕ × ℕ) → Type 0
IsPath [] = Unit
IsPath ((c, k) ∷ ps) =
    IsPart c × (0 < length c) × (length c ≤ max_name_len) × ((0 < k) ⊎ (length ps ≡ 0)) × IsPath ps

-- the bytes `xs` written at `p`
abbrev pub put_bytes : Memory → ℕ → List ℕ → Memory
put_bytes m p [] = m
put_bytes m p (x ∷ xs) = put_bytes (store m p x) (p + 1) xs

-- the empty memory with a name at `part`
abbrev pub named : ℕ → List ℕ → Memory
named part c = put_bytes (λ _. 0) part c

pub put_bytes_ne :
    (xs : List ℕ) (m : Memory) (p a : ℕ) → (a < p) ⊎ (p + length xs ≤ a) → put_bytes m p xs a ≡ m a
put_bytes_ne [] m p a out = refl
put_bytes_ne (x ∷ xs) m p a out =
    put_bytes_ne xs (store m p x) (p + 1) a (omega (arith, out))
    ∙ store_ne m p x a (omega (arith, out))

-- a part with a NUL behind it is a string
pub put_bytes-CStr :
    (xs : List ℕ) (m : Memory) (p e : ℕ)
    → IsPart xs
    → e ≡ p + length xs
    → CStr (store (put_bytes m p xs) e 0) p xs
put_bytes-CStr [] m p e part at = ap (store m e 0) (omega (arith, at)) ∙ store_self m e 0
put_bytes-CStr (x ∷ xs) m p e (nonzero, no_slash, part) at = (
  store_ne (put_bytes (store m p x) (p + 1) xs) e 0 p (omega (arith, at))
      ∙ put_bytes_ne xs (store m p x) (p + 1) p (omega arith)
      ∙ store_self m p x,
  nonzero,
  put_bytes-CStr xs (store m p x) (p + 1) e part (omega (arith, at)),
)

pub named-CStr : (xs : List ℕ) (part : ℕ) → IsPart xs → CStr (named part xs) part xs
unfolding store
named-CStr xs part is =
    CStr-moved (store (named part xs) (part + length xs) 0) (named part xs) part part xs
      (λ i low. same i) (put_bytes-CStr xs (λ _. 0) part (part + length xs) is refl)
  where
    end : named part xs (part + length xs) ≡ 0
    end = put_bytes_ne xs (λ _. 0) part (part + length xs) (omega arith)

    same :
        (i : ℕ) → named part xs (part + i) ≡ store (named part xs) (part + length xs) 0 (part + i)
    same i = ground (arith, end)

-- `n` bytes at `name` and the one behind them lie outside the array `part`
abbrev pub Apart : ℕ → ℕ → ℕ → Type 0
Apart part name n = (name + n < part) ⊎ (part + max_name_len < name)

pub CStr-store :
    (m : Memory) (part p v name : ℕ) (xs : List ℕ)
    → part ≤ p
    → p ≤ part + max_name_len
    → Apart part name (length xs)
    → CStr m name xs
    → CStr (store m p v) name xs
CStr-store m part p v name xs from to apart =
    CStr-moved m (store m p v) name name xs
      (λ i low. store_ne m p v (name + i) (omega (arith, from, to, apart, low)))

-- nothing, or a slash and more
abbrev pub Ends : List ℕ → Type 0
Ends [] = Unit
Ends (y ∷ ys) = y ≡ slash

stops :
    (m : Memory) (name : ℕ) (ys : List ℕ)
    → CStr m name ys
    → Ends ys
    → (m name == 0 || m name == slash) ≡ true
stops m name [] e ends = ground arith
stops m name (y ∷ ys) (e, nonzero, c) ends = ground arith

-- A part is copied whole, with `name` and `p` behind it.
pub take_part_lem :
    (c ys : List ℕ) (fuel : ℕ) (m : Memory) (part name p : ℕ)
    → CStr m name (c ++ ys)
    → IsPart c
    → Ends ys
    → part ≤ p
    → p + length c ≤ part + max_name_len
    → Apart part name (length (c ++ ys))
    → length c < fuel
    → take_part fuel m part name p ≡ some (some (put_bytes m p c, name + length c, p + length c))
unfolding take_part
take_part_lem c ys zero m part name p text is ends from to apart enough =
    absurd (omega (arith, enough))
take_part_lem [] ys (suc fuel) m part name p text is ends from to apart enough =
    rw (stops m name ys text ends) (ground arith)
take_part_lem (x ∷ c) ys (suc fuel) m part name p (e, nonzero, text) (nz, ns, is) ends from to apart
      enough =
    rw
      (
        goes,
        room,
        e,
        take_part_lem c ys fuel (store m p x) part (name + 1) (p + 1)
            (CStr-store m part p x (name + 1) (c ++ ys) from (omega (arith, to))
              (omega (arith, apart)) text)
            is ends (omega (arith, from)) (omega (arith, to)) (omega (arith, apart))
            (omega (arith, enough)),
      )
      (ground arith)
  where
    goes : (m name == 0 || m name == slash) ≡ false
    goes = ground (arith, e, nz, ns)

    room : leb (part + max_name_len) p ≡ false
    room = ground (arith, to)

-- The slashes are passed.
pub skip_slashes_lem :
    (k fuel : ℕ) (m : Memory) (name : ℕ) (ys : List ℕ)
    → CStr m name (slashes k ys)
    → m (name + k) ≢ slash
    → k < fuel
    → skip_slashes fuel m name ≡ some (name + k)
unfolding skip_slashes
skip_slashes_lem k zero m name ys text behind enough = absurd (omega (arith, enough))
skip_slashes_lem zero (suc fuel) m name ys text behind enough = ground (arith, behind)
skip_slashes_lem (suc k) (suc fuel) m name ys (e, nonzero, text) behind enough = ground (
  arith,
  e,
  skip_slashes_lem k fuel m (name + 1) ys text (λ q. behind (ap m (omega arith) ∙ q))
      (omega (arith, enough)),
)

-- The text of a path stands for no parts exactly where it is empty, and does not start with a slash.
pub path_text-Starts :
    (ps : List (List ℕ × ℕ)) (m : Memory) (name : ℕ)
    → CStr m name (path_text ps)
    → IsPath ps
    → (m name ≢ slash) × ((m name == 0) ≡ (length ps == 0))
path_text-Starts [] m name text path = (λ q. omega (arith, text, q), ground (arith, text))
path_text-Starts (([], k) ∷ ps) m name text (is, some_byte, path, between, more) =
    absurd (omega (arith, some_byte))
path_text-Starts (((x ∷ c), k) ∷ ps) m name (e, nonzero, text)
      ((nz, ns, is), path, short, between, more) =
    (λ q. ns (sym e ∙ q), ground (arith, e, nz))

-- behind a part there is a slash, or the end
pub slashes-Ends :
    (k : ℕ) (ps : List (List ℕ × ℕ)) → (0 < k) ⊎ (length ps ≡ 0) → Ends (slashes k (path_text ps))
slashes-Ends zero [] some_slash = tt
slashes-Ends zero (p ∷ ps) some_slash = absurd (omega (arith, some_slash))
slashes-Ends (suc k) ps some_slash = refl

pub CStr-slashes :
    (k : ℕ) (ys : List ℕ) (m : Memory) (name : ℕ)
    → CStr m name (slashes k ys)
    → CStr m (name + k) ys
CStr-slashes zero ys m name text = rw (plus_zero) text
  where
    plus_zero : name + 0 ≡ name
    plus_zero = omega arith
CStr-slashes (suc k) ys m name (e, nonzero, text) =
    rw (shifted) (CStr-slashes k ys m (name + 1) text)
  where
    shifted : name + suc k ≡ name + 1 + k
    shifted = omega arith

pub length-slashes : (k : ℕ) (ys : List ℕ) → length (slashes k ys) ≡ k + length ys
length-slashes zero ys = omega arith
length-slashes (suc k) ys = omega (arith, length-slashes k ys)

-- A path apart from the array is as it was, once a part has been copied there.
pub CStr-kept :
    (m : Memory) (part name : ℕ) (c xs : List ℕ)
    → length c ≤ max_name_len
    → Apart part name (length xs)
    → CStr m name xs
    → CStr (store (put_bytes m part c) (part + length c) 0) name xs
CStr-kept m part name c xs short apart =
    CStr-moved m (store (put_bytes m part c) (part + length c) 0) name name xs (λ i low.
      store_ne (put_bytes m part c) (part + length c) 0 (name + i)
        (omega (arith, short, apart, low))
      ∙ put_bytes_ne c m part (name + i) (omega (arith, short, apart, low)))
