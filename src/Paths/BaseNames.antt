-- ===== src/Paths/BaseNames.antt =====
-- fs/fslib.c: the last name of a path. `strdup` gives the address `copy`; freeing it is left out.
use thunix.Base.{
  ℕ, zero, suc, ◌+◌, ◌-◌, ◌≤◌, ◌<◌, ◌≡◌, refl, sym, ap, ◌∙◌, ◌≢◌, ◌⊎◌, inl, inr, true, false, ◌&&◌,
  not, Option, none, some, List, [], ◌∷◌, ◌++◌, arith, ltb, leb, ◌==◌, if◌then◌else◌, Bool-cases,
  length, length-append, Memory, store, store_self, store_ne,
}
use thunix.Strings.{strcpy, strrchr}
use thunix.Strings.Scan.{CStr-behind, CStr, strcpy_lem}
use thunix.Strings.Chars.{IsLast, strrchr_lem}
use thunix.Paths.{slash}
use thunix.Paths.Parts.{IsPart}

-- `while (*p != '/' && p >= path) { *p = 0; p--; }`: the memory, and `p`
unfoldable pub erase_back : ℕ → Memory → ℕ → ℕ → Option (Memory × ℕ)
unfolding store
erase_back zero m path p = none
erase_back (suc fuel) m path p =
    let rest = erase_back fuel (store m p 0) path (p - 1) in
    if not (m p == slash) && leb path p then rest else some (m, p)

-- The result with the last slash at `p`: the memory, and a pointer that may be NULL.
unfoldable pub behind_slash : ℕ → Memory → ℕ → ℕ → Option (Memory × Option ℕ)
unfolding erase_back store
behind_slash fuel m path p =
    if m (p + 1) == 0
    then elim (erase_back fuel (store m p 0) path (p - 1)) [
      | none ↦ none
      | some out ↦ some (out.0, if ltb out.1 path then none else some (out.1 + 1))
    ]
    else some (m, some (p + 1))

-- with what `strrchr` found in the copy
unfoldable pub base_of : ℕ → Memory → ℕ → ℕ → Option (Option ℕ) → Option (Memory × Option ℕ)
unfolding behind_slash
base_of fuel m path_org path none = none
base_of fuel m path_org path (some none) = some (m, some path_org)
base_of fuel m path_org path (some (some p)) = behind_slash fuel m path p

-- `get_base_name`, where `strdup` gets its memory; `chars` rounds for each walk over the path
unfoldable pub get_base_name : ℕ → Memory → ℕ → ℕ → Option (Memory × Option ℕ)
unfolding base_of
get_base_name chars m path_org copy = elim (strcpy chars m copy path_org) [
  | none ↦ none
  | some m1 ↦ base_of chars m1 path_org copy (strrchr chars m1 copy slash)
]

-- the byte behind the first part of a string
byte_behind :
    (ds : List ℕ) (x : ℕ) (ys : List ℕ) (m : Memory) (s : ℕ)
    → CStr m s (ds ++ x ∷ ys)
    → m (s + length ds) ≡ x
byte_behind ds x ys m s text = (CStr-behind ds (x ∷ ys) m s text).0

-- no byte of a part is a slash
no_slash :
    (b : List ℕ) (m : Memory) (s i : ℕ) → IsPart b → CStr m s b → i < length b → m (s + i) ≢ slash
no_slash [] m s i is text inside = absurd (omega (arith, inside))
no_slash (x ∷ b) m s zero (nonzero, other, is) (e, nz, text) inside = rw (plus_zero, e) other
  where
    plus_zero : s + 0 ≡ s
    plus_zero = omega arith
no_slash (x ∷ b) m s (suc i) (nonzero, other, is) (e, nz, text) inside =
    rw (shifted) (no_slash b m (s + 1) i is text (omega (arith, inside)))
  where
    shifted : s + suc i ≡ s + 1 + i
    shifted = omega arith

-- The last slash of a string stands before its last part.
last_slash :
    (ds b : List ℕ) (m : Memory) (s : ℕ) (r : Option ℕ)
    → IsPart b
    → CStr m s (ds ++ slash ∷ b)
    → IsLast m s (length (ds ++ slash ∷ b)) slash r
    → r ≡ some (s + length ds)
last_slash ds b m s r is text (IsLast.null e none_there) = absurd (
    none_there (length ds) (omega (arith, length-append ds (slash ∷ b)))
      (byte_behind ds slash b m s text))
last_slash ds b m s r is text (IsLast.at k inside hit behind e) = e ∙ ap (λ i. some (s + i)) (here)
  where
    after : CStr m (s + length ds + 1) b
    after = (CStr-behind ds (slash ∷ b) m s text).2

    not_before : k < length ds → ⊥
    not_before low =
        behind (length ds) low (omega (arith, length-append ds (slash ∷ b)))
          (byte_behind ds slash b m s text)

    not_behind : length ds < k → ⊥
    not_behind high =
        no_slash b m (s + length ds + 1) (k - length ds - 1) is after
          (omega (arith, high, inside, length-append ds (slash ∷ b)))
          (ap m (omega (arith, high)) ∙ hit)

    here : k ≡ length ds
    here = elim (Bool-cases (ltb k (length ds))) [
      | inl low ↦ absurd (not_before (ground (arith, low)))
      | inr high ↦ elim (Bool-cases (ltb (length ds) k)) [
        | inl low ↦ absurd (not_behind (ground (arith, low)))
        | inr other ↦ ground (arith, high, other)
      ]
    ]

-- For a path with a byte behind its last slash, with rounds for its bytes and a copy that does not lie
-- inside it: `get_base_name` returns the place behind the last slash of the copy, where the bytes that
-- follow that slash stand.
pub get_base_name_lem :
    (chars : ℕ) (m : Memory) (path_org copy : ℕ) (ds : List ℕ) (x : ℕ) (b : List ℕ)
    → CStr m path_org (ds ++ slash ∷ x ∷ b)
    → IsPart (x ∷ b)
    → length (ds ++ slash ∷ x ∷ b) < chars
    → 0 < copy
    → (copy ≤ path_org) ⊎ (path_org + length (ds ++ slash ∷ x ∷ b) < copy)
    → (m' : Memory) × (get_base_name chars m path_org copy ≡ some (m', some (copy + length ds + 1)))
      × CStr m' (copy + length ds + 1) (x ∷ b)
unfolding get_base_name behind_slash
get_base_name_lem chars m path_org copy ds x b text is enough some_copy apart =
    let (m1, copied, same, outside) =
      strcpy_lem chars m copy path_org (ds ++ slash ∷ x ∷ b) text enough apart in
    let (r, found, last) =
      strrchr_lem chars m1 copy slash (ds ++ slash ∷ x ∷ b) some_copy same enough in
    let at = found ∙ ap some (last_slash ds (x ∷ b) m1 copy r is same last) in
    let behind = (CStr-behind ds (slash ∷ x ∷ b) m1 copy same).2 in
    let more : (m1 (copy + length ds + 1) == 0) ≡ false = ground (arith, behind.0, is.0) in
    (m1, rw (copied, get_base_name, at, base_of, more) refl, behind)

-- The bytes behind a slash are erased, and no other.
erase_back_lem :
    (n fuel : ℕ) (m : Memory) (path s : ℕ)
    → m s ≡ slash
    → path ≤ s
    → ((i : ℕ) → i < n → m (s + 1 + i) ≢ slash)
    → n < fuel
    → (m' : Memory) × (erase_back fuel m path (s + n) ≡ some (m', s))
      × ((i : ℕ) → i < n → m' (s + 1 + i) ≡ 0)
      × ((a : ℕ) → (a ≤ s) ⊎ (s + n < a) → m' a ≡ m a)
unfolding erase_back
erase_back_lem n zero m path s hit from others enough = absurd (omega (arith, enough))
erase_back_lem zero (suc fuel) m path s hit from others enough =
    (m, rw (plus_zero, hit) refl, λ i inside. absurd (omega (arith, inside)), λ a out. refl)
  where
    plus_zero : s + 0 ≡ s
    plus_zero = omega arith
erase_back_lem (suc n) (suc fuel) m path s hit from others enough =
    let p = s + suc n in
    let (m', erased, zeroes, same) =
      erase_back_lem n fuel (store m p 0) path s (store_ne m p 0 s (omega arith) ∙ hit) from
        (λ i inside q.
          others i (omega (arith, inside))
            (sym (store_ne m p 0 (s + 1 + i) (omega (arith, inside))) ∙ q))
        (omega (arith, enough)) in
    (
      m',
      rw (goes, one_down, erased) refl,
      λ i inside. all_zero m' zeroes same i inside,
      λ a out. same a (omega (arith, out)) ∙ store_ne m p 0 a (omega (arith, out)),
    )
  where
    other : m (s + suc n) ≢ slash
    other q = others n (omega arith) (ap m (omega arith) ∙ q)

    goes : (not (m (s + suc n) == slash) && leb path (s + suc n)) ≡ true
    goes = ground (arith, from, other)

    all_zero :
        (m' : Memory)
        → ((i : ℕ) → i < n → m' (s + 1 + i) ≡ 0)
        → ((a : ℕ) → (a ≤ s) ⊎ (s + n < a) → m' a ≡ store m (s + suc n) 0 a)
        → (i : ℕ) → i < suc n
        → m' (s + 1 + i) ≡ 0
    all_zero m' zeroes same i inside = elim (Bool-cases (ltb i n)) [
      | inl low ↦ zeroes i (ground (arith, low))
      | inr last ↦
          let here : s + 1 + i ≡ s + suc n = ground (arith, last, inside) in
          ap m' here ∙ same (s + suc n) (omega arith) ∙ store_self m (s + suc n) 0
    ]

    one_down : s + suc n - 1 ≡ s + n
    one_down = omega arith

part_then_slash :
    (b : List ℕ) (m : Memory) (s i : ℕ)
    → IsPart b
    → CStr m s (b ++ slash ∷ [])
    → i < length b
    → m (s + i) ≢ slash
part_then_slash [] m s i is text inside = absurd (omega (arith, inside))
part_then_slash (x ∷ b) m s zero (nonzero, other, is) (e, nz, text) inside = rw (plus_zero, e) other
  where
    plus_zero : s + 0 ≡ s
    plus_zero = omega arith
part_then_slash (x ∷ b) m s (suc i) (nonzero, other, is) (e, nz, text) inside =
    rw (shifted) (part_then_slash b m (s + 1) i is text (omega (arith, inside)))
  where
    shifted : s + suc i ≡ s + 1 + i
    shifted = omega arith

append_assoc : (ds xs ys : List ℕ) → (ds ++ xs) ++ ys ≡ ds ++ (xs ++ ys)
append_assoc [] xs ys = refl
append_assoc (d ∷ ds) xs ys = ap (λ l. d ∷ l) (append_assoc ds xs ys)

-- Where the path ends in the slash that the search finds, what lies before it is erased back to the
-- slash before.
erased_part :
    (fuel : ℕ) (m : Memory) (path s : ℕ) (b : List ℕ)
    → CStr m s (slash ∷ b ++ slash ∷ [])
    → IsPart b
    → path ≤ s
    → length b < fuel
    → (m' : Memory) × (behind_slash fuel m path (s + 1 + length b) ≡ some (m', some (s + 1)))
      × (m' (s + 1) ≡ 0)
unfolding behind_slash
erased_part fuel m path s b (hit, nonzero, text) is from enough =
    let p = s + 1 + length b in
    let (m', erased, zeroes, same) =
      erase_back_lem (length b) fuel (store m p 0) path s (store_ne m p 0 s (omega arith) ∙ hit)
        from
        (λ i inside q.
          part_then_slash b m (s + 1) i is text inside
            (sym (store_ne m p 0 (s + 1 + i) (omega (arith, inside))) ∙ q))
        enough in
    let ends : (m (p + 1) == 0) ≡ true =
      ground (arith, (CStr-behind b (slash ∷ []) m (s + 1) text).2) in
    let inside : ltb s path ≡ false = ground (arith, from) in
    let back : p - 1 ≡ s + length b = omega arith in
    (m', rw (ends, back, erased, inside) refl, first_zero m' zeroes same)
  where
    first_zero :
        (m' : Memory)
        → ((i : ℕ) → i < length b → m' (s + 1 + i) ≡ 0)
        → ((a : ℕ) → (a ≤ s) ⊎ (s + length b < a) → m' a ≡ store m (s + 1 + length b) 0 a)
        → m' (s + 1) ≡ 0
    first_zero m' zeroes same = elim (Bool-cases (ltb 0 (length b))) [
      | inl some_byte ↦
          let here : s + 1 ≡ s + 1 + 0 = omega arith in
          ap m' here ∙ zeroes 0 (ground (arith, some_byte))
      | inr no_byte ↦
          let here : s + 1 ≡ s + 1 + length b = ground (arith, no_byte) in
          ap m' here ∙ same (s + 1 + length b) (omega arith) ∙ store_self m (s + 1 + length b) 0
    ]

-- For a path that ends in a slash, with one before its last part, likewise: `get_base_name` returns the
-- address of an empty string, and not the last part.
pub get_base_name-trailing :
    (chars : ℕ) (m : Memory) (path_org copy : ℕ) (ds b : List ℕ)
    → CStr m path_org ((ds ++ slash ∷ b) ++ slash ∷ [])
    → IsPart b
    → length ((ds ++ slash ∷ b) ++ slash ∷ []) < chars
    → 0 < copy
    → (copy ≤ path_org) ⊎ (path_org + length ((ds ++ slash ∷ b) ++ slash ∷ []) < copy)
    → (m' : Memory) × (get_base_name chars m path_org copy ≡ some (m', some (copy + length ds + 1)))
      × CStr m' (copy + length ds + 1) []
unfolding get_base_name
get_base_name-trailing chars m path_org copy ds b text is enough some_copy apart =
    let whole = (ds ++ slash ∷ b) ++ slash ∷ [] in
    let (m1, copied, same, outside) = strcpy_lem chars m copy path_org whole text enough apart in
    let (r, found, last) = strrchr_lem chars m1 copy slash whole some_copy same enough in
    let at =
      found ∙ ap some (last_slash (ds ++ slash ∷ b) [] m1 copy r tt same last ∙ ap some place) in
    let flat : CStr m1 copy (ds ++ (slash ∷ b ++ slash ∷ [])) =
      rw (← append_assoc ds (slash ∷ b) (slash ∷ [])) same in
    let tail = CStr-behind ds (slash ∷ b ++ slash ∷ []) m1 copy flat in
    let (m', erased, empty) =
      erased_part chars m1 copy (copy + length ds) b tail is (omega arith)
        (omega (arith, enough, sizes)) in
    (m', rw (copied, get_base_name, at, base_of) erased, empty)
  where
    sizes : length ((ds ++ slash ∷ b) ++ slash ∷ []) ≡ length ds + suc (length b) + 1
    sizes =
        length-append (ds ++ slash ∷ b) (slash ∷ [])
        ∙ ap (λ n. n + 1) (length-append ds (slash ∷ b))

    place : copy + length (ds ++ slash ∷ b) ≡ copy + length ds + 1 + length b
    place = omega (arith, length-append ds (slash ∷ b))
