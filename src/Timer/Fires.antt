-- ===== src/Timer/Fires.antt =====
-- kernel/timer.c: when a timer's function is called.
use mathlib.Core.Option
use thunix.Base.{
  ℕ, zero, suc, ◌+◌, ◌-◌, ◌^◌, ◌≤◌, ◌<◌, ◌≡◌, refl, sym, ap, ◌∙◌, ◌≢◌, inl, inr, true, false,
  Option, none, some, List, [], ◌∷◌, ◌++◌, arith, ltb, ◌==◌, if◌then◌else◌, ==_iff, Bool-cases,
  if-cases, u32,
}
use thunix.Timer.{
  panic, Timers, Result, ran, put, add_timer, do_timer, fire, free_slot, set_timer, sort_from,
  time_requests,
}

-- ticks one after the other, with the functions called at each
unfoldable pub ticks : ℕ → Timers → Option (Timers × List (List ℕ))
ticks zero s = some (s, [])
ticks (suc n) s = elim (do_timer 65 s) [
  | none ↦ none
  | some out ↦
      Option.map (λ (rest : Timers × List (List ℕ)). (rest.0, out.1 ∷ rest.1)) (ticks n out.0)
]

-- as many ticks at which nothing is called
abbrev pub silent : ℕ → List (List ℕ)
silent zero = []
silent (suc n) = [] ∷ silent n

-- the next timer has `n` ticks to go, and is the only one that is reached
pub record IsWaiting (s : Timers) (p n f : ℕ) : Type 0 where
  pub first : s.next_timer ≡ some p
  pub alone : s.next p ≡ none
  pub left : s.timer_ticks p ≡ n
  pub called : s.fn p ≡ f

-- the first slot of the list that is free, or none is
data Slot (fn : ℕ → ℕ) (left p : ℕ) : Option ℕ → Type 0 where
  none_free : ((i : ℕ) → i < left → fn (p + i) ≢ 0) → Slot fn left p none
  free :
      (q : ℕ)
      → p ≤ q
      → q < p + left
      → fn q ≡ 0
      → ((j : ℕ) → p ≤ j → j < q → fn j ≢ 0)
      → Slot fn left p (some q)

free_slot-Slot : (left : ℕ) (fn : ℕ → ℕ) (p : ℕ) → Slot fn left p (free_slot left fn p)
unfolding free_slot
free_slot-Slot zero fn p = none_free (λ i low. absurd (omega (arith, low)))
free_slot-Slot (suc left) fn p =
    if-cases (Slot fn (suc left) p) (fn p == 0)
      (λ here.
        free p (omega arith) (omega arith) ((==_iff _ _).0 here)
          (λ j from below. absurd (omega (arith, from, below))))
      (λ used. later used _ (free_slot-Slot left fn (p + 1)))
  where
    later :
        (fn p == 0) ≡ false → (out : Option ℕ) → Slot fn left (p + 1) out → Slot fn (suc left) p out
    later used _ (free q from below e first) =
        free q (omega (arith, from)) (omega (arith, below)) e used_at
      where
        used_at : (j : ℕ) → p ≤ j → j < q → fn j ≢ 0
        used_at j at under e2 = elim (Bool-cases (j == p)) [
          | inl same ↦ ground (arith, used, at_p same e2)
          | inr more ↦ first j (ground (arith, at, more)) under e2
        ]
          where
            at_p : (j == p) ≡ true → fn j ≡ 0 → fn p ≡ 0
            at_p same e3 = ap fn (sym ((==_iff _ _).0 same)) ∙ e3
    later used _ (none_free all) = none_free (λ i low. used_at i low)
      where
        used_at : (i : ℕ) → i < suc left → fn (p + i) ≢ 0
        used_at zero low e = ground (arith, used, ap fn (plus_zero) ∙ e)
          where
            plus_zero : p ≡ p + 0
            plus_zero = omega arith
        used_at (suc i) low e = all i (omega (arith, low)) (ap fn (omega arith) ∙ e)

fire_last :
    (fuel : ℕ) (s : Timers) (p f : ℕ)
    → (s.timer_ticks p == 0) ≡ true
    → s.next p ≡ none
    → s.fn p ≡ f
    → fire (suc fuel) s (some p) ≡ some (record s { fn = put s.fn p 0; next_timer = none }, f ∷ [])
unfolding fire
fire_last fuel s p f over alone called = rw (over, called, alone) refl

fire_more :
    (fuel : ℕ) (s : Timers) (p : ℕ)
    → (s.timer_ticks p == 0) ≡ false
    → fire (suc fuel) s (some p) ≡ some (record s { next_timer = some p }, [])
unfolding fire
fire_more fuel s p running = rw running refl

-- the timers once a tick has been counted
counted : Timers → ℕ → Timers
counted s p = record s {
  count_down = s.count_down - 1;
  timer_ticks = put s.timer_ticks p (u32 (s.timer_ticks p + (2 ^ 32 - 1)));
}

do_timer_first :
    (fuel : ℕ) (s : Timers) (p : ℕ)
    → s.next_timer ≡ some p
    → do_timer fuel s ≡ fire fuel (counted s p) (some p)
unfolding do_timer counted
do_timer_first fuel s p first =
    ap
      (λ (x : Option ℕ). elim x [
        | none ↦ some (record s { count_down = s.count_down - 1 }, [])
        | some q ↦ fire fuel (counted s q) (some q)
      ])
      first

less_by_one :
    (s : Timers) (p n : ℕ)
    → s.timer_ticks p ≡ suc n
    → suc n < 2 ^ 32
    → (counted s p).timer_ticks p ≡ n
unfolding counted
less_by_one s p n left small = ground (arith, left, small)

-- one tick
tick_last :
    (fuel : ℕ) (s : Timers) (p f : ℕ)
    → IsWaiting s p 1 f
    → (s' : Timers) × (do_timer (suc fuel) s ≡ some (s', f ∷ []))
      × (s'.next_timer ≡ none)
      × (s'.fn p ≡ 0)
unfolding counted
tick_last fuel s p f is = (
  record (counted s p) { fn = put s.fn p 0; next_timer = none },
  do_timer_first (suc fuel) s p is.first ∙ fire_last fuel (counted s p) p f over is.alone is.called,
  refl,
  ground arith,
)
  where
    over : ((counted s p).timer_ticks p == 0) ≡ true
    over = ground (arith, less_by_one s p 0 is.left (omega arith))

tick_more :
    (fuel : ℕ) (s : Timers) (p n f : ℕ)
    → IsWaiting s p (suc (suc n)) f
    → suc (suc n) < 2 ^ 32
    → (s' : Timers) × (do_timer (suc fuel) s ≡ some (s', [])) × IsWaiting s' p (suc n) f
unfolding counted
tick_more fuel s p n f is small = (
  record (counted s p) { next_timer = some p },
  do_timer_first (suc fuel) s p is.first ∙ fire_more fuel (counted s p) p running,
  record {
    first = refl;
    alone = is.alone;
    left = less_by_one s p (suc n) is.left small;
    called = is.called;
  },
)
  where
    running : ((counted s p).timer_ticks p == 0) ≡ false
    running = ground (arith, less_by_one s p (suc n) is.left small)

ticks_lem :
    (n : ℕ) (s : Timers) (p f : ℕ)
    → IsWaiting s p (suc n) f
    → suc n < 2 ^ 32
    → (s' : Timers) × (ticks (suc n) s ≡ some (s', silent n ++ (f ∷ []) ∷ []))
      × (s'.next_timer ≡ none)
      × (s'.fn p ≡ 0)
unfolding ticks
ticks_lem zero s p f is small =
    let (s', e, ends, freed) = tick_last 64 s p f is in (s', rw (e, ticks) refl, ends, freed)
ticks_lem (suc n) s p f is small =
    let (s1, e, is1) = tick_more 64 s p n f is small in
    let (s2, e2, ends, freed) = ticks_lem n s1 p f is1 (omega (arith, small)) in
    (s2, rw (e, ticks, e2) refl, ends, freed)

-- What `add_timer` of `n` ticks and `f` leaves: a panic where every slot is taken; else the first free
-- slot has the two, and the others are as they were; nothing is called at the call and the `n - 1` ticks
-- behind it, and `f` at the next, and then no timer is left to reach.
pub data Added (s : Timers) (n f : ℕ) : Option Result → Type 0 where
  full : ((i : ℕ) → i < time_requests → s.fn (0 + i) ≢ 0) → Added s n f (some panic)
  fires :
      (p : ℕ) (s1 s2 : Timers)
      → p < time_requests
      → s.fn p ≡ 0
      → ((j : ℕ) → j < p → s.fn j ≢ 0)
      → s1.fn p ≡ f
      → s1.timer_ticks p ≡ n
      → ((q : ℕ) → q ≢ p → s1.fn q ≡ s.fn q)
      → ((q : ℕ) → q ≢ p → s1.timer_ticks q ≡ s.timer_ticks q)
      → ticks n s1 ≡ some (s2, silent (n - 1) ++ (f ∷ []) ∷ [])
      → s2.next_timer ≡ none
      → Added s n f (some (ran s1 []))

sort_alone : (s : Timers) (p : ℕ) → s.next p ≡ none → sort_from 1 s p ≡ some s
unfolding sort_from
sort_alone s p alone =
    ap
      (λ (x : Option ℕ). elim x [
        | none ↦ some s
        | some q ↦ if ltb (s.timer_ticks q) (s.timer_ticks p) then none else some s
      ])
      alone

-- the timers with the slot `p` set
with_timer : Timers → ℕ → ℕ → ℕ → Timers
with_timer s p n f = record s {
  timer_ticks = put s.timer_ticks p n;
  fn = put s.fn p f;
  next_timer = some p;
}

set_timer_alone :
    (s : Timers) (p n f : ℕ)
    → s.next p ≡ none
    → set_timer 1 s n f (some p) ≡ some (ran (with_timer s p n f) [])
unfolding set_timer with_timer
set_timer_alone s p n f alone =
    ap (λ (x : Option Timers). elim x [ none ↦ none | some s1 ↦ some (ran s1 []) ])
      (sort_alone
        (record s { timer_ticks = put s.timer_ticks p n; fn = put s.fn p f; next_timer = some p }) p
        alone)

with_timer-IsWaiting :
    (s : Timers) (p n f : ℕ) → s.next p ≡ none → IsWaiting (with_timer s p n f) p n f
unfolding with_timer
with_timer-IsWaiting s p n f alone = record {
  first = refl;
  alone = alone;
  left = ground arith;
  called = ground arith;
}

set_timer-Added :
    (s : Timers) (n f : ℕ) (out : Option ℕ)
    → ((q : ℕ) → s.next q ≡ none)
    → suc n < 2 ^ 32
    → Slot s.fn time_requests 0 out
    → Added s (suc n) f (set_timer 1 s (suc n) f out)
unfolding set_timer with_timer
set_timer-Added s n f _ alone small (none_free all) = full all
set_timer-Added s n f _ alone small (free p from below e first) =
    let (s2, called, ends, freed) =
      ticks_lem n (with_timer s p (suc n) f) p f (with_timer-IsWaiting s p (suc n) f (alone p))
        small in
    rw (set_timer_alone s p (suc n) f (alone p)) (
      fires p (with_timer s p (suc n) f) s2 (omega (arith, below)) e
        (λ j under. first j (omega arith) under) (ground arith) (ground arith)
        (λ q other. ground (arith, other)) (λ q other. ground (arith, other)) (rw one_less called)
        ends)
  where
    one_less : suc n - 1 ≡ n
    one_less = omega arith

-- Where no timer has a next one, as nothing ever assigns one: `add_timer` of a function and a positive
-- number of ticks panics if all 64 slots are taken; else it sets the first free slot to the two, changes
-- no other slot's function and ticks, and calls nothing; of the ticks behind it, as
-- many as were asked for, the last calls that function alone and the ones before call nothing, the
-- functions of timers that were set before neither, and afterwards no timer is left to reach.
pub add_timer_lem :
    (s : Timers) (n f : ℕ)
    → ((q : ℕ) → s.next q ≡ none)
    → f ≢ 0
    → 0 < n
    → n < 2 ^ 32
    → Added s n f (add_timer 1 n f s)
unfolding add_timer
add_timer_lem s zero f alone some_fn some_ticks small = absurd (omega (arith, some_ticks))
add_timer_lem s (suc n) f alone some_fn some_ticks small =
    by_slot (set_timer-Added s n f _ alone small (free_slot-Slot time_requests s.fn 0))
  where
    not_null : (f == 0) ≡ false
    not_null = ground (arith, some_fn)

    no_wait : (suc n == 0) ≡ false
    no_wait = ground arith

    by_slot :
        Added s (suc n) f (set_timer 1 s (suc n) f (free_slot time_requests s.fn 0))
        → Added s (suc n) f (add_timer 1 (suc n) f s)
    by_slot added = rw (not_null, no_wait) added
