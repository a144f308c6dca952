-- ===== src/Timer.antt =====
-- kernel/timer.c: the timers, and the tick. A function is named by a number, NULL by 0; what the
-- functions do that are called is left out, and the functions called are a result.
pub mod Fires
mod Examples
use mathlib.Core.Option
use thunix.Base.{
  ℕ, zero, suc, ◌+◌, ◌-◌, ◌^◌, Option, none, some, List, [], ◌∷◌, ltb, ◌==◌, if◌then◌else◌, set,
  u32,
}

abbrev pub time_requests : ℕ
time_requests = 64

-- `timer_list`, `next_timer` and `count_down`; a `struct timer_list` is named by its index.
pub record Timers : Type 0 where
  pub timer_ticks : ℕ → ℕ
  pub fn : ℕ → ℕ
  pub next : ℕ → Option ℕ
  pub next_timer : Option ℕ
  pub count_down : ℕ

-- What a call comes to: the timers, and the functions called in order, or a panic.
pub data Result : Type 0 where
  ran : Timers → List ℕ → Result
  panic : Result

abbrev pub put : {A : Type 0} → (ℕ → A) → ℕ → A → ℕ → A
put f p v q = if q == p then v else f q

-- `for (p = timer_list; p < timer_list + TIME_REQUESTS ; p ++) if (!p->fn) break;`, with `left` to go
unfoldable pub free_slot : ℕ → (ℕ → ℕ) → ℕ → Option ℕ
free_slot zero fn p = none
free_slot (suc left) fn p =
    let rest = free_slot left fn (p + 1) in if fn p == 0 then some p else rest

-- the contents of `p` and its next one exchanged, with the ticks of the next one taken off those of `p`
unfoldable pub exchange : Timers → ℕ → ℕ → Timers
exchange s p q = record s {
  timer_ticks = put (put s.timer_ticks p (s.timer_ticks q)) q (s.timer_ticks p - s.timer_ticks q);
  fn = put (put s.fn p (s.fn q)) q (s.fn p);
}

-- the loop of `add_timer`, for at most `fuel` rounds
unfoldable pub sort_from : ℕ → Timers → ℕ → Option Timers
unfolding exchange
sort_from zero s p = none
sort_from (suc fuel) s p = elim (s.next p) [
  | none ↦ some s
  | some q ↦
      if ltb (s.timer_ticks q) (s.timer_ticks p) then sort_from fuel (exchange s p q) q else some s
]

unfoldable pub set_timer : ℕ → Timers → ℕ → ℕ → Option ℕ → Option Result
unfolding sort_from
set_timer fuel s timer_ticks fn none = some panic
set_timer fuel s timer_ticks fn (some p) =
    elim (sort_from fuel
      (record s {
        timer_ticks = put s.timer_ticks p timer_ticks;
        fn = put s.fn p fn;
        next_timer = some p;
      })
      p) [ none ↦ none | some s1 ↦ some (ran s1 []) ]

-- `add_timer`; nothing assigns `next`.
unfoldable pub add_timer : ℕ → ℕ → ℕ → Timers → Option Result
unfolding set_timer free_slot
add_timer fuel timer_ticks fn s =
    let set = set_timer fuel s timer_ticks fn (free_slot time_requests s.fn 0) in
    if fn == 0 then some (ran s []) else if timer_ticks == 0 then some (ran s (fn ∷ [])) else set

-- the loop of `do_timer`, for at most `fuel` rounds
unfoldable pub fire : ℕ → Timers → Option ℕ → Option (Timers × List ℕ)
fire fuel s none = some (record s { next_timer = none }, [])
fire zero s (some p) = none
fire (suc fuel) s (some p) =
    if s.timer_ticks p == 0
    then Option.map (λ (out : Timers × List ℕ). (out.0, s.fn p ∷ out.1))
        (fire fuel (record s { fn = put s.fn p 0 }) (s.next p))
    else some (record s { next_timer = some p }, [])

-- `do_timer`
unfoldable pub do_timer : ℕ → Timers → Option (Timers × List ℕ)
unfolding fire
do_timer fuel s =
    let counted = record s { count_down = s.count_down - 1 } in
    elim s.next_timer [
      | none ↦ some (counted, [])
      | some p ↦
          fire fuel
            (record counted {
              timer_ticks = put s.timer_ticks p (u32 (s.timer_ticks p + (2 ^ 32 - 1)));
            })
            (some p)
    ]
