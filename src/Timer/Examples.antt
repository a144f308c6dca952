-- ===== src/Timer/Examples.antt =====
-- kernel/timer.c: a timer of three ticks, while another one is set.
use thunix.Base.{refl, none, some, arith, ◌==◌, if◌then◌else◌}
use thunix.Timer.{Timers, add_timer}
use thunix.Timer.Fires.{Added, add_timer_lem}

abbrev timers : Timers
timers = record {
  timer_ticks = λ p. if p == 0 then 9 else 0;
  fn = λ p. if p == 0 then 5 else 0;
  next = λ p. none;
  next_timer = some 0;
  count_down = 0;
}

add_timer_lem_example : Added timers 3 7 (add_timer 1 3 7 timers)
add_timer_lem_example =
    add_timer_lem timers 3 7 (λ q. refl) (λ e. omega (arith, e)) (omega arith) (omega arith)
