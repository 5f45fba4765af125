-- ===== src/Ender/Balance.antt =====
-- The wait group of relay/internal/lifecycle/ender.go: what `Wait` and `FlushAll` wait for.
use pushward_integrations.Prelude.{◌+◌, ◌≡◌, some, List, [], ◌∷◌, arith, Str, Eq_str, length}
use pushward_integrations.Prelude.GoMap.{get}
use pushward_integrations.Ender.{
  Ender, TimerPair, new_ender, stop_pairs, Event, schedules, stops, stops_all, fires, sends,
  finishes, step, run,
}
use pushward_integrations.Ender.Pairs.{
  IsPair, IsBalanced, schedule-IsBalanced, stop_timer-IsBalanced, stop_all-IsBalanced,
  fire-IsBalanced, send-IsBalanced,
}
use pushward_integrations.Ender.Endings.{finish-IsBalanced}

pub step-IsBalanced : (v : Event) (e : Ender) → IsBalanced e → IsBalanced (step v e)
unfolding step
step-IsBalanced (schedules key target skip) e b = schedule-IsBalanced key target skip e b
step-IsBalanced (stops key) e b = stop_timer-IsBalanced key e b
step-IsBalanced stops_all e b = stop_all-IsBalanced e b
step-IsBalanced (fires phase key) e b = fire-IsBalanced phase key e b
step-IsBalanced (sends i) e b = send-IsBalanced i e b
step-IsBalanced (finishes i) e b = finish-IsBalanced i e b

pub run-IsBalanced : (vs : List Event) (e : Ender) → IsBalanced e → IsBalanced (run vs e)
unfolding run
run-IsBalanced [] e b = b
run-IsBalanced (v ∷ vs) e b = run-IsBalanced vs (step v e) (step-IsBalanced v e b)

pub new-IsBalanced : IsBalanced new_ender
unfolding new_ender stop_pairs get
new-IsBalanced = record { counted = omega arith; distinct = tt; gens = tt; pairs = λ j t h. cc }

-- In every reachable state the wait group's counter is the number of armed timers and of callbacks
-- that run, and each pair of timers is in one of four states: phase 1 armed, phase 1 running, phase 2
-- armed or phase 2 running, with exactly the callback of its own that this asks for.
pub run_balanced :
    (vs : List Event)
    → ((run vs new_ender).wg
        ≡ stop_pairs (run vs new_ender).timers + length (run vs new_ender).running)
      × ((key : Str) (tp : TimerPair)
          → get key (run vs new_ender).timers ≡ some tp
          → IsPair key tp (run vs new_ender).running (run vs new_ender).next_gen)
run_balanced vs = let b = run-IsBalanced vs new_ender new-IsBalanced in (b.counted, b.pairs)
