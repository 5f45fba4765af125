-- ===== src/Syncx/TimerGroup/Safety.antt =====
-- The wait group's balance and the end of a closed group, shared/syncx/timergroup.go.
use pushward_integrations.Prelude.{
  ℕ, zero, suc, ◌+◌, ◌≤◌, ◌≡◌, refl, Bool, true, false, none, some, List, [], ◌∷◌, arith, replicate,
}
use pushward_integrations.Syncx.TimerGroup.{
  TimerGroup, empty, stop_timer, reset, stop, close, wait_returns, fire, finish, Event, resets,
  stops, closes, fires, finishes, step, run,
}

abbrev pub armed : Bool → ℕ
armed true = 1
armed false = 0

-- The counter is the callbacks that run and the timer that is armed, and a closed group has none
-- armed.
pub record IsBalanced (g : TimerGroup) : Type 0 where
  pub counted : g.wg ≡ armed (stop_timer g.timer) + g.running
  pub quiet : g.stopped ≡ true → g.timer ≡ none

pub step-IsBalanced : (e : Event) (g : TimerGroup) → IsBalanced g → IsBalanced (step e g)
unfolding step stop_timer
step-IsBalanced (resets fn) g b = ground arith
step-IsBalanced stops g b = ground arith
step-IsBalanced closes g b = ground arith
step-IsBalanced fires g b = ground arith
step-IsBalanced finishes g b = ground arith

run-IsBalanced : (es : List Event) (g : TimerGroup) → IsBalanced g → IsBalanced (run es g)
unfolding run
run-IsBalanced [] g b = b
run-IsBalanced (e ∷ es) g b = run-IsBalanced es (step e g) (step-IsBalanced e g b)

empty-IsBalanced : IsBalanced empty
unfolding empty stop_timer
empty-IsBalanced = ground arith

-- After any events from the zero value, the wait group's counter is the number of callbacks that run
-- and have not returned, plus one if a timer is armed: no `Done` is missing and none is too many.
pub wg-run :
    (es : List Event)
    → (run es empty).wg ≡ armed (stop_timer (run es empty).timer) + (run es empty).running
wg-run es = (run-IsBalanced es empty empty-IsBalanced).counted

drain :
    (k : ℕ) (g : TimerGroup)
    → g.timer ≡ none
    → g.wg ≡ k
    → g.running ≡ k
    → (run (replicate k finishes) g).wg ≡ 0
unfolding run step
drain zero g t w r = w
drain (suc k) g t w r = drain k (finish g) (ground arith) (ground arith) (ground arith)

-- Closed, with no timer armed and no more callbacks than `k`.
record IsClosed (k : ℕ) (g : TimerGroup) : Type 0 where
  shut : g.stopped ≡ true
  unarmed : g.timer ≡ none
  few : g.running ≤ k

step-IsClosed : (k : ℕ) (e : Event) (g : TimerGroup) → IsClosed k g → IsClosed k (step e g)
unfolding step stop_timer
step-IsClosed k (resets fn) g c = ground arith
step-IsClosed k stops g c = ground arith
step-IsClosed k closes g c = ground arith
step-IsClosed k fires g c = ground arith
step-IsClosed k finishes g c = ground arith

run-IsClosed : (k : ℕ) (es : List Event) (g : TimerGroup) → IsClosed k g → IsClosed k (run es g)
unfolding run
run-IsClosed k [] g c = c
run-IsClosed k (e ∷ es) g c = run-IsClosed k es (step e g) (step-IsClosed k e g c)

fire_unarmed : (g : TimerGroup) → g.timer ≡ none → (fire g).1 ≡ none
unfolding fire
fire_unarmed g h = ground (arith, h)

close-stopped : (g : TimerGroup) → (close g).stopped ≡ true
unfolding close
close-stopped g = ground arith

close-timer : (g : TimerGroup) → (close g).timer ≡ none
unfolding close
close-timer g = refl

-- After any events and then `Close`, whatever happens next, resets included, the callbacks that run are
-- never more than ran at the `Close` and a timer that fires starts none; and when those that ran at the
-- `Close` have returned, `Wait` returns.
pub close_drains :
    (es : List Event)
    → let g = close (run es empty) in
      ((ws : List Event) → ((run ws g).running ≤ g.running) × ((fire (run ws g)).1 ≡ none))
      × (wait_returns (run (replicate g.running finishes) g) ≡ true)
unfolding wait_returns stop_timer
close_drains es =
    let g = close (run es empty) in
    let b : IsBalanced g =
      unfold step in
      step-IsBalanced closes (run es empty) (run-IsBalanced es empty empty-IsBalanced) in
    (
      (λ ws.
          let shut = close-stopped (run es empty) in
          let c =
            run-IsClosed g.running ws g
              (record { shut = shut; unarmed = close-timer (run es empty); few = omega arith }) in
          (c.few, fire_unarmed (run ws g) c.unarmed)),
      ground (
        arith,
        b.counted,
        close-timer (run es empty),
        drain g.running g (close-timer (run es empty)),
      ),
    )

-- A group that is stopped and not closed can be armed again; a closed one cannot.
pub reset-stop-close :
    (fn : ℕ) (g : TimerGroup)
    → (g.stopped ≡ false → (fire (reset fn (stop g))).1 ≡ some fn) × (reset fn (close g) ≡ close g)
unfolding reset stop close fire
reset-stop-close fn g = (ground arith, ground arith)
