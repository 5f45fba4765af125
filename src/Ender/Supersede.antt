-- ===== src/Ender/Supersede.antt =====
-- Which sequence owns a key's timers, relay/internal/lifecycle/ender.go.
use pushward_integrations.Prelude.{
  ℕ, zero, suc, ◌+◌, ◌≡◌, ◌≤◌, ◌≢◌, refl, true, false, none, some, List, [], ◌∷◌, arith, Str,
  Eq_str, get_elem?,
}
use pushward_integrations.Prelude.GoMap.{get, has, get-put_self}
use pushward_integrations.Ender.{
  Ender, Target, TimerPair, Callback, Phase, phase_one, phase_two, new_ender, install, schedule,
  row, end_if_tracked, schedule_end, timer_key, pending, own_pair, arm_phase2, clean_up, conclude,
  finish, Event, run,
}
use pushward_integrations.Ender.Armed.{GensUpTo}
use pushward_integrations.Ender.Endings.{finish_eq}
use pushward_integrations.Ender.Balance.{run-IsBalanced, new-IsBalanced}

schedule_pending :
    (key : Str) (target : Target) (e : Ender)
    → has key e.timers ≡ true
    → schedule key target true e ≡ e
unfolding schedule
schedule_pending key target e h = ground (arith, h)

has-schedule :
    (key : Str) (target : Target) (e : Ender) → has key (schedule key target true e).timers ≡ true
unfolding schedule install
has-schedule key target e =
    let tp : TimerPair = record {
      phase1 = true;
      phase2 = none;
      gen = e.next_gen + 1;
      target = target;
    } in
    ground (arith, get-put_self key tp e.timers)

schedule_again :
    (key key' : Str) (target later : Target) (e : Ender)
    → key' ≡ key
    → schedule key' later true (schedule key target true e) ≡ schedule key target true e
schedule_again key key' target later e p =
    rw p (schedule_pending key later (schedule key target true e) (has-schedule key target e))

-- `EndIfTracked` with a tracked activity reports an end in flight. If one is pending it changes
-- nothing at all; if not, it schedules one as `ScheduleEnd` does, so a second call changes nothing.
pub end_if_tracked_once :
    (hash : Str → Str) (target later : Target) (e : Ender)
    → let key = timer_key hash target.user_key target.map_key in
      let e' = (end_if_tracked hash (some row) target e).0 in
      ((end_if_tracked hash (some row) target e).1 ≡ true)
      × (pending key e ≡ true → e' ≡ e)
      × (pending key e ≡ false → e' ≡ schedule_end hash target e)
      × (later.user_key ≡ target.user_key
          → later.map_key ≡ target.map_key
          → (end_if_tracked hash (some row) later e').0 ≡ e')
unfolding end_if_tracked schedule_end schedule pending
end_if_tracked_once hash target later e =
    let key = timer_key hash target.user_key target.map_key in
    let e' = (end_if_tracked hash (some row) target e).0 in
    (
      refl,
      (λ h. ground (arith, h)),
      (λ h. ground (arith, h)),
      (λ u m.
          schedule_again key (timer_key hash later.user_key later.map_key) target later e
            (unfold timer_key in cc (u, m))),
    )

gens_below :
    (n : ℕ) (cs : List Callback) (i : ℕ) (c : Callback)
    → GensUpTo n cs
    → get_elem? cs i ≡ some c
    → c.gen ≤ n
gens_below n [] i c g h = cc
gens_below n (d ∷ cs) zero c g h = ground (arith, h, g.0)
gens_below n (d ∷ cs) (suc i) c g h = gens_below n cs i c g.1 h

disowned :
    (c : Callback) (e : Ender) (tp : TimerPair)
    → get c.key e.timers ≡ some tp
    → tp.gen ≢ c.gen
    → own_pair c e ≡ none
unfolding own_pair
disowned c e tp h g = ground arith

conclude_disowned :
    (phase : Phase) (c : Callback) (e : Ender)
    → own_pair c e ≡ none
    → (conclude phase c e).timers ≡ e.timers
unfolding conclude
conclude_disowned phase_one c e h = rw (h, arm_phase2) refl
conclude_disowned phase_two c e h = rw (h, clean_up) refl

-- In every reachable state, an end that is scheduled is safe from the callbacks that already run: none
-- of them, running to its end, changes the timers of any key if its own key's pair is the new one.
pub superseded_changes_no_timer :
    (vs : List Event) (key : Str) (target : Target) (i : ℕ) (c : Callback)
    → let e = install key target (run vs new_ender) in
      get_elem? e.running i ≡ some c
      → c.key ≡ key
      → c.updated ≡ true
      → (finish i e).timers ≡ e.timers
unfolding install
superseded_changes_no_timer vs key target i c there k sent =
    let e₀ = run vs new_ender in
    let e = install key target e₀ in
    let tp : TimerPair = record {
      phase1 = true;
      phase2 = none;
      gen = e₀.next_gen + 1;
      target = target;
    } in
    let below =
      gens_below e₀.next_gen e₀.running i c (run-IsBalanced vs new_ender new-IsBalanced).gens
        there in
    let newest : get c.key e.timers ≡ some tp = rw k (get-put_self key tp e₀.timers) in
    rw (finish_eq i c e there sent)
      (conclude_disowned c.phase c e (disowned c e tp newest (omega (arith, below))))
