-- ===== src/Ender/Flush.antt =====
-- `FlushAll` of relay/internal/lifecycle/ender.go.
use pushward_integrations.Prelude.{
  ℕ, zero, suc, ◌+◌, ◌≡◌, ◌≤◌, ◌<◌, ◌≢◌, ◌∙◌, take, refl, ap, inl, inr, Bool, true, false, none,
  Option-cases, Bool-cases, List, [], ◌∷◌, map, arith, Str, Eq_str, get_elem?, length,
  if◌then◌else◌,
}
use pushward_integrations.Prelude.GoMap.{Map, get, delete}
use pushward_integrations.Ender.{
  Ender, TimerPair, Callback, Update, ended, Phase, phase_one, phase_two, new_ender, stop_timer,
  stop_all, stop_pairs, fire, send, finish, own_pair, conclude, arm_phase2, clean_up, Event,
  schedules, stops, stops_all, fires, sends, finishes, step, run,
}
use pushward_integrations.Ender.Armed.{length-set_at, length-remove_at}
use pushward_integrations.Ender.Balance.{run-IsBalanced, new-IsBalanced, step-IsBalanced}

-- What `FlushAll` sends, and the names of the rows that it deletes from the state store.
pub record Flushed : Type 0 where
  pub updates : List Update
  pub rows : List (Str × Str)

abbrev pub nothing_flushed : Flushed
nothing_flushed = record { updates = []; rows = [] }

-- The pairs that the first critical section collects.
unfoldable pub collect : Map Str TimerPair → List TimerPair
collect m = map (λ e. e.1) m

unfoldable pub ended_update : TimerPair → Update
ended_update tp = record {
  gen = tp.gen;
  slug = tp.target.slug;
  state = ended;
  content = tp.target.content;
}

-- What the loop does to a pair: the update that it sends, and, where there is a state store, the row
-- that it deletes after it, of the pair's user and map key.
unfoldable pub flush_pair : Bool → TimerPair → Flushed → Flushed
unfolding ended_update
flush_pair has_store tp rest = record {
  updates = ended_update tp ∷ rest.updates;
  rows = if has_store then (tp.target.user_key, tp.target.map_key) ∷ rest.rows else rest.rows;
}

-- The loop that sends; `alive i` is `ctx.Err() == nil` before the i-th pair. It stops at the first
-- pair that finds the deadline over.
unfoldable pub flush_from : Bool → (ℕ → Bool) → ℕ → List TimerPair → Flushed
unfolding flush_pair
flush_from has_store alive i [] = nothing_flushed
flush_from has_store alive i (tp ∷ tps) =
    let rest = flush_pair has_store tp (flush_from has_store alive (i + 1) tps) in
    if alive i then rest else nothing_flushed

-- `FlushAll`: the state after the first critical section, and, after the callbacks that were running
-- have returned, the updates that it sends and the rows that it deletes.
unfoldable pub flush_all : Bool → (ℕ → Bool) → Ender → Ender × Flushed
unfolding collect flush_from
flush_all has_store alive e = (stop_all e, flush_from has_store alive 0 (collect e.timers))

-- What can still happen once nothing is scheduled any more.
abbrev pub NoSchedule : List Event → Type 0
NoSchedule [] = Unit
NoSchedule (schedules key target skip ∷ vs) = ⊥
NoSchedule (_ ∷ vs) = NoSchedule vs

own_pair_empty : (c : Callback) (e : Ender) → e.timers ≡ [] → own_pair c e ≡ none
unfolding own_pair get
own_pair_empty c e h = rw h refl

conclude_empty :
    (phase : Phase) (c : Callback) (e : Ender)
    → e.timers ≡ []
    → ((conclude phase c e).timers ≡ []) × ((conclude phase c e).running ≡ e.running)
unfolding conclude
conclude_empty phase_one c e h = rw (own_pair_empty c e h, arm_phase2) (h, refl)
conclude_empty phase_two c e h = rw (own_pair_empty c e h, clean_up) (h, refl)

fire_empty : (phase : Phase) (key : Str) (e : Ender) → e.timers ≡ [] → fire phase key e ≡ e
unfolding fire get
fire_empty phase_one key e h = rw h refl
fire_empty phase_two key e h = rw h refl

send_quiet :
    (i : ℕ) (e : Ender)
    → ((send i e).timers ≡ e.timers) × (length (send i e).running ≡ length e.running)
unfolding send
send_quiet i e = elim (Option-cases (get_elem? e.running i)) [
  | inl gone ↦ rw (gone, send) (refl, refl)
  | inr (c, there) ↦ ground (arith, there, length-set_at e.running i (record c { updated = true }))
]

finish_quiet :
    (i : ℕ) (e : Ender)
    → e.timers ≡ []
    → ((finish i e).timers ≡ []) × (length (finish i e).running ≤ length e.running)
unfolding finish
finish_quiet i e h = elim (Option-cases (get_elem? e.running i)) [
  | inl gone ↦ rw (gone, finish) (h, omega arith)
  | inr (c, there) ↦
      ground (arith, there, conclude_empty c.phase c e h, length-remove_at e.running i c there)
]

step_quiet :
    (v : Event) (vs : List Event) (e : Ender)
    → NoSchedule (v ∷ vs)
    → e.timers ≡ []
    → ((step v e).timers ≡ []) × (length (step v e).running ≤ length e.running) × NoSchedule vs
unfolding step
step_quiet (schedules key target skip) vs e n h = absurd n
step_quiet (stops key) vs e n h =
    (unfold stop_timer delete in rw h refl, unfold stop_timer in omega arith, n)
step_quiet stops_all vs e n h = (unfold stop_all in refl, unfold stop_all in omega arith, n)
step_quiet (fires phase key) vs e n h = rw (fire_empty phase key e h) (h, omega arith, n)
step_quiet (sends i) vs e n h = let (t, l) = send_quiet i e in (t ∙ h, omega (arith, l), n)
step_quiet (finishes i) vs e n h = let (t, l) = finish_quiet i e h in (t, l, n)

run_quiet :
    (vs : List Event) (e : Ender)
    → NoSchedule vs
    → e.timers ≡ []
    → ((run vs e).timers ≡ []) × (length (run vs e).running ≤ length e.running)
unfolding run
run_quiet [] e n h = (h, omega arith)
run_quiet (v ∷ vs) e n h =
    let (t, l, m) = step_quiet v vs e n h in
    let (t', l') = run_quiet vs (step v e) m t in (t', omega (arith, l, l'))

stop_pairs_nil : (m : Map Str TimerPair) → m ≡ [] → stop_pairs m ≡ 0
unfolding stop_pairs
stop_pairs_nil m h = rw h refl

-- After the first critical section of `FlushAll`, in every reachable state and whatever happens next
-- but a new schedule: no pair of timers comes back, no callback is started, and the wait group's
-- counter is exactly the number of callbacks that are still running.
pub flush_quiet :
    (vs ws : List Event) (has_store : Bool) (alive : ℕ → Bool)
    → NoSchedule ws
    → let e = run vs new_ender in
      let e' = run ws (flush_all has_store alive e).0 in
      (e'.timers ≡ []) × (length e'.running ≤ length e.running) × (e'.wg ≡ length e'.running)
unfolding flush_all stop_all
flush_quiet vs ws has_store alive n =
    let e = run vs new_ender in
    let b = run-IsBalanced vs new_ender new-IsBalanced in
    let (t, l) = run_quiet ws (stop_all e) n refl in
    let c =
      (run-IsBalanced ws (stop_all e) (unfold step in step-IsBalanced stops_all e b)).counted in
    (t, l, omega (arith, c, stop_pairs_nil (run ws (stop_all e)).timers t))

-- The update that ends a pair, written out.
abbrev pub ends_with : TimerPair → Update
ends_with tp = record {
  gen = tp.gen;
  slug = tp.target.slug;
  state = ended;
  content = tp.target.content;
}

abbrev pub row_of : TimerPair → Str × Str
row_of tp = (tp.target.user_key, tp.target.map_key)

-- What is flushed of the pairs is their first `n`, which are alive, and the next one is not.
abbrev Flushes : Bool → (ℕ → Bool) → ℕ → List TimerPair → Flushed → ℕ → Type 0
Flushes has_store alive i tps f n =
    (f.updates ≡ map ends_with (take n tps))
    × (f.rows ≡ (if has_store then map row_of (take n tps) else []))
    × (n ≤ length tps)
    × ((k : ℕ) → k < n → alive (i + k) ≡ true)
    × (n ≢ length tps → alive (i + n) ≡ false)

alive_from :
    (alive : ℕ → Bool) (i n : ℕ)
    → alive i ≡ true
    → ((k : ℕ) → k < n → alive (i + 1 + k) ≡ true)
    → (k : ℕ) → k < suc n
    → alive (i + k) ≡ true
alive_from alive i n on all zero lt = let s : i + 0 ≡ i = omega arith in rw s on
alive_from alive i n on all (suc k) lt =
    let s : i + suc k ≡ i + 1 + k = omega arith in rw s (all k (omega (arith, lt)))

prefix :
    (has_store : Bool) (alive : ℕ → Bool) (i : ℕ) (tps : List TimerPair)
    → (n : ℕ) × Flushes has_store alive i tps (flush_from has_store alive i tps) n
unfolding flush_from
prefix has_store alive i [] = (
  0,
  (refl, ground arith, omega arith, (λ k lt. absurd (omega (arith, lt))), λ h. absurd (h refl)),
)
prefix has_store alive i (tp ∷ tps) = elim (Bool-cases (alive i)) [
  | inl on ↦
      let (n, (e, r, le, all, o)) = prefix has_store alive (i + 1) tps in
      (
        suc n,
        (
          rw on (ap (λ us. ends_with tp ∷ us) e),
          rw on (ground (arith, r)),
          omega (arith, le),
          alive_from alive i n on all,
          λ h. (let s : i + suc n ≡ i + 1 + n = omega arith in rw s (o (λ q. h (ap suc q)))),
        ),
      )
  | inr off ↦ (
    0,
    (
      rw off refl,
      rw off (ground arith),
      omega arith,
      (λ k lt. absurd (omega (arith, lt))),
      λ h. (let s : i + 0 ≡ i = omega arith in rw s off),
    ),
  )
]

-- `FlushAll` sends, in the order of its range loop, an update to ENDED with the final content for the
-- first pairs that were pending, one for each, and deletes the same pairs' rows where there is a state
-- store. The deadline was not over before any of these, and it was before the next pair, if there is one.
pub flush_sends :
    (has_store : Bool) (alive : ℕ → Bool) (e : Ender)
    → let tps = collect e.timers in
      let f = (flush_all has_store alive e).1 in
      (n : ℕ) × (f.updates ≡ map ends_with (take n tps))
      × (f.rows ≡ (if has_store then map row_of (take n tps) else []))
      × (n ≤ length tps)
      × ((k : ℕ) → k < n → alive k ≡ true)
      × (n ≢ length tps → alive n ≡ false)
unfolding flush_all
flush_sends has_store alive e =
    let (n, (p, r, le, all, o)) = prefix has_store alive 0 (collect e.timers) in
    let shift : (k : ℕ) → 0 + k ≡ k = (λ k. omega arith) in
    (n, p, r, le, (λ k lt. (rw (shift k) at (all k lt))), λ h. (rw (shift n) at (o h)))
