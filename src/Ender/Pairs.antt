-- ===== src/Ender/Pairs.antt =====
-- The balance of the wait group of relay/internal/lifecycle/ender.go: the steps that arm, stop and fire.
use pushward_integrations.Prelude.{
  ℕ, ◌+◌, ◌≡◌, ◌≤◌, ◌∙◌, inl, inr, Bool, true, false, Option, none, some, Option-cases, Bool-cases,
  List, ◌∷◌, arith, Str, Eq_str, str_eq_iff, length, get_elem?, ◌&&◌, ◌==◌,
}
use pushward_integrations.Prelude.GoMap.{
  get, put, has, get-put, get-delete, Distinct, Distinct-put, Distinct-delete,
}
use pushward_integrations.Ender.{
  Ender, Target, TimerPair, Callback, Phase, phase_one, phase_two, stop_pair, stop_existing,
  stop_pairs, install, schedule, stop_timer, stop_all, fire, send, started, done_for_phase2,
}
use pushward_integrations.Ender.Armed.{
  count, count-set_at, GensUpTo, GensUpTo-suc, GensUpTo-set_at, count_new, stop_pairs-put,
  stop_pairs-delete, length-set_at,
}

-- How many callbacks of each phase a pair of timers accounts for: one that fired and has not led on.
abbrev pub fired1 : Bool → Option Bool → ℕ
fired1 false none = 1
fired1 _ _ = 0

abbrev pub fired2 : Option Bool → ℕ
fired2 (some false) = 1
fired2 _ = 0

-- A pair is in one of four states: phase 1 armed, phase 1 running, phase 2 armed, phase 2 running.
pub record IsPair (key : Str) (tp : TimerPair) (running : List Callback) (next_gen : ℕ)
    : Type 0 where
  pub one_armed : tp.phase1 ≡ true → tp.phase2 ≡ none
  pub one_running : count phase_one key tp.gen running ≡ fired1 tp.phase1 tp.phase2
  pub two_running : count phase_two key tp.gen running ≡ fired2 tp.phase2
  pub scheduled : tp.gen ≤ next_gen

pub record IsBalanced (e : Ender) : Type 0 where
  pub counted : e.wg ≡ stop_pairs e.timers + length e.running
  pub distinct : Distinct e.timers
  pub gens : GensUpTo e.next_gen e.running
  pub pairs :
      (key : Str) (tp : TimerPair) → get key e.timers ≡ some tp → IsPair key tp e.running e.next_gen

pub install-IsBalanced :
    (key : Str) (target : Target) (e : Ender) → IsBalanced e → IsBalanced (install key target e)
unfolding install stop_pair
install-IsBalanced key target e b =
    let tp : TimerPair = record {
      phase1 = true;
      phase2 = none;
      gen = e.next_gen + 1;
      target = target;
    } in
    record {
      counted = omega (
        arith,
        b.counted,
        stop_pairs-put key tp e.timers,
        stop_pairs-delete key e.timers b.distinct,
      );
      distinct = Distinct-put key tp e.timers b.distinct;
      gens = GensUpTo-suc e.next_gen e.running b.gens;
      pairs = λ j t h. ground (
        arith,
        get-put key j tp e.timers,
        b.pairs j t,
        str_eq_iff key j,
        count_new phase_one key e.next_gen e.running b.gens,
        count_new phase_two key e.next_gen e.running b.gens,
      );
    }

pub schedule-IsBalanced :
    (key : Str) (target : Target) (skip : Bool) (e : Ender)
    → IsBalanced e
    → IsBalanced (schedule key target skip e)
unfolding schedule
schedule-IsBalanced key target skip e b = elim (Bool-cases (has key e.timers && skip)) [
  | inl pending ↦ rw (pending, schedule) b
  | inr free ↦ rw (free, schedule) (install-IsBalanced key target e b)
]

pub stop_timer-IsBalanced : (key : Str) (e : Ender) → IsBalanced e → IsBalanced (stop_timer key e)
unfolding stop_timer
stop_timer-IsBalanced key e b = record {
  counted = omega (arith, b.counted, stop_pairs-delete key e.timers b.distinct);
  distinct = Distinct-delete key e.timers b.distinct;
  gens = b.gens;
  pairs = λ j t h. ground (arith, get-delete key j e.timers, b.pairs j t);
}

pub stop_all-IsBalanced : (e : Ender) → IsBalanced e → IsBalanced (stop_all e)
unfolding stop_all stop_pairs get
stop_all-IsBalanced e b = record {
  counted = omega (arith, b.counted);
  distinct = tt;
  gens = b.gens;
  pairs = λ j t h. cc;
}

pub fire_one-IsBalanced :
    (key : Str) (tp : TimerPair) (e : Ender)
    → get key e.timers ≡ some tp
    → tp.phase1 ≡ true
    → IsBalanced e
    → IsBalanced (record e {
      timers = put key (record tp { phase1 = false }) e.timers;
      running = started phase_one key tp ∷ e.running;
    })
unfolding stop_existing stop_pair count
fire_one-IsBalanced key tp e there armed b =
    let tp' : TimerPair = record tp { phase1 = false } in
    let own = b.pairs key tp there in
    record {
      counted = ground (arith, there, stop_pairs-put key tp' e.timers);
      distinct = Distinct-put key tp' e.timers b.distinct;
      gens = (own.scheduled, b.gens);
      pairs = λ j t h.
          ground (
            arith,
            own,
            get-put key j tp' e.timers,
            b.pairs j t,
            str_eq_iff key j,
            str_eq_iff j key,
          );
    }

pub fire_two-IsBalanced :
    (key : Str) (tp : TimerPair) (e : Ender)
    → get key e.timers ≡ some tp
    → tp.phase2 ≡ some true
    → IsBalanced e
    → IsBalanced (record e {
      timers = put key (record tp { phase2 = some false }) e.timers;
      running = started phase_two key tp ∷ e.running;
    })
unfolding stop_existing stop_pair count
fire_two-IsBalanced key tp e there armed b =
    let tp' : TimerPair = record tp { phase2 = some false } in
    let own = b.pairs key tp there in
    record {
      counted = ground (arith, there, stop_pairs-put key tp' e.timers);
      distinct = Distinct-put key tp' e.timers b.distinct;
      gens = (own.scheduled, b.gens);
      pairs = λ j t h.
          ground (
            arith,
            own,
            get-put key j tp' e.timers,
            b.pairs j t,
            str_eq_iff key j,
            str_eq_iff j key,
          );
    }

pub armed_two : (phase2 : Option Bool) → (done_for_phase2 phase2 == 1) ≡ true → phase2 ≡ some true
armed_two phase2 h = ground arith

pub fire-IsBalanced :
    (phase : Phase) (key : Str) (e : Ender) → IsBalanced e → IsBalanced (fire phase key e)
unfolding fire
fire-IsBalanced phase_one key e b = elim (Option-cases (get key e.timers)) [
  | inl gone ↦ rw (gone, fire) b
  | inr (tp, there) ↦ elim (Bool-cases tp.phase1) [
    | inl armed ↦ rw (there, fire) (rw armed (fire_one-IsBalanced key tp e there armed b))
    | inr over ↦ rw (there, fire) (rw over b)
  ]
]
fire-IsBalanced phase_two key e b = elim (Option-cases (get key e.timers)) [
  | inl gone ↦ rw (gone, fire) b
  | inr (tp, there) ↦ elim (Bool-cases (done_for_phase2 tp.phase2 == 1)) [
    | inl armed ↦
        rw (there, fire)
          (rw armed (fire_two-IsBalanced key tp e there (armed_two tp.phase2 armed) b))
    | inr over ↦ rw (there, fire) (rw over b)
  ]
]

pub send-IsBalanced : (i : ℕ) (e : Ender) → IsBalanced e → IsBalanced (send i e)
unfolding send
send-IsBalanced i e b = elim (Option-cases (get_elem? e.running i)) [
  | inl gone ↦ rw (gone, send) b
  | inr (c, there) ↦ elim (Bool-cases c.updated) [
    | inl sent ↦ rw (there, send) (rw sent b)
    | inr new ↦
        rw (there, send)
          (rw new (record {
            counted =
                omega (arith, b.counted, length-set_at e.running i (record c { updated = true }));
            distinct = b.distinct;
            gens = GensUpTo-set_at e.next_gen e.running i c there b.gens;
            pairs = λ j t h.
                let p = b.pairs j t h in
                record {
                  one_armed = p.one_armed;
                  one_running = count-set_at phase_one j t.gen e.running i c there ∙ p.one_running;
                  two_running = count-set_at phase_two j t.gen e.running i c there ∙ p.two_running;
                  scheduled = p.scheduled;
                };
          }))
  ]
]
