-- ===== src/Ender/Order.antt =====
-- The order of the updates that relay/internal/lifecycle/ender.go sends: phase 1 before phase 2.
use pushward_integrations.Prelude.{
  ℕ, ◌-◌, ◌≡◌, subst, sym, inl, inr, Bool, true, false, ◌&&◌, some, is_some, Option-cases,
  Bool-cases, List, [], ◌∷◌, arith, Str, Eq_str, get_elem?, ◌==◌,
}
use pushward_integrations.Prelude.GoMap.{
  get, put, has, AllValues-put, AllValues-delete, AllValues-get, AllValues-imp,
}
use pushward_integrations.Ender.{
  Ender, Target, TimerPair, Callback, Phase, phase_one, phase_two, new_ender, install, schedule,
  stop_timer, stop_all, fire, send, remove_at, own_pair, arm_phase2, clean_up, conclude, finish,
  Event, schedules, stops, stops_all, fires, sends, finishes, step, run, started, done_for_phase2,
  update_of,
}
use pushward_integrations.Ender.Endings.{finish_eq, own_pair-some}
use pushward_integrations.Ender.Ready.{
  IsOrdered, PairReady, InOrder, AllReady-get, AllReady-remove_at, AllReady-set_at, AllReady-more,
  PairReady-more,
}

schedule-InOrder :
    (key : Str) (target : Target) (skip : Bool) (e : Ender)
    → InOrder e
    → InOrder (schedule key target skip e)
unfolding schedule install
schedule-InOrder key target skip e o = elim (Bool-cases (has key e.timers && skip)) [
  | inl pending ↦ rw (pending, schedule) o
  | inr free ↦
      rw (free, schedule)
        (record {
          ordered = o.ordered;
          pairs = AllValues-put (PairReady e.sent) key _ e.timers (λ h. cc) o.pairs;
          callbacks = o.callbacks;
        })
]

fire_one-InOrder :
    (key : Str) (tp : TimerPair) (e : Ender)
    → get key e.timers ≡ some tp
    → InOrder e
    → InOrder (record e {
      timers = put key (record tp { phase1 = false }) e.timers;
      running = started phase_one key tp ∷ e.running;
    })
fire_one-InOrder key tp e there o = record {
  ordered = o.ordered;
  pairs =
      AllValues-put (PairReady e.sent) key _ e.timers
        (AllValues-get (PairReady e.sent) key tp e.timers o.pairs there) o.pairs;
  callbacks = (ground arith, o.callbacks);
}

fire_two-InOrder :
    (key : Str) (tp : TimerPair) (e : Ender)
    → get key e.timers ≡ some tp
    → (done_for_phase2 tp.phase2 == 1) ≡ true
    → InOrder e
    → InOrder (record e {
      timers = put key (record tp { phase2 = some false }) e.timers;
      running = started phase_two key tp ∷ e.running;
    })
fire_two-InOrder key tp e there armed o =
    let ready = AllValues-get (PairReady e.sent) key tp e.timers o.pairs there in
    let is : is_some tp.phase2 ≡ true = ground arith in
    record {
      ordered = o.ordered;
      pairs = AllValues-put (PairReady e.sent) key _ e.timers (λ h. ready is) o.pairs;
      callbacks = (ground (arith, ready is), o.callbacks);
    }

fire-InOrder : (phase : Phase) (key : Str) (e : Ender) → InOrder e → InOrder (fire phase key e)
unfolding fire
fire-InOrder phase_one key e o = elim (Option-cases (get key e.timers)) [
  | inl gone ↦ rw (gone, fire) o
  | inr (tp, there) ↦ elim (Bool-cases tp.phase1) [
    | inl armed ↦ rw (there, fire) (rw armed (fire_one-InOrder key tp e there o))
    | inr over ↦ rw (there, fire) (rw over o)
  ]
]
fire-InOrder phase_two key e o = elim (Option-cases (get key e.timers)) [
  | inl gone ↦ rw (gone, fire) o
  | inr (tp, there) ↦ elim (Bool-cases (done_for_phase2 tp.phase2 == 1)) [
    | inl armed ↦ rw (there, fire) (rw armed (fire_two-InOrder key tp e there armed o))
    | inr over ↦ rw (there, fire) (rw over o)
  ]
]

send-InOrder : (i : ℕ) (e : Ender) → InOrder e → InOrder (send i e)
unfolding send update_of
send-InOrder i e o = elim (Option-cases (get_elem? e.running i)) [
  | inl gone ↦ rw (gone, send) o
  | inr (c, there) ↦ elim (Bool-cases c.updated) [
    | inl already ↦ rw (there, send) (rw already o)
    | inr new ↦
        let r = AllReady-get e.sent e.running i c o.callbacks there in
        let u = update_of c in
        rw (there, send)
          (rw new (record {
            ordered = (ground arith, o.ordered);
            pairs =
                AllValues-imp (PairReady e.sent) (PairReady (u ∷ e.sent)) e.timers
                  (PairReady-more u e.sent) o.pairs;
            callbacks =
                AllReady-set_at (u ∷ e.sent) e.running i (record c { updated = true })
                  (AllReady-more u e.sent e.running o.callbacks) (ground arith);
          }))
  ]
]

conclude-InOrder :
    (phase : Phase) (i : ℕ) (c : Callback) (e : Ender)
    → get_elem? e.running i ≡ some c
    → c.updated ≡ true
    → InOrder e
    → InOrder (record (conclude phase c e) {
      running = remove_at e.running i;
      wg = (conclude phase c e).wg - 1;
    })
unfolding conclude
conclude-InOrder phase_one i c e there sent o = elim (Option-cases (own_pair c e)) [
  | inl lost ↦
      rw (lost, arm_phase2)
        (record {
          ordered = o.ordered;
          pairs = o.pairs;
          callbacks = AllReady-remove_at e.sent e.running i o.callbacks;
        })
  | inr (tp, own) ↦
      let r = AllReady-get e.sent e.running i c o.callbacks there in
      let g = (own_pair-some c e tp own).1 in
      rw (own, arm_phase2)
        (record {
          ordered = o.ordered;
          pairs =
              AllValues-put (PairReady e.sent) c.key _ e.timers (λ h. rw g (r.sent_first sent))
                o.pairs;
          callbacks = AllReady-remove_at e.sent e.running i o.callbacks;
        })
]
conclude-InOrder phase_two i c e there sent o = elim (Option-cases (own_pair c e)) [
  | inl lost ↦
      rw (lost, clean_up)
        (record {
          ordered = o.ordered;
          pairs = o.pairs;
          callbacks = AllReady-remove_at e.sent e.running i o.callbacks;
        })
  | inr (tp, own) ↦
      rw (own, clean_up)
        (record {
          ordered = o.ordered;
          pairs = AllValues-delete (PairReady e.sent) c.key e.timers o.pairs;
          callbacks = AllReady-remove_at e.sent e.running i o.callbacks;
        })
]

finish-InOrder : (i : ℕ) (e : Ender) → InOrder e → InOrder (finish i e)
unfolding finish
finish-InOrder i e o = elim (Option-cases (get_elem? e.running i)) [
  | inl gone ↦ rw (gone, finish) o
  | inr (c, there) ↦ elim (Bool-cases c.updated) [
    | inr early ↦ rw (there, finish) (rw early o)
    | inl sent ↦
        subst InOrder (sym (finish_eq i c e there sent))
          (conclude-InOrder c.phase i c e there sent o)
  ]
]

step-InOrder : (v : Event) (e : Ender) → InOrder e → InOrder (step v e)
unfolding step stop_timer stop_all
step-InOrder (schedules key target skip) e o = schedule-InOrder key target skip e o
step-InOrder (stops key) e o = record {
  ordered = o.ordered;
  pairs = AllValues-delete (PairReady e.sent) key e.timers o.pairs;
  callbacks = o.callbacks;
}
step-InOrder stops_all e o = record { ordered = o.ordered; pairs = tt; callbacks = o.callbacks }
step-InOrder (fires phase key) e o = fire-InOrder phase key e o
step-InOrder (sends i) e o = send-InOrder i e o
step-InOrder (finishes i) e o = finish-InOrder i e o

run-InOrder : (vs : List Event) (e : Ender) → InOrder e → InOrder (run vs e)
unfolding run
run-InOrder [] e o = o
run-InOrder (v ∷ vs) e o = run-InOrder vs (step v e) (step-InOrder v e o)

-- Whatever happens from a new Ender, in any order, each ENDED update that a callback sends comes after
-- an ONGOING update of the same sequence.
pub run-IsOrdered : (vs : List Event) → IsOrdered (run vs new_ender).sent
unfolding new_ender
run-IsOrdered vs =
    (run-InOrder vs new_ender (record { ordered = tt; pairs = tt; callbacks = tt })).ordered
