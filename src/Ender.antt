-- ===== src/Ender.antt =====
-- The two-phase end of relay/internal/lifecycle/ender.go. The mutex makes each critical section one
-- step. A timer is armed until it fires or is stopped, and `Stop` reports whether it was armed; what
-- the runtime and the server do are steps of their own: a timer fires, a callback's update goes out,
-- a callback comes to its critical section. `key` is the timer key, "<hash of the user key>:<map key>".
pub mod Armed
pub mod Pairs
pub mod Endings
pub mod Balance
pub mod Ready
pub mod Order
pub mod Supersede
pub mod Flush
pub mod Retry
use pushward_integrations.Prelude.{
  ℕ, zero, suc, ◌+◌, ◌-◌, Bool, true, false, not, ◌&&◌, Option, none, some, List, [], ◌∷◌, ◌++◌,
  ◌==◌, if◌then◌else◌, is_some, get_elem?, Str, Eq_str,
}
use pushward_integrations.Prelude.GoMap.{Map, get, put, delete, has}

pub data State : Type 0 where
  ongoing ended : State

-- What a sequence ends: the activity and its final content, a value that is passed on unread.
pub record Target : Type 0 where
  pub user_key : Str
  pub map_key : Str
  pub slug : Str
  pub content : Str

-- A timer pair. A timer is its `Bool`, whether it is armed; `phase2` is nil until it is set.
pub record TimerPair : Type 0 where
  pub phase1 : Bool
  pub phase2 : Option Bool
  pub gen : ℕ
  pub target : Target

pub data Phase : Type 0 where
  phase_one phase_two : Phase

-- A callback that runs: `updated` once its `updateWithRetry` has returned.
pub record Callback : Type 0 where
  pub phase : Phase
  pub key : Str
  pub gen : ℕ
  pub target : Target
  pub updated : Bool

-- An update that was sent, with the sequence that sent it.
pub record Update : Type 0 where
  pub gen : ℕ
  pub slug : Str
  pub state : State
  pub content : Str

pub record Ender : Type 0 where
  pub timers : Map Str TimerPair
  pub next_gen : ℕ
  pub wg : ℕ
  pub running : List Callback
  pub sent : List Update  -- the newest first
  pub deleted : List Str  -- the state rows deleted, by timer key, the newest first

unfoldable pub new_ender : Ender
new_ender = record { timers = []; next_gen = 0; wg = 0; running = []; sent = []; deleted = [] }

-- `auth.MapKeyPrefix(userKey) + ":" + mapKey`, over the hash that it is given.
unfoldable pub timer_key : (Str → Str) → Str → Str → Str
timer_key map_key_prefix user_key map_key = map_key_prefix user_key ++ (b':' ∷ map_key)

-- The number of `wg.Done()` calls for stopping a timer: one if it was armed.
abbrev pub done_for : Bool → ℕ
done_for true = 1
done_for false = 0

abbrev pub done_for_phase2 : Option Bool → ℕ
done_for_phase2 none = 0
done_for_phase2 (some armed) = done_for armed

-- Stops both timers of a pair: how many `wg.Done()` calls that makes.
unfoldable pub stop_pair : TimerPair → ℕ
stop_pair tp = done_for tp.phase1 + done_for_phase2 tp.phase2

unfoldable pub stop_existing : Option TimerPair → ℕ
unfolding stop_pair
stop_existing none = 0
stop_existing (some tp) = stop_pair tp

-- The new pair takes the key, after the timers of the one before are stopped.
unfoldable pub install : Str → Target → Ender → Ender
unfolding stop_existing
install key target e =
    let gen = e.next_gen + 1 in
    record e {
      next_gen = gen;
      wg = e.wg - stop_existing (get key e.timers) + 1;
      timers =
          put key (record { phase1 = true; phase2 = none; gen = gen; target = target }) e.timers;
    }

unfoldable pub schedule : Str → Target → Bool → Ender → Ender
unfolding install
schedule key target skip_if_pending e =
    if has key e.timers && skip_if_pending then e else install key target e

unfoldable pub schedule_end : (Str → Str) → Target → Ender → Ender
unfolding schedule timer_key
schedule_end map_key_prefix target e =
    schedule (timer_key map_key_prefix target.user_key target.map_key) target false e

-- What the state store answers: whether a row is there, or an error. `none` is the nil store.
pub data Tracked : Type 0 where
  row no_row failed : Tracked

unfoldable pub end_if_tracked : (Str → Str) → Option Tracked → Target → Ender → Ender × Bool
unfolding schedule timer_key
end_if_tracked map_key_prefix (some row) target e =
    (schedule (timer_key map_key_prefix target.user_key target.map_key) target true e, true)
end_if_tracked map_key_prefix (some no_row) target e = (e, false)
end_if_tracked map_key_prefix (some failed) target e = (e, false)
end_if_tracked map_key_prefix none target e = (e, false)

unfoldable pub pending : Str → Ender → Bool
pending key e = has key e.timers

unfoldable pub stop_timer : Str → Ender → Ender
unfolding stop_existing
stop_timer key e = record e {
  wg = e.wg - stop_existing (get key e.timers);
  timers = delete key e.timers;
}

-- The range loop of `StopAll`: the `wg.Done()` calls for all pairs.
unfoldable pub stop_pairs : Map Str TimerPair → ℕ
unfolding stop_pair
stop_pairs [] = 0
stop_pairs ((k, tp) ∷ m) = stop_pair tp + stop_pairs m

unfoldable pub stop_all : Ender → Ender
unfolding stop_pairs
stop_all e = record e { wg = e.wg - stop_pairs e.timers; timers = [] }

-- The callback that a pair's timer starts when it fires.
abbrev pub started : Phase → Str → TimerPair → Callback
started phase key tp = record {
  phase = phase;
  key = key;
  gen = tp.gen;
  target = tp.target;
  updated = false;
}

-- The runtime fires an armed timer of the pair of a key: it is no longer armed, and its callback runs.
unfoldable pub fire : Phase → Str → Ender → Ender
fire phase_one key e = elim (get key e.timers) [
  | none ↦ e
  | some tp ↦
      if tp.phase1
      then record e {
        timers = put key (record tp { phase1 = false }) e.timers;
        running = started phase_one key tp ∷ e.running;
      }
      else e
]
fire phase_two key e = elim (get key e.timers) [
  | none ↦ e
  | some tp ↦
      if done_for_phase2 tp.phase2 == 1
      then record e {
        timers = put key (record tp { phase2 = some false }) e.timers;
        running = started phase_two key tp ∷ e.running;
      }
      else e
]

abbrev pub state_of : Phase → State
state_of phase_one = ongoing
state_of phase_two = ended

-- The request of a callback's `updateWithRetry`.
unfoldable pub update_of : Callback → Update
update_of c = record {
  gen = c.gen;
  slug = c.target.slug;
  state = state_of c.phase;
  content = c.target.content;
}

abbrev pub set_at : List Callback → ℕ → Callback → List Callback
set_at [] i c = []
set_at (d ∷ cs) zero c = c ∷ cs
set_at (d ∷ cs) (suc i) c = d ∷ set_at cs i c

abbrev pub remove_at : List Callback → ℕ → List Callback
remove_at [] i = []
remove_at (d ∷ cs) zero = cs
remove_at (d ∷ cs) (suc i) = d ∷ remove_at cs i

-- `updateWithRetry` of the i-th running callback returns, with or without an error.
unfoldable pub send : ℕ → Ender → Ender
unfolding update_of
send i e = elim (get_elem? e.running i) [
  | none ↦ e
  | some c ↦ if c.updated then e else record e {
    running = set_at e.running i (record c { updated = true });
    sent = update_of c ∷ e.sent;
  }
]

-- The pair of the callback's key, if it is still the callback's own.
unfoldable pub own_pair : Callback → Ender → Option TimerPair
own_pair c e = elim (get c.key e.timers) [
  | none ↦ none
  | some tp ↦ if tp.gen == c.gen then some tp else none
]

-- Phase 1's critical section: phase 2 is armed, unless the pair was cancelled or superseded.
unfoldable pub arm_phase2 : Callback → Option TimerPair → Ender → Ender
arm_phase2 c none e = e
arm_phase2 c (some tp) e = record e {
  wg = e.wg + 1;
  timers = put c.key (record tp { phase2 = some true }) e.timers;
}

-- What phase 2 does once its update returned: the state row goes, and the pair if it is its own.
unfoldable pub clean_up : Callback → Option TimerPair → Ender → Ender
clean_up c none e = record e { deleted = c.key ∷ e.deleted }
clean_up c (some tp) e = record e { deleted = c.key ∷ e.deleted; timers = delete c.key e.timers }

unfoldable pub conclude : Phase → Callback → Ender → Ender
unfolding arm_phase2 clean_up own_pair
conclude phase_one c e = arm_phase2 c (own_pair c e) e
conclude phase_two c e = clean_up c (own_pair c e) e

-- The i-th running callback, whose update has returned, runs to its end: the deferred `wg.Done()`.
unfoldable pub finish : ℕ → Ender → Ender
unfolding conclude
finish i e = elim (get_elem? e.running i) [
  | none ↦ e
  | some c ↦
      let done = conclude c.phase c e in
      if c.updated then record done { running = remove_at e.running i; wg = done.wg - 1 } else e
]

pub data Event : Type 0 where
  schedules : Str → Target → Bool → Event
  stops : Str → Event
  stops_all : Event
  fires : Phase → Str → Event
  sends finishes : ℕ → Event

unfoldable pub step : Event → Ender → Ender
unfolding schedule stop_timer stop_all fire send finish
step (schedules key target skip) e = schedule key target skip e
step (stops key) e = stop_timer key e
step stops_all e = stop_all e
step (fires phase key) e = fire phase key e
step (sends i) e = send i e
step (finishes i) e = finish i e

unfoldable pub run : List Event → Ender → Ender
unfolding step
run [] e = e
run (v ∷ vs) e = run vs (step v e)
