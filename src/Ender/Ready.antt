-- ===== src/Ender/Ready.antt =====
-- What a state of relay/internal/lifecycle/ender.go must have sent for its timers and callbacks.
use pushward_integrations.Prelude.{
  ℕ, zero, suc, ◌≡◌, Bool, true, false, ◌&&◌, ◌||◌, some, is_some, List, [], ◌∷◌, arith, Eq_str,
  get_elem?, ◌==◌,
}
use pushward_integrations.Prelude.GoMap.{AllValues}
use pushward_integrations.Ender.{
  Ender, TimerPair, Callback, Update, State, ongoing, ended, phase_two, set_at, remove_at,
}

abbrev pub is_ongoing : State → Bool
is_ongoing ongoing = true
is_ongoing ended = false

-- Whether the sequence has sent its ONGOING update.
abbrev pub has_ongoing : ℕ → List Update → Bool
has_ongoing gen [] = false
has_ongoing gen (u ∷ us) = (u.gen == gen && is_ongoing u.state) || has_ongoing gen us

-- Behind each ENDED update, in the list with the newest first, stands an ONGOING one of its sequence.
abbrev pub IsOrdered : List Update → Type 0
IsOrdered [] = Unit
IsOrdered (u ∷ us) = (u.state ≡ ended → has_ongoing u.gen us ≡ true) × IsOrdered us

abbrev pub PairReady : List Update → TimerPair → Type 0
PairReady sent tp = is_some tp.phase2 ≡ true → has_ongoing tp.gen sent ≡ true

pub record CallbackReady (sent : List Update) (c : Callback) : Type 0 where
  pub second : c.phase ≡ phase_two → has_ongoing c.gen sent ≡ true
  pub sent_first : c.updated ≡ true → has_ongoing c.gen sent ≡ true

abbrev pub AllReady : List Update → List Callback → Type 0
AllReady sent [] = Unit
AllReady sent (c ∷ cs) = CallbackReady sent c × AllReady sent cs

pub record InOrder (e : Ender) : Type 0 where
  pub ordered : IsOrdered e.sent
  pub pairs : AllValues (PairReady e.sent) e.timers
  pub callbacks : AllReady e.sent e.running

pub AllReady-get :
    (sent : List Update) (cs : List Callback) (i : ℕ) (c : Callback)
    → AllReady sent cs
    → get_elem? cs i ≡ some c
    → CallbackReady sent c
AllReady-get sent [] i c a h = cc
AllReady-get sent (d ∷ cs) zero c a h = ground (arith, h, a.0)
AllReady-get sent (d ∷ cs) (suc i) c a h = AllReady-get sent cs i c a.1 h

pub AllReady-remove_at :
    (sent : List Update) (cs : List Callback) (i : ℕ)
    → AllReady sent cs
    → AllReady sent (remove_at cs i)
AllReady-remove_at sent [] i a = tt
AllReady-remove_at sent (d ∷ cs) zero a = a.1
AllReady-remove_at sent (d ∷ cs) (suc i) a = (a.0, AllReady-remove_at sent cs i a.1)

pub AllReady-set_at :
    (sent : List Update) (cs : List Callback) (i : ℕ) (c : Callback)
    → AllReady sent cs
    → CallbackReady sent c
    → AllReady sent (set_at cs i c)
AllReady-set_at sent [] i c a r = tt
AllReady-set_at sent (d ∷ cs) zero c a r = (r, a.1)
AllReady-set_at sent (d ∷ cs) (suc i) c a r = (a.0, AllReady-set_at sent cs i c a.1 r)

pub CallbackReady-more :
    (u : Update) (sent : List Update) (c : Callback)
    → CallbackReady sent c
    → CallbackReady (u ∷ sent) c
CallbackReady-more u sent c r = ground arith

pub AllReady-more :
    (u : Update) (sent : List Update) (cs : List Callback)
    → AllReady sent cs
    → AllReady (u ∷ sent) cs
AllReady-more u sent [] a = tt
AllReady-more u sent (c ∷ cs) a = (CallbackReady-more u sent c a.0, AllReady-more u sent cs a.1)

pub PairReady-more :
    (u : Update) (sent : List Update) (tp : TimerPair) → PairReady sent tp → PairReady (u ∷ sent) tp
PairReady-more u sent tp r = λ h. ground arith
