-- ===== src/Widgets/Scalar.antt =====
-- A scalar widget, `startScalar`, `runScalar` and `pollScalar` of shared/widgets/manager.go.
pub mod Held
use pushward_integrations.Prelude.{
  Bool, true, false, not, ◌&&◌, ◌||◌, Option, none, some, if◌then◌else◌, Time,
}
use pushward_integrations.Prelude.Float.{Float64}
use pushward_integrations.Widgets.{
  Spec, UpdateMode, is_always, heartbeat_due, value_changed, is_finite, requires_initial_value,
  Sent, nothing, creates, updates,
}

-- What the source answers: a value, or an error, ErrNoData among them.
pub data Polled (F : Type 0) : Type 0 where
  no_data failed cancelled : Polled F
  reading : F → Polled F

module _ (fl : Float64) (K : Type 0) where
  -- The loop's variables: the value that the server has, none for the NaN sentinel, and its content,
  -- none before there is any.
  pub record ScalarState : Type 0 where
    pub last_value : Option fl.F
    pub last_sent : Time
    pub last_content : Option K
    pub needs_create : Bool

  -- One tick: what the source says, whether the call lands, and the clock at the test and at the call.
  pub record Tick : Type 0 where
    pub polled : Polled fl.F
    pub lands : Bool
    pub checked : Time
    pub sent : Time

  unfoldable pub tick_scalar : Polled fl.F → Option fl.F
  tick_scalar (reading v) = if is_finite fl v then some v else none
  tick_scalar _ = none

  abbrev pub moved : Spec fl → Option fl.F → fl.F → Bool
  unfolding value_changed
  moved spec none v = true
  moved spec (some old_v) v = is_always spec.update_mode || value_changed fl old_v v spec.min_change

  -- `render` is what the tick makes of a value, the history of a source that keeps one included: it may be
  -- another function at another tick.
  module _ (spec : Spec fl) (render : fl.F → K) where
    -- The create that was put off.
    unfoldable pub first_create : Tick → fl.F → ScalarState → Sent K × ScalarState
    first_create tk v st = (
      creates (render v),
      if tk.lands
          then record {
            last_value = some v;
            last_sent = tk.sent;
            last_content = some (render v);
            needs_create = false;
          }
          else st,
    )

    -- A heartbeat sends what is stored.
    abbrev resend : Option K → Sent K
    resend none = nothing
    resend (some k) = updates k

    unfoldable pub update : Tick → fl.F → ScalarState → Sent K × ScalarState
    unfolding heartbeat_due moved
    update tk v st =
        if moved spec st.last_value v
        then (
          updates (render v),
          if tk.lands
              then record st {
                last_value = some v;
                last_content = some (render v);
                last_sent = tk.sent;
              }
              else st,
        )
        else if heartbeat_due fl spec st.last_sent tk.checked
        then (resend st.last_content, if tk.lands then record st { last_sent = tk.sent } else st)
        else (nothing, st)

    abbrev on_value : Tick → Option fl.F → ScalarState → Sent K × ScalarState
    on_value tk none st = (nothing, st)
    on_value tk (some v) st = if st.needs_create then first_create tk v st else update tk v st

    unfoldable pub run_scalar : Tick → ScalarState → Sent K × ScalarState
    unfolding tick_scalar first_create update
    run_scalar tk st = on_value tk (tick_scalar tk.polled) st

    -- How a widget starts: not at all, or with its loop.
    pub data Started : Type 0 where
      fatal : Started
      starts : Sent K → ScalarState → Started

    abbrev create_first : Tick → K → Option fl.F → Started
    create_first tk content v =
        if tk.lands
        then starts (creates content) (record {
          last_value = v;
          last_sent = tk.sent;
          last_content = some content;
          needs_create = false;
        })
        else fatal

    abbrev deferred : ScalarState
    deferred = record { last_value = none; last_sent = 0; last_content = none; needs_create = true }

    abbrev start_with : K → Tick → Option fl.F → Started
    unfolding requires_initial_value
    start_with static tk (some v) = create_first tk (render v) (some v)
    start_with static tk none =
        if requires_initial_value spec.template
        then starts nothing deferred
        else create_first tk static none

    -- `static` is the content rendered of no value.
    unfoldable pub start_scalar : K → Tick → Started
    unfolding tick_scalar start_with
    start_scalar static tk = elim tk.polled [
      | cancelled ↦ fatal
      | no_data ↦ start_with static tk none
      | failed ↦ start_with static tk none
      | reading v ↦ start_with static tk (tick_scalar (reading v))
    ]
