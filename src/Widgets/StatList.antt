-- ===== src/Widgets/StatList.antt =====
-- A stat_list widget, `startStatList` and `runStatList` of shared/widgets/manager.go, and how its rows
-- are compared. The base content is fixed, so that the rows stand for the content.
pub mod Masked
use pushward_integrations.Prelude.{
  ℕ, Bool, true, false, not, ◌&&◌, Option, none, some, List, [], ◌∷◌, ◌==◌, if◌then◌else◌, Str,
  str_eq, Time, take, leb, length,
}
use pushward_integrations.Prelude.Int.{ℤ, to_ℕ}
use pushward_integrations.Prelude.Float.{Float64}
use pushward_integrations.Widgets.{
  Spec, is_always, heartbeat_due, Sent, nothing, creates, updates, default_max_stat_rows,
}

pub record Timer : Type 0 where
  pub date : Time
  pub style : Str

pub record StatRow : Type 0 where
  pub label : Str
  pub value : Str
  pub unit : Str
  pub timer : Option Timer

abbrev same_timer : Option Timer → Option Timer → Bool
same_timer none none = true
same_timer none (some t) = false
same_timer (some t) none = false
same_timer (some t) (some u) = str_eq t.style u.style && (t.date == u.date)

unfoldable pub stat_row_equal : StatRow → StatRow → Bool
stat_row_equal a b =
    if not (str_eq a.label b.label && str_eq a.value b.value && str_eq a.unit b.unit)
    then false
    else same_timer a.timer b.timer

unfoldable pub stat_rows_equal : List StatRow → List StatRow → Bool
unfolding stat_row_equal
stat_rows_equal [] [] = true
stat_rows_equal (a ∷ as') (b ∷ bs) = stat_row_equal a b && stat_rows_equal as' bs
stat_rows_equal _ _ = false

-- The rows against a mask; past its end every row takes part. The lengths are compared first.
unfoldable pub masked_equal : List StatRow → List StatRow → List Bool → Bool
unfolding stat_rows_equal stat_row_equal
masked_equal as' bs [] = stat_rows_equal as' bs
masked_equal (a ∷ as') (b ∷ bs) (m ∷ ms) =
    let rest = masked_equal as' bs ms in if m then stat_row_equal a b && rest else rest
masked_equal [] [] (m ∷ ms) = true
masked_equal _ _ (m ∷ ms) = false

unfoldable pub stat_rows_equal_masked : List StatRow → List StatRow → Option (List Bool) → Bool
unfolding stat_rows_equal masked_equal
stat_rows_equal_masked as' bs none = stat_rows_equal as' bs
stat_rows_equal_masked as' bs (some mask) =
    if length as' == length bs then masked_equal as' bs mask else false

unfoldable pub trim_stat_rows : List StatRow → ℤ → List StatRow
trim_stat_rows rows max_rows =
    let cap = if to_ℕ max_rows == 0 then default_max_stat_rows else to_ℕ max_rows in
    if leb (length rows) cap then rows else take cap rows

-- The poll: rows, no data, or an error.
pub data PolledRows : Type 0 where
  no_rows failed : PolledRows
  rows : List StatRow → PolledRows

abbrev pub poll_stat_list : PolledRows → Option (List StatRow)
poll_stat_list no_rows = some []
poll_stat_list failed = none
poll_stat_list (rows rs) = some rs

pub record StatListState : Type 0 where
  pub last_rows : List StatRow
  pub last_sent : Time

pub record Tick : Type 0 where
  pub polled : PolledRows
  pub lands : Bool
  pub checked : Time
  pub sent : Time

module _ (fl : Float64) (spec : Spec fl) where
  unfoldable pub unchanged : List StatRow → List StatRow → Bool
  unfolding stat_rows_equal_masked
  unchanged last_rows rs =
      not (is_always spec.update_mode) && stat_rows_equal_masked last_rows rs spec.stat_change_mask

  unfoldable pub send_rows :
      Tick → List StatRow → StatListState → Sent (List StatRow) × StatListState
  unfolding unchanged heartbeat_due
  send_rows tk rs st =
      if unchanged st.last_rows rs
      then (if heartbeat_due fl spec st.last_sent tk.checked
          then (updates st.last_rows, if tk.lands then record st { last_sent = tk.sent } else st)
          else (nothing, st))
      else (updates rs, if tk.lands then record { last_rows = rs; last_sent = tk.sent } else st)

  abbrev on_rows :
      Tick → Option (List StatRow) → StatListState → Sent (List StatRow) × StatListState
  unfolding trim_stat_rows
  on_rows tk none st = (nothing, st)
  on_rows tk (some rs) st = send_rows tk (trim_stat_rows rs spec.max_stat_rows) st

  unfoldable pub run_stat_list : Tick → StatListState → Sent (List StatRow) × StatListState
  unfolding send_rows on_rows
  run_stat_list tk st = on_rows tk (poll_stat_list tk.polled) st

  abbrev or_no_rows : Option (List StatRow) → List StatRow
  or_no_rows none = []
  or_no_rows (some rs) = rs

  -- The create, and the loop's first state, none where the create fails.
  unfoldable pub start_stat_list : Tick → Sent (List StatRow) × Option StatListState
  unfolding trim_stat_rows
  start_stat_list tk =
      let rs = trim_stat_rows (or_no_rows (poll_stat_list tk.polled)) spec.max_stat_rows in
      (creates rs, if tk.lands then some (record { last_rows = rs; last_sent = tk.sent }) else none)
