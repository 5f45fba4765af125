-- ===== src/Bambulab.antt =====
-- The printer's state of bambulab/internal/bambulab/types.go and client.go: partial reports merged into
-- one state. A field that a report leaves out is `none`. Negative numbers are left out.
pub mod Tracker
pub mod Deltas
use pushward_integrations.Prelude.{ℕ, Bool, true, false, Option, none, some, List, [], ◌∷◌, Str}
use pushward_integrations.Prelude.Float.{Float64}

-- The states that the code tells apart, and the rest, with the zero value.
pub data GcodeState : Type 0 where
  idle prepare running pause failed finish other : GcodeState

module _ (fl : Float64) where
  pub record PrintStatus : Type 0 where
    pub is_push_status : Bool
    pub gcode_state : Option GcodeState
    pub subtask_name : Option Str
    pub gcode_file : Option Str
    pub percent : Option ℕ
    pub remaining_time : Option ℕ
    pub layer_num : Option ℕ
    pub total_layer_num : Option ℕ
    pub nozzle_temper : Option fl.F
    pub nozzle_target_temper : Option fl.F
    pub bed_temper : Option fl.F
    pub bed_target_temper : Option fl.F
    pub speed_level : Option ℕ
    pub speed_magnitude : Option ℕ
    pub print_error : Option ℕ
    pub fail_reason : Option Str

  pub record MergedState : Type 0 where
    pub gcode_state : GcodeState
    pub subtask_name : Str
    pub gcode_file : Str
    pub percent : ℕ
    pub remaining_time : ℕ
    pub layer_num : ℕ
    pub total_layer_num : ℕ
    pub nozzle_temper : fl.F
    pub nozzle_target : fl.F
    pub bed_temper : fl.F
    pub bed_target : fl.F
    pub speed_level : ℕ
    pub speed_magnitude : ℕ
    pub print_error : ℕ
    pub fail_reason : Str

abbrev pub or_old {ℓ} : {A : Type ℓ} → Option A → A → A
or_old none old = old
or_old (some new) old = new

module _ {fl : Float64} where
  unfoldable pub merge : PrintStatus fl → MergedState fl → MergedState fl
  merge p s = record {
    gcode_state = or_old p.gcode_state s.gcode_state;
    subtask_name = or_old p.subtask_name s.subtask_name;
    gcode_file = or_old p.gcode_file s.gcode_file;
    percent = or_old p.percent s.percent;
    remaining_time = or_old p.remaining_time s.remaining_time;
    layer_num = or_old p.layer_num s.layer_num;
    total_layer_num = or_old p.total_layer_num s.total_layer_num;
    nozzle_temper = or_old p.nozzle_temper s.nozzle_temper;
    nozzle_target = or_old p.nozzle_target_temper s.nozzle_target;
    bed_temper = or_old p.bed_temper s.bed_temper;
    bed_target = or_old p.bed_target_temper s.bed_target;
    speed_level = or_old p.speed_level s.speed_level;
    speed_magnitude = or_old p.speed_magnitude s.speed_magnitude;
    print_error = or_old p.print_error s.print_error;
    fail_reason = or_old p.fail_reason s.fail_reason;
  }

  -- A message: none where the JSON is not one, or has no print status. The second result is the signal.
  unfoldable pub on_message : Option (PrintStatus fl) → MergedState fl → MergedState fl × Bool
  unfolding merge
  on_message none s = (s, false)
  on_message (some p) s = elim p.is_push_status [ true ↦ (merge p s, true) | false ↦ (s, false) ]
