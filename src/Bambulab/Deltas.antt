-- ===== src/Bambulab/Deltas.antt =====
-- How partial reports add up, bambulab/internal/bambulab/types.go.
use pushward_integrations.Prelude.{◌≡◌, refl, Option, none, some}
use pushward_integrations.Prelude.Float.{Float64}
use pushward_integrations.Bambulab.{PrintStatus, MergedState, merge, or_old}

abbrev pub newer {ℓ} : {A : Type ℓ} → Option A → Option A → Option A
newer p none = p
newer p (some x) = some x

or_old-newer {ℓ} :
    {A : Type ℓ} (p q : Option A) (old : A) → or_old q (or_old p old) ≡ or_old (newer p q) old
or_old-newer p none old = refl
or_old-newer p (some x) old = refl

module _ {fl : Float64} where
  -- The report of two, of which the second has the last word on every field that it has.
  abbrev pub joined : PrintStatus fl → PrintStatus fl → PrintStatus fl
  joined p q = record {
    is_push_status = q.is_push_status;
    gcode_state = newer p.gcode_state q.gcode_state;
    subtask_name = newer p.subtask_name q.subtask_name;
    gcode_file = newer p.gcode_file q.gcode_file;
    percent = newer p.percent q.percent;
    remaining_time = newer p.remaining_time q.remaining_time;
    layer_num = newer p.layer_num q.layer_num;
    total_layer_num = newer p.total_layer_num q.total_layer_num;
    nozzle_temper = newer p.nozzle_temper q.nozzle_temper;
    nozzle_target_temper = newer p.nozzle_target_temper q.nozzle_target_temper;
    bed_temper = newer p.bed_temper q.bed_temper;
    bed_target_temper = newer p.bed_target_temper q.bed_target_temper;
    speed_level = newer p.speed_level q.speed_level;
    speed_magnitude = newer p.speed_magnitude q.speed_magnitude;
    print_error = newer p.print_error q.print_error;
    fail_reason = newer p.fail_reason q.fail_reason;
  }

  -- Two partial reports that are merged one after the other have the effect of one report that has, of
  -- every field, what the later of the two has, if either has it.
  pub merge-joined :
      (p q : PrintStatus fl) (s : MergedState fl) → merge q (merge p s) ≡ merge (joined p q) s
  unfolding merge
  merge-joined p q s i = record {
    gcode_state = or_old-newer p.gcode_state q.gcode_state s.gcode_state i;
    subtask_name = or_old-newer p.subtask_name q.subtask_name s.subtask_name i;
    gcode_file = or_old-newer p.gcode_file q.gcode_file s.gcode_file i;
    percent = or_old-newer p.percent q.percent s.percent i;
    remaining_time = or_old-newer p.remaining_time q.remaining_time s.remaining_time i;
    layer_num = or_old-newer p.layer_num q.layer_num s.layer_num i;
    total_layer_num = or_old-newer p.total_layer_num q.total_layer_num s.total_layer_num i;
    nozzle_temper = or_old-newer p.nozzle_temper q.nozzle_temper s.nozzle_temper i;
    nozzle_target = or_old-newer p.nozzle_target_temper q.nozzle_target_temper s.nozzle_target i;
    bed_temper = or_old-newer p.bed_temper q.bed_temper s.bed_temper i;
    bed_target = or_old-newer p.bed_target_temper q.bed_target_temper s.bed_target i;
    speed_level = or_old-newer p.speed_level q.speed_level s.speed_level i;
    speed_magnitude = or_old-newer p.speed_magnitude q.speed_magnitude s.speed_magnitude i;
    print_error = or_old-newer p.print_error q.print_error s.print_error i;
    fail_reason = or_old-newer p.fail_reason q.fail_reason s.fail_reason i;
  }
