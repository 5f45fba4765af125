-- ===== src/Tests/BambulabCases.antt =====
-- The printer's tracker at concrete inputs.
use pushward_integrations.Prelude.{◌≡◌, refl, inl, List, true, false, [], ◌∷◌, Str, arith, str_eq}
use pushward_integrations.Bambulab.{MergedState, running}
use pushward_integrations.Bambulab.Tracker.{
  Words, Frame, Tracker, Pass, process, phase1, phase2, patches, frame_eq, derive_frame, printing,
}
use pushward_integrations.Bambulab.Tracker.Sessions.{session_over}
use pushward_integrations.Bambulab.Tracker.Ticks.{IsPaced, sent_by, sent_by-IsPaced}
use pushward_integrations.Tests.CiCases.{whole, build, check}

abbrev words : Words
words = record { fixed = λ l. build; layer = λ n m. n ∷ m ∷ []; percent = λ n. n ∷ [] }

abbrev named : MergedState whole → Str
named s = s.subtask_name

abbrev printer : MergedState whole
printer = record {
  gcode_state = running;
  subtask_name = check;
  gcode_file = [];
  percent = 30;
  remaining_time = 5;
  layer_num = 3;
  total_layer_num = 10;
  nozzle_temper = 200;
  nozzle_target = 210;
  bed_temper = 60;
  bed_target = 60;
  speed_level = 2;
  speed_magnitude = 100;
  print_error = 0;
  fail_reason = [];
}

abbrev old_frame : Frame whole
old_frame = record {
  progress = 0;
  state_text = 2 ∷ 10 ∷ [];
  look = printing;
  remaining = 360;
  subtitle = check;
}

abbrev tracker : Tracker whole
tracker = record {
  tracking = true;
  last_state = running;
  last_tick_at = 100;
  last_frame = old_frame;
  gen = 4;
}

abbrev pass : Pass whole
pass = record { now = 200; interval = 50; created = true; seeded = true }

-- The third layer, the same again within the interval, and the pass after.
abbrev passes : List (Pass whole × MergedState whole)
passes = (pass, printer) ∷ (record pass { now = 220 }, printer) ∷ []

sent_by-IsPaced_example :
    IsPaced whole words named running 100 old_frame passes
      (sent_by whole words named passes tracker)
sent_by-IsPaced_example = sent_by-IsPaced whole words named passes tracker refl (refl, (refl, tt))

-- The third layer is sent.
third_layer :
    (process whole words named pass printer tracker).0
    ≡ patches (derive_frame whole words named printer) ∷ []
unfolding process derive_frame frame_eq str_eq
third_layer = refl

session_over_example :
    let t' = (process whole words named pass printer (record tracker { tracking = false })).1 in
    (phase1 whole words named 4 old_frame t' ≡ []) × (phase2 whole words named 4 old_frame t' ≡ [])
session_over_example =
    session_over whole words named pass printer (record tracker { tracking = false }) old_frame
      (omega arith) (inl (refl, refl))
