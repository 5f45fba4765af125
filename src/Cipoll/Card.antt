-- ===== src/Cipoll/Card.antt =====
-- What the CI poller sends for a run and what it relies on of the server: the merge-patched content of
-- one activity, shared/cipoll/poller.go and `ClampStepShape` of shared/pushward/types.go. A field that the
-- patch leaves out is `none`, and the server keeps what it has.
use pushward_integrations.Prelude.{ℕ, ◌≡◌, ◌≢◌, [], min, max, Option, none, some, List, map, Str}
use pushward_integrations.Prelude.Float.{Float64}
use pushward_integrations.Text.Truncate.{truncate_hard}

abbrev pub min_step_rows : ℕ
min_step_rows = 1

abbrev pub max_step_rows : ℕ
max_step_rows = 10

abbrev pub max_step_label_len : ℕ
max_step_label_len = 32

unfoldable pub clamp_step_shape : List ℕ → List Str → List ℕ × List Str
unfolding truncate_hard
clamp_step_shape rows labels = (
  map (λ r. min (max r min_step_rows) max_step_rows) rows,
  map (λ l. truncate_hard l max_step_label_len) labels,
)

module _ (fl : Float64) where
  -- The ladder: rows, labels, colors and weights, which go out together. An empty slice is left out of the
  -- JSON (`omitempty`), so that the server keeps its own.
  pub record Ladder : Type 0 where
    pub rows : List ℕ
    pub labels : List Str
    pub colors : List Str
    pub weights : Option (List fl.F)

  pub data Live : Type 0 where
    untouched cleared : Live
    anchored : ℕ → ℕ → Live

  -- The content of one patch.
  pub record Patch : Type 0 where
    pub progress : fl.F
    pub state : Str
    pub current_step : ℕ
    pub total_steps : ℕ
    pub ladder : Option Ladder
    pub live : Live

  -- The server's side, which is not in the repository: an activity's content, what is read of it, and
  -- the merge of a patch (RFC 7396).
  pub record Server : Type 1 where
    pub Card : Type 0
    pub total_steps : Card → ℕ
    pub weights : Card → List fl.F
    pub live : Card → Option (ℕ × ℕ)  -- the window that it counts down, if any
    pub merge : Patch → Card → Card

  abbrev pub live_after : Live → Option (ℕ × ℕ) → Option (ℕ × ℕ)
  live_after untouched before = before
  live_after cleared before = none
  live_after (anchored start end_at) before = some (start, end_at)

  -- What a merge does to them, as documented: a field that is sent replaces, one that is not stays.
  pub record IsMergePatch (s : Server) : Type 0 where
    pub total : (p : Patch) (c : s.Card) → s.total_steps (s.merge p c) ≡ p.total_steps
    pub kept : (p : Patch) (c : s.Card) → p.ladder ≡ none → s.weights (s.merge p c) ≡ s.weights c
    pub replaced :
        (p : Patch) (c : s.Card) (l : Ladder) (ws : List fl.F)
        → p.ladder ≡ some l
        → l.weights ≡ some ws
        → ws ≢ []
        → s.weights (s.merge p c) ≡ ws
    pub animates : (p : Patch) (c : s.Card) → s.live (s.merge p c) ≡ live_after p.live (s.live c)
