-- ===== src/Risk.antt =====
-- internal/risk/scorer.go: the advisory score of a request.
pub mod Account
use aegis_router.Base.{
  ℕ, ◌+◌, Bool, true, false, not, ◌&&◌, List, [], ◌∷◌, ◌++◌, none, some, ltb, leb, ◌==◌, ◌!=◌,
  contains, if◌then◌else◌,
}
use aegis_router.Base.Dict.{lookup}
use aegis_router.Text.{Bytes, str, bytes_eq, is_nonempty}
use aegis_router.Models.{
  Request, ActionRequest, ResourcePolicy, PolicyConfig, effective_action, effective_authority,
}

-- The signals, in place of their texts; a sensitivity with its points.
pub data Signal : Type 0 where
  resource_sensitivity : Bytes → ℕ → Signal
  scope_mismatch unclassified_resource sensitive_capability : Signal
  prohibited_capability external_crossing side_effecting protected_data no_signal : Signal

pub data Level : Type 0 where
  low medium high : Level

-- RiskAssessment
pub record Assessment : Type 0 where
  pub score : ℕ
  pub level : Level
  pub signals : List Signal

-- The score and the signals so far.
pub record Tally : Type 0 where
  pub score : ℕ
  pub signals : List Signal

-- `if found { score += points; signals = append(signals, signal) }`
unfoldable pub add_signal : Bool → ℕ → Signal → Tally → Tally
add_signal found points given t =
    if found then record { score = t.score + points; signals = t.signals ++ given ∷ [] } else t

-- The points of a sensitivity, 0 for one that the table does not hold.
unfoldable pub sensitivity_points : Bytes → ℕ
sensitivity_points s =
    if s == str "medium"
    then 20
    else if s == str "high"
    then 35
    else if s == str "critical"
    then 50
    else 0

-- Whether the loop over the required scopes finds one that is not delegated.
unfoldable pub lacks_scope : List Bytes → List Bytes → Bool
lacks_scope actual [] = false
lacks_scope actual (required ∷ scopes) =
    let rest = lacks_scope actual scopes in if contains actual required then rest else true

-- The signals of the resource
unfoldable pub assess_resource : PolicyConfig → Request → Tally
assess_resource cfg r =
    let start : Tally = record { score = 0; signals = [] } in
    elim (lookup (effective_action r).target_resource cfg.resources) [
      | none ↦ add_signal true 50 unclassified_resource start
      | some resource ↦
          add_signal (lacks_scope (effective_authority r).scopes resource.scopes) 35 scope_mismatch
            (add_signal (ltb 0 (sensitivity_points resource.sensitivity))
              (sensitivity_points resource.sensitivity)
              (resource_sensitivity resource.sensitivity (sensitivity_points resource.sensitivity))
              start)
    ]

abbrev pub goes_outside : ActionRequest → Bool
goes_outside a = elim a.destination [ none ↦ false | some d ↦ d.is_external ]

abbrev pub reads_protected : Request → Bool
reads_protected r = elim r.data_access [ none ↦ false | some d ↦ d.is_protected ]

-- The signals of the action after them
unfoldable pub assess_action : PolicyConfig → Request → Tally → Tally
assess_action cfg r t =
    let a = effective_action r in
    add_signal (reads_protected r) 10 protected_data (
      add_signal
        (is_nonempty a.side_effect
          && a.side_effect != str "none"
          && a.side_effect != str "read_only")
        15 side_effecting
        (add_signal (goes_outside a) 25 external_crossing (
          add_signal (contains cfg.prohibited_actions a.capability) 60 prohibited_capability
            (add_signal (contains cfg.sensitive_actions a.capability) 20 sensitive_capability t))))

-- The end of Assess: the cap, the level, and a signal if there is none
unfoldable pub conclude : Tally → Assessment
conclude t =
    let score : ℕ = if ltb 100 t.score then 100 else t.score in
    record {
      score = score;
      level = if leb 70 score then high else if leb 35 score then medium else low;
      signals = elim t.signals [ [] ↦ no_signal ∷ [] | s ∷ ss ↦ s ∷ ss ];
    }

-- Assess
unfoldable pub assess : PolicyConfig → Request → Assessment
assess cfg r = conclude (assess_action cfg r (assess_resource cfg r))
