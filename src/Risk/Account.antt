-- ===== src/Risk/Account.antt =====
-- The score of internal/risk/scorer.go and the points of its signals.
use aegis_router.Base.{
  ℕ, suc, ◌+◌, ◌≤◌, ◌≡◌, refl, Bool, true, false, List, [], ◌∷◌, ◌++◌, ltb, ◌↔◌, arith, inl, inr,
  Option-cases, if◌then◌else◌,
}
use aegis_router.Base.Dict.{lookup}
use aegis_router.Text.{bytes_eq}
use aegis_router.Models.{Request, PolicyConfig, effective_action}
use aegis_router.Risk.{
  Signal, resource_sensitivity, scope_mismatch, unclassified_resource, sensitive_capability,
  prohibited_capability, external_crossing, side_effecting, protected_data, no_signal, high, low,
  Tally, add_signal, assess_resource, assess_action, conclude, assess,
}

-- The points that the text of a signal names.
abbrev pub points_of : Signal → ℕ
points_of (resource_sensitivity s p) = p
points_of scope_mismatch = 35
points_of unclassified_resource = 50
points_of sensitive_capability = 20
points_of prohibited_capability = 60
points_of external_crossing = 25
points_of side_effecting = 15
points_of protected_data = 10
points_of no_signal = 0

pub total : List Signal → ℕ
total [] = 0
total (s ∷ ss) = points_of s + total ss

total-append : (ss : List Signal) (s : Signal) → total (ss ++ s ∷ []) ≡ total ss + points_of s
unfolding total
total-append [] s = omega arith
total-append (x ∷ ss) s = omega (arith, total-append ss s)

-- The score so far is the sum of the signals so far.
abbrev IsBalanced : Tally → Type 0
IsBalanced t = t.score ≡ total t.signals

add_signal-IsBalanced :
    (found : Bool) (given : Signal) (t : Tally)
    → IsBalanced t
    → IsBalanced (add_signal found (points_of given) given t)
unfolding add_signal
add_signal-IsBalanced true given t h = omega (arith, h, total-append t.signals given)
add_signal-IsBalanced false given t h = h

assess_resource-IsBalanced : (cfg : PolicyConfig) (r : Request) → IsBalanced (assess_resource cfg r)
unfolding assess_resource
assess_resource-IsBalanced cfg r =
    elim (Option-cases (lookup (effective_action r).target_resource cfg.resources)) [
      | inl missing ↦
          rw (missing, assess_resource) (add_signal-IsBalanced true unclassified_resource _ start)
      | inr (resource, found) ↦
          rw (found, assess_resource)
            (add_signal-IsBalanced _ scope_mismatch _
              (add_signal-IsBalanced _ (resource_sensitivity resource.sensitivity _) _ start))
    ]
  where
    start : 0 ≡ total []
    start = unfold total in refl

assess_action-IsBalanced :
    (cfg : PolicyConfig) (r : Request) (t : Tally)
    → IsBalanced t
    → IsBalanced (assess_action cfg r t)
unfolding assess_action
assess_action-IsBalanced cfg r t h = add_signal-IsBalanced _ protected_data _ (
    add_signal-IsBalanced _ side_effecting _ (
      add_signal-IsBalanced _ external_crossing _ (
        add_signal-IsBalanced _ prohibited_capability _
          (add_signal-IsBalanced _ sensitive_capability t h))))

conclude_score :
    (t : Tally)
    → IsBalanced t
    → (conclude t).score
      ≡ (if ltb 100 (total (conclude t).signals) then 100 else total (conclude t).signals)
unfolding conclude total
conclude_score t h = ground arith

conclude_level :
    (t : Tally)
    → ((conclude t).score ≤ 100)
      × (((conclude t).level ≡ high) ↔ (70 ≤ (conclude t).score))
      × (((conclude t).level ≡ low) ↔ (suc (conclude t).score ≤ 35))
unfolding conclude
conclude_level t = ground arith

-- The score of a request is the sum of the points of its signals, capped at 100; the level is high
-- exactly from 70 on, and low exactly below 35.
pub assess_accounts :
    (cfg : PolicyConfig) (r : Request)
    → ((assess cfg r).score
        ≡ (if ltb 100 (total (assess cfg r).signals) then 100 else total (assess cfg r).signals))
      × ((assess cfg r).score ≤ 100)
      × (((assess cfg r).level ≡ high) ↔ (70 ≤ (assess cfg r).score))
      × (((assess cfg r).level ≡ low) ↔ (suc (assess cfg r).score ≤ 35))
unfolding assess
assess_accounts cfg r =
    let t = assess_action cfg r (assess_resource cfg r) in
    let (bounded, is_high, is_low) = conclude_level t in
    (
      conclude_score t (
          assess_action-IsBalanced cfg r (assess_resource cfg r)
            (assess_resource-IsBalanced cfg r)),
      bounded,
      is_high,
      is_low,
    )
