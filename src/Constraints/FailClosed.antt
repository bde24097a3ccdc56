-- ===== src/Constraints/FailClosed.antt =====
-- The obligations of internal/executionconstraints/evaluator.go and the checks that account for them.
use aegis_router.Base.{
  ℕ, String, ◌++◌, ◌≡◌, ◌↔◌, ◌+◌, refl, Bool, true, false, List, [], ◌∷◌, ◌==◌, arith, All, length,
  if◌then◌else◌,
}
use aegis_router.Time.{Time}
use aegis_router.Permit.Claims.{Obligations, obligations_eq}
use aegis_router.Action.{Action}
use aegis_router.Constraints.{Check, add_check, unsupported, no_obligations, known_checks, evaluate}

abbrev pub bit : Bool → ℕ
bit b = if b then 1 else 0

-- How many obligations are set.
abbrev pub weight : Obligations → ℕ
weight o =
    bit o.isolation_required
    + bit o.network_egress_denied
    + bit o.read_only
    + bit o.human_approval_required
    + bit o.enhanced_audit_required

-- An execution is allowed exactly if its permit has no obligation.
pub evaluate_allowed_iff :
    (o : Obligations) (a : Action) (at : Time)
    → ((evaluate o a at).allowed ≡ true) ↔ (o ≡ no_obligations)
unfolding evaluate
evaluate_allowed_iff o a at = ground arith

length-known_checks :
    (o : Obligations) (a : Action) (at : Time) → length (known_checks o a at) ≡ weight o
unfolding known_checks add_check
length-known_checks o a at = ground arith

abbrev pub Unsupported : Time → Check → Type 0
Unsupported at c = (c.status ≡ unsupported) × (c.checked_at ≡ at)

All-concat :
    (at : Time) (cs : List Check) (c : Check)
    → All (Unsupported at) cs
    → Unsupported at c
    → All (Unsupported at) (cs ++ c ∷ [])
All-concat at [] c h k = (k, tt)
All-concat at (d ∷ cs) c (g, h) k = (g, All-concat at cs c h k)

add_check-All :
    (required : Bool) (name scope reason : String) (at : Time) (cs : List Check)
    → All (Unsupported at) cs
    → All (Unsupported at) (add_check required name scope reason at cs)
unfolding add_check
add_check-All true name scope reason at cs h = All-concat at cs _ h (refl, refl)
add_check-All false name scope reason at cs h = h

known_checks-Unsupported :
    (o : Obligations) (a : Action) (at : Time) → All (Unsupported at) (known_checks o a at)
unfolding known_checks
known_checks-Unsupported o a at = add_check-All _ _ _ _ at _ (
    add_check-All _ _ _ _ at _
      (add_check-All _ _ _ _ at _ (add_check-All _ _ _ _ at _ (add_check-All _ _ _ _ at [] tt))))

-- The branch for an obligation that no check names is never taken.
evaluate_known :
    (o : Obligations) (a : Action) (at : Time)
    → evaluate o a at ≡ record { allowed = o == no_obligations; checks = known_checks o a at }
unfolding evaluate
evaluate_known o a at = ground (arith, length-known_checks o a at)

-- A name, if the obligation is set
abbrev pub named_if : Bool → String → List String
named_if b name = if b then name ∷ [] else []

-- The names of the obligations that are set, in the order of the checks
abbrev pub set_obligations : Obligations → List String
set_obligations o =
    named_if o.isolation_required "isolation_required"
    ++ named_if o.network_egress_denied "network_egress_denied"
    ++ named_if o.read_only "read_only"
    ++ named_if o.human_approval_required "human_approval_required"
    ++ named_if o.enhanced_audit_required "enhanced_audit_required"

abbrev pub requirements : List Check → List String
requirements [] = []
requirements (c ∷ cs) = c.requirement ∷ requirements cs

requirements-known_checks :
    (o : Obligations) (a : Action) (at : Time)
    → requirements (known_checks o a at) ≡ set_obligations o
unfolding known_checks add_check
requirements-known_checks o a at = ground arith

-- An evaluation lists one check under the name of each obligation that is set, in their order and
-- no other, each unsupported and stamped with the time of the evaluation, and allows an execution
-- exactly if none is set.
pub evaluate_accounts :
    (o : Obligations) (a : Action) (at : Time)
    → (requirements (evaluate o a at).checks ≡ set_obligations o)
      × All (Unsupported at) (evaluate o a at).checks
      × (((evaluate o a at).allowed ≡ true) ↔ (set_obligations o ≡ []))
evaluate_accounts o a at =
    rw (evaluate_known o a at)
      (requirements-known_checks o a at, known_checks-Unsupported o a at, ground arith)
