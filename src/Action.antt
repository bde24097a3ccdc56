-- ===== src/Action.antt =====
-- internal/canonicalaction/action.go: the action that a permit binds, its validation and its
-- digest. The canonical JSON of an action is an argument.
use aegis_router.Base.{
  ℕ, Bool, not, ◌&&◌, ◌||◌, List, [], ◌∷◌, ◌++◌, Option, none, some, ltb, ◌!=◌, bool_eq, length,
  Result, ok, err, ◌>>◌, reject_if,
}
use aegis_router.Text.{Bytes, str, is_empty, is_nonempty, utf8_valid, has_control, is_sha256_digest}
use aegis_router.Crypto.{Codec}
use aegis_router.ExecutionProof.{hex}

pub record Action : Type 0 where
  pub principal_id : Bytes
  pub agent_id : Bytes
  pub workload_id : Bytes
  pub delegated_authority_fingerprint : Bytes
  pub tool : Bytes
  pub capability : Bytes
  pub resource : Bytes
  pub operation : Bytes
  pub profile_id : Bytes
  pub audience : Bytes
  pub execution_binding : Bytes
  pub arguments : Bytes

-- ErrInvalidAction, and ErrInvalidJSON with the errors of the arguments
pub data ActionError : Type 0 where
  invalid_action invalid_arguments : ActionError

abbrev pub unfit : Bytes → ℕ → Bool
unfit value limit = not (utf8_valid value) || ltb limit (length value) || has_control value

-- The loop over the required fields: a value and its limit each.
unfoldable pub check_fields : List (Bytes × ℕ) → Result ActionError (Unit {0})
check_fields [] = ok tt
check_fields ((value, limit) ∷ fields) = do
  reject_if (is_empty value) invalid_action
  reject_if (unfit value limit) invalid_action
  check_fields fields

-- validateOptionalMetadata
unfoldable pub check_optional : Bytes → ℕ → Result ActionError (Unit {0})
check_optional value limit = reject_if (is_nonempty value && unfit value limit) invalid_action

-- Action.Validate
unfoldable pub validate_action : Action → Result ActionError (Unit {0})
validate_action a = do
  check_fields (
      (a.principal_id, 512)
      ∷ (a.agent_id, 512)
      ∷ (a.workload_id, 512)
      ∷ (a.tool, 512)
      ∷ (a.capability, 512)
      ∷ (a.resource, 2048)
      ∷ (a.operation, 512)
      ∷ [])
  reject_if
      (is_nonempty a.delegated_authority_fingerprint
        && not (is_sha256_digest a.delegated_authority_fingerprint))
      invalid_action
  reject_if (is_nonempty a.execution_binding && not (is_sha256_digest a.execution_binding))
      invalid_action
  reject_if (is_empty a.profile_id != is_empty a.audience) invalid_action
  check_optional a.profile_id 256
  check_optional a.audience 1024

-- CanonicalJSON after its validation, which is not modelled: `none` stands for its errors.
abbrev pub Canonical : Type 0
Canonical = Action → Option Bytes

-- Action.Digest
unfoldable pub digest : Codec → Canonical → Action → Result ActionError Bytes
digest lib canonical a = do
  validate_action a
  elim (canonical a) [
    | none ↦ err invalid_arguments
    | some text ↦ ok (str "sha256:" ++ hex (lib.sha256 text))
  ]
