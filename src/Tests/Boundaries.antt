-- ===== src/Tests/Boundaries.antt =====
-- A verifier, its boundary with one registered permit, and the requests that it is given.
use aegis_router.Base.{ok, err, some, none, List, [], ◌∷◌, ◌++◌, Option, if◌then◌else◌, ◌==◌}
use aegis_router.Base.Int.{pos}
use aegis_router.Text.{Bytes, str, bytes_eq}
use aegis_router.KeyProvider.{unknown_key_id}
use aegis_router.Permit.Store.{empty_store, put, fresh_record}
use aegis_router.ExecutionProof.{ProofHeader, ProofClaims, ProofJson}
use aegis_router.Verifier.{Settings, Boundary, Presented, default_max_age, default_skew}
use aegis_router.Tests.Toy.{
  copies, codec, permit_json, join_texts, split_texts, int_text, text_int, raise, checksum,
}
use aegis_router.Tests.Data.{execution_claims, action, digest_two}
use aegis_router.Tests.Tokens.{signing_key, token}

abbrev pub texts_proof : List Bytes → Option ProofClaims
texts_proof (permit ∷ digest ∷ method ∷ path ∷ at ∷ nonce ∷ []) = some (record {
  permit_id = permit;
  action_digest = digest;
  http_method = method;
  http_path = path;
  issued_at = text_int at;
  nonce = nonce;
})
texts_proof _ = none

abbrev pub texts_proof_header : List Bytes → Option ProofHeader
texts_proof_header (algorithm ∷ kind ∷ key ∷ version ∷ []) =
    some (record { algorithm = algorithm; kind = kind; key_id = key; version = text_int version })
texts_proof_header _ = none

abbrev pub proof_json : ProofJson
proof_json = record {
  decode_header = λ s. texts_proof_header (split_texts 4 s);
  decode_claims = λ s. texts_proof (split_texts 6 s);
}

abbrev pub settings : Settings
settings = record {
  lib = codec;
  permit_json = permit_json;
  proof_json = proof_json;
  canonical = λ a. some a.arguments;
  verification_key =
      λ id. if id == str "key-1" then ok (codec.public_of signing_key) else err unknown_key_id;
  expected_issuer = str "aegis";
  proof_max_age = default_max_age;
  proof_clock_skew = default_skew;
}

-- The proof of the workload, and its compact form.
abbrev pub proof : ProofClaims
proof = record {
  permit_id = str "permit-1";
  action_digest = digest_two;
  http_method = str "POST";
  http_path = str "/mcp";
  issued_at = pos 105;
  nonce = str "nonce-0001";
}

abbrev pub workload : Bytes
workload = copies 32 5

abbrev pub proof_input : Bytes
proof_input =
    raise (
      join_texts (str "EdDSA" ∷ str "AEGIS-EXECUTION-PROOF" ∷ str "exec-1" ∷ int_text (pos 1) ∷ []))
    ++ b'.'
      ∷ raise (
          join_texts (
            proof.permit_id
            ∷ proof.action_digest
            ∷ proof.http_method
            ∷ proof.http_path
            ∷ int_text proof.issued_at
            ∷ proof.nonce
            ∷ []))

abbrev pub presented : Presented
presented = record {
  permit_token = token;
  proof_token = proof_input ++ b'.' ∷ raise (checksum workload proof_input);
  action = action;
  http_method = str "POST";
  http_path = str "/mcp";
}

abbrev pub altered : Presented
altered = record presented { action = record action { resource = str "vault" } }

abbrev pub boundary : Boundary
boundary = record {
  permits = put (str "permit-1") (fresh_record execution_claims) empty_store;
  workload_keys = (str "exec-1", workload) ∷ [];
  nonces = [];
}
