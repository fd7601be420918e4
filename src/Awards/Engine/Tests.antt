-- ===== src/Awards/Engine/Tests.antt =====
-- A concrete engine with a budget, a policy and a Skill, and what it is asked for.
pub mod Runs
pub mod Examples
use skill_asset_protocol.Awards.Budget.{Budget}
use skill_asset_protocol.Awards.Credentials.{Credential}
use skill_asset_protocol.Awards.Credentials.Attestation.{
  principal_attestation_hash, PrincipalAttestation,
}
use skill_asset_protocol.Awards.Engine.{EngineState}
use skill_asset_protocol.Awards.Engine.Authorize.{AuthorizeInput}
use skill_asset_protocol.Awards.Errors.{AwardError, Calendar}
use skill_asset_protocol.Awards.Keys.{Crypto}
use skill_asset_protocol.Awards.Ledger.{create_receipt_ledger_state}
use skill_asset_protocol.Awards.Quote.{Quote}
use skill_asset_protocol.Awards.Receipts.Signed.{ReceiptSigner}
use skill_asset_protocol.Awards.Registration.{SkillRegistration}
use skill_asset_protocol.Awards.Schema.{Policy}
use skill_asset_protocol.Base.{
  ℕ, ◌+◌, [], ◌∷◌, ◌++◌, true, some, none, JsString, js, List, length, Option, Result, ok, err,
  if◌then◌else◌, text_eq,
}
use skill_asset_protocol.Kernel.Platform.{Platform}

abbrev pub platform : Platform
platform = record {
  parse_url = λ s. none;
  resolve_url = λ s base. none;
  utf8_length = λ s. length s;
  sha256 = λ s. js "sha256:0123456789abcdef0123456789abcdef0123456789abcdef0123456789abcdef";
  json_string = λ s. s;
}

abbrev pub hash : JsString
hash = js "sha256:0123456789abcdef0123456789abcdef0123456789abcdef0123456789abcdef"

-- The instants that the test uses, in their order.
abbrev instants : List JsString
instants =
    js "2020-01-01T00:00:00.000Z"
    ∷ js "2020-01-02T00:00:00.000Z"
    ∷ js "2020-01-03T00:00:00.000Z"
    ∷ js "2020-01-04T00:00:00.000Z"
    ∷ js "2020-02-01T00:00:00.000Z"
    ∷ []

abbrev position : JsString → List JsString → ℕ → Option ℕ
position s [] n = none
position s (t ∷ ts) n = let rest = position s ts (n + 1) in if text_eq s t then some n else rest

abbrev at : List JsString → ℕ → JsString
at [] n = []
at (t ∷ ts) Prim.Native.Nat.zero = t
at (t ∷ ts) (Prim.Native.Nat.suc n) = at ts n

abbrev pub calendar : Calendar
calendar = record {
  parse_date = λ s. position s instants 0;
  iso_string = λ n. at instants n;
  month_start = λ year month. 4;
}

abbrev bytes : ℕ → List ℕ
bytes Prim.Native.Nat.zero = []
bytes (Prim.Native.Nat.suc n) = 0 ∷ bytes n

abbrev pub crypto : Crypto
crypto = record {
  create_public_key = λ s. some (record { asymmetric_key_type = js "ed25519"; spki_pem = s });
  from_base64 = λ s. bytes 64;
  to_base64 = λ b. js "AA==";
  verify = λ b key signature. true;
}

abbrev pub signer : ReceiptSigner
signer = record { signer_id = js "rs"; sign = λ b. some (js "AA==") }

abbrev key : JsString
key = js "-----BEGIN PUBLIC KEY-----\n"

abbrev pub policy : Policy
policy = record {
  schema_version = 1;
  policy_id = js "p";
  version = 1;
  status = js "active";
  currency = js "USD";
  atomic_scale = 6;
  employer_id = js "acme";
  effective_at = js "2020-01-01T00:00:00.000Z";
  expires_at = js "2020-02-01T00:00:00.000Z";
  permitted_skill_ids = js "s" ∷ [];
  permitted_creator_ids = js "ann" ∷ [];
  permitted_wielder_ids = js "w" ∷ [];
  permitted_initiating_principal_ids = js "i" ∷ [];
  permitted_cost_centers = js "c" ∷ [];
  max_quote_atomic = js "50";
  award_rule = record {
    rule_type = js "residual_after_execution_fee_and_reserve";
    award_rate_bps = 10_000;
    rate_base = js "post_cost_residual";
    rounding = js "floor_atomic";
  };
  max_award_per_invocation_atomic = js "5";
  max_award_per_period_atomic = js "9";
  self_invocation = js "excluded";
  permitted_manager_signer_ids = js "m" ∷ [];
  permitted_credential_authorizer_ids = js "m" ∷ [];
  permitted_identity_signer_ids = js "m" ∷ [];
  permitted_finance_signer_ids = js "m" ∷ [];
  vesting_rule = js "none";
  payment_schedule = js "monthly_in_arrears";
  termination_treatment = js "t";
  payment_rail = js "r";
}

abbrev pub quote : JsString → Quote
quote id = record {
  schema_version = 1;
  quote_id = js "q";
  invocation_id = id;
  idempotency_key = id;
  skill_id = js "s";
  skill_version_hash = hash;
  creator_id = js "ann";
  wielder_id = js "w";
  initiating_principal_id = js "i";
  principal_attestation_id = js "a";
  beneficiary_id = js "acme";
  cost_center = js "c";
  policy_id = js "p";
  policy_version = 1;
  policy_hash = hash;
  max_execution_cost_atomic = js "6";
  protocol_fee_atomic = js "1";
  refund_reserve_atomic = js "2";
  max_invocation_award_atomic = js "3";
  max_gross_atomic = js "12";
  expires_at = js "2020-01-04T00:00:00.000Z";
}

abbrev pub budget_with : JsString → ℕ → Budget
budget_with in_reserve revision = record {
  schema_version = 1;
  budget_id = js "b";
  policy_id = js "p";
  policy_version = 1;
  policy_hash = hash;
  period = js "2020-01";
  currency = js "USD";
  atomic_scale = 6;
  authorization = record {
    schema_version = 1;
    budget_id = js "b";
    policy_id = js "p";
    policy_version = 1;
    policy_hash = hash;
    period = js "2020-01";
    currency = js "USD";
    atomic_scale = 6;
    allocated_atomic = js "50";
    effective_at = js "2020-01-01T00:00:00.000Z";
    expires_at = js "2020-02-01T00:00:00.000Z";
    signer_id = js "m";
    signature = js "AA==";
  };
  policy = policy;
  allocated_atomic = js "50";
  reserved_atomic = in_reserve;
  consumed_atomic = js "0";
  released_atomic = js "0";
  revision = revision;
}

abbrev trust : List (JsString × JsString)
trust = (js "m", key) ∷ []

abbrev pub registration : SkillRegistration
registration = record {
  schema_version = 1;
  registration_id = js "g";
  skill_id = js "s";
  skill_version_hash = hash;
  creator_id = js "ann";
  employer_id = js "acme";
  status = js "active";
  effective_at = js "2020-01-01T00:00:00.000Z";
  expires_at = js "2020-02-01T00:00:00.000Z";
}

abbrev pub idle : EngineState
idle = record {
  revision = 0;
  budget = budget_with (js "0") 0;
  policies = (js "p@1", policy) ∷ [];
  skill_registrations = (js "s@" ++ hash, registration) ∷ [];
  finance_signers = trust;
  manager_signers = trust;
  credential_authorizers = trust;
  identity_signers = trust;
  receipt_signers = (js "rs", key) ∷ [];
  invocations = [];
  reservations = [];
  awards = [];
  consumed_nonces = [];
  issued_nonces = [];
  consumed_principal_nonces = [];
  idempotency = [];
  award_reversals = [];
  events = [];
  ledger = create_receipt_ledger_state;
}

-- A nonce that ends with a digit, and what is asked for with it.
abbrev pub nonce_with : JsString → JsString
nonce_with digit = js "000000000000000000000000000000000000000000000000000000000000000" ++ digit

abbrev pub attestation : JsString → JsString → PrincipalAttestation
attestation id digit = record {
  payload = record {
    schema_version = 1;
    attestation_id = js "a";
    identity_signer_id = js "m";
    principal_id = js "i";
    invocation_id = id;
    idempotency_key = id;
    skill_id = js "s";
    skill_version_hash = hash;
    creator_id = js "ann";
    wielder_id = js "w";
    beneficiary_id = js "acme";
    policy_id = js "p";
    policy_version = 1;
    policy_hash = hash;
    nonce = nonce_with digit;
    issued_at = js "2020-01-01T00:00:00.000Z";
    expires_at = js "2020-01-04T00:00:00.000Z";
  };
  signature = js "AA==";
}

abbrev pub asked : JsString → JsString → ℕ → AuthorizeInput
asked id digit revision = record {
  quote = quote id;
  expected_revision = revision;
  expected_budget_revision = revision;
  reservation_id = id;
  credential_nonce = nonce_with digit;
  credential_issued_at = js "2020-01-01T00:00:00.000Z";
  credential_expires_at = js "2020-01-04T00:00:00.000Z";
  credential_authorizer_id = js "m";
  principal_attestation = attestation id digit;
  manager_approval = none;
}

abbrev pub credential : JsString → JsString → Credential
credential id digit = record {
  payload = record {
    schema_version = 1;
    credential_authorizer_id = js "m";
    invocation_id = id;
    reservation_id = id;
    idempotency_key = id;
    skill_id = js "s";
    skill_version_hash = hash;
    creator_id = js "ann";
    wielder_id = js "w";
    initiating_principal_id = js "i";
    principal_attestation_id = js "a";
    principal_attestation_hash = hash;
    policy_id = js "p";
    policy_version = 1;
    policy_hash = hash;
    nonce = nonce_with digit;
    issued_at = js "2020-01-01T00:00:00.000Z";
    expires_at = js "2020-01-04T00:00:00.000Z";
  };
  signature = js "AA==";
}

abbrev pub noon : JsString
noon = js "2020-01-02T00:00:00.000Z"

abbrev pub or_idle : Result AwardError EngineState → EngineState
or_idle (ok state) = state
or_idle (err e) = idle
