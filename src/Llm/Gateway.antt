-- ===== src/Llm/Gateway.antt =====
-- services/agentgateway.client.ts: the key resources that the platform declares to the gateway. The
-- gateway's admin API is a parameter.
use Prim.Native.String.{◌++◌ as ◌<>◌}
use sandbox_platform.Prelude.{
  ℕ, String, Bool, true, false, ◌&&◌, ◌||◌, Option, none, some, List, [], ◌∷◌, ◌==◌, ltb, leb,
  str_eq, if◌then◌else◌,
}
use sandbox_platform.Action.{
  AppError, Outcome, ok, err, Action, ◌>>=◌, ◌>>◌, pure, throw, catch, or_throw, http_error,
  failure, status_code,
}
use sandbox_platform.Db.Rows.{Json, null, texts, encoded}

-- `metadata` has the owner twice; `models` is `allowedModels`, and the budget is in millionths.
pub record Budget : Type 0 where
  pub amount : ℕ
  pub rolling : String

pub record KeyResource : Type 0 where
  pub key_hash : String
  pub owner : String
  pub allowed_models : Option Json
  pub budget : Option Budget

pub data AdminRequest : Type 0 where
  put_resources : KeyResource → AdminRequest
  put_resource : String → KeyResource → AdminRequest
  delete_resource : String → AdminRequest

-- The status, whether the text speaks of a budget, and the id of the first resource of the answer.
pub data AdminResponse : Type 0 where
  unreachable : AdminResponse
  responded : ℕ → Bool → Option String → AdminResponse

-- `fetch` is the network with the time limit, `random_hex` 24 random bytes in hexadecimal, and
-- `digest` SHA-256 in hexadecimal.
pub record GatewayHost (R : Type 0) : Type 0 where
  pub fetch : AdminRequest → R → AdminResponse × R
  pub random_hex : R → String × R
  pub digest : String → String

pub record GeneratedKey : Type 0 where
  pub key : String
  pub key_name : Option String

pub record GenerateInput : Type 0 where
  pub user_id : String
  pub models : Json
  pub max_budget : ℕ
  pub budget_duration : Option String

pub record ResourceValue : Type 0 where
  pub key_hash : String
  pub owner : String
  pub models : Json
  pub max_budget : ℕ
  pub budget_duration : Option String

abbrev pub rolling_window : Option String → String
rolling_window none = "30d"
rolling_window (some d) =
    if str_eq d "" || (str_eq d "monthly" || (str_eq d "30d" || str_eq d "1mo")) then "30d" else d

-- `models && models.length > 0`; a text that is no list has a length too.
abbrev pub allowed : Json → Option Json
allowed null = none
allowed (texts []) = none
allowed (texts (m ∷ ms)) = some (texts (m ∷ ms))
allowed (encoded v) = some (encoded v)

-- A budget that is not positive is left out.
abbrev pub budget_of : ℕ → Option String → Option Budget
budget_of max_budget duration =
    if ltb 0 max_budget
    then some (record { amount = max_budget; rolling = rolling_window duration })
    else none

abbrev pub is_http_error : AppError → Bool
is_http_error (failure message) = false
is_http_error _ = true

abbrev pub is_missing : AppError → Bool
is_missing e = is_http_error e && status_code e == 404

-- What the client throws for an answer that is not `ok`.
abbrev pub response_error : ℕ → Bool → AppError
response_error status budget =
    if status == 404
    then http_error 404 "LLM_GATEWAY_NOT_FOUND"
    else if status == 422 || budget
    then http_error 422 "LLM_BUDGET_EXCEEDED"
    else if status == 429
    then http_error 429 "LLM_RATE_LIMITED"
    else http_error 502 "LLM_GATEWAY_ERROR"

abbrev pub outcome_of : AdminResponse → Outcome (Option String)
outcome_of unreachable = err (http_error 502 "LLM_UNREACHABLE")
outcome_of (responded status budget id) =
    if leb 200 status && ltb status 300 then ok id else err (response_error status budget)

abbrev pub generated_value : String → GenerateInput → KeyResource
generated_value key_hash input = record {
  key_hash = key_hash;
  owner = input.user_id;
  allowed_models = allowed input.models;
  budget = budget_of input.max_budget input.budget_duration;
}

abbrev pub resource_of : ResourceValue → KeyResource
resource_of value = record {
  key_hash = value.key_hash;
  owner = value.owner;
  allowed_models = allowed value.models;
  budget = budget_of value.max_budget value.budget_duration;
}

module _ {R : Type 0} (gateway : GatewayHost R) where
  abbrev pub request : AdminRequest → Action R (Option String)
  request r s = let (answer, t) = gateway.fetch r s in (outcome_of answer, t)

  abbrev pub random : Action R String
  random s = let (hex, t) = gateway.random_hex s in (ok hex, t)

  abbrev pub hash_for_gateway : String → String
  hash_for_gateway plaintext = "sha256:" <> gateway.digest plaintext

  unfoldable pub generate_key : GenerateInput → Action R GeneratedKey
  generate_key input = do
    hex ← random
    id ←
        request
          (AdminRequest.put_resources (generated_value (hash_for_gateway ("sk-agw-" <> hex)) input))
    name ← or_throw id (http_error 502 "LLM_GATEWAY_ERROR")
    pure (record { key = "sk-agw-" <> hex; key_name = some name })

  -- A resource that is gone is no error.
  abbrev pub unless_missing : Action R (Option String) → Action R (Unit {0})
  unless_missing m = catch (m >>= λ id. pure tt) (λ e. if is_missing e then pure tt else throw e)

  unfoldable pub delete_key : List String → Action R (Unit {0})
  delete_key [] = pure tt
  delete_key (id ∷ ids) =
      let rest = delete_key ids in
      if str_eq id ""
      then rest
      else unless_missing (request (AdminRequest.delete_resource id)) >> rest

  unfoldable pub put_key_resource : String → ResourceValue → Action R (Unit {0})
  put_key_resource id value =
      unless_missing (request (AdminRequest.put_resource id (resource_of value)))
