-- ===== src/Sandbox/ExecutionPlane/Request.antt =====
-- What a request to the execution plane asks for, and what its surroundings answer. What the
-- archive, the policy, the attestations and the backend answer is any value.
use text.Mathlib.Text.{◌==◌ as str_eq}
use code_mate.Prelude.{
  ℕ, String, Bool, false, not, ◌&&◌, ◌||◌, Option, none, some, List, [], ◌∷◌, if◌then◌else◌,
}
use code_mate.Dict.{Dict, insert}
use code_mate.Json.{ℤ, pos, Json, obj, str, num, end, field}
use code_mate.Sandbox.WorkloadIdentity.{Scope}
use code_mate.Sandbox.ExecutionStore.{Store, Backend, firecracker, kubernetes, ExecutionResponse}

-- `ExecutionRequest` of backend/app/sandbox/execution_protocol.py.
pub record ExecutionRequest : Type 0 where
  pub execution_id : String
  pub archive_base64 : String
  pub archive_sha256 : String
  pub command : String
  pub shell_command : String
  pub image : String
  pub requested_runtime : String
  pub timeout_seconds : ℕ

pub record Settings : Type 0 where
  pub scope : Scope
  pub node_image : String
  pub python_image : String
  pub allowed_test_commands : List String
  pub lease_grace_seconds : ℕ
  pub backend : Backend
  pub output_max_chars : ℕ
  pub instance_id : String
  pub hostname : String

-- `BackendResult` of backend/app/sandbox/execution_backends.py.
pub record BackendResult : Type 0 where
  pub passed : Bool
  pub exit_code : ℤ
  pub stdout : String
  pub stderr : String
  pub timed_out : Bool
  pub execution_node : Option String

-- The answers of the archive, the shell policy, the supply chain, the attestations of the host and
-- of the node that ran the job, and the backend; `none` is an exception.
pub record World : Type 0 where
  pub is_extracted : Bool
  pub expected_shell : String
  pub supply_chain : Option (Dict String)
  pub host_attestation : Option (Dict String)
  pub result : BackendResult
  pub node_attestation : Option (Dict String)

-- The times at which the handler reads the clock.
pub record Times : Type 0 where
  pub verified : ℕ
  pub current : ℕ
  pub claimed : ℕ
  pub committed : ℕ

-- The response, or the status code of the `HTTPException`.
pub data Reply : Type 0 where
  responded : ExecutionResponse → Reply
  http_error : ℕ → Reply

-- What the handler did: the store, whether the backend ran, and the reply.
pub record Handled : Type 0 where
  pub store : Store
  pub ran : Bool
  pub reply : Reply

abbrev pub fail : ℕ → Store → Handled
fail code s = record { store = s; ran = false; reply = http_error code }

-- `text in collection`
abbrev pub is_in : String → List String → Bool
is_in t [] = false
is_in t (x ∷ xs) = str_eq x t || is_in t xs

abbrev pub is_allowlisted : Settings → ExecutionRequest → Bool
is_allowlisted c q =
    is_in q.image (c.node_image ∷ c.python_image ∷ []) && is_in q.command c.allowed_test_commands

-- `{**evidence, **more}`
unfoldable pub update : Dict String → Dict String → Dict String
update d [] = d
update d ((k, v) ∷ more) = update (insert k v d) more

-- The evidence before the run; `none` is a 412.
abbrev pub gather : Backend → World → Option (Dict String)
gather kubernetes w = w.supply_chain
gather firecracker w = elim w.supply_chain [
  | none ↦ none
  | some evidence ↦ elim w.host_attestation [
    | none ↦ none
    | some more ↦ some (update evidence more)
  ]
]

abbrev pub node_or_host : Settings → Option String → String
node_or_host c none = c.hostname
node_or_host c (some node) = if str_eq node "" then c.hostname else node

-- Whether the job's node is reported: an empty name is none.
abbrev pub is_reported : Option String → Bool
is_reported none = false
is_reported (some node) = not (str_eq node "")

-- `binding_hash`: everything but the archive, whose hash is bound. `dumps` sorts the keys.
abbrev pub binding_hash : (Json → String) → (String → String) → ExecutionRequest → String
binding_hash dumps sha256 q = sha256 (
    dumps (
      obj (
        field "execution_id" (str q.execution_id) (
          field "archive_sha256" (str q.archive_sha256) (
            field "command" (str q.command) (
              field "shell_command" (str q.shell_command) (
                field "image" (str q.image) (
                  field "requested_runtime" (str q.requested_runtime)
                    (field "timeout_seconds" (num (pos q.timeout_seconds)) end)))))))))
