-- ===== src/Gateway/Command.antt =====
-- `parse_admin_command`, `format_admin_outcome_response` and `handle_admin_connection`: one line of
-- the operator, and the one line that answers it.
pub mod Parsed
pub mod Answered
use zyguor_agent_execution_g.Base.{
  ℕ, String, ◌<>◌, Option, none, some, List, [], ◌∷◌, Result, ok, err, ltb, len, map_err, ◌==◌,
  string_eq, if◌then◌else◌, ok_or,
}
use zyguor_agent_execution_g.Base.Results.{◌>>=◌ as after}
use zyguor_agent_execution_g.Base.Text.{trim, split_whitespace}
use zyguor_agent_execution_g.Config.{GatewayConfig}
use zyguor_agent_execution_g.PendingReview.{PendingReview}
use zyguor_agent_execution_g.Gateway.Types.{
  CargoTestResult, HttpExecutionResult, AdminCommand, approve, reject, acknowledge_claimed,
  AdminOutcome, approved, rejected, claimed_acknowledged,
  claimed_acknowledgement_durability_uncertain, write_failed, cargo_test_completed,
  cargo_test_failed, completion_audit_failed, cargo_test_execution_failed, http_post_completed,
  http_post_failed, http_post_execution_failed,
}
use zyguor_agent_execution_g.Gateway.World.{Env, World}
use zyguor_agent_execution_g.Gateway.Admin.{handle_admin_command_with_config}

-- `Uuid::parse_str` and the `Display` of a `Uuid`, and the JSON of the
-- two results that a response carries.
pub record Wire : Type 0 where
  pub parse_str : String → Option ℕ
  pub uuid : ℕ → String
  pub cargo_test_json : CargoTestResult → Result String String
  pub http_json : HttpExecutionResult → Result String String

abbrev pub max_admin_command_length : ℕ
max_admin_command_length = 256

-- The last `match`.
unfoldable pub command_of : String → ℕ → Result AdminCommand String
command_of command request_id =
    if command == "APPROVE"
    then ok (approve request_id)
    else if command == "REJECT"
    then ok (reject request_id)
    else if command == "ACK_CLAIMED"
    then ok (acknowledge_claimed request_id)
    else err "unsupported admin command"

module _ (wire : Wire) where
  -- The tests on the parts of the line, in the source's order.
  unfoldable pub parse_parts : List String → Result AdminCommand String
  unfolding command_of
  parse_parts [] = err "admin command cannot be empty"
  parse_parts (command ∷ []) = err "admin command requires a request ID"
  parse_parts (command ∷ request_id ∷ []) =
      after (ok_or (wire.parse_str request_id) "admin command contains an invalid request ID")
        (command_of command)
  parse_parts (command ∷ request_id ∷ extra ∷ rest) =
      err "admin command contains unexpected arguments"

  unfoldable pub parse_admin_command : String → Result AdminCommand String
  unfolding parse_parts
  parse_admin_command input = parse_parts (split_whitespace (trim input))

  -- A response that carries a JSON value, or the failure to write it.
  unfoldable pub with_json : (head : String) → ℕ → Result String String → String
  with_json head request_id (ok json) = head <> wire.uuid request_id <> " " <> json <> "\n"
  with_json head request_id (err error) =
      "ERROR RESPONSE_SERIALIZATION_FAILED " <> wire.uuid request_id <> " " <> error <> "\n"

  -- A response that carries an error.
  unfoldable pub with_error : (head : String) → ℕ → String → String
  with_error head request_id error = head <> wire.uuid request_id <> " " <> error <> "\n"

  unfoldable pub format_admin_outcome_response : AdminOutcome → String
  unfolding with_json with_error
  format_admin_outcome_response (approved request_id) =
      "OK APPROVED " <> wire.uuid request_id <> "\n"
  format_admin_outcome_response (rejected pending) =
      "OK REJECTED " <> wire.uuid pending.request_id <> "\n"
  format_admin_outcome_response (write_failed request_id error) =
      with_error "ERROR WRITE_FAILED " request_id error
  format_admin_outcome_response (cargo_test_execution_failed request_id error) =
      with_error "ERROR CARGO_TEST_EXECUTION_FAILED " request_id error
  format_admin_outcome_response (claimed_acknowledged pending) =
      "OK CLAIMED_ACKNOWLEDGED " <> wire.uuid pending.request_id <> "\n"
  format_admin_outcome_response (claimed_acknowledgement_durability_uncertain request_id error) =
      with_error "ERROR CLAIMED_ACKNOWLEDGEMENT_DURABILITY_UNCERTAIN " request_id error
  format_admin_outcome_response (cargo_test_completed request_id result) =
      with_json "OK CARGO_TEST_COMPLETED " request_id (wire.cargo_test_json result)
  format_admin_outcome_response (cargo_test_failed request_id result) =
      with_json "ERROR CARGO_TEST_FAILED " request_id (wire.cargo_test_json result)
  format_admin_outcome_response (http_post_execution_failed request_id error) =
      with_error "ERROR HTTP_POST_EXECUTION_FAILED " request_id error
  format_admin_outcome_response (http_post_completed request_id result) =
      with_json "OK HTTP_POST_COMPLETED " request_id (wire.http_json result)
  format_admin_outcome_response (http_post_failed request_id result) =
      with_json "ERROR HTTP_POST_FAILED " request_id (wire.http_json result)
  format_admin_outcome_response (completion_audit_failed request_id outcome error result) =
      with_error "ERROR COMPLETION_AUDIT_FAILED " request_id error

-- What a connection brings: the check of the peer's user, the line that `read_line` took from at
-- most 257 bytes (no bytes at the end of the stream is the empty line), and the error of the
-- write of the response, if it fails.
pub record Connection : Type 0 where
  pub verify_admin_peer : Result (Unit {0}) String
  pub read_line : Result String String
  pub write_error : Option String

-- The result, the response that was written, if one was, and the world after.
abbrev pub Served : Type 0
Served = Result AdminOutcome String × Option String × World

-- The response to an error.
unfoldable pub refuse : Connection → World → String → Served
refuse connection w error = elim connection.write_error [
  | none ↦ (err error, some ("ERROR " <> error <> "\n"), w)
  | some write_error ↦
      (err (error <> "; failed to write admin error response: " <> write_error), none, w)
]

module _ (wire : Wire) (env : Env) (config : GatewayConfig) where
  -- The last `match`, on what the command did.
  unfoldable pub answer : Connection → Result AdminOutcome String × World → Served
  unfolding refuse
  answer connection (err error, w) = refuse connection w error
  answer connection (ok outcome, w) = elim connection.write_error [
    | none ↦ (ok outcome, some (format_admin_outcome_response wire outcome), w)
    | some error ↦ (err ("failed to write admin response: " <> error), none, w)
  ]

  unfoldable pub run_line : Connection → String → World → Served
  unfolding answer
  run_line connection input w = elim (parse_admin_command wire input) [
    | ok command ↦ answer connection (handle_admin_command_with_config env config command w)
    | err error ↦ answer connection (err error, w)
  ]

  unfoldable pub serve_line : Connection → Result String String → World → Served
  unfolding run_line
  serve_line connection (err error) w = (err ("failed to read admin command: " <> error), none, w)
  serve_line connection (ok input) w =
      if input == ""
      then (err "admin connection closed without a command", none, w)
      else if ltb max_admin_command_length (len input)
      then refuse connection w "admin command exceeds maximum length"
      else run_line connection input w

  unfoldable pub handle_admin_connection : Connection → World → Served
  unfolding serve_line
  handle_admin_connection connection w = elim connection.verify_admin_peer [
    | err error ↦ (err error, none, w)
    | ok u ↦ serve_line connection connection.read_line w
  ]
