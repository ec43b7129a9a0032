-- ===== src/Examples/Command.antt =====
-- The theorems on the connections of the operator, for one that rejects what waits.
use zyguor_agent_execution_g.Base.{
  ◌≤◌, String, ◌≡◌, refl, ◌↔◌, ◌⊎◌, none, some, ok, ◌==◌, string_eq, if◌then◌else◌, len,
}
use zyguor_agent_execution_g.Base.Text.{split_whitespace, trim, is_whitespace}
use zyguor_agent_execution_g.Base.Assoc.{lookup, insert}
use zyguor_agent_execution_g.PendingReview.Store.{claim, persist, consume_claimed_classified}
use zyguor_agent_execution_g.Gateway.Evaluate.{review_reason_for_request}
use zyguor_agent_execution_g.Gateway.World.{persist_audit_locked}
use zyguor_agent_execution_g.Config.{default_config}
use zyguor_agent_execution_g.Gateway.Types.{AdminCommand, reject}
use zyguor_agent_execution_g.Gateway.Admin.{handle_admin_command_with_config}
use zyguor_agent_execution_g.Gateway.Command.{
  Wire, Connection, format_admin_outcome_response, parse_admin_command, handle_admin_connection,
}
use zyguor_agent_execution_g.Gateway.Command.Parsed.{IsLine, parse_admin_command_iff}
use zyguor_agent_execution_g.Gateway.Command.Answered.{
  CarriedOut, says_ok, handle_admin_connection-authorized, handle_admin_connection-CarriedOut,
}
use zyguor_agent_execution_g.Examples.Gateway.{env, world}

-- The only id is 7.
abbrev wire : Wire
wire = record {
  parse_str = λ text. if text == "7" then some 7 else none;
  uuid = λ k. "7";
  cargo_test_json = λ result. ok "{}";
  http_json = λ result. ok "{}";
}

abbrev operator : Connection
operator = record { verify_admin_peer = ok tt; read_line = ok "REJECT 7\n"; write_error = none }

parse_admin_command_iff_example :
    (parse_admin_command wire "REJECT 7\n" ≡ ok (reject 7))
    ↔ IsLine wire (reject 7) (split_whitespace "REJECT 7\n")
parse_admin_command_iff_example = parse_admin_command_iff wire "REJECT 7\n" (reject 7)

handle_admin_connection-authorized_example :
    let w' = (handle_admin_connection wire env default_config operator world).2 in
    (w' ≡ world)
    ⊎ ((input : String) × (command : AdminCommand) × (operator.verify_admin_peer ≡ ok tt)
        × (operator.read_line ≡ ok input)
        × (len input ≤ 256)
        × (parse_admin_command wire input ≡ ok command)
        × (w' ≡ (handle_admin_command_with_config env default_config command world).1))
handle_admin_connection-authorized_example =
    handle_admin_connection-authorized wire env default_config operator world

handle_admin_connection-CarriedOut_example :
    (input : String) × (operator.read_line ≡ ok input)
    × CarriedOut wire env default_config input world
        (handle_admin_connection wire env default_config operator world)
unfolding handle_admin_connection split_whitespace trim is_whitespace says_ok parse_admin_command
    handle_admin_command_with_config claim lookup persist review_reason_for_request
    persist_audit_locked consume_claimed_classified insert format_admin_outcome_response
handle_admin_connection-CarriedOut_example =
    handle_admin_connection-CarriedOut wire env default_config operator world "OK REJECTED 7\n" refl
      refl
