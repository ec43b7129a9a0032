-- ===== src/Gateway/Command/Answered.antt =====
-- What a connection of the operator can do, and what its answer says.
use zyguor_agent_execution_g.Base.{
  ℕ, ◌≤◌, String, ◌<>◌, ◌≡◌, refl, sym, ◌≢◌, ◌⊎◌, inl, inr, Bool, true, false, Bool-cases, some,
  Option-cases, Result, ok, err, Result-cases, arith, string_eq, ◌==◌, nat_beq, ltb, len,
}
use text.Mathlib.TextLemmas.{cons-append}
use zyguor_agent_execution_g.Base.Text.{is_empty}
use Prim.Native.Char.{code}
use Prim.Native.String.{[], ◌∷◌}
use zyguor_agent_execution_g.Config.{GatewayConfig}
use zyguor_agent_execution_g.Gateway.Types.{
  AdminCommand, AdminOutcome, approved, rejected, claimed_acknowledged, cargo_test_completed,
  http_post_completed, write_failed, cargo_test_failed, completion_audit_failed,
  cargo_test_execution_failed, http_post_failed, http_post_execution_failed,
  claimed_acknowledgement_durability_uncertain,
}
use zyguor_agent_execution_g.Gateway.World.{Env, World}
use zyguor_agent_execution_g.Gateway.Admin.{handle_admin_command_with_config}
use zyguor_agent_execution_g.Gateway.Command.{
  Wire, parse_admin_command, with_json, with_error, format_admin_outcome_response, Connection,
  Served, refuse, answer, run_line, serve_line, handle_admin_connection, max_admin_command_length,
}

-- The outcomes in which the command did what it says.
abbrev pub IsDone : AdminOutcome → Type 0
IsDone (approved request_id) = Unit
IsDone (rejected pending) = Unit
IsDone (claimed_acknowledged pending) = Unit
IsDone (cargo_test_completed request_id result) = Unit
IsDone (http_post_completed request_id result) = Unit
IsDone _ = ⊥

-- A response begins with an O.
unfoldable pub says_ok : String → Bool
says_ok [] = false
says_ok (c ∷ rest) = nat_beq (code c) 79

says_ok-append : (s t : String) → is_empty s ≡ false → says_ok (s <> t) ≡ says_ok s
unfolding says_ok is_empty
says_ok-append [] t h = cc
says_ok-append (c ∷ s) t h = rw (cons-append c s t) refl

not_ok :
    (head rest : String)
    → is_empty head ≡ false
    → says_ok head ≡ false
    → says_ok (head <> rest) ≢ true
not_ok head rest some_head not_o h = ground (arith, h, not_o, says_ok-append head rest some_head)

failed_says : says_ok "ERROR RESPONSE_SERIALIZATION_FAILED " ≡ false
unfolding says_ok
failed_says = refl

error_says : says_ok "ERROR " ≡ false
unfolding says_ok
error_says = refl

error_some : is_empty "ERROR " ≡ false
unfolding is_empty
error_some = refl

not_empty : is_empty "ERROR RESPONSE_SERIALIZATION_FAILED " ≡ false
unfolding is_empty
not_empty = refl

json_not_ok :
    (wire : Wire) (head : String) (k : ℕ) (json : Result String String)
    → is_empty head ≡ false
    → says_ok head ≡ false
    → says_ok (with_json wire head k json) ≢ true
unfolding with_json
json_not_ok wire head k (ok json) some_head not_o h =
    not_ok head (wire.uuid k <> " " <> json <> "\n") some_head not_o h
json_not_ok wire head k (err e) some_head not_o h =
    not_ok "ERROR RESPONSE_SERIALIZATION_FAILED " (wire.uuid k <> " " <> e <> "\n") not_empty
      failed_says h

error_not_ok :
    (wire : Wire) (head : String) (k : ℕ) (error : String)
    → is_empty head ≡ false
    → says_ok head ≡ false
    → says_ok (with_error wire head k error) ≢ true
unfolding with_error
error_not_ok wire head k error = not_ok head (wire.uuid k <> " " <> error <> "\n")

format-IsDone :
    (wire : Wire) (outcome : AdminOutcome)
    → says_ok (format_admin_outcome_response wire outcome) ≡ true
    → IsDone outcome
unfolding format_admin_outcome_response says_ok is_empty with_error
format-IsDone wire (approved k) h = tt
format-IsDone wire (rejected p) h = tt
format-IsDone wire (claimed_acknowledged p) h = tt
format-IsDone wire (cargo_test_completed k r) h = tt
format-IsDone wire (http_post_completed k r) h = tt
format-IsDone wire (write_failed k e) h =
    absurd (error_not_ok wire "ERROR WRITE_FAILED " k e refl refl h)
format-IsDone wire (completion_audit_failed k o e r) h =
    absurd (error_not_ok wire "ERROR COMPLETION_AUDIT_FAILED " k e refl refl h)
format-IsDone wire (cargo_test_execution_failed k e) h =
    absurd (error_not_ok wire "ERROR CARGO_TEST_EXECUTION_FAILED " k e refl refl h)
format-IsDone wire (http_post_execution_failed k e) h =
    absurd (error_not_ok wire "ERROR HTTP_POST_EXECUTION_FAILED " k e refl refl h)
format-IsDone wire (claimed_acknowledgement_durability_uncertain k e) h =
    absurd (error_not_ok wire "ERROR CLAIMED_ACKNOWLEDGEMENT_DURABILITY_UNCERTAIN " k e refl refl h)
format-IsDone wire (cargo_test_failed k r) h =
    absurd (json_not_ok wire "ERROR CARGO_TEST_FAILED " k (wire.cargo_test_json r) refl refl h)
format-IsDone wire (http_post_failed k r) h =
    absurd (json_not_ok wire "ERROR HTTP_POST_FAILED " k (wire.http_json r) refl refl h)

module _ (wire : Wire) (env : Env) (config : GatewayConfig) where
  -- What a line may do to the world.
  abbrev Touches : Connection → World → World → Type 0
  Touches connection w w' =
      (w' ≡ w)
      ⊎ ((input : String) × (command : AdminCommand) × (connection.verify_admin_peer ≡ ok tt)
          × (connection.read_line ≡ ok input)
          × (len input ≤ 256)
          × (parse_admin_command wire input ≡ ok command)
          × (w' ≡ (handle_admin_command_with_config env config command w).1))

  refuse-same :
      (connection : Connection) (w : World) (error : String) → (refuse connection w error).2 ≡ w
  unfolding refuse
  refuse-same connection w error = elim (Option-cases connection.write_error) [
    | inl p ↦ ground (arith, p)
    | inr (e, p) ↦ ground (arith, p)
  ]

  answer-same :
      (connection : Connection) (r : Result AdminOutcome String) (w : World)
      → (answer wire env config connection (r, w)).2 ≡ w
  unfolding answer
  answer-same connection (err e) w = refuse-same connection w e
  answer-same connection (ok o) w = elim (Option-cases connection.write_error) [
    | inl p ↦ ground (arith, p)
    | inr (e, p) ↦ ground (arith, p)
  ]

  serve_line-Touches :
      (connection : Connection) (input : String) (w : World)
      → connection.verify_admin_peer ≡ ok tt
      → connection.read_line ≡ ok input
      → Touches connection w (serve_line wire env config connection (ok input) w).2
  unfolding serve_line run_line
  serve_line-Touches connection input w peer line = elim (Bool-cases (input == "")) [
    | inl p ↦ inl (rw (p, serve_line) refl)
    | inr p ↦ elim (Bool-cases (ltb max_admin_command_length (len input))) [
      | inl q ↦ inl (rw (p, q, serve_line) (refuse-same connection w _))
      | inr q ↦ elim (Result-cases (parse_admin_command wire input)) [
        | inr (e, r) ↦ inl (rw (p, q, r, serve_line, run_line) (answer-same connection (err e) w))
        | inl (command, r) ↦
            let done = handle_admin_command_with_config env config command w in
            inr (
              input,
              command,
              peer,
              line,
              ground (arith, q),
              r,
              rw (p, q, r, serve_line, run_line) (answer-same connection done.0 done.1),
            )
      ]
    ]
  ]

  -- A connection leaves the world as it was, or the check of the peer's user passed, the line has
  -- at most 256 bytes and is a command, and the world is what handling that command leaves.
  pub handle_admin_connection-authorized :
      (connection : Connection) (w : World)
      → let w' = (handle_admin_connection wire env config connection w).2 in
        (w' ≡ w)
        ⊎ ((input : String) × (command : AdminCommand) × (connection.verify_admin_peer ≡ ok tt)
            × (connection.read_line ≡ ok input)
            × (len input ≤ 256)
            × (parse_admin_command wire input ≡ ok command)
            × (w' ≡ (handle_admin_command_with_config env config command w).1))
  unfolding handle_admin_connection
  handle_admin_connection-authorized connection w =
      elim (Result-cases connection.verify_admin_peer) [
        | inr (e, p) ↦ ground (arith, p)
        | inl (u, p) ↦ elim (Result-cases connection.read_line) [
          | inr (e, q) ↦ ground (arith, p, q)
          | inl (input, q) ↦
              let whole : handle_admin_connection wire env config connection w
                  ≡ serve_line wire env config connection (ok input) w =
                ground (arith, p, q) in
              rw (whole) (serve_line-Touches connection input w p q)
        ]
      ]

  refuse-answers :
      (connection : Connection) (w : World) (error text : String)
      → (refuse connection w error).1 ≡ some text
      → says_ok text ≢ true
  unfolding refuse
  refuse-answers connection w error text h k = elim (Option-cases connection.write_error) [
    | inr (e, p) ↦ ground (arith, p, h)
    | inl p ↦
        let same : "ERROR " <> error <> "\n" ≡ text = ground (arith, p, h) in
        not_ok "ERROR " (error <> "\n") error_some error_says (rw (same) k)
  ]

  -- The answer says OK only to a result that is done, and leaves it and the world as they are.
  answer-tells :
      (connection : Connection) (r : Result AdminOutcome String) (w : World) (text : String)
      → (answer wire env config connection (r, w)).1 ≡ some text
      → says_ok text ≡ true
      → (outcome : AdminOutcome) × (r ≡ ok outcome)
        × ((answer wire env config connection (r, w)).0 ≡ ok outcome)
        × IsDone outcome
  unfolding answer
  answer-tells connection (err e) w text h k = absurd (refuse-answers connection w e text h k)
  answer-tells connection (ok o) w text h k = elim (Option-cases connection.write_error) [
    | inr (e, p) ↦ ground (arith, p, h)
    | inl p ↦
        let same : format_admin_outcome_response wire o ≡ text = ground (arith, p, h) in
        (o, refl, ground (arith, p), format-IsDone wire o (rw same k))
  ]

  -- The line is a command, handling it in the world gave the outcome that is served and the world
  -- that is left, and the outcome is done.
  abbrev pub CarriedOut : String → World → Served → Type 0
  CarriedOut input w served =
      (command : AdminCommand) × (outcome : AdminOutcome) × (parse_admin_command wire input
        ≡ ok command)
      × ((handle_admin_command_with_config env config command w).0 ≡ ok outcome)
      × ((handle_admin_command_with_config env config command w).1 ≡ served.2)
      × (served.0 ≡ ok outcome)
      × IsDone outcome

  serve_line-tells :
      (connection : Connection) (input : String) (w : World) (text : String)
      → (serve_line wire env config connection (ok input) w).1 ≡ some text
      → says_ok text ≡ true
      → CarriedOut input w (serve_line wire env config connection (ok input) w)
  unfolding serve_line run_line
  serve_line-tells connection input w text h k = elim (Bool-cases (input == "")) [
    | inl p ↦ ground (arith, p, h)
    | inr p ↦ elim (Bool-cases (ltb max_admin_command_length (len input))) [
      | inl q ↦ absurd (
          refuse-answers connection w "admin command exceeds maximum length" text
            (ground (arith, p, q, h)) k)
      | inr q ↦ elim (Result-cases (parse_admin_command wire input)) [
        | inr (e, r) ↦
            let whole : serve_line wire env config connection (ok input) w
                ≡ answer wire env config connection (err e, w) =
              rw (p, q, r, serve_line, run_line) refl in
            let (outcome, never, served, done) =
              answer-tells connection (err e) w text (rw (← whole) h) k in
            cc
        | inl (command, r) ↦
            let done = handle_admin_command_with_config env config command w in
            let whole : serve_line wire env config connection (ok input) w
                ≡ answer wire env config connection done =
              rw (p, q, r, serve_line, run_line) refl in
            let (outcome, did, served, is_done) =
              answer-tells connection done.0 done.1 text (rw (← whole) h) k in
            rw whole (
              command,
              outcome,
              r,
              did,
              sym (answer-same connection done.0 done.1),
              served,
              is_done,
            )
      ]
    ]
  ]

  -- When the answer to a connection begins with an O, as OK does, the line that was read is a
  -- command and was carried out: what handling it gives is what is served, the world that it
  -- leaves is the world that is left, and its outcome is an approval that succeeded, a rejection
  -- or an acknowledgement.
  pub handle_admin_connection-CarriedOut :
      (connection : Connection) (w : World) (text : String)
      → (handle_admin_connection wire env config connection w).1 ≡ some text
      → says_ok text ≡ true
      → (input : String) × (connection.read_line ≡ ok input)
        × CarriedOut input w (handle_admin_connection wire env config connection w)
  unfolding handle_admin_connection
  handle_admin_connection-CarriedOut connection w text h k =
      elim (Result-cases connection.verify_admin_peer) [
        | inr (e, p) ↦ ground (arith, p, h)
        | inl (u, p) ↦ elim (Result-cases connection.read_line) [
          | inr (e, q) ↦ ground (arith, p, q, h)
          | inl (input, q) ↦
              let whole : handle_admin_connection wire env config connection w
                  ≡ serve_line wire env config connection (ok input) w =
                ground (arith, p, q) in
              (input, q, rw whole (serve_line-tells connection input w text (rw (← whole) h) k))
        ]
      ]
