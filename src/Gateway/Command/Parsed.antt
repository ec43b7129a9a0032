-- ===== src/Gateway/Command/Parsed.antt =====
-- Which lines are commands.
use zyguor_agent_execution_g.Base.{
  ℕ, String, ◌≡◌, refl, ◌↔◌, inl, inr, some, Option-cases, List, [], ◌∷◌, ok, arith, string_eq,
}
use text.Mathlib.TextEquality.{eq_iff}
use zyguor_agent_execution_g.Base.Text.{split_whitespace}
use zyguor_agent_execution_g.Base.Text.Words.{split_whitespace-trim}
use zyguor_agent_execution_g.Gateway.Types.{AdminCommand, approve, reject, acknowledge_claimed}
use zyguor_agent_execution_g.Gateway.Command.{Wire, command_of, parse_parts, parse_admin_command}

-- The word of a command, and the request that it names.
abbrev pub verb : AdminCommand → String
verb (approve request_id) = "APPROVE"
verb (reject request_id) = "REJECT"
verb (acknowledge_claimed request_id) = "ACK_CLAIMED"

abbrev pub target : AdminCommand → ℕ
target (approve request_id) = request_id
target (reject request_id) = request_id
target (acknowledge_claimed request_id) = request_id

command_of_iff :
    (word : String) (request_id : ℕ) (command : AdminCommand)
    → (command_of word request_id ≡ ok command)
      ↔ ((word ≡ verb command) × (request_id ≡ target command))
unfolding command_of
command_of_iff word request_id (approve k) = (
  λ h. ground (arith, eq_iff word "APPROVE", eq_iff word "REJECT", eq_iff word "ACK_CLAIMED"),
  λ h. rw (h.0, h.1) refl,
)
command_of_iff word request_id (reject k) = (
  λ h. ground (arith, eq_iff word "APPROVE", eq_iff word "REJECT", eq_iff word "ACK_CLAIMED"),
  λ h. rw (h.0, h.1) refl,
)
command_of_iff word request_id (acknowledge_claimed k) = (
  λ h. ground (arith, eq_iff word "APPROVE", eq_iff word "REJECT", eq_iff word "ACK_CLAIMED"),
  λ h. rw (h.0, h.1) refl,
)

some-injective : (a b : ℕ) → some a ≡ some b → a ≡ b
some-injective a b h = ground (arith, h)

module _ (wire : Wire) where
  -- Two words: the command's, and an id that parses to its request.
  abbrev pub IsLine : AdminCommand → List String → Type 0
  IsLine command (word ∷ id ∷ []) =
      (word ≡ verb command) × (wire.parse_str id ≡ some (target command))
  IsLine command _ = ⊥

  parts_iff :
      (parts : List String) (command : AdminCommand)
      → (parse_parts wire parts ≡ ok command) ↔ IsLine command parts
  unfolding parse_parts
  parts_iff [] command = (λ h. cc, λ h. absurd h)
  parts_iff (word ∷ []) command = (λ h. cc, λ h. absurd h)
  parts_iff (word ∷ id ∷ extra ∷ rest) command = (λ h. cc, λ h. absurd h)
  parts_iff (word ∷ id ∷ []) command = elim (Option-cases (wire.parse_str id)) [
    | inl p ↦ (λ h. ground (arith, p), λ h. ground (arith, p))
    | inr (k, p) ↦ (
      λ h.
          let (same, named) = (command_of_iff word k command).0 (ground (arith, p)) in
          (same, rw (p, named) refl),
      λ h. rw (p) (
          (command_of_iff word k command).1
            (h.0, some-injective k (target command) (rw (← p) h.1))),
    )
  ]

  -- A line is a command exactly when its words are the command's and a request id that parses to
  -- the command's request; white space around and between them does not matter.
  pub parse_admin_command_iff :
      (input : String) (command : AdminCommand)
      → (parse_admin_command wire input ≡ ok command) ↔ IsLine command (split_whitespace input)
  unfolding parse_admin_command
  parse_admin_command_iff input command =
      rw (split_whitespace-trim input) (parts_iff (split_whitespace input) command)
