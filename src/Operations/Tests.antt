-- ===== src/Operations/Tests.antt =====
-- internal/operations: runs at concrete inputs.
use berth_agent.Prelude.{
  arith, ℕ, ◌≡◌, refl, ◌↔◌, Bool, true, List, [], ◌∷◌, ok, Text, codes, text_eq, ltb, All, length,
}
use berth_agent.Encoding.Decimal.{is_digit}
use berth_agent.Prelude.{has_prefix, contains, any, member}
use berth_agent.Prelude.Int.{pos}
use berth_agent.Operations.Options.{
  valid_option_values, matches_scale, valid_options, up_options, validate_options,
  contains_dangerous_chars,
}
use berth_agent.Operations.Options.Dangerous.{is_dangerous_byte, contains_dangerous_chars_iff}
use berth_agent.Operations.Options.Grammar.{IsSafe, Options}
use berth_agent.Operations.Options.Exact.{validate_options_iff, validate_options-IsSafe}
use berth_agent.Operations.Request.{OperationRequest, validate_operation_request}
use berth_agent.Operations.Request.Accepted.{IsServiceName, validate_operation_request_iff}
use berth_agent.Operations.Options.{matches_name}
use berth_agent.Operations.Command.{build_command}
use berth_agent.Operations.Command.Safe.{build_command-IsSafe}
use berth_agent.Operations.Broadcaster.{
  broadcast_complete, broadcast, new_broadcaster, new_subscriber, poll, stdout,
}
use berth_agent.Operations.Broadcaster.Delivery.{advance_all, advance_all-delivers}
use berth_agent.Operations.Broadcaster.Log.{
  publishing, Step, publish, finish, round, IsCall, IsFinished,
}

abbrev sample_options : List Text
sample_options =
    codes "-d" ∷ codes "--scale=web=3" ∷ codes "-t" ∷ codes "30" ∷ codes "--pull=always" ∷ []

sample_accepted : validate_options up_options sample_options ≡ ok tt
unfolding validate_options text_eq member contains_dangerous_chars contains has_prefix
    valid_option_values is_digit matches_scale
sample_accepted = refl

validate_options_iff_example :
    (validate_options up_options sample_options ≡ ok tt) ↔ Options up_options sample_options
validate_options_iff_example = validate_options_iff up_options sample_options

validate_options-IsSafe_example : All IsSafe sample_options
validate_options-IsSafe_example = validate_options-IsSafe up_options sample_options sample_accepted

contains_dangerous_chars_iff_example :
    (contains_dangerous_chars (codes "a$(b)") ≡ true)
    ↔ (any is_dangerous_byte (codes "a$(b)") ≡ true)
contains_dangerous_chars_iff_example = contains_dangerous_chars_iff (codes "a$(b)")

abbrev parses_short : Text → Bool
parses_short id = ltb (length id) 40

abbrev sample_request : OperationRequest
sample_request = record {
  command = codes "up";
  options = sample_options;
  services = codes "web" ∷ [];
  backup_password = [];
}

validate_operation_request_iff_example :
    (validate_operation_request parses_short sample_request ≡ ok tt) ↔ (
      (◌≡◌ {A = Text} [] [])
      × Options up_options sample_options
      × All IsServiceName (codes "web" ∷ []))
unfolding valid_options text_eq
validate_operation_request_iff_example =
    validate_operation_request_iff parses_short sample_request up_options refl

abbrev sample_steps : List Step
sample_steps = round ∷ publish 1 stdout (codes "pulling") ∷ round ∷ finish 2 true (pos 0) ∷ []

abbrev always : ℕ → Bool
always n = true

advance_all-delivers_example :
    let system = advance_all always (new_broadcaster, new_subscriber) sample_steps in
    let s = poll always system.1 system.0 in
    (s.delivered ≡ system.0.message_log) × (s.returned ≡ true) × IsFinished system.0.message_log
unfolding IsCall new_broadcaster advance_all publishing broadcast broadcast_complete
advance_all-delivers_example =
    advance_all-delivers always (λ n. refl) sample_steps (tt, (refl, (tt, (tt, tt)))) refl

-- The sample request is accepted.
sample_request_accepted : validate_operation_request parses_short sample_request ≡ ok tt
unfolding valid_options text_eq matches_name
sample_request_accepted =
    (validate_operation_request_iff parses_short sample_request up_options refl).1 (
      refl,
      (validate_options_iff up_options sample_options).0 sample_accepted,
      (record { shape = refl; short = omega arith }, tt),
    )

build_command-IsSafe_example : All IsSafe (build_command sample_request)
unfolding valid_options text_eq
build_command-IsSafe_example =
    build_command-IsSafe parses_short sample_request up_options refl sample_request_accepted
