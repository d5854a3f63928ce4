-- ===== src/Tests/Serving.antt =====
-- The theorems of Requests at the sample server.
use project_g_one.Requests.Answer.{decide_support_request-returns}
use project_g_one.Requests.Progress.Moves.{handle-Follows}
use project_g_one.Requests.Progress.{Follows, found}
use project_g_one.Prelude.{◌≡◌, ◌++◌, refl, true, List, [], ◌∷◌, eq_iff, all, some, arith}
use project_g_one.Models.{AuditEvent}
use project_g_one.Models.Tables.{Kind, with_table}
use project_g_one.Session.Isolation.{foreign}
use mathlib.Core.Bool.{false≢true}
use project_g_one.Trail.Rules.{IsAccounted}
use project_g_one.Requests.{handle, serve}
use project_g_one.Requests.Isolation.{handle-foreign, serve-own, own}
use project_g_one.Requests.Trail.{handle-IsAccounted, serve-log, Recorded}
use project_g_one.Tests.Samples.{
  sample_settings, sample_request, sample_database, sample_admin, sample_accepted, sample_decision,
  sample_support,
}
use project_g_one.Prelude.{arith, contains}
use project_g_one.Models.Tables.{with_table}
use project_g_one.Models.Constraints.{insert_conflict}
use project_g_one.Passwords.{hash_password}
use project_g_one.Session.{
  raised, http, run_request, ◌>>=◌, read, pure, insert, save, commit, except_integrity, raise_if,
  select_first, select_or, returned,
}
use project_g_one.Auth.Token.{decode_token, encode_token, sign, decode_part}
use project_g_one.Auth.Soundness.{IsAccepted, decode_token-IsAccepted}
use project_g_one.Text.Sets.{sorted_set}
use project_g_one.Api.Audit.{audit}
use project_g_one.Api.Roles.{role_ids, validate_roles}
use project_g_one.Api.Validation.{validate_roles-known}
use project_g_one.Api.Sessions.{create_initial_administrator, claim_installation, session_token}
use project_g_one.Api.Support.{decide_support_request, get_support_request, target_device}
use project_g_one.Requests.{Call, dispatch}
use project_g_one.Requests.Access.{dispatch-forbidden}
use project_g_one.Requests.Setup.{setup_once}
use project_g_one.Requests.Decision.{IsDecided, decide_support_request-IsDecided}
use project_g_one.Wireguard.Curve.{multiply_base, ladder_start}
use project_g_one.Wireguard.Ladder.{plain_rounds}
use project_g_one.Wireguard.Power.{quotient, multiply_base-plain}
use project_g_one.Tests.Samples.{
  sample_outside, sample_member, sample_refused, sample_codec, sample_setup, sample_new,
  sample_pending,
}

handle-foreign_example :
    foreign "acme" Kind.devices
      ((handle sample_settings sample_request sample_database).rows Kind.devices)
    ≡ foreign "acme" Kind.devices (sample_database.rows Kind.devices)
handle-foreign_example = handle-foreign sample_settings sample_request sample_database Kind.devices

serve-own_example :
    own "globex" Kind.devices
      ((serve sample_settings (sample_request ∷ []) sample_database).rows Kind.devices)
    ≡ own "globex" Kind.devices (sample_database.rows Kind.devices)
serve-own_example =
    serve-own sample_settings "globex" (sample_request ∷ []) sample_database Kind.devices
      (λ e. false≢true ((eq_iff "acme" "globex").1 e), tt)

handle-IsAccounted_example :
    IsAccounted sample_admin sample_database (handle sample_settings sample_request sample_database)
handle-IsAccounted_example = handle-IsAccounted sample_settings sample_request sample_database

serve-log_example :
    (es : List AuditEvent) × ((serve sample_settings (sample_request ∷ []) sample_database).rows
        Kind.audit_events
      ≡ sample_database.rows Kind.audit_events ++ es)
    × Recorded (sample_request ∷ []) es
serve-log_example = serve-log sample_settings (sample_request ∷ []) sample_database

dispatch-forbidden_example :
    run_request
      (dispatch sample_outside sample_settings sample_member (Call.delete_user "u1"))
      sample_database
    ≡ (raised (http 403 "insufficient role"), sample_database)
dispatch-forbidden_example =
    dispatch-forbidden sample_settings sample_refused ("tenant_admin" ∷ []) sample_database refl
      refl

setup_once_example :
    run_request
      (create_initial_administrator sample_outside sample_codec sample_settings sample_setup)
      (serve sample_settings
        (sample_request ∷ [])
        (run_request
          (create_initial_administrator sample_outside sample_codec sample_settings sample_setup)
          sample_new).1)
    ≡ (
      raised (http 409 "administrator has already been configured"),
      serve sample_settings
          (sample_request ∷ [])
          (run_request
            (create_initial_administrator sample_outside sample_codec sample_settings sample_setup)
            sample_new).1,
    )
unfolding run_request create_initial_administrator claim_installation session_token hash_password
    insert commit except_integrity audit encode_token ◌>>=◌ read pure with_table insert_conflict
setup_once_example =
    setup_once sample_outside sample_outside sample_codec sample_settings sample_setup sample_setup
      (sample_request ∷ []) sample_new ".." refl

decide_support_request-IsDecided_example :
    IsDecided sample_outside sample_admin sample_pending "s1" true sample_accepted
unfolding run_request decide_support_request get_support_request target_device ◌>>=◌ raise_if pure
    insert save commit read audit select_first select_or with_table
decide_support_request-IsDecided_example =
    decide_support_request-IsDecided sample_outside sample_admin sample_pending "s1" true
      sample_accepted refl

decode_token-IsAccepted_example : IsAccepted sample_codec sample_settings 1000000 "a.b.c"
unfolding decode_token sign decode_part
decode_token-IsAccepted_example =
    decode_token-IsAccepted sample_codec sample_settings 1000000 "a.b.c"
      (record { subject = "ann"; tenant_id = "acme"; roles = [] }) refl

validate_roles-known_example :
    (contains "member" ("member" ∷ "support" ∷ []) ≡ contains "member" ("support" ∷ "member" ∷ []))
    × (all (λ v. contains v role_ids) ("support" ∷ "member" ∷ []) ≡ true)
unfolding validate_roles sorted_set
validate_roles-known_example =
    validate_roles-known ("support" ∷ "member" ∷ []) ("member" ∷ "support" ∷ []) refl "member"

multiply_base-plain_example : multiply_base 5 ≡ quotient (plain_rounds 9 5 255 (ladder_start 9))
multiply_base-plain_example = multiply_base-plain 5

handle-Follows_example : Follows (found "acme" "s1" (sample_pending.rows Kind.support_requests)) (
    found "acme" "s1"
      ((handle sample_settings sample_decision sample_pending).rows Kind.support_requests))
handle-Follows_example = handle-Follows sample_settings sample_decision sample_pending "acme" "s1"

decide_support_request-returns_example :
    (run_request (decide_support_request sample_outside sample_admin "s1" true) sample_pending).0
    ≡ returned
        (record sample_support { state = "accepted"; decided_at = some (sample_outside.clock 1) })
unfolding with_table
decide_support_request-returns_example =
    decide_support_request-returns sample_outside sample_admin sample_pending "s1" true
      sample_support refl refl refl (omega arith) refl
