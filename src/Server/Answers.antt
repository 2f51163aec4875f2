-- ===== src/Server/Answers.antt =====
-- src/server.rs and src/server/management.rs: the status and the code that a client gets for an error.
use quotio_cli.Base.{ℕ, String, ◌==◌, string_eq, if◌then◌else◌}
use quotio_cli.Accounts.Credential
use quotio_cli.Accounts.Credential.{AccountError}
use quotio_cli.Settings
use quotio_cli.Settings.{SettingsError}

-- `ApiError`: the status and the code.
pub record ApiError : Type 0 where
  pub status : ℕ
  pub code : String

abbrev pub api_error : ℕ → String → ApiError
api_error status code = record { status = status; code = code }

unfoldable pub account_code : AccountError → String
account_code Credential.storage = "credential_storage_unavailable"
account_code Credential.corrupt = "credential_storage_unavailable"
account_code Credential.busy = "account_busy"
account_code Credential.AccountError.source_disabled = "source_disabled"
account_code Credential.commit_uncertain = "credential_commit_uncertain"
account_code Credential.idempotency_conflict = "idempotency_conflict"
account_code Credential.idempotency_full = "idempotency_full"
account_code Credential.not_found = "account_not_found"
account_code Credential.duplicate = "duplicate_account"
account_code Credential.label = "invalid_label"
account_code Credential.settings = "invalid_provider_settings"
account_code (Credential.native_oauth name) = "native_login_required"
account_code Credential.unsupported = "unsupported_operation"
account_code Credential.callback_port = "callback_port_unavailable"
account_code Credential.oauth = "oauth_failed"
account_code Credential.AccountError.cancelled = "oauth_expired_or_cancelled"
account_code (Credential.provider e) = "credential_validation_failed"
account_code _ = "invalid_credential"

abbrev status_of : AccountError → ℕ
status_of Credential.not_found = 404
status_of Credential.busy = 409
status_of Credential.duplicate = 409
status_of Credential.callback_port = 409
status_of Credential.idempotency_conflict = 409
status_of Credential.storage = 503
status_of Credential.corrupt = 503
status_of Credential.commit_uncertain = 503
status_of _ = 400

unfoldable pub account_error : AccountError → ApiError
unfolding account_code
account_error e = api_error (status_of e) (account_code e)

unfoldable pub settings_error : SettingsError → ApiError
settings_error Settings.conflict = api_error 409 "revision_conflict"
settings_error Settings.overridden = api_error 409 "setting_overridden"
settings_error Settings.busy = api_error 409 "settings_busy"
settings_error Settings.invalid = api_error 400 "invalid_settings"
settings_error Settings.storage = api_error 503 "settings_storage_unavailable"

unfoldable pub operation_error : String → ApiError
operation_error code =
    api_error
      (if code == "idempotency_conflict"
        then 409
        else if code == "invalid_idempotency_key"
        then 400
        else 503)
      code

-- `ServerError` and its exit code.
pub data ServerError : Type 0 where
  listen config security bind initialize : ServerError

unfoldable pub exit_code : ServerError → ℕ
exit_code listen = 2
exit_code config = 2
exit_code security = 2
exit_code _ = 3
