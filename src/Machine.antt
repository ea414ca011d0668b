-- ===== src/Machine.antt =====
-- capi_provider_ssh/controllers/sshmachine.py: the reconciliation of an SSHMachine
-- (_sshmachine_reconcile_impl) up to its SSH session: the check strategy, what each failure leaves in
-- the status, and the payload, the key and the trust that a bootstrap needs.
pub mod Job
pub mod Reconcile
pub mod Local
use capi_provider_ssh.Base.{
  ℕ, String, Bool, true, false, not, List, [], ◌∷◌, Option, none, some, or_else, has_text, truthy,
  codes_eq, if◌then◌else◌,
}
use capi_provider_ssh.Text.{codes, lower, strip}
use capi_provider_ssh.Shell.{text}
use capi_provider_ssh.Value.{Value, null, is_null, as_text}
use capi_provider_ssh.Objects.{
  SecretRef, Condition, Connection, Binding, MachineSpec, MachineStatus,
}
use capi_provider_ssh.World.{
  Env, Error, permanent, temporary, Outcome, ok, err, Exec, pure, raise, lift, attempt, gets, stage,
  ◌>>=◌, ◌>>◌, Patch,
}
use capi_provider_ssh.Fallible.{expect}
use capi_provider_ssh.Conditions.{patch_conditions}
use capi_provider_ssh.Contracts.{read_known_hosts}
use capi_provider_ssh.Probe.{read_ssh_key}
use capi_provider_ssh.Provision.{machine_lifecycle_conditions}
use capi_provider_ssh.Bootstrap.{read_bootstrap_data}
use capi_provider_ssh.ExternalEtcd.{ExternalEtcd, normalize_external_etcd}
use capi_provider_ssh.CloudConfig.{Format, prepare_bootstrap_script}
use capi_provider_ssh.Inject.{inject_provider_id, inject_external_etcd}

pub data Strategy : Type 0 where
  check_ssh : Strategy
  check_none : Strategy

strategy_of : List ℕ → Outcome Strategy
strategy_of name =
    if codes_eq name (codes "ssh")
    then ok check_ssh
    else if codes_eq name (codes "none")
    then ok check_none
    else err (permanent "spec.bootstrapCheckStrategy must be one of: ssh, none")

strategy_text : Option String → Outcome Strategy
strategy_text none =
    err (permanent "spec.bootstrapCheckStrategy must be a string (`ssh` or `none`)")
strategy_text (some raw) = strategy_of (lower (codes (strip raw)))

-- `_normalize_bootstrap_check_strategy(spec)`
unfoldable pub normalize_bootstrap_check_strategy : MachineSpec → Outcome Strategy
unfolding strategy_text strategy_of
normalize_bootstrap_check_strategy spec =
    let raw = or_else spec.bootstrap_check_strategy null in
    if is_null raw then ok check_ssh else strategy_text (as_text raw)

-- `patch.spec.get(...)`, and else the field of the spec
abbrev pub staged_address : MachineSpec → Option Connection → Option String
staged_address spec none = spec.address
staged_address spec (some c) = c.address

abbrev pub staged_user : MachineSpec → Option Connection → String
staged_user spec none = or_else spec.user "root"
staged_user spec (some c) = c.user

abbrev pub staged_key_ref : MachineSpec → Option Connection → SecretRef
staged_key_ref spec none = or_else spec.ssh_key_ref (record { name = none; key = none })
staged_key_ref spec (some c) = c.ssh_key_ref

-- `patch.status["ready"] = False` and `initialization.provisioned`
abbrev pub unready : Patch → Patch
unready p = record p { ready = some false; provisioned = some false }

abbrev pub failed : (reason message : String) → Patch → Patch
failed reason message p = record p {
  ready = some false;
  provisioned = some false;
  failure_reason = some (some reason);
  failure_message = some (some message);
}

-- the conditions of a Machine that is not ready: Ready and InfrastructureReady alike
abbrev pub unready_conditions :
    (reason message bootstrap_reason bootstrap_message : String) → (now : String) → List Condition
unready_conditions reason message bootstrap_reason bootstrap_message now =
    machine_lifecycle_conditions now false reason message false reason message false
      bootstrap_reason bootstrap_message []

-- what a run of the reconciliation has found before it connects
pub record Target : Type 0 where
  pub address : String
  pub port : ℕ
  pub user : String
  pub provider_id : String

-- the payload and the etcd that is wired into it
pub record Payload : Type 0 where
  pub script : String
  pub etcd : Option ExternalEtcd

module _ (env : Env) (status : MachineStatus) (generation : Option ℕ) where
  -- staged fields, and the conditions at this time
  unfoldable pub report : (Patch → Patch) → (String → List Condition) → Exec Unit
  report change conditions = do
    stage change
    now ← gets (λ s. env.iso s.trace)
    patch_conditions env status.conditions generation (conditions now)

  -- a failure with one message for its condition and another for `failureMessage`
  unfoldable pub report_failure :
      (reason message failure_message bootstrap_reason bootstrap_message : String) → Exec Unit
  unfolding report
  report_failure reason message failure_message bootstrap_reason bootstrap_message =
      report (failed reason failure_message)
        (unready_conditions reason message bootstrap_reason bootstrap_message)

  -- `except kopf.PermanentError as e`: the status tells the reason, and the error passes
  unfoldable pub or_report : {A : Type 0} → (reason bootstrap_message : String) → Outcome A → Exec A
  unfolding report_failure
  or_report reason bootstrap_message (err (permanent message)) = do
    report_failure reason message message "BootstrapNotStarted" bootstrap_message
    raise (permanent message)
  or_report reason bootstrap_message (err e) = raise e
  or_report reason bootstrap_message (ok a) = pure a

  -- the bootstrap data of the Machine, or a retry
  unfoldable pub bootstrap_data : (namespace machine_name : String) → Option String → Exec String
  unfolding report
  bootstrap_data namespace machine_name found =
      if has_text found then pure (or_else found "") else (do
        let message : String = text ("Bootstrap data not yet available for " ∷ machine_name ∷ [])
        report unready
            (unready_conditions "WaitingForBootstrapData" message "WaitingForBootstrapData" message)
        raise (temporary "Bootstrap data not ready" 15))

  -- the wiring of the external etcd, where one is configured
  unfoldable pub wired : (data_text : String) → Option ExternalEtcd → Exec String
  wired data_text none = pure data_text
  wired data_text (some etcd) = do
    (with_etcd, _) ←
        or_report "ExternalEtcdWiringError"
          "Bootstrap has not started due to external etcd wiring error"
          (inject_external_etcd env data_text etcd)
    pure with_etcd

  -- from the bootstrap data to the script
  unfoldable pub prepare :
      MachineSpec → (namespace machine_name provider_id : String) → Exec Payload
  unfolding bootstrap_data wired or_report
  prepare spec namespace machine_name provider_id = do
    stage (λ p. record p { bootstrap_diagnostics = some none })
    found ← read_bootstrap_data env namespace machine_name
    raw ← bootstrap_data namespace machine_name found
    (with_id, _) ←
        or_report "ProviderIDWiringError" "Bootstrap has not started due to providerID wiring error"
          (inject_provider_id env raw provider_id)
    etcd ←
        or_report "ExternalEtcdConfigurationError"
          "Bootstrap has not started due to external etcd configuration error"
          (normalize_external_etcd spec)
    with_etcd ← wired with_id etcd
    (script, _) ←
        or_report "BootstrapFormatError"
          "Bootstrap has not started because bootstrap data format is invalid"
          (prepare_bootstrap_script env with_etcd)
    pure (record { script = script; etcd = etcd })

  -- the key and the trust are read, or the status tells why not
  unfoldable pub credentials_read : Outcome Unit → Exec Unit
  unfolding report_failure
  credentials_read (ok _) = pure tt
  credentials_read (err (permanent message)) = raise (permanent message)
  credentials_read (err e) = do
    report_failure "SSHKeyReadError"
        (text ("Failed to read SSH key secret: " ∷ env.error_text e ∷ []))
        (text ("Failed to read SSH key: " ∷ env.error_text e ∷ [])) "BootstrapNotStarted"
        "Bootstrap has not started because SSH key retrieval failed"
    raise (temporary (text ("SSH key read failed: " ∷ env.error_text e ∷ [])) 30)

  read_key_and_trust : (namespace secret_name secret_key : String) → SecretRef → Exec Unit
  read_key_and_trust namespace secret_name secret_key trust = do
    _ ← read_ssh_key env namespace secret_name secret_key
    _ ← read_known_hosts env namespace trust
    pure tt

  unfoldable pub credentials : (namespace : String) (key_ref trust : SecretRef) → Exec Unit
  unfolding credentials_read report_failure read_key_and_trust
  credentials namespace key_ref trust =
      if not (has_text key_ref.name)
      then (do
        report_failure "InvalidConfiguration" "Missing sshKeyRef.name"
            "spec.sshKeyRef.name is required" "BootstrapNotStarted"
            "Bootstrap has not started because SSH key reference is missing"
        raise (permanent "spec.sshKeyRef.name is required"))
      else (do
        read ← attempt (
            read_key_and_trust namespace (or_else key_ref.name "") (or_else key_ref.key "value")
              trust)
        credentials_read read)
