-- ===== src/Machine/Job.antt =====
-- capi_provider_ssh/controllers/sshmachine.py: the SSH session of _sshmachine_reconcile_impl, which
-- is the dry run or the bootstrap under the host's Lease, and what it leaves in the status.
pub mod Quiet
pub mod Ordered
use capi_provider_ssh.Base.{
  ℕ, String, Bool, true, false, not, ◌||◌, List, [], ◌∷◌, ◌++◌, Option, none, some, or_else,
  has_text, text_eq, if◌then◌else◌,
}
use capi_provider_ssh.Text.{concat}
use capi_provider_ssh.Shell.{text}
use capi_provider_ssh.Objects.{Condition, Diagnostics, Meta, Binding, MachineStatus, Machine}
use capi_provider_ssh.World.{
  Env, Error, permanent, temporary, timeout_error, Outcome, ok, err, guard, Exec, pure, raise, lift,
  attempt, gets, stage, ◌>>=◌, ◌>>◌, call, remote, get_machine, connect_ssh, upload_ssh,
  execute_ssh, close_ssh, SshResult, Patch,
}
use capi_provider_ssh.Contracts.{is_paused}
use capi_provider_ssh.Inventory.{set_host_phase}
use capi_provider_ssh.Operations.{HostLease, host_operation, check_lease}
use capi_provider_ssh.Remote.{close_after}
use capi_provider_ssh.Reboot.{succeeded, exit_text}
use capi_provider_ssh.Provision.{
  machine_condition, machine_lifecycle_conditions, ensure_bootstrap_ownership,
}
use capi_provider_ssh.Bootstrap.{if_found, durable_bootstrap}
use capi_provider_ssh.ExternalEtcd.{ExternalEtcd, external_etcd_files_script}
use capi_provider_ssh.Diagnose.{
  bootstrap_execution_command, post_bootstrap_readiness_command, Failure,
  classify_bootstrap_failure, classify_kubelet_not_ready, phase_text,
}
use capi_provider_ssh.Machine.{
  Strategy, check_ssh, check_none, Target, Payload, unready, failed, unready_conditions, report,
  report_failure,
}

-- `_info_condition(condition_type, reason, message)`
abbrev pub info_condition : (now kind reason message : String) → Condition
info_condition now kind reason message = machine_condition now kind "True" reason message

-- the script with the installation of the certificates in front
abbrev with_certificates : (certificates script : String) → String
with_certificates certificates script =
    text ("#!/bin/bash\nset -euo pipefail\n" ∷ certificates ∷ script ∷ [])

-- a failed bootstrap: reason, message and diagnostics
abbrev failure_patch : Failure → SshResult → Patch → Patch
failure_patch f result p = record (failed f.reason f.message p) {
  bootstrap_diagnostics = some (
      some (record {
        phase = phase_text f.phase;
        exit_code = result.exit_code;
        stderr_excerpt = f.excerpt;
      }));
}

abbrev waiting_for_kubelet : String
waiting_for_kubelet = "Bootstrap script completed; waiting for kubelet readiness checks to pass"

-- the conditions where the script has run and the kubelet is not ready
abbrev kubelet_conditions : (message now : String) → List Condition
kubelet_conditions message now =
    machine_lifecycle_conditions now false "KubeletNotReady" message false "KubeletNotReady" message
      true "BootstrapCompleted" waiting_for_kubelet
      (info_condition now "Bootstrapped" "BootstrapCompleted" waiting_for_kubelet ∷ [])

module _ (env : Env) (status : MachineStatus) (generation : Option ℕ) (command_timeout : ℕ) where
  -- `async with await SSHClient.connect(...) as conn: body`
  pub with_ssh : {A : Type 0} → Target → Exec A → Exec A
  with_ssh target body = do
    remote env.unit (connect_ssh (some target.address) target.port target.user)
    result ← attempt body
    closed ← attempt (remote env.unit close_ssh)
    lift (close_after result closed)

  -- `_read_current_sshmachine(namespace, name)`, with the UID that it must have
  pub live_machine : (namespace name uid when : String) → Exec Machine
  live_machine namespace name uid when = do
    reply ← attempt (call env.machine (get_machine namespace name))
    latest ← if_found env reply
    lift (elim latest [
      | none ↦ err (temporary (text ("Machine identity changed before " ∷ when ∷ [])) 15)
      | some m ↦
          if text_eq m.metadata.uid (some uid)
          then ok m
          else err (temporary (text ("Machine identity changed before " ∷ when ∷ [])) 15)
    ])

  -- whether the live Machine is paused or being deleted
  pub is_stopped : (namespace : String) → Machine → Exec Bool
  is_stopped namespace latest = do
    paused ← is_paused env latest.spec.paused latest.metadata namespace
    pure (paused || has_text latest.metadata.deletion_timestamp)

  -- the script that is uploaded
  pub full_script : (namespace : String) → Payload → Exec String
  full_script namespace payload = elim payload.etcd [
    | none ↦ pure payload.script
    | some etcd ↦ external_etcd_files_script env namespace etcd >>= λ certificates.
        pure (with_certificates certificates payload.script)
  ]

  -- what follows a job that failed
  pub job_failed : Binding → (namespace name uid script : String) → SshResult → Exec Unit
  job_failed binding namespace name uid script result = do
    set_host_phase env binding name namespace uid "Quarantined" "BootstrapFailed"
    let f = classify_bootstrap_failure result script
    report env status generation (failure_patch f result)
        (unready_conditions f.reason f.message f.reason f.message)
    raise (
        temporary (text ("Bootstrap failed (" ∷ f.reason ∷ ", exit " ∷ exit_text result ∷ ")" ∷ []))
          30)

  -- the check of the kubelet
  pub kubelet_checked : SshResult → Exec Unit
  kubelet_checked result = if succeeded result then pure tt else (do
    let message = classify_kubelet_not_ready result
    report env status generation (failed "KubeletNotReady" message) (kubelet_conditions message)
    raise (
        temporary
          (text (
            "Post-bootstrap readiness check failed (KubeletNotReady, exit "
            ∷ exit_text result
            ∷ ")"
            ∷ []))
          30))

  pub check_kubelet : Strategy → Exec Unit
  check_kubelet check_none = pure tt
  check_kubelet check_ssh = do
    result ← remote env.ssh (execute_ssh post_bootstrap_readiness_command)
    kubelet_checked result

  -- the job and its receipt, and then the check
  pub run_job : Binding → Strategy → (namespace name uid path script : String) → Exec Bool
  run_job binding strategy namespace name uid path script = do
    result ← durable_bootstrap env uid path (bootstrap_execution_command path) command_timeout
    if succeeded result
        then (do check_kubelet strategy; pure true)
        else (do job_failed binding namespace name uid script result; pure true)

  -- the upload under a fresh path, and the second look at the live Machine
  pub upload_and_run :
      Binding → Strategy → (namespace name uid script : String) → HostLease → Exec Bool
  upload_and_run binding strategy namespace name uid script operation = do
    path ←
        gets (λ s. text ("/var/lib/capi-provider-ssh/bootstrap-" ∷ env.uuid s.trace ∷ ".sh" ∷ []))
    check_lease env operation
    remote env.unit (upload_ssh path script)
    check_lease env operation
    latest ← live_machine namespace name uid "bootstrap execution"
    stopped ← is_stopped namespace latest
    if stopped then pure false else run_job binding strategy namespace name uid path script

  -- the body of the session; false is one of its early returns
  pub bootstrap_body :
      Binding → Strategy → (namespace name uid : String) → Payload → HostLease → Exec Bool
  bootstrap_body binding strategy namespace name uid payload operation = do
    latest ← live_machine namespace name uid "bootstrap"
    stopped ← is_stopped namespace latest
    if stopped then pure false else (do
      check_lease env operation
      ensure_bootstrap_ownership env binding uid namespace name status
      script ← full_script namespace payload
      upload_and_run binding strategy namespace name uid script operation)

  -- the host operation around the connection around the body
  pub session : Target → Binding → Strategy → (namespace name uid : String) → Payload → Exec Bool
  session target binding strategy namespace name uid payload =
      host_operation env binding uid (λ operation.
        with_ssh target (bootstrap_body binding strategy namespace name uid payload operation))

  -- the handlers of the session's exceptions
  pub session_ended : Outcome Bool → Exec Bool
  session_ended (ok finished) = pure finished
  session_ended (err (temporary message delay)) = raise (temporary message delay)
  session_ended (err (permanent message)) = raise (permanent message)
  session_ended (err timeout_error) = do
    let e = env.error_text timeout_error
    report_failure env status generation "SSHTimeout" e
        (text ("SSH operation timed out: " ∷ e ∷ [])) "SSHTimeout"
        "Bootstrap execution was interrupted by SSH timeout"
    raise (temporary (text ("SSH timeout: " ∷ e ∷ [])) 30)
  session_ended (err other) = do
    let message : String = text ("SSH connection failed: " ∷ env.error_text other ∷ [])
    report_failure env status generation "SSHError" message message "SSHError"
        "Bootstrap execution could not proceed due to SSH error"
    raise (temporary (text ("SSH error: " ∷ env.error_text other ∷ [])) 30)

  -- the connection test of the dry run
  pub dry_run_ended : (address : String) → Outcome Unit → Exec Unit
  dry_run_ended address (err e) = do
    report_failure env status generation "DryRunSSHFailed"
        (text ("SSH connectivity check failed: " ∷ env.error_text e ∷ []))
        (text ("Dry-run SSH connectivity check failed: " ∷ env.error_text e ∷ [])) "DryRunMode"
        "Bootstrap execution is skipped in dry-run mode"
    raise (temporary (text ("Dry-run SSH failed: " ∷ env.error_text e ∷ [])) 30)
  dry_run_ended address (ok _) =
      report env status generation
        (λ p. record (unready p) {
          bootstrap_diagnostics = some none;
          failure_reason = some none;
          failure_message = some none;
        })
        (λ now.
          machine_lifecycle_conditions now false "DryRunMode"
            "Dry-run mode does not provision infrastructure" false "DryRunMode"
            "Dry-run mode validates prerequisites without provisioning" false "DryRunMode"
            "Bootstrap execution is skipped in dry-run mode"
            (info_condition now "DryRunValidated" "PreflightPassed"
                (text ("Dry-run passed: SSH to " ∷ address ∷ ", bootstrap data ready" ∷ []))
              ∷ []))

  pub dry_run : Target → Exec Unit
  dry_run target = do
    result ← attempt (with_ssh target (pure tt))
    dry_run_ended target.address result
