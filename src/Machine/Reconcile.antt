-- ===== src/Machine/Reconcile.antt =====
-- capi_provider_ssh/controllers/sshmachine.py: _sshmachine_reconcile_impl and the handlers of an
-- SSHMachine's events.
pub mod Quiet
pub mod Ordered
pub mod DryRun
use capi_provider_ssh.Base.{
  ℕ, String, Bool, true, false, not, ◌&&◌, ◌||◌, List, [], ◌∷◌, Option, none, some, or_else,
  has_text, is_true, text_eq, if◌then◌else◌,
}
use capi_provider_ssh.Shell.{text}
use capi_provider_ssh.Objects.{Condition, Meta, OwnerRef, Binding, MachineSpec, MachineStatus}
use capi_provider_ssh.World.{Env, permanent, Exec, pure, raise, attempt, gets, ◌>>=◌, ◌>>◌, Patch}
use capi_provider_ssh.Conditions.{report_pause}
use capi_provider_ssh.Contracts.{is_paused}
use capi_provider_ssh.Allocation.{bind_machine}
use capi_provider_ssh.Reboot.{reconcile_reboot}
use capi_provider_ssh.Provision.{
  get_machine_owner_ref, machine_lifecycle_conditions, backfill_provisioned_fields,
}
use capi_provider_ssh.Lock.{LockSettings, serialized}
use capi_provider_ssh.Machine.{
  Strategy, check_none, check_ssh, Target, Payload, unready, unready_conditions, report, or_report,
  prepare, credentials, normalize_bootstrap_check_strategy, staged_address, staged_user,
  staged_key_ref,
}
use capi_provider_ssh.Machine.Job.{info_condition, session, session_ended, dry_run}

-- the condition of a skipped check
abbrev skipped : Strategy → (now : String) → List Condition
skipped check_ssh now = []
skipped check_none now =
    info_condition now "BootstrapCheckSkipped" "StrategyNone"
      "Post-bootstrap readiness checks skipped by spec.bootstrapCheckStrategy=none"
    ∷ []

abbrev success_message : Strategy → String
success_message check_ssh = "Bootstrap execution and readiness checks completed successfully"
success_message check_none =
    "Bootstrap execution completed; post-bootstrap readiness checks skipped (bootstrapCheckStrategy=none)"

-- the fields of a Machine that is provisioned
abbrev pub provisioned_patch : Target → Patch → Patch
provisioned_patch target p = record p {
  provider_id = some target.provider_id;
  provisioned = some true;
  ready = some true;
  internal_ip = some target.address;
  bootstrap_diagnostics = some none;
  failure_reason = some none;
  failure_message = some none;
}

abbrev provisioned_conditions : Strategy → Target → (now : String) → List Condition
provisioned_conditions strategy target now =
    let message : String =
      text
        ("Machine " ∷ target.address ∷ " provisioned with providerID " ∷ target.provider_id ∷ []) in
    machine_lifecycle_conditions now true "Provisioned" message true "Provisioned" message true
      "BootstrapCompleted" (success_message strategy) (skipped strategy now)

module _ (env : Env) (command_timeout : ℕ) (spec : MachineSpec) (status : MachineStatus)
    (name namespace : String) (meta : Meta) where
  abbrev uid : String
  uid = or_else meta.uid ""

  pub after_session : Strategy → Target → (finished : Bool) → Exec Unit
  after_session strategy target finished =
      if finished
      then report env status meta.generation (provisioned_patch target)
          (provisioned_conditions strategy target)
      else pure tt

  -- the dry run, or the bootstrap and its success
  pub connect_and_bootstrap : Strategy → Target → Binding → Payload → Exec Unit
  connect_and_bootstrap strategy target binding payload =
      if is_true spec.dry_run
      then dry_run env status meta.generation command_timeout target
      else (do
        result ← attempt (
            session env status meta.generation command_timeout target binding strategy namespace
              name uid payload)
        finished ← session_ended env status meta.generation command_timeout result
        after_session strategy target finished)

  -- everything that a bootstrap needs, and then the bootstrap
  pub bootstrap : Strategy → (machine_name : String) → Target → Binding → Exec Unit
  bootstrap strategy machine_name target binding = do
    payload ← prepare env status meta.generation spec namespace machine_name target.provider_id
    key_ref ← gets (λ s. staged_key_ref spec s.patch.connection)
    credentials env status meta.generation namespace key_ref binding.ssh_host_key_ref
    connect_and_bootstrap strategy target binding payload

  pub reconcile_target : Strategy → (machine_name : String) → Target → Binding → Exec Unit
  reconcile_target strategy machine_name target binding =
      if is_true status.provisioned
      then (do
        _ ←
            backfill_provisioned_fields env spec status target.provider_id target.address
              meta.generation
        pure tt)
      else bootstrap strategy machine_name target binding

  abbrev target_of : (address user : String) → Binding → Target
  target_of address user binding = record {
    address = address;
    port = binding.port;
    user = user;
    provider_id = text ("ssh://" ∷ address ∷ []);
  }

  -- the binding, and the address that is staged with it
  pub bind_and_reconcile : Strategy → (machine_name : String) → Exec Unit
  bind_and_reconcile strategy machine_name = do
    binding ← bind_machine env spec status name namespace uid
    address ← gets (λ s. staged_address spec s.patch.connection)
    user ← gets (λ s. staged_user spec s.patch.connection)
    if has_text address
        then reconcile_target strategy machine_name (target_of (or_else address "") user binding)
            binding
        else raise (permanent "address is not set after host selection")

  -- an SSHMachine that a Machine of CAPI owns
  pub reconcile_owned : OwnerRef → Exec Unit
  reconcile_owned machine_ref = do
    strategy ←
        or_report env status meta.generation "InvalidConfiguration"
          "Bootstrap has not started due to invalid bootstrapCheckStrategy configuration"
          (normalize_bootstrap_check_strategy spec)
    bind_and_reconcile strategy machine_ref.name

  -- the status of an SSHMachine without an owner
  pub wait_for_owner : Exec Unit
  wait_for_owner = report env status meta.generation unready (
      unready_conditions "WaitingForMachineOwner" "No CAPI Machine ownerReference found"
        "BootstrapNotStarted" "Bootstrap has not started because machine ownerReference is missing")

  pub reconcile_found : Option OwnerRef → Exec Unit
  reconcile_found none = wait_for_owner
  reconcile_found (some machine_ref) = reconcile_owned machine_ref

  -- `_sshmachine_reconcile_impl(spec, status, name, namespace, meta, patch)`
  pub reconcile_impl : Exec Unit
  reconcile_impl = do
    paused ←
        report_pause env status.conditions meta.generation
          (is_paused env spec.paused meta namespace)
    if paused || has_text meta.deletion_timestamp
        then pure tt
        else reconcile_found (get_machine_owner_ref meta.owner_references)

  -- the action of `sshmachine_reconcile` where the event is no deletion
  pub reconcile_action : Exec Unit
  reconcile_action = do
    reconcile_impl
    if has_text meta.deletion_timestamp
        then pure tt
        else reconcile_reboot env spec status name namespace meta false

module _ (env : Env) (settings : LockSettings) (command_timeout : ℕ) (namespace name : String) where
  -- `sshmachine_reconcile`, which the timer runs too
  pub sshmachine_reconcile : MachineSpec → MachineStatus → Meta → Exec Unit
  sshmachine_reconcile =
      serialized env settings namespace name
        (λ spec status meta. reconcile_action env command_timeout spec status name namespace meta)

  -- `sshmachine_reboot(old, new, ...)`
  pub sshmachine_reboot : (old new : Option String) → MachineSpec → MachineStatus → Meta → Exec Unit
  sshmachine_reboot old new spec status meta =
      if has_text new && not (text_eq new old)
      then sshmachine_reconcile spec status meta
      else pure tt
