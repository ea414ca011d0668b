-- ===== src/Machine/Reconcile/Quiet.antt =====
-- The handler of an SSHMachine's creation and update, with the reconcile lock, clears no claim.
use capi_provider_ssh.Base.{ℕ, String, Bool, Option, none, some}
use capi_provider_ssh.Objects.{SecretRef, Binding, OwnerRef, Meta, MachineSpec, MachineStatus}
use capi_provider_ssh.World.{Env, Outcome}
use capi_provider_ssh.World.Trace.{Emits, Emits-mono, emits_rules}
use capi_provider_ssh.World.Claims.{Local, Quiet, Quiet-Local}
use capi_provider_ssh.Conditions.Quiet.{report-Quiet}
use capi_provider_ssh.Contracts.Quiet.{is_paused-Quiet}
use capi_provider_ssh.Allocation.Quiet.{bind-Quiet}
use capi_provider_ssh.Reboot.Quiet.{reconcile-Quiet}
use capi_provider_ssh.Provision.Quiet.{backfill-Local}
use capi_provider_ssh.Lock.{LockSettings}
use capi_provider_ssh.Lock.Quiet.{serialized-Quiet}
use capi_provider_ssh.Provision.{backfill_provisioned_fields}
use capi_provider_ssh.Machine.{Strategy, Target, Payload, or_report, prepare, credentials}
use capi_provider_ssh.Machine.Job.{session_ended, dry_run}
use capi_provider_ssh.Machine.Local.{
  report-Local, or_report-Local, prepare-Local, credentials-Local,
}
use capi_provider_ssh.Machine.Job.Quiet.{session-Quiet, ended-Local, dry_run-Local}
use capi_provider_ssh.Machine.Reconcile.{
  after_session, connect_and_bootstrap, bootstrap, reconcile_target, bind_and_reconcile,
  reconcile_owned, wait_for_owner, reconcile_found, reconcile_impl, reconcile_action,
  sshmachine_reconcile,
}

module _ (env : Env) (command_timeout : ℕ) (spec : MachineSpec) (status : MachineStatus)
    (name namespace : String) (meta : Meta) where
  pub after-Local :
      (strategy : Strategy) (target : Target) (finished : Bool)
      → Emits Local (
          after_session env command_timeout spec status name namespace meta strategy target
            finished)
  unfolding after_session
  after-Local strategy target finished = search (emits_rules, report-Local)

  pub wait-Local : Emits Local (wait_for_owner env command_timeout spec status name namespace meta)
  unfolding wait_for_owner
  wait-Local = search report-Local

  end-Quiet :
      (o : Outcome Bool) → Emits Quiet (session_ended env status meta.generation command_timeout o)
  end-Quiet o = Emits-mono Quiet-Local (ended-Local env status meta.generation command_timeout o)

  after-Quiet :
      (strategy : Strategy) (target : Target) (finished : Bool)
      → Emits Quiet (
          after_session env command_timeout spec status name namespace meta strategy target
            finished)
  after-Quiet strategy target finished =
      Emits-mono Quiet-Local (after-Local strategy target finished)

  dry-Quiet :
      (target : Target) → Emits Quiet (dry_run env status meta.generation command_timeout target)
  dry-Quiet target =
      Emits-mono Quiet-Local (dry_run-Local env status meta.generation command_timeout target)

  connect-Quiet :
      (strategy : Strategy) (target : Target) (binding : Binding) (payload : Payload)
      → Emits Quiet (
          connect_and_bootstrap env command_timeout spec status name namespace meta strategy target
            binding payload)
  unfolding connect_and_bootstrap
  connect-Quiet strategy target binding payload =
      search (emits_rules, dry-Quiet, session-Quiet, end-Quiet, after-Quiet) depth 10

  prepare-Quiet :
      (machine_name provider_id : String)
      → Emits Quiet (prepare env status meta.generation spec namespace machine_name provider_id)
  prepare-Quiet machine_name provider_id =
      Emits-mono Quiet-Local
        (prepare-Local env status meta.generation spec namespace machine_name provider_id)

  credentials-Quiet :
      (key_ref trust : SecretRef)
      → Emits Quiet (credentials env status meta.generation namespace key_ref trust)
  credentials-Quiet key_ref trust =
      Emits-mono Quiet-Local (credentials-Local env status meta.generation namespace key_ref trust)

  bootstrap-Quiet :
      (strategy : Strategy) (machine_name : String) (target : Target) (binding : Binding)
      → Emits Quiet (
          bootstrap env command_timeout spec status name namespace meta strategy machine_name target
            binding)
  unfolding bootstrap
  bootstrap-Quiet strategy machine_name target binding =
      search (emits_rules, prepare-Quiet, credentials-Quiet, connect-Quiet) depth 10

  backfill-Quiet :
      (provider_id address : String)
      → Emits Quiet
          (backfill_provisioned_fields env spec status provider_id address meta.generation)
  backfill-Quiet provider_id address =
      Emits-mono Quiet-Local (backfill-Local env spec status provider_id address meta.generation)

  target-Quiet :
      (strategy : Strategy) (machine_name : String) (target : Target) (binding : Binding)
      → Emits Quiet (
          reconcile_target env command_timeout spec status name namespace meta strategy machine_name
            target binding)
  unfolding reconcile_target
  target-Quiet strategy machine_name target binding =
      search (emits_rules, backfill-Quiet, bootstrap-Quiet) depth 9

  bind_and-Quiet :
      (strategy : Strategy) (machine_name : String)
      → Emits Quiet (
          bind_and_reconcile env command_timeout spec status name namespace meta strategy
            machine_name)
  unfolding bind_and_reconcile
  bind_and-Quiet strategy machine_name = search (emits_rules, bind-Quiet, target-Quiet) depth 12

  strategy-Quiet :
      (o : Outcome Strategy)
      → Emits Quiet (
          or_report env status meta.generation "InvalidConfiguration"
            "Bootstrap has not started due to invalid bootstrapCheckStrategy configuration" o)
  strategy-Quiet o = Emits-mono Quiet-Local (or_report-Local env status meta.generation _ _ o)

  found-Quiet :
      (owner : Option OwnerRef)
      → Emits Quiet (reconcile_found env command_timeout spec status name namespace meta owner)
  unfolding reconcile_found reconcile_owned
  found-Quiet none = Emits-mono Quiet-Local wait-Local
  found-Quiet (some ref) = search (emits_rules, strategy-Quiet, bind_and-Quiet) depth 9

  impl-Quiet : Emits Quiet (reconcile_impl env command_timeout spec status name namespace meta)
  unfolding reconcile_impl
  impl-Quiet = search (emits_rules, report-Quiet, is_paused-Quiet, found-Quiet) depth 10

  pub action-Quiet :
      Emits Quiet (reconcile_action env command_timeout spec status name namespace meta)
  unfolding reconcile_action
  action-Quiet = search (emits_rules, impl-Quiet, reconcile-Quiet) depth 9

-- Whatever the API server, SSH and the clock answer, the handler of an SSHMachine's creation and
-- update makes no request to clear a host's claim: it allocates, bootstraps and reboots under the
-- reconcile lock, and leaves every claim to the deletion.
pub sshmachine_reconcile-Quiet :
    (env : Env) (settings : LockSettings) (command_timeout : ℕ) (namespace name : String)
    (spec : MachineSpec) (status : MachineStatus) (meta : Meta)
    → Emits Quiet
        (sshmachine_reconcile env settings command_timeout namespace name spec status meta)
unfolding sshmachine_reconcile
sshmachine_reconcile-Quiet env settings command_timeout namespace name spec status meta =
    serialized-Quiet env settings namespace name _
      (λ spec' status' meta'. action-Quiet env command_timeout spec' status' name namespace meta')
      spec status meta
