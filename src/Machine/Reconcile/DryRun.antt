-- ===== src/Machine/Reconcile/DryRun.antt =====
-- A dry run does nothing on a host.
use capi_provider_ssh.Base.{ℕ, String, true, ◌≡◌, Option, none, some, is_true}
use capi_provider_ssh.Objects.{Binding, OwnerRef, Meta, MachineSpec, MachineStatus}
use capi_provider_ssh.World.{Env}
use capi_provider_ssh.World.Trace.{Emits, emits_rules}
use capi_provider_ssh.World.Claims.{Local}
use capi_provider_ssh.Conditions.{report_pause}
use capi_provider_ssh.Contracts.{is_paused}
use capi_provider_ssh.Conditions.Local.{report-Emits}
use capi_provider_ssh.Contracts.Local.{is_paused-Local}
use capi_provider_ssh.Allocation.Local.{bind-Local}
use capi_provider_ssh.Provision.Quiet.{backfill-Local}
use capi_provider_ssh.Machine.{Strategy, Target, Payload}
use capi_provider_ssh.Machine.Local.{or_report-Local, prepare-Local, credentials-Local}
use capi_provider_ssh.Machine.Job.Quiet.{dry_run-Local}
use capi_provider_ssh.Machine.Reconcile.{
  connect_and_bootstrap, bootstrap, reconcile_target, bind_and_reconcile, reconcile_owned,
  reconcile_found, reconcile_impl,
}
use capi_provider_ssh.Machine.Reconcile.Quiet.{wait-Local}

module _ (env : Env) (command_timeout : ℕ) (spec : MachineSpec) (status : MachineStatus)
    (name namespace : String) (meta : Meta) (dry : is_true spec.dry_run ≡ true) where
  connect-Local :
      (strategy : Strategy) (target : Target) (binding : Binding) (payload : Payload)
      → Emits Local (
          connect_and_bootstrap env command_timeout spec status name namespace meta strategy target
            binding payload)
  unfolding connect_and_bootstrap
  connect-Local strategy target binding payload =
      rw dry (dry_run-Local env status meta.generation command_timeout target)

  bootstrap-Local :
      (strategy : Strategy) (machine_name : String) (target : Target) (binding : Binding)
      → Emits Local (
          bootstrap env command_timeout spec status name namespace meta strategy machine_name target
            binding)
  unfolding bootstrap
  bootstrap-Local strategy machine_name target binding =
      search (emits_rules, prepare-Local, credentials-Local, connect-Local) depth 10

  target-Local :
      (strategy : Strategy) (machine_name : String) (target : Target) (binding : Binding)
      → Emits Local (
          reconcile_target env command_timeout spec status name namespace meta strategy machine_name
            target binding)
  unfolding reconcile_target
  target-Local strategy machine_name target binding =
      search (emits_rules, backfill-Local, bootstrap-Local) depth 9

  bind_and-Local :
      (strategy : Strategy) (machine_name : String)
      → Emits Local (
          bind_and_reconcile env command_timeout spec status name namespace meta strategy
            machine_name)
  unfolding bind_and_reconcile
  bind_and-Local strategy machine_name = search (emits_rules, bind-Local, target-Local) depth 12

  found-Local :
      (owner : Option OwnerRef)
      → Emits Local (reconcile_found env command_timeout spec status name namespace meta owner)
  unfolding reconcile_found reconcile_owned
  found-Local none = wait-Local env command_timeout spec status name namespace meta
  found-Local (some ref) = search (emits_rules, or_report-Local, bind_and-Local) depth 9

  pause-Local : Emits Local (
      report_pause env status.conditions meta.generation (is_paused env spec.paused meta namespace))
  pause-Local =
      report-Emits env status.conditions meta.generation _ (λ _ l. l)
        (is_paused-Local env spec.paused meta namespace)

  -- With `dryRun` set, the reconciliation executes no command on a host, uploads nothing and clears
  -- no claim, whatever the API server and SSH answer.
  pub reconcile_impl-Local :
      Emits Local (reconcile_impl env command_timeout spec status name namespace meta)
  unfolding reconcile_impl
  reconcile_impl-Local = search (emits_rules, pause-Local, found-Local) depth 9
