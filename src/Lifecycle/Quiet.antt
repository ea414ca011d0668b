-- ===== src/Lifecycle/Quiet.antt =====
-- Of the deletion only the release of a cleaned host clears a claim.
use capi_provider_ssh.Base.{String, List, Option, none, some}
use capi_provider_ssh.Objects.{Meta, Condition, Binding, MachineSpec, MachineStatus}
use capi_provider_ssh.World.{Env}
use capi_provider_ssh.World.Trace.{Emits, emits_rules}
use capi_provider_ssh.World.Claims.{Quiet}
use capi_provider_ssh.Conditions.Quiet.{patch-Quiet}
use capi_provider_ssh.Contracts.Quiet.{persist-Quiet}
use capi_provider_ssh.Inventory.Quiet.{phase-Quiet, recover-Quiet}
use capi_provider_ssh.Operations.{HostLease}
use capi_provider_ssh.Operations.Quiet.{check-Quiet}
use capi_provider_ssh.Remote.Quiet.{current-Quiet, execute-Quiet}
use capi_provider_ssh.Reboot.Quiet.{reconcile-Quiet}
use capi_provider_ssh.Lifecycle.{
  stage_conditions, record_cleanup, blocked, quarantine, adopt, recovered, reset_host,
  retry_finalization, after_failure, wait_for_reboot, delete_paused,
}

module _ (env : Env) (spec : MachineSpec) (status : MachineStatus) (name namespace : String)
    (meta : Meta) (uid : String) where
  pub stage-Quiet :
      (updates : List Condition)
      → Emits Quiet (stage_conditions env spec status name namespace meta uid updates)
  unfolding stage_conditions
  stage-Quiet updates = patch-Quiet env status.conditions meta.generation updates

  pub record-Quiet :
      (phase reason message : String)
      → Emits Quiet (record_cleanup env spec status name namespace meta uid phase reason message)
  unfolding record_cleanup
  record-Quiet phase reason message = search (emits_rules, persist-Quiet) depth 10

  pub blocked-Quiet :
      {A : Type 0} (message : String)
      → Emits Quiet {A = A} (blocked env spec status name namespace meta uid message)
  unfolding blocked
  blocked-Quiet message = search (emits_rules, stage-Quiet)

  pub quarantine-Quiet :
      (binding : Option Binding) (reason : String)
      → Emits Quiet (quarantine env spec status name namespace meta uid binding reason)
  unfolding quarantine
  quarantine-Quiet none reason = search emits_rules
  quarantine-Quiet (some b) reason = search phase-Quiet

  adopt-Quiet :
      (found : Option Binding) → Emits Quiet (adopt env spec status name namespace meta uid found)
  unfolding adopt
  adopt-Quiet none = search emits_rules
  adopt-Quiet (some b) = search (emits_rules, blocked-Quiet, persist-Quiet)

  pub recovered-Quiet : Emits Quiet (recovered env spec status name namespace meta uid)
  unfolding recovered
  recovered-Quiet = search (emits_rules, recover-Quiet, adopt-Quiet)

  pub reset-Quiet :
      (lease : HostLease) → Emits Quiet (reset_host env spec status name namespace meta uid lease)
  unfolding reset_host
  reset-Quiet lease =
      search (emits_rules, current-Quiet, check-Quiet, execute-Quiet, record-Quiet) depth 12

  pub failure-Quiet : Emits Quiet (after_failure env spec status name namespace meta uid)
  unfolding after_failure retry_finalization
  failure-Quiet = search (emits_rules, quarantine-Quiet, record-Quiet) depth 12

  pub retry-Quiet : Emits Quiet (retry_finalization env spec status name namespace meta uid)
  unfolding retry_finalization
  retry-Quiet = search emits_rules

  pub wait-Quiet : Emits Quiet (wait_for_reboot env spec status name namespace meta uid)
  unfolding wait_for_reboot
  wait-Quiet = search (emits_rules, stage-Quiet, reconcile-Quiet)

  pub paused-Quiet : Emits Quiet (delete_paused env spec status name namespace meta uid)
  unfolding delete_paused
  paused-Quiet = search (emits_rules, stage-Quiet)
