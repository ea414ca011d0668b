-- ===== src/Reboot/Quiet.antt =====
-- The reboot clears no claim.
use capi_provider_ssh.Base.{String, Bool, Option}
use capi_provider_ssh.Objects.{Meta, Reboot, MachineSpec, MachineStatus}
use capi_provider_ssh.World.{Env, Outcome, ok, err, SshResult}
use capi_provider_ssh.World.Trace.{Emits, emits_rules}
use capi_provider_ssh.World.Claims.{Quiet}
use capi_provider_ssh.Contracts.Quiet.{is_paused-Quiet, persist-Quiet}
use capi_provider_ssh.Operations.{HostLease}
use capi_provider_ssh.Operations.Quiet.{operation-Quiet, check-Quiet}
use capi_provider_ssh.Remote.Quiet.{current-Quiet, execute-Quiet, with-Quiet}
use capi_provider_ssh.Allocation.Quiet.{bind-Quiet}
use capi_provider_ssh.Reboot.{
  write_reboot, observe_boot, still_waiting, record_submission, submit_reboot, resolve_pending,
  reboot_operation, reboot_requested, reconcile_reboot,
}

module _ (env : Env) (namespace name uid : String) where
  write-Quiet : (state : Reboot) → Emits Quiet (write_reboot env namespace name uid state)
  unfolding write_reboot
  write-Quiet state = search (emits_rules, persist-Quiet)

  waiting-Quiet : (state : Reboot) → Emits Quiet (still_waiting env namespace name uid state)
  unfolding still_waiting
  waiting-Quiet state = search (emits_rules, write-Quiet) depth 9

  record-Quiet :
      (state : Reboot) (o : Outcome SshResult)
      → Emits Quiet (record_submission env namespace name uid state o)
  unfolding record_submission
  record-Quiet state (ok r) = search (emits_rules, write-Quiet)
  record-Quiet state (err e) = search (emits_rules, write-Quiet)

  submit-Quiet :
      (requested boot_id : String) (lease : HostLease)
      → Emits Quiet (submit_reboot env namespace name uid requested boot_id lease)
  unfolding submit_reboot
  submit-Quiet requested boot_id lease =
      search (emits_rules, write-Quiet, check-Quiet, execute-Quiet, record-Quiet) depth 10

  observe-Quiet : Emits Quiet (observe_boot env uid)
  unfolding observe_boot
  observe-Quiet = search (emits_rules, execute-Quiet) depth 9

  resolve-Quiet :
      (boot_id : String) (previous : Reboot) (same : Bool)
      → Emits Quiet (resolve_pending env namespace name uid boot_id previous same)
  unfolding resolve_pending
  resolve-Quiet boot_id previous same = search (emits_rules, write-Quiet, waiting-Quiet) depth 9

  body-Quiet :
      (requested : String) (previous : Option Reboot) (observe_only : Bool) (lease : HostLease)
      → Emits Quiet (reboot_operation env namespace name uid requested previous observe_only lease)
  unfolding reboot_operation
  body-Quiet requested previous observe_only lease =
      search (emits_rules, current-Quiet, check-Quiet, observe-Quiet, resolve-Quiet, submit-Quiet)
        depth 12

module _ (env : Env) where
  requested-Quiet :
      (spec : MachineSpec) (status : MachineStatus) (name namespace uid requested : String)
      (observe_only : Bool)
      → Emits Quiet (reboot_requested env spec status name namespace uid requested observe_only)
  unfolding reboot_requested
  requested-Quiet spec status name namespace uid requested observe_only =
      search (emits_rules, bind-Quiet, operation-Quiet, with-Quiet, body-Quiet) depth 12

  pub reconcile-Quiet :
      (spec : MachineSpec) (status : MachineStatus) (name namespace : String) (meta : Meta)
      (observe_only : Bool)
      → Emits Quiet (reconcile_reboot env spec status name namespace meta observe_only)
  unfolding reconcile_reboot
  reconcile-Quiet spec status name namespace meta observe_only =
      search (emits_rules, is_paused-Quiet, requested-Quiet) depth 10
