-- ===== src/Provision/Quiet.antt =====
-- The ownership record clears no claim, and the provisioned fields need no request.
use capi_provider_ssh.Base.{ℕ, String, Option}
use capi_provider_ssh.Objects.{Binding, MachineSpec, MachineStatus}
use capi_provider_ssh.World.{Env, SshResult}
use capi_provider_ssh.World.Trace.{Emits, emits_rules}
use capi_provider_ssh.World.Claims.{Local, Quiet}
use capi_provider_ssh.Conditions.Local.{patch-Local}
use capi_provider_ssh.Contracts.Quiet.{persist-Quiet}
use capi_provider_ssh.Inventory.Quiet.{phase-Quiet}
use capi_provider_ssh.Provision.{
  backfill_provisioned_fields, claim_result, ensure_bootstrap_ownership,
}

module _ (env : Env) where
  pub backfill-Local :
      (spec : MachineSpec) (status : MachineStatus) (provider_id address : String)
      (generation : Option ℕ)
      → Emits Local (backfill_provisioned_fields env spec status provider_id address generation)
  unfolding backfill_provisioned_fields
  backfill-Local spec status provider_id address generation =
      search (emits_rules, patch-Local) depth 10

  pub claim-Quiet :
      (binding : Binding) (uid namespace name : String) (result : SshResult)
      → Emits Quiet (claim_result env binding uid namespace name result)
  unfolding claim_result
  claim-Quiet binding uid namespace name result = search (emits_rules, phase-Quiet) depth 9

  pub ownership-Quiet :
      (binding : Binding) (uid namespace name : String) (status : MachineStatus)
      → Emits Quiet (ensure_bootstrap_ownership env binding uid namespace name status)
  unfolding ensure_bootstrap_ownership
  ownership-Quiet binding uid namespace name status =
      search (emits_rules, persist-Quiet, claim-Quiet) depth 12
