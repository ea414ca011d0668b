-- ===== src/Inventory/Quiet.antt =====
-- Of the inventory only the release clears a claim.
use capi_provider_ssh.Base.{String}
use capi_provider_ssh.Objects.{Binding}
use capi_provider_ssh.World.{Env}
use capi_provider_ssh.World.Trace.{Emits, Emits-mono, emits_rules}
use capi_provider_ssh.World.Claims.{Quiet, Quiet-Local, Anything}
use capi_provider_ssh.Inventory.{
  set_host_phase, recover_unstarted_claim, release_host, release_ref, release_claim, patch_phase,
  patch_claim,
}
use capi_provider_ssh.Inventory.Local.{phase-Local, recover-Local}

module _ (env : Env) where
  pub phase-Quiet :
      (binding : Binding) (name namespace uid phase reason : String)
      → Emits Quiet (set_host_phase env binding name namespace uid phase reason)
  phase-Quiet binding name namespace uid phase reason =
      Emits-mono Quiet-Local (phase-Local env binding name namespace uid phase reason)

  pub recover-Quiet :
      (name namespace uid : String) → Emits Quiet (recover_unstarted_claim env name namespace uid)
  recover-Quiet name namespace uid = Emits-mono Quiet-Local (recover-Local env name namespace uid)

  pub release-Emits :
      (binding : Binding) (name namespace uid : String)
      → Emits Anything (release_host env binding name namespace uid)
  unfolding release_host release_ref release_claim patch_phase patch_claim
  release-Emits binding name namespace uid = search emits_rules depth 14
