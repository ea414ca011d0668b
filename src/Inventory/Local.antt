-- ===== src/Inventory/Local.antt =====
-- Of the inventory only the release clears a claim.
use capi_provider_ssh.Base.{String, some, List, [], ◌∷◌}
use capi_provider_ssh.Objects.{ConsumerRef, Host, Binding}
use capi_provider_ssh.World.{Env}
use capi_provider_ssh.World.Trace.{Emits, emits_rules}
use capi_provider_ssh.World.Claims.{Local}
use capi_provider_ssh.Inventory.{
  set_host_phase, set_phase_of, patch_phase, patch_claim, sole_claim, recover_unstarted_claim,
}

module _ (env : Env) where
  pub phase-Local :
      (binding : Binding) (name namespace uid phase reason : String)
      → Emits Local (set_host_phase env binding name namespace uid phase reason)
  unfolding set_host_phase set_phase_of patch_phase
  phase-Local binding name namespace uid phase reason = search emits_rules depth 12

  pub claim-Local :
      (host : Host) (namespace : String) (ref : ConsumerRef)
      → Emits Local (patch_claim env host namespace (some ref))
  unfolding patch_claim
  claim-Local host namespace ref = search emits_rules

  sole-Local :
      (namespace uid : String) (hosts : List Host)
      → Emits Local (sole_claim env namespace uid hosts)
  unfolding sole_claim
  sole-Local namespace uid [] = search emits_rules
  sole-Local namespace uid (h ∷ []) = search emits_rules
  sole-Local namespace uid (h ∷ k ∷ hs) = search emits_rules

  pub recover-Local :
      (name namespace uid : String) → Emits Local (recover_unstarted_claim env name namespace uid)
  unfolding recover_unstarted_claim
  recover-Local name namespace uid = search (emits_rules, sole-Local)
