-- ===== src/Operations/Quiet.antt =====
-- The Lease clears no claim.
use capi_provider_ssh.Base.{String}
use capi_provider_ssh.Objects.{Binding}
use capi_provider_ssh.World.{Env, Exec}
use capi_provider_ssh.World.Trace.{Emits, Emits-mono}
use capi_provider_ssh.World.Claims.{Quiet, Quiet-Local}
use capi_provider_ssh.Operations.{HostLease, check_lease, release_lease, host_operation}
use capi_provider_ssh.Operations.Local.{check-Local, release-Local, operation-Emits}

module _ (env : Env) where
  pub check-Quiet : (lease : HostLease) → Emits Quiet (check_lease env lease)
  check-Quiet lease = Emits-mono Quiet-Local (check-Local env lease)

  pub release-Quiet : (lease : HostLease) → Emits Quiet (release_lease env lease)
  release-Quiet lease = Emits-mono Quiet-Local (release-Local env lease)

  pub operation-Quiet :
      {A : Type 0} (binding : Binding) (uid : String) (body : HostLease → Exec A)
      → ((lease : HostLease) → Emits Quiet (body lease))
      → Emits Quiet (host_operation env binding uid body)
  operation-Quiet binding uid body h = operation-Emits env binding uid body Quiet-Local h
