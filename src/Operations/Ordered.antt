-- ===== src/Operations/Ordered.antt =====
-- A host operation does no work on the host beside its body.
use capi_provider_ssh.Base.{String}
use capi_provider_ssh.Objects.{Binding}
use capi_provider_ssh.World.{Env, Exec}
use capi_provider_ssh.World.Claims.{is_remote}
use capi_provider_ssh.World.Order.{Keeps-bind, Keeps-attempt}
use capi_provider_ssh.World.Remote.{Keeps, Keeps-Local, is_ownership}
use capi_provider_ssh.World.Trace.{Emits-attempt, Emits-lift}
use capi_provider_ssh.Operations.{HostLease, acquired, host_operation}
use capi_provider_ssh.Operations.Local.{new-Local, acquire-Local, release-Local}

pub operation-Keeps :
    (env : Env) (owner : String) {A : Type 0} (binding : Binding) (uid : String)
    (body : HostLease → Exec A)
    → ((lease : HostLease) → Keeps owner (body lease))
    → Keeps owner (host_operation env binding uid body)
unfolding host_operation
operation-Keeps env owner binding uid body h =
    Keeps-bind is_remote (is_ownership owner) _ _ (Keeps-Local owner (new-Local env binding uid))
      λ lease.
        Keeps-bind is_remote (is_ownership owner) _ _
          (Keeps-Local owner (Emits-attempt _ (acquire-Local env lease)))
          λ reply.
            Keeps-bind is_remote (is_ownership owner) _ _
              (Keeps-Local owner (Emits-lift (acquired env reply)))
              λ _.
                Keeps-bind is_remote (is_ownership owner) _ _
                  (Keeps-attempt is_remote (is_ownership owner) _ (h lease))
                  λ result.
                    Keeps-bind is_remote (is_ownership owner) _ _
                      (Keeps-Local owner (Emits-attempt _ (release-Local env lease)))
                      λ _. Keeps-Local owner (Emits-lift result)
