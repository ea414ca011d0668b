-- ===== src/Remote/Quiet.antt =====
-- The connection and the remote commands clear no claim.
use capi_provider_ssh.Base.{String, Bool}
use capi_provider_ssh.Objects.{Binding}
use capi_provider_ssh.World.{Env, Exec}
use capi_provider_ssh.World.Trace.{Emits, Emits-mono, emits_rules}
use capi_provider_ssh.World.Claims.{Quiet, Quiet-Local}
use capi_provider_ssh.Remote.{check_current, execute_owned, connected, with_connection}
use capi_provider_ssh.Remote.Local.{current-Local, connected-Emits, with-Emits}

module _ (env : Env) where
  pub current-Quiet :
      (namespace name uid : String) → Emits Quiet (check_current env namespace name uid)
  current-Quiet namespace name uid = Emits-mono Quiet-Local (current-Local env namespace name uid)

  pub execute-Quiet :
      (uid command : String) (retry : Bool) → Emits Quiet (execute_owned env uid command retry)
  unfolding execute_owned
  execute-Quiet uid command retry = search emits_rules

  pub connected-Quiet :
      {A : Type 0} (binding : Binding) (namespace : String) (body : Exec A)
      → Emits Quiet body
      → Emits Quiet (connected env binding namespace body)
  connected-Quiet binding namespace body = connected-Emits env binding namespace body Quiet-Local

  pub with-Quiet :
      {A : Type 0} (binding : Binding) (namespace : String) (body : Exec A)
      → Emits Quiet body
      → Emits Quiet (with_connection env binding namespace body)
  with-Quiet binding namespace body = with-Emits env binding namespace body Quiet-Local
