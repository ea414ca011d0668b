-- ===== src/Contracts/Quiet.antt =====
-- The pause check, the status write and the trust Secret clear no claim.
use capi_provider_ssh.Base.{String, Bool, Option}
use capi_provider_ssh.Objects.{Meta, SecretRef}
use capi_provider_ssh.World.{Env, Changes}
use capi_provider_ssh.World.Trace.{Emits, Emits-mono}
use capi_provider_ssh.World.Claims.{Quiet, Quiet-Local}
use capi_provider_ssh.Contracts.{is_paused, persist_machine_status, read_known_hosts}
use capi_provider_ssh.Contracts.Local.{is_paused-Local, persist-Local, known_hosts-Local}

module _ (env : Env) where
  pub is_paused-Quiet :
      (paused : Option Bool) (meta : Meta) (namespace : String)
      → Emits Quiet (is_paused env paused meta namespace)
  is_paused-Quiet paused meta namespace =
      Emits-mono Quiet-Local (is_paused-Local env paused meta namespace)

  pub persist-Quiet :
      (namespace name uid : String) (changes : Changes)
      → Emits Quiet (persist_machine_status env namespace name uid changes)
  persist-Quiet namespace name uid changes =
      Emits-mono Quiet-Local (persist-Local env namespace name uid changes)

  pub known_hosts-Quiet :
      (namespace : String) (ref : SecretRef) → Emits Quiet (read_known_hosts env namespace ref)
  known_hosts-Quiet namespace ref = Emits-mono Quiet-Local (known_hosts-Local env namespace ref)
