-- ===== src/Bootstrap/Quiet.antt =====
-- The bootstrap job clears no claim.
use capi_provider_ssh.Base.{ℕ, zero, suc, String, Option, none, some}
use capi_provider_ssh.World.{Env, Exec, SshResult}
use capi_provider_ssh.World.Trace.{Emits, emits_rules}
use capi_provider_ssh.World.Claims.{Quiet}
use capi_provider_ssh.Bootstrap.{
  observe_turn, observe_again, observe_before, observe_until, durable_bootstrap,
}

module _ (env : Env) where
  again-Quiet :
      (next : Exec SshResult) (found : Option SshResult)
      → Emits Quiet next
      → Emits Quiet (observe_again env next found)
  unfolding observe_again
  again-Quiet next none h = search emits_rules
  again-Quiet next (some result) h = search emits_rules

  before-Quiet :
      (uid : String) (deadline : ℕ) (next : Exec SshResult)
      → Emits Quiet next
      → Emits Quiet (observe_before env uid deadline next)
  unfolding observe_before observe_turn
  before-Quiet uid deadline next h = search (emits_rules, again-Quiet) depth 10

  until-Quiet :
      (uid : String) (deadline turns : ℕ) → Emits Quiet (observe_until env uid deadline turns)
  unfolding observe_until
  until-Quiet uid deadline zero = search emits_rules
  until-Quiet uid deadline (suc turns) =
      before-Quiet uid deadline (observe_until env uid deadline turns)
        (until-Quiet uid deadline turns)

  pub durable-Quiet :
      (uid path command : String) (timeout : ℕ)
      → Emits Quiet (durable_bootstrap env uid path command timeout)
  unfolding durable_bootstrap
  durable-Quiet uid path command timeout = search (emits_rules, until-Quiet) depth 12
