-- ===== src/Remote/Local.antt =====
-- The connection and the check of the live object do nothing on the host.
use capi_provider_ssh.Base.{String}
use capi_provider_ssh.Objects.{Binding}
use capi_provider_ssh.World.{Env, Event, Exec}
use capi_provider_ssh.World.Trace.{
  Emits, Emits-mono, Emits-bind, Emits-attempt, Emits-lift, Emits-pure, emits_rules,
}
use capi_provider_ssh.World.Claims.{Local}
use capi_provider_ssh.Contracts.Local.{is_paused-Local, known_hosts-Local}
use capi_provider_ssh.Remote.{connect, check_current, close_connection, connected, with_connection}

module _ (env : Env) where
  connect-Local :
      (binding : Binding) (namespace : String) → Emits Local (connect env binding namespace)
  unfolding connect
  connect-Local binding namespace = search (emits_rules, known_hosts-Local) depth 12

  pub current-Local :
      (namespace name uid : String) → Emits Local (check_current env namespace name uid)
  unfolding check_current
  current-Local namespace name uid = search (emits_rules, is_paused-Local) depth 9

  close-Local : Emits Local (close_connection env)
  unfolding close_connection
  close-Local = search emits_rules

  pub connected-Emits :
      {φ : Event → Type 0} {A : Type 0} (binding : Binding) (namespace : String) (body : Exec A)
      → ((e : Event) → Local e → φ e)
      → Emits φ body
      → Emits φ (connected env binding namespace body)
  unfolding connected
  connected-Emits binding namespace body weaker h =
      Emits-bind _ _ (Emits-mono weaker (connect-Local binding namespace)) λ _.
        Emits-bind _ _ (Emits-attempt _ h) λ result.
          Emits-bind _ _ (Emits-attempt _ (Emits-mono weaker close-Local)) λ closed. Emits-pure _

  pub with-Emits :
      {φ : Event → Type 0} {A : Type 0} (binding : Binding) (namespace : String) (body : Exec A)
      → ((e : Event) → Local e → φ e)
      → Emits φ body
      → Emits φ (with_connection env binding namespace body)
  unfolding with_connection
  with-Emits binding namespace body weaker h =
      Emits-bind _ _ (connected-Emits binding namespace body weaker h) λ both. Emits-lift _
