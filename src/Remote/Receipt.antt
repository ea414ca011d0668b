-- ===== src/Remote/Receipt.antt =====
-- What the body of a connection leaves in the history stays there when the connection is closed.
use capi_provider_ssh.Base.{String, true, ◌≡◌}
use capi_provider_ssh.Objects.{Binding}
use capi_provider_ssh.World.{remote, Env, State, Exec, attempt, close_ssh}
use capi_provider_ssh.World.Trace.{Emits, emits_rules}
use capi_provider_ssh.World.Claims.{Anything, receipt_kept}
use capi_provider_ssh.World.Wp.{Wp, wp-bind, wp-attempt, wp-pure, wp-mono, wp-always, wp-with}
use capi_provider_ssh.Contracts.Receipt.{Receipt, Anyhow}
use capi_provider_ssh.Remote.{close_connection, confirmed, connected}

module _ (env : Env) where
  close-Emits : Emits Anything (attempt (remote env.unit close_ssh))
  close-Emits = search emits_rules

  close_keeps :
      (s : State)
      → Receipt s
      → Wp (attempt (remote env.unit close_ssh)) s (λ _ s'. Receipt s') (λ _ s'. Receipt s')
  close_keeps s r =
      wp-mono _ s
        (wp-with Receipt _ s (wp-always {Q = λ _ _. Unit} {E = Anyhow} _ s (λ _ _. tt) (λ _ _. tt))
          (receipt_kept _ s close-Emits r))
        (λ _ _ q. q.1) (λ _ _ q. q.1)

  pub connected-wp :
      (binding : Binding) (namespace : String) (body : Exec Unit) (s : State)
      → ((t : State) → Wp body t (λ _ s'. Receipt s') Anyhow)
      → Wp
          (connected env binding namespace body)
          s
          (λ both s'. confirmed both.0 ≡ true → Receipt s')
          Anyhow
  unfolding connected close_connection
  connected-wp binding namespace body s h = wp-bind _ _ _ (
      wp-always _ _
        (λ _ t. wp-bind _ _ _ (
          wp-attempt _ _ (
            wp-mono _ _ (h t)
              (λ a u r.
                wp-bind _ _ _
                  (wp-mono _ _ (close_keeps u r) (λ _ v r. wp-pure _ v (λ _. r)) (λ _ _ _. tt)))
              (λ e u _. wp-bind _ _ _ (wp-always _ _ (λ _ v. wp-pure _ v (λ h. cc)) (λ _ _. tt))))))
        (λ _ _. tt))
