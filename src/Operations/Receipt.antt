-- ===== src/Operations/Receipt.antt =====
-- What a host operation's body leaves in the history stays there.
use capi_provider_ssh.Base.{String, Bool, true, ◌≡◌, refl}
use capi_provider_ssh.Objects.{Binding}
use capi_provider_ssh.World.{Env, Error, ok, err, State, Exec, attempt}
use capi_provider_ssh.World.Claims.{has_receipt, receipt_kept}
use capi_provider_ssh.World.Wp.{
  Wp, wp-bind, wp-lift, wp-lift_ok, wp-lift_err, wp-attempt, wp-mono, wp-always, wp-with,
}
use capi_provider_ssh.Operations.{HostLease, release_lease, host_operation}
use capi_provider_ssh.Operations.Quiet.{release-Quiet}

module _ (env : Env) {A : Type 0} (flag : A → Bool) where
  abbrev Flagged : A → State → Type 0
  Flagged a s = flag a ≡ true → has_receipt s.trace ≡ true

  abbrev Anyway : Error → State → Type 0
  Anyway e s = Unit

  operation_end :
      (lease : HostLease) (a : A) (s : State)
      → Flagged a s
      → Wp (attempt (release_lease env lease)) s (λ _ s'. Flagged a s') Anyway
  operation_end lease a s h = wp-attempt _ s (
      wp-mono _ s
        (wp-with (Flagged a) _ s
          (wp-always {Q = λ _ _. Unit} {E = Anyway} _ s (λ _ _. tt) (λ _ _. tt))
          (λ f. receipt_kept _ s (release-Quiet env lease) (h f)))
        (λ _ _ q. q.1) (λ _ _ q. q.1))

  pub operation-wp :
      (binding : Binding) (uid : String) (body : HostLease → Exec A) (s : State)
      → ((lease : HostLease) (t : State) → Wp (body lease) t Flagged Anyway)
      → Wp (host_operation env binding uid body) s Flagged Anyway
  unfolding host_operation
  operation-wp binding uid body s h = wp-bind _ _ _ (
      wp-always _ _
        (λ lease t. wp-bind _ _ _ (
          wp-always _ _
            (λ reply t. wp-bind _ _ _ (
              wp-lift _ _
                (λ _ _. wp-bind _ _ _ (
                  wp-attempt _ _ (
                    wp-mono _ _ (h lease t)
                      (λ a t f. wp-bind _ _ _ (
                        wp-mono _ _ (operation_end lease a t f)
                          (λ _ u g. wp-lift_ok (ok a) a u refl g) (λ _ _ _. tt)))
                      (λ e t _.
                        wp-bind _ _ _
                          (wp-always _ _ (λ _ u. wp-lift_err (err e) e u refl tt) (λ _ _. tt))))))
                (λ _ _. tt)))
            (λ _ _. tt)))
        (λ _ _. tt))
