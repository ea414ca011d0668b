-- ===== src/Operations/Local.antt =====
-- The Lease, the connection and the remote commands clear no claim.
use capi_provider_ssh.Base.{ℕ, String, Option, none, some}
use capi_provider_ssh.Objects.{Binding}
use capi_provider_ssh.World.{Event, Env, Exec, Lease}
use capi_provider_ssh.World.Trace.{
  Emits, Emits-mono, Emits-bind, Emits-attempt, Emits-lift, emits_rules,
}
use capi_provider_ssh.World.Claims.{Local}
use capi_provider_ssh.Operations.{
  HostLease, new_lease, write_lease, acquire_over, acquire, renew, check_lease, release_lease,
  acquired, host_operation,
}

module _ (env : Env) where
  write-Local :
      (lease : HostLease) (now : ℕ) (c : Option Lease) → Emits Local (write_lease env lease now c)
  unfolding write_lease
  write-Local lease now none = search emits_rules
  write-Local lease now (some c) = search emits_rules

  pub acquire-Local : (lease : HostLease) → Emits Local (acquire env lease)
  unfolding acquire acquire_over
  acquire-Local lease = search (emits_rules, write-Local) depth 9

  renew-Local : (lease : HostLease) → Emits Local (renew env lease)
  unfolding renew
  renew-Local lease = search emits_rules depth 9

  pub check-Local : (lease : HostLease) → Emits Local (check_lease env lease)
  unfolding check_lease
  check-Local lease = search (emits_rules, renew-Local)

  pub release-Local : (lease : HostLease) → Emits Local (release_lease env lease)
  unfolding release_lease
  release-Local lease = search emits_rules depth 9

  pub new-Local : (binding : Binding) (uid : String) → Emits Local (new_lease env binding uid)
  unfolding new_lease
  new-Local binding uid = search emits_rules

  pub operation-Emits :
      {φ : Event → Type 0} {A : Type 0} (binding : Binding) (uid : String)
      (body : HostLease → Exec A)
      → ((e : Event) → Local e → φ e)
      → ((lease : HostLease) → Emits φ (body lease))
      → Emits φ (host_operation env binding uid body)
  unfolding host_operation
  operation-Emits binding uid body weaker h =
      Emits-bind _ _ (Emits-mono weaker (new-Local binding uid)) λ lease.
        Emits-bind _ _ (Emits-attempt _ (Emits-mono weaker (acquire-Local lease))) λ reply.
          Emits-bind _ _ (Emits-lift (acquired env reply)) λ _.
            Emits-bind _ _ (Emits-attempt _ (h lease)) λ result.
              Emits-bind _ _ (Emits-attempt _ (Emits-mono weaker (release-Local lease)))
                λ _. Emits-lift result
