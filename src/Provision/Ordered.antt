-- ===== src/Provision/Ordered.antt =====
-- The ownership record is confirmed before the command that claims the host.
use capi_provider_ssh.Base.{String, not, true, some, of_not-false, Option, or_else, text_eq, ◌≡◌}
use capi_provider_ssh.Objects.{Binding, Machine, MachineStatus}
use capi_provider_ssh.World.{Env, Changes, patch_machine_status}
use capi_provider_ssh.World.Trace.{emits_rules}
use capi_provider_ssh.World.Claims.{is_remote, Quiet}
use capi_provider_ssh.World.Order.{
  Keeps-order, Readies-if, Readies-raise, Readies-before, Readies-after,
}
use capi_provider_ssh.World.Remote.{Recorded, Readies, Keeps-Local, is_ownership}
use capi_provider_ssh.World.Wp.{wp-with, wp-mono}
use capi_provider_ssh.World.Trace.{Emits-gets}
use capi_provider_ssh.Contracts.{persist_machine_status, merged_changes}
use capi_provider_ssh.Contracts.Local.{persist-Local}
use capi_provider_ssh.Contracts.Receipt.{persist-done}
use capi_provider_ssh.Provision.{new_ownership, ensure_bootstrap_ownership}
use capi_provider_ssh.Provision.Quiet.{claim-Quiet}

module _ (env : Env) (namespace name uid : String) where
  -- the write of an ownership record
  persist-Readies :
      (changes : Changes)
      → ((version : Option String) (current : Machine) (now : String)
          → is_ownership uid
              (patch_machine_status namespace name uid version (merged_changes current now changes))
            ≡ true)
      → Readies uid (persist_machine_status env namespace name uid changes)
  persist-Readies changes h = record {
    readies = λ s g.
        wp-mono _ s
          (wp-with (λ t. Recorded uid t.trace) _ s
            (persist-done (is_ownership uid) env namespace name uid changes s h)
            (Keeps-order is_remote (is_ownership uid) _ s
              (Keeps-Local uid (persist-Local env namespace name uid changes)) g))
          (λ _ _ x. (x.1, x.0)) (λ _ _ x. x.1);
  }

  pub ownership-Readies :
      (binding : Binding) (status : MachineStatus)
      → Readies uid (ensure_bootstrap_ownership env binding uid namespace name status)
  unfolding ensure_bootstrap_ownership
  ownership-Readies binding status =
      Readies-before is_remote (is_ownership uid) _ _ (Keeps-Local uid (Emits-gets _)) λ now.
        Readies-if is_remote (is_ownership uid)
          (not (
            text_eq
              (or_else status.bootstrap_ownership (new_ownership env uid now binding)).machine_uid
              (some uid)))
          _ _ (λ _. Readies-raise is_remote (is_ownership uid) _)
          (λ own.
            Readies-after is_remote (is_ownership uid) {φ = Quiet} _ _
              (persist-Readies _ (λ _ _ _. of_not-false _ own))
              λ _. search (emits_rules, claim-Quiet) depth 12)
