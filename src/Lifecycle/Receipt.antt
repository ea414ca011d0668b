-- ===== src/Lifecycle/Receipt.antt =====
-- A claim is released only after a confirmed cleanup receipt (delete_machine).
use capi_provider_ssh.Base.{
  String, Bool, true, false, ◌≡◌, refl, Option, none, some, text_eq, not, ◌||◌, ◌&&◌, is_some,
  has_text,
}
use capi_provider_ssh.Objects.{Meta, Binding, Ownership, MachineSpec, MachineStatus}
use capi_provider_ssh.World.{Env, Error, Outcome, ok, err, State}
use capi_provider_ssh.World.Trace.{Emits, emits_rules}
use capi_provider_ssh.World.Claims.{Quiet, Inv, Ready, Guarded, wp-Quiet, wp-receipt, Quiet-keeps}
use capi_provider_ssh.World.Wp.{
  Wp, wp-bind, wp-lift, wp-pure, wp-if, wp-gets, wp-stage, wp-attempt, wp-mono, wp-always, wp-with,
  wp-last,
}
use capi_provider_ssh.Contracts.Receipt.{persist-Receipt, Receipt, Anyhow}
use capi_provider_ssh.Inventory.Quiet.{release-Emits, phase-Quiet}
use capi_provider_ssh.Operations.{HostLease}
use capi_provider_ssh.Operations.Receipt.{operation-wp}
use capi_provider_ssh.Remote.{confirmed, close_after}
use capi_provider_ssh.Remote.Receipt.{connected-wp}
use capi_provider_ssh.Remote.Quiet.{connected-Quiet}
use capi_provider_ssh.Operations.Quiet.{operation-Quiet}
use capi_provider_ssh.Conditions.Quiet.{patch-Quiet, report-Quiet}
use capi_provider_ssh.Contracts.Quiet.{is_paused-Quiet}
use capi_provider_ssh.Reboot.{is_pending}
use capi_provider_ssh.Lifecycle.{
  record_cleanup, released, release_cleaned_host, succeed_and_release, reset_host, finish,
  finish_all, clean_host, is_provisioned, same_target, has_succeeded, is_foreign, delete_target,
  delete_owned, delete_unowned, delete_by_ownership, delete_running, delete_machine,
}
use capi_provider_ssh.Lifecycle.Quiet.{
  record-Quiet, stage-Quiet, blocked-Quiet, quarantine-Quiet, recovered-Quiet, reset-Quiet,
  retry-Quiet, failure-Quiet, wait-Quiet, paused-Quiet,
}

closed_ok :
    (result closed : Outcome Unit) → close_after result closed ≡ ok tt → confirmed result ≡ true
unfolding close_after
closed_ok (ok u) (ok v) h = refl
closed_ok (err e) (ok v) h = cc
closed_ok (ok u) (err e) h = cc
closed_ok (err d) (err e) h = cc

module _ (env : Env) (spec : MachineSpec) (status : MachineStatus) (name namespace : String)
    (meta : Meta) (uid : String) where
  record-Receipt :
      (reason message : String) (s : State)
      → Wp
          (record_cleanup env spec status name namespace meta uid "Succeeded" reason message)
          s
          (λ _ s'. Receipt s')
          Anyhow
  unfolding record_cleanup
  record-Receipt reason message s = wp-bind _ _ _ (
      wp-gets _ _ (
        wp-bind _ _ _ (
          wp-stage _ _ (
            wp-bind _ _ _ (
              wp-gets _ _ (
                wp-bind _ _ _ (
                  wp-mono _ _ (persist-Receipt env namespace name uid _ _ refl)
                    (λ m s' r. wp-stage _ s' r) (λ _ _ u. u))))))))

  -- a receipt that is recorded without an exception is confirmed
  record-Ready :
      (reason message : String) (s : State)
      → Inv s
      → Wp
          (record_cleanup env spec status name namespace meta uid "Succeeded" reason message)
          s
          (λ _ s'. Ready s')
          (λ _ s'. Inv s')
  record-Ready reason message s g =
      wp-mono _ _
        (wp-with Inv _ s (record-Receipt reason message s) (
          Quiet-keeps _ s
            (record-Quiet env spec status name namespace meta uid "Succeeded" reason message) g))
        (λ _ _ x. (x.1, x.0)) (λ _ _ x. x.1)

  released-Emits :
      (o : Outcome Unit) → Emits Quiet (released env spec status name namespace meta uid o)
  unfolding released
  released-Emits (ok u) = search emits_rules
  released-Emits (err e) = search (emits_rules, stage-Quiet)

  -- after a receipt a release keeps the history guarded
  release-Ready :
      (binding : Option Binding) (s : State)
      → Ready s
      → Wp
          (release_cleaned_host env spec status name namespace meta uid binding)
          s
          (λ _ s'. Inv s')
          (λ _ s'. Inv s')
  unfolding release_cleaned_host
  release-Ready none s r = wp-pure tt s r.0
  release-Ready (some binding) s r = wp-bind _ _ _ (
      wp-attempt _ _ (
        wp-mono _ _ (wp-receipt _ s (release-Emits env binding name namespace uid) r)
          (λ a s' q. wp-Quiet _ s' (released-Emits (ok a)) q.0)
          (λ e s' q. wp-Quiet _ s' (released-Emits (err e)) q.0)))

  succeed_ready :
      (reason message : String) (binding : Option Binding) (s : State)
      → Inv s
      → Wp
          (succeed_and_release env spec status name namespace meta uid reason message binding)
          s
          (λ _ s'. Inv s')
          (λ _ s'. Inv s')
  unfolding succeed_and_release
  succeed_ready reason message binding s g = wp-bind _ _ _ (
      wp-mono _ _ (record-Ready reason message s g) (λ _ s' r. release-Ready binding s' r)
        (λ _ _ u. u))

  -- a cleanup that is reported as confirmed has its receipt
  abbrev Confirmed : Outcome Unit × Outcome Unit → State → Type 0
  Confirmed both s = confirmed both.0 ≡ true → Receipt s

  reset-Receipt :
      (lease : HostLease) (s : State)
      → Wp (reset_host env spec status name namespace meta uid lease) s (λ _ s'. Receipt s') Anyhow
  unfolding reset_host
  reset-Receipt lease s = wp-bind _ _ _ (
      wp-always _ _
        (λ _ _. wp-bind _ _ _ (
          wp-always _ _
            (λ _ _. wp-bind _ _ _ (
              wp-always _ _
                (λ _ _. wp-bind _ _ _ (wp-lift _ _ (λ _ _. record-Receipt _ _ _) (λ _ _. tt)))
                (λ _ _. tt)))
            (λ _ _. tt)))
        (λ _ _. tt))

  finish_ready :
      (binding : Binding) (flag : Bool) (o : Outcome Unit) (s : State)
      → Inv s
      → (o ≡ ok tt → Receipt s)
      → Wp
          (finish env spec status name namespace meta uid binding flag o)
          s
          (λ _ s'. Inv s')
          (λ _ s'. Inv s')
  unfolding finish
  finish_ready binding flag (ok u) s g r = release-Ready (some binding) s (g, r refl)
  finish_ready binding true (err e) s g r =
      wp-Quiet _ s (retry-Quiet env spec status name namespace meta uid) g
  finish_ready binding false (err e) s g r =
      wp-Quiet _ s (failure-Quiet env spec status name namespace meta uid) g

  finish_all_ready :
      (binding : Binding) (both : Outcome Unit × Outcome Unit) (s : State)
      → Inv s
      → Confirmed both s
      → Wp
          (finish_all env spec status name namespace meta uid binding (ok both))
          s
          (λ _ s'. Inv s')
          (λ _ s'. Inv s')
  unfolding finish_all
  finish_all_ready binding (result, closed) s g r =
      finish_ready binding (confirmed result) (close_after result closed) s g
        (λ h. r (closed_ok result closed h))

  finish_failed_ready :
      (binding : Binding) (e : Error) (s : State)
      → Inv s
      → Wp
          (finish_all env spec status name namespace meta uid binding (err e))
          s
          (λ _ s'. Inv s')
          (λ _ s'. Inv s')
  unfolding finish_all
  finish_failed_ready binding e s g = finish_ready binding false (err e) s g (λ h. cc)

  clean_ready :
      (binding : Binding) (s : State)
      → Inv s
      → Wp
          (clean_host env spec status name namespace meta uid binding)
          s
          (λ _ s'. Inv s')
          (λ _ s'. Inv s')
  unfolding clean_host
  clean_ready binding s g = wp-bind _ _ _ (
      wp-mono _ _ (wp-Quiet _ s (phase-Quiet env binding name namespace uid "Cleaning" "") g)
        (λ _ t g. wp-bind _ _ _ (
          wp-mono _ _
            (wp-Quiet _ t (record-Quiet env spec status name namespace meta uid "Running" _ _) g)
            (λ _ u g. wp-bind _ _ _ (
              wp-attempt _ _ (
                wp-mono _ _
                  (wp-with Inv _ u
                    (operation-wp env (λ both. confirmed both.0) binding uid _ u
                      (λ lease v. connected-wp env binding namespace _ v (reset-Receipt lease)))
                    (Quiet-keeps _ u
                      (operation-Quiet env binding uid _ (λ lease.
                        connected-Quiet env binding namespace _
                          (reset-Quiet env spec status name namespace meta uid lease)))
                      g))
                  (λ both v h. finish_all_ready binding both v h.1 h.0)
                  (λ e v h. finish_failed_ready binding e v h.1))))
            (λ _ _ g. g)))
        (λ _ _ g. g))

  unowned_ready :
      (s : State)
      → Inv s
      → Wp
          (delete_unowned env spec status name namespace meta uid)
          s
          (λ _ s'. Inv s')
          (λ _ s'. Inv s')
  unfolding delete_unowned
  unowned_ready s g = wp-bind _ _ _ (
      wp-mono _ _
        (wp-Quiet _ s
          (search (emits_rules, recovered-Quiet env spec status name namespace meta uid)) g)
        (λ binding t g.
          wp-if
            (is_provisioned env spec status name namespace meta uid
              || (has_text spec.host_ref && not (is_some binding)))
            _ _ _ (λ _. wp-Quiet _ t (search (emits_rules, quarantine-Quiet, blocked-Quiet)) g)
            (λ _. succeed_ready _ _ binding t g))
        (λ _ _ g. g))

  target_ready :
      (ownership : Ownership) (binding : Binding) (s : State)
      → Inv s
      → Wp
          (delete_target env spec status name namespace meta uid ownership binding)
          s
          (λ _ s'. Inv s')
          (λ _ s'. Inv s')
  unfolding delete_target
  target_ready ownership binding s g =
      wp-if (not (text_eq ownership.machine_uid (some uid))) _ _ _
        (λ _. wp-Quiet _ s (blocked-Quiet env spec status name namespace meta uid _) g)
        (λ _.
          wp-if (not (same_target env spec status name namespace meta uid ownership binding)) _ _ _
            (λ _. wp-Quiet _ s (blocked-Quiet env spec status name namespace meta uid _) g)
            (λ _.
              wp-if (has_succeeded status.cleanup_phase) _ _ _
                (λ _. succeed_ready _ _ (some binding) s g)
                (λ _.
                  wp-if (is_pending status.reboot) _ _ _
                    (λ _. wp-Quiet _ s (wait-Quiet env spec status name namespace meta uid) g)
                    (λ _. clean_ready binding s g))))

  owned_ready :
      (ownership : Ownership) (allocation : Option Binding) (s : State)
      → Inv s
      → Wp
          (delete_owned env spec status name namespace meta uid ownership allocation)
          s
          (λ _ s'. Inv s')
          (λ _ s'. Inv s')
  unfolding delete_owned
  owned_ready ownership none s g =
      wp-Quiet _ s (blocked-Quiet env spec status name namespace meta uid _) g
  owned_ready ownership (some binding) s g = target_ready ownership binding s g

  ownership_ready :
      (ownership : Option Ownership) (s : State)
      → Inv s
      → Wp
          (delete_by_ownership env spec status name namespace meta uid ownership)
          s
          (λ _ s'. Inv s')
          (λ _ s'. Inv s')
  unfolding delete_by_ownership
  ownership_ready none s g = unowned_ready s g
  ownership_ready (some ownership) s g = owned_ready ownership status.allocation s g

  running_ready :
      (s : State)
      → Inv s
      → Wp
          (delete_running env spec status name namespace meta uid)
          s
          (λ _ s'. Inv s')
          (λ _ s'. Inv s')
  unfolding delete_running
  running_ready s g =
      wp-if (is_foreign env spec status name namespace meta uid status.allocation) _ _ _
        (λ _. wp-Quiet _ s (blocked-Quiet env spec status name namespace meta uid _) g)
        (λ _. ownership_ready status.bootstrap_ownership s g)

pub delete_ready :
    (env : Env) (spec : MachineSpec) (status : MachineStatus) (name namespace : String)
    (meta : Meta) (s : State)
    → Inv s
    → Wp (delete_machine env spec status name namespace meta) s (λ _ s'. Inv s') (λ _ s'. Inv s')
unfolding delete_machine
delete_ready env spec status name namespace meta s g = wp-bind _ _ _ (
    wp-stage _ s (
      wp-bind _ _ _ (
        wp-mono _ _ (wp-Quiet _ _ (patch-Quiet env status.conditions meta.generation _) g)
          (λ _ t g. wp-bind _ _ _ (
            wp-mono _ _
              (wp-Quiet _ t
                (report-Quiet env status.conditions meta.generation _
                  (is_paused-Quiet env spec.paused meta namespace))
                g)
              (λ paused u g.
                wp-if paused _ _ _
                  (λ _. wp-Quiet _ u (paused-Quiet env spec status name namespace meta "") g)
                  (λ _. wp-bind _ _ _ (
                    wp-lift _ u (λ uid _. running_ready env spec status name namespace meta uid u g)
                      (λ _ _. g))))
              (λ _ _ g. g)))
          (λ _ _ g. g))))

-- Take a history in which each request to clear a host's claim comes after a confirmed status write
-- of a cleanup receipt. The deletion of any machine extends it to such a history, however it ends
-- and whatever the API server and SSH answer.
pub delete_machine-Guarded :
    (env : Env) (spec : MachineSpec) (status : MachineStatus) (name namespace : String)
    (meta : Meta) (s : State)
    → Guarded s.trace
    → Guarded (delete_machine env spec status name namespace meta s).1.trace
delete_machine-Guarded env spec status name namespace meta s g =
    wp-last Inv _ s (delete_ready env spec status name namespace meta s g)
