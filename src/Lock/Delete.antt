-- ===== src/Lock/Delete.antt =====
-- The deletion under the reconcile lock keeps the claims guarded.
use capi_provider_ssh.Base.{String, Option, none, some, not, ◌&&◌, has_text, text_eq}
use capi_provider_ssh.Objects.{Meta, MachineSpec, MachineStatus, Machine}
use capi_provider_ssh.World.{Env, Outcome, ok, err, State, lift, ◌>>◌}
use capi_provider_ssh.World.Claims.{Inv, Guarded, wp-Quiet}
use capi_provider_ssh.World.Wp.{Wp, wp-bind, wp-lift, wp-pure, wp-if, wp-attempt, wp-mono, wp-last}
use capi_provider_ssh.Lifecycle.{delete_machine}
use capi_provider_ssh.Lifecycle.Receipt.{delete_ready}
use capi_provider_ssh.Lock.Quiet.{lock-Quiet, unlock-Quiet, read-Quiet}
use capi_provider_ssh.Lock.{
  LockSettings, release_lock_with_logging, Action, on_live, refreshed, serialized,
  sshmachine_delete,
}

module _ (env : Env) (settings : LockSettings) (namespace name : String) where
  -- the deletion, in the place of the handler's action
  abbrev deletion : Action env settings namespace name
  deletion spec status meta = delete_machine env spec status name namespace meta

  live_ready :
      (event_uid : Option String) (latest : Option Machine) (s : State)
      → Inv s
      → Wp
          (on_live env settings namespace name deletion event_uid latest)
          s
          (λ _ s'. Inv s')
          (λ _ s'. Inv s')
  unfolding on_live
  live_ready event_uid none s g = wp-pure tt s g
  live_ready event_uid (some latest) s g =
      wp-if (has_text latest.metadata.uid && not (text_eq event_uid latest.metadata.uid)) _ _ _
        (λ _. wp-pure tt s g)
        (λ _. delete_ready env latest.spec latest.status name namespace latest.metadata s g)

  refreshed_ready :
      (spec : MachineSpec) (status : MachineStatus) (meta : Meta) (s : State)
      → Inv s
      → Wp
          (refreshed env settings namespace name deletion spec status meta)
          s
          (λ _ s'. Inv s')
          (λ _ s'. Inv s')
  unfolding refreshed
  refreshed_ready spec status meta s g =
      wp-if (has_text meta.uid) _ _ _
        (λ _. wp-bind _ _ _ (
          wp-mono _ _ (wp-Quiet _ s (read-Quiet env settings namespace name) g)
            (λ latest t g. live_ready meta.uid latest t g) (λ _ _ g. g)))
        (λ _. delete_ready env spec status name namespace meta s g)

  delete_lock_ready :
      (spec : MachineSpec) (status : MachineStatus) (meta : Meta) (s : State)
      → Inv s
      → Wp
          (sshmachine_delete env settings namespace name spec status meta)
          s
          (λ _ s'. Inv s')
          (λ _ s'. Inv s')
  unfolding sshmachine_delete serialized
  delete_lock_ready spec status meta s g = wp-bind _ _ _ (
      wp-mono _ _ (wp-Quiet _ s (lock-Quiet env settings namespace name "reconcile") g)
        (λ _ t g. wp-bind _ _ _ (
          wp-attempt _ _ (
            wp-mono _ _ (refreshed_ready spec status meta t g) (λ a u g. close_Inv (ok a) u g)
              (λ e u g. close_Inv (err e) u g))))
        (λ _ _ g. g))
    where
      close_Inv :
          (result : Outcome Unit) (u : State)
          → Inv u
          → Wp
              (release_lock_with_logging env settings namespace name >> lift result)
              u
              (λ _ s'. Inv s')
              (λ _ s'. Inv s')
      close_Inv result u g = wp-bind _ _ _ (
          wp-mono _ _ (wp-Quiet _ u (unlock-Quiet env settings namespace name) g)
            (λ _ v g. wp-lift result v (λ _ _. g) (λ _ _. g)) (λ _ _ g. g))

-- The deletion handler, with the reconcile lock and the refresh of a possibly stale event around
-- the deletion, extends a history in which each request to clear a host's claim comes after a
-- confirmed status write of a cleanup receipt to another such history, however it ends.
pub sshmachine_delete-Guarded :
    (env : Env) (settings : LockSettings) (namespace name : String) (spec : MachineSpec)
    (status : MachineStatus) (meta : Meta) (s : State)
    → Guarded s.trace
    → Guarded (sshmachine_delete env settings namespace name spec status meta s).1.trace
sshmachine_delete-Guarded env settings namespace name spec status meta s g =
    wp-last Inv _ s (delete_lock_ready env settings namespace name spec status meta s g)
