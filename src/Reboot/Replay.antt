-- ===== src/Reboot/Replay.antt =====
-- A reboot request that is pending is observed and not submitted a second time.
use capi_provider_ssh.Base.{
  String, Bool, true, false, not, ◌&&◌, ◌||◌, ◌≡◌, refl, ap, sym, ◌∙◌, Option, none, some, or_else,
  [], ◌∷◌, text_eq, has_text, is_true, arith, subst,
}
use capi_provider_ssh.Objects.{Meta, Reboot, MachineSpec, MachineStatus}
use capi_provider_ssh.World.{Env, Event, Request, Outcome, ok, err, execute_ssh, upload_ssh}
use capi_provider_ssh.World.Trace.{
  Emits, Emits-mono, Emits-bind, Emits-if, Emits-pure, Emits-remote, Emits-lift, emits_rules,
}
use capi_provider_ssh.World.Wp.{wp-bind, wp-always, wp-pure, wp-if}
use capi_provider_ssh.World.Returns.{Returns, Returns-lift, Emits-Returns}
use capi_provider_ssh.World.Claims.{Local, is_remote}
use capi_provider_ssh.Contracts.Local.{persist-Local, is_paused-Local}
use capi_provider_ssh.Operations.{HostLease}
use capi_provider_ssh.Operations.Local.{check-Local, operation-Emits}
use capi_provider_ssh.Fence.{owned_command}
use capi_provider_ssh.Remote.{execute_owned}
use capi_provider_ssh.Remote.Local.{current-Local, with-Emits}
use capi_provider_ssh.Allocation.Local.{bind-Local}
use capi_provider_ssh.Inventory.{required}
use capi_provider_ssh.Reboot.{
  boot_id_command, is_pending, is_phase, last_requested, no_reboot, write_reboot, observe_boot,
  still_waiting, resolve_pending, reboot_operation, reboot_requested, reconcile_reboot,
}

-- Each command on a host is the UID-fenced read of its boot ID, and nothing is uploaded.
pub record Observes (uid : String) (e : Event) : Type 0 where
  pub reads :
      (c : String)
      → e.request ≡ execute_ssh c
      → owned_command uid boot_id_command false false false ≡ ok c
  pub no_upload : (path content : String) → e.request ≡ upload_ssh path content → ⊥

abbrev command_of : Request → String
command_of (execute_ssh c) = c
command_of _ = ""

not_remote : (r q : Request) → is_remote r ≡ false → is_remote q ≡ true → r ≡ q → ⊥
not_remote r q h k e = absurd (no (sym h ∙ ap is_remote e ∙ k))
  where
    no : false ≡ true → ⊥
    no p = cc

observes-Local : (uid : String) (e : Event) → Local e → Observes uid e
observes-Local uid e l = record {
  reads = λ c q. absurd (not_remote e.request (execute_ssh c) l.not_remote refl q);
  no_upload = λ p c q. not_remote e.request (upload_ssh p c) l.not_remote refl q;
}

executed-Observes :
    (uid c : String) (done : Bool)
    → owned_command uid boot_id_command false false false ≡ ok c
    → Observes uid (record { request = execute_ssh c; done = done })
executed-Observes uid c done h = record {
  reads = λ d q. h ∙ ap (λ r. ok (command_of r)) q;
  no_upload = λ p t q. cc;
}

module _ (env : Env) (uid : String) where
  abbrev weaker : (e : Event) → Local e → Observes uid e
  weaker = observes-Local uid

  execute-Observes : Emits (Observes uid) (execute_owned env uid boot_id_command false)
  unfolding execute_owned
  execute-Observes =
      Emits-Returns _ _ _ (λ c h. Emits-remote _ _ (λ done. executed-Observes uid c done h))
        (Returns-lift _) (Emits-lift _)

  observe-Observes : Emits (Observes uid) (observe_boot env uid)
  unfolding observe_boot
  observe-Observes = search (emits_rules, execute-Observes) depth 9

module _ (env : Env) (namespace name uid : String) where
  write-Local : (state : Reboot) → Emits Local (write_reboot env namespace name uid state)
  unfolding write_reboot
  write-Local state = search (emits_rules, persist-Local)

  waiting-Local : (state : Reboot) → Emits Local (still_waiting env namespace name uid state)
  unfolding still_waiting
  waiting-Local state = search (emits_rules, write-Local) depth 9

  resolve-Local :
      (boot_id : String) (previous : Reboot) (same : Bool)
      → Emits Local (resolve_pending env namespace name uid boot_id previous same)
  unfolding resolve_pending
  resolve-Local boot_id previous same = search (emits_rules, write-Local, waiting-Local) depth 9

  -- the same request is always resolved by its observation
  resolve_same :
      (boot_id : String) (previous : Reboot)
      → Returns (λ b. b ≡ true) (resolve_pending env namespace name uid boot_id previous true)
  unfolding resolve_pending
  resolve_same boot_id previous = record {
    at = λ s.
        wp-if (not (text_eq (some boot_id) previous.previous_boot_id)) _ _ _
          (λ _. wp-bind _ _ _ (
            wp-always _ _
              (λ now t. wp-bind _ _ _ (wp-always _ _ (λ _ u. wp-pure _ u refl) (λ _ _. tt)))
              (λ _ _. tt)))
          (λ _. wp-bind _ _ _ (wp-always _ _ (λ _ u. wp-pure _ u refl) (λ _ _. tt)));
  }

  body-Observes :
      (requested : String) (previous : Option Reboot) (observe_only : Bool) (lease : HostLease)
      → is_pending previous ≡ true
      → text_eq (last_requested previous) (some requested) ≡ true
      → Emits
          (Observes uid)
          (reboot_operation env namespace name uid requested previous observe_only lease)
  unfolding reboot_operation
  body-Observes requested previous observe_only lease pending same =
      Emits-bind _ _ (Emits-mono (weaker env uid) (current-Local env namespace name uid)) λ _.
        Emits-bind _ _ (Emits-mono (weaker env uid) (check-Local env lease)) λ _.
          Emits-bind _ _ (observe-Observes env uid) λ boot_id.
            Emits-Returns (λ b. b ≡ true) _ _
              (λ resolved yes_resolved.
                Emits-if (resolved || observe_only) _ _ (λ _. Emits-pure tt)
                  (λ f. absurd (unresolved resolved observe_only yes_resolved f)))
              (rw (pending, same) (resolve_same boot_id (or_else previous no_reboot)))
              (rw (pending, same)
                (Emits-mono (weaker env uid)
                  (resolve-Local boot_id (or_else previous no_reboot) true)))
    where
      unresolved : (a b : Bool) → a ≡ true → a || b ≡ false → ⊥
      unresolved a b h k = ground arith

  requested-Observes :
      (spec : MachineSpec) (status : MachineStatus) (requested : String)
      → is_pending status.reboot ≡ true
      → text_eq (last_requested status.reboot) (some requested) ≡ true
      → Emits (Observes uid) (reboot_requested env spec status name namespace uid requested false)
  unfolding reboot_requested
  requested-Observes spec status requested pending same = Emits-bind _ _ (Emits-lift _) λ _.
      Emits-bind _ _ (Emits-mono (weaker env uid) (bind-Local env spec status name namespace uid))
        λ binding.
          Emits-if
            (text_eq (last_requested status.reboot) (some requested)
              && is_phase status.reboot ("Succeeded" ∷ "Failed" ∷ []))
            _ _ (λ _. Emits-pure tt)
            (λ _. operation-Emits env binding uid _ (weaker env uid) λ lease.
              with-Emits env binding namespace _ (weaker env uid)
                (body-Observes requested status.reboot false lease pending same))

asked_some : (o : Option String) → not (has_text o) ≡ false → o ≡ some (or_else o "")
asked_some none h = cc
asked_some (some t) h = refl

abbrev uid_of : Outcome String → String
uid_of (ok u) = u
uid_of (err e) = ""

required_uid : (o : Option String) (uid u : String) → o ≡ some uid → required o ≡ ok u → uid ≡ u
required_uid o uid u e h = ap uid_of (sym (ap required e) ∙ h)

-- The request at hand is the one that the status has as pending, for a Machine with this UID. Then
-- the reconciliation of reboots executes no command on a host but the UID-fenced read of its boot
-- ID, and uploads nothing: a request that was prepared or submitted, or whose outcome is unknown, is
-- not submitted again.
pub reconcile_reboot-Observes :
    (env : Env) (spec : MachineSpec) (status : MachineStatus) (name namespace : String)
    (meta : Meta) (uid : String)
    → meta.uid ≡ some uid
    → is_pending status.reboot ≡ true
    → text_eq (last_requested status.reboot) spec.reboot_requested_at ≡ true
    → Emits (Observes uid) (reconcile_reboot env spec status name namespace meta false)
unfolding reconcile_reboot reboot_requested
reconcile_reboot-Observes env spec status name namespace meta uid eu pending same =
    Emits-if (not (has_text spec.reboot_requested_at)) _ _ (λ _. Emits-pure tt)
      (λ asked.
        Emits-bind _ _
          (Emits-mono (weaker env uid) (is_paused-Local env spec.paused meta namespace))
          λ paused.
            Emits-if (paused || (is_true spec.dry_run && not false)) _ _ (λ _. Emits-pure tt)
              (λ _.
                Emits-Returns _ _ _
                  (λ u eq.
                    subst
                      (λ v. Emits (Observes uid) (
                        reboot_requested env spec status name namespace v
                          (or_else spec.reboot_requested_at "") false))
                      (required_uid meta.uid uid u eu eq)
                      (requested-Observes env namespace name uid spec status _ pending (
                        subst (λ o. text_eq (last_requested status.reboot) o ≡ true)
                          (asked_some spec.reboot_requested_at asked) same)))
                  (Returns-lift (required meta.uid)) (Emits-lift _)))
