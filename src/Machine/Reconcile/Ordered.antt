-- ===== src/Machine/Reconcile/Ordered.antt =====
-- The reconciliation of an SSHMachine works on a host only after its ownership record is confirmed.
use capi_provider_ssh.Base.{ℕ, String, ◌||◌, Option, none, some, has_text, is_true, or_else}
use capi_provider_ssh.Objects.{Binding, OwnerRef, Meta, MachineSpec, MachineStatus}
use capi_provider_ssh.World.{Env, State}
use capi_provider_ssh.World.Trace.{emits_rules}
use capi_provider_ssh.World.Claims.{is_remote}
use capi_provider_ssh.World.Order.{Keeps-bind, Keeps-attempt, Keeps-if, Keeps-order}
use capi_provider_ssh.World.Remote.{Keeps, Keeps-Local, Recorded, is_ownership}
use capi_provider_ssh.Conditions.Local.{report-Emits}
use capi_provider_ssh.Contracts.Local.{is_paused-Local}
use capi_provider_ssh.Allocation.Local.{bind-Local}
use capi_provider_ssh.Provision.Quiet.{backfill-Local}
use capi_provider_ssh.Machine.{Strategy, Target}
use capi_provider_ssh.Machine.Local.{or_report-Local, prepare-Local, credentials-Local}
use capi_provider_ssh.Machine.Job.Quiet.{ended-Local, dry_run-Local}
use capi_provider_ssh.Machine.Job.Ordered.{session-Keeps}
use capi_provider_ssh.Machine.Reconcile.{
  connect_and_bootstrap, bootstrap, reconcile_target, bind_and_reconcile, reconcile_owned,
  reconcile_found, reconcile_impl,
}
use capi_provider_ssh.Machine.Reconcile.Quiet.{after-Local, wait-Local}

module _ (env : Env) (command_timeout : ℕ) (spec : MachineSpec) (status : MachineStatus)
    (name namespace : String) (meta : Meta) where
  abbrev uid : String
  uid = or_else meta.uid ""

  connect-Keeps :
      (strategy : Strategy) (target : Target) (binding : Binding) (payload : _)
      → Keeps uid (
          connect_and_bootstrap env command_timeout spec status name namespace meta strategy target
            binding payload)
  unfolding connect_and_bootstrap
  connect-Keeps strategy target binding payload =
      Keeps-if is_remote (is_ownership uid) (is_true spec.dry_run) _ _
        (Keeps-Local uid (dry_run-Local env status meta.generation command_timeout target))
        (Keeps-bind is_remote (is_ownership uid) _ _
          (Keeps-attempt is_remote (is_ownership uid) _ (
            session-Keeps env status meta.generation command_timeout target binding strategy
              namespace name _ payload))
          λ result. Keeps-Local uid (
            search (
              emits_rules,
              ended-Local env status meta.generation command_timeout,
              after-Local env command_timeout spec status name namespace meta,
            )))

  bootstrap-Keeps :
      (strategy : Strategy) (machine_name : String) (target : Target) (binding : Binding)
      → Keeps uid (
          bootstrap env command_timeout spec status name namespace meta strategy machine_name target
            binding)
  unfolding bootstrap
  bootstrap-Keeps strategy machine_name target binding =
      Keeps-bind is_remote (is_ownership uid) _ _
        (Keeps-Local uid
          (prepare-Local env status meta.generation spec namespace machine_name target.provider_id))
        λ payload.
          Keeps-bind is_remote (is_ownership uid) _ _ (Keeps-Local uid (search emits_rules))
            λ key_ref.
              Keeps-bind is_remote (is_ownership uid) _ _
                (Keeps-Local uid (credentials-Local env status meta.generation namespace key_ref _))
                λ _. connect-Keeps strategy target binding payload

  target-Keeps :
      (strategy : Strategy) (machine_name : String) (target : Target) (binding : Binding)
      → Keeps uid (
          reconcile_target env command_timeout spec status name namespace meta strategy machine_name
            target binding)
  unfolding reconcile_target
  target-Keeps strategy machine_name target binding =
      Keeps-if is_remote (is_ownership uid) (is_true status.provisioned) _ _
        (Keeps-Local uid (search (emits_rules, backfill-Local)))
        (bootstrap-Keeps strategy machine_name target binding)

  bind_and-Keeps :
      (strategy : Strategy) (machine_name : String)
      → Keeps uid (
          bind_and_reconcile env command_timeout spec status name namespace meta strategy
            machine_name)
  unfolding bind_and_reconcile
  bind_and-Keeps strategy machine_name =
      Keeps-bind is_remote (is_ownership uid) _ _
        (Keeps-Local uid (bind-Local env spec status name namespace _))
        λ binding.
          Keeps-bind is_remote (is_ownership uid) _ _ (Keeps-Local uid (search emits_rules))
            λ address.
              Keeps-bind is_remote (is_ownership uid) _ _ (Keeps-Local uid (search emits_rules))
                λ user.
                  Keeps-if is_remote (is_ownership uid) (has_text address) _ _
                    (target-Keeps strategy machine_name _ binding)
                    (Keeps-Local uid (search emits_rules))

  found-Keeps :
      (owner : Option OwnerRef)
      → Keeps uid (reconcile_found env command_timeout spec status name namespace meta owner)
  unfolding reconcile_found reconcile_owned
  found-Keeps none =
      Keeps-Local uid (wait-Local env command_timeout spec status name namespace meta)
  found-Keeps (some ref) =
      Keeps-bind is_remote (is_ownership uid) _ _
        (Keeps-Local uid (or_report-Local env status meta.generation _ _ _))
        λ strategy. bind_and-Keeps strategy ref.name

  impl-Keeps : Keeps uid (reconcile_impl env command_timeout spec status name namespace meta)
  unfolding reconcile_impl
  impl-Keeps =
      Keeps-bind is_remote (is_ownership uid) _ _
        (Keeps-Local uid (
          report-Emits env status.conditions meta.generation _ (λ _ l. l)
            (is_paused-Local env spec.paused meta namespace)))
        λ paused.
          Keeps-if is_remote (is_ownership uid) (paused || has_text meta.deletion_timestamp) _ _
            (Keeps-Local uid (search emits_rules)) (found-Keeps _)

  -- In the history that a reconciliation of an SSHMachine leaves, each command and each upload on a
  -- host comes after a confirmed status write of an ownership record with the Machine's UID, if this
  -- holds of the history before it. It does so however the run ends, and whatever the API server and
  -- SSH answer.
  pub reconcile_impl-Recorded :
      (s : State)
      → Recorded uid s.trace
      → Recorded uid (reconcile_impl env command_timeout spec status name namespace meta s).1.trace
  reconcile_impl-Recorded s g = Keeps-order is_remote (is_ownership uid) _ s impl-Keeps g
