-- ===== src/Provision.antt =====
-- capi_provider_ssh/controllers/sshmachine.py: the owner of a Machine, its lifecycle conditions, the
-- fields of a provisioned Machine (_backfill_provisioned_fields) and the ownership record that
-- precedes a bootstrap (_ensure_bootstrap_ownership).
pub mod Backfill
pub mod Quiet
pub mod Ordered
use capi_provider_ssh.Text.Number.{int_is}
use capi_provider_ssh.Base.{
  ℕ, String, Bool, true, false, not, ◌&&◌, ◌||◌, List, [], ◌∷◌, ◌++◌, Option, none, some, or_else,
  codes_eq, is_some, is_true, text_eq, opt_eq, nat_eq, any, all, filter, ◌==◌, if◌then◌else◌,
}
use capi_provider_ssh.Text.{codes, lower}
use capi_provider_ssh.Shell.{text}
use capi_provider_ssh.Objects.{
  Condition, Meta, OwnerRef, Binding, Ownership, MachineSpec, MachineStatus,
}
use capi_provider_ssh.World.{
  remote, Env, permanent, temporary, Exec, pure, raise, lift, gets, stage, ◌>>=◌, ◌>>◌, call,
  no_changes, execute_ssh, Patch, SshResult,
}
use capi_provider_ssh.Conditions.{condition, patch_conditions}
use capi_provider_ssh.Contracts.{capi_owner_api_version, persist_machine_status}
use capi_provider_ssh.Inventory.{set_host_phase}
use capi_provider_ssh.Fence.{owned_command}
use capi_provider_ssh.Reboot.{succeeded}
use capi_provider_ssh.Cluster.{status_of}

is_capi_machine : OwnerRef → Bool
is_capi_machine ref = is_some (capi_owner_api_version ref) && text_eq ref.kind (some "Machine")

-- `_has_machine_owner(owner_references)`
pub has_machine_owner : List OwnerRef → Bool
has_machine_owner refs = any is_capi_machine refs

-- `_get_machine_owner_ref(owner_references)`
pub get_machine_owner_ref : List OwnerRef → Option OwnerRef
get_machine_owner_ref [] = none
get_machine_owner_ref (ref ∷ refs) =
    if is_capi_machine ref then some ref else get_machine_owner_ref refs

-- `_condition(condition_type, status, reason, message)` at the time `now`
pub machine_condition : (now kind status reason message : String) → Condition
machine_condition now kind status reason message = record (condition kind status reason message) {
  last_transition_time = some now;
}

-- `_machine_lifecycle_conditions`
pub machine_lifecycle_conditions :
    (now : String) (ready : Bool) (ready_reason ready_message : String)
    (infrastructure_ready : Bool) (infrastructure_reason infrastructure_message : String)
    (bootstrap_succeeded : Bool) (bootstrap_reason bootstrap_message : String)
    (extras : List Condition)
    → List Condition
machine_lifecycle_conditions now ready ready_reason ready_message infrastructure_ready
      infrastructure_reason infrastructure_message bootstrap_succeeded bootstrap_reason
      bootstrap_message extras =
    machine_condition now "Ready" (status_of ready) ready_reason ready_message
    ∷ machine_condition now "InfrastructureReady" (status_of infrastructure_ready)
        infrastructure_reason infrastructure_message
    ∷ machine_condition now "BootstrapExecSucceeded" (status_of bootstrap_succeeded)
        bootstrap_reason bootstrap_message
    ∷ extras

-- the conditions of a Machine that is provisioned already
provisioned_conditions : (now message : String) → List Condition
provisioned_conditions now message =
    machine_lifecycle_conditions now true "Provisioned" message true "Provisioned" message true
      "BootstrapCompleted" "Bootstrap execution has completed for this machine" []

same_lower : (a b : String) → Bool
same_lower a b = codes_eq (lower (codes a)) (lower (codes b))

-- `_has_condition_status(status, condition_type, condition_status)`
pub has_condition_status : List Condition → (condition_type condition_status : String) → Bool
has_condition_status conditions condition_type condition_status =
    any (λ c. c.type == condition_type && same_lower c.status condition_status) conditions

is_lifecycle_type : String → Bool
is_lifecycle_type kind =
    kind == "Ready" || kind == "InfrastructureReady" || kind == "BootstrapExecSucceeded"

-- the test for conditions that are missing, false or of another generation
pub is_stale : List Condition → (generation : Option ℕ) → Bool
is_stale conditions generation =
    not (has_condition_status conditions "Ready" "True")
    || not (has_condition_status conditions "InfrastructureReady" "True")
    || not (has_condition_status conditions "BootstrapExecSucceeded" "True")
    || any (λ c. is_lifecycle_type c.type && not (opt_eq nat_eq c.observed_generation generation))
        conditions

-- the fields that `_backfill_provisioned_fields` stages beside the conditions
pub backfill_fields : MachineSpec → MachineStatus → (provider_id : String) → Patch → Patch
backfill_fields spec status provider_id p = record p {
  provider_id =
      if text_eq spec.provider_id (some provider_id) then p.provider_id else some provider_id;
  ready = some true;
  provisioned = if is_true status.provisioned then p.provisioned else some true;
  failure_reason = if is_some status.failure_reason then some none else p.failure_reason;
  failure_message = if is_some status.failure_message then some none else p.failure_message;
  bootstrap_diagnostics =
      if is_some status.bootstrap_diagnostics then some none else p.bootstrap_diagnostics;
}

-- what `_backfill_provisioned_fields` returns
pub has_changed :
    MachineSpec → MachineStatus → (provider_id : String) → (generation : Option ℕ) → Bool
has_changed spec status provider_id generation =
    not (text_eq spec.provider_id (some provider_id))
    || not (is_true status.ready)
    || not (is_true status.provisioned)
    || is_stale status.conditions generation
    || is_some status.failure_reason
    || is_some status.failure_message
    || is_some status.bootstrap_diagnostics

module _ (env : Env) where
  -- `_backfill_provisioned_fields(spec, status, patch, provider_id, address, meta=meta)`
  pub backfill_provisioned_fields :
      MachineSpec
      → MachineStatus
      → (provider_id address : String) → (generation : Option ℕ) → Exec Bool
  backfill_provisioned_fields spec status provider_id address generation = do
    stage (backfill_fields spec status provider_id)
    now ← gets (λ s. env.iso s.trace)
    let message : String =
        text ("Machine " ∷ address ∷ " already provisioned with providerID " ∷ provider_id ∷ [])
    if is_stale status.conditions generation
        then patch_conditions env status.conditions generation (provisioned_conditions now message)
        else pure tt
    pure (has_changed spec status provider_id generation)

  -- `status.get("bootstrapOwnership") or {"machineUID": uid, "startedAt": now, **binding}`
  new_ownership : (uid now : String) → Binding → Ownership
  new_ownership uid now binding = record {
    machine_uid = if is_some binding.machine_uid then binding.machine_uid else some uid;
    address = binding.address;
    port = some binding.port;
    host_uid = binding.host_uid;
    started_at = some now;
  }

  -- the answer of the claim command on the host
  pub claim_result : Binding → (uid namespace name : String) → SshResult → Exec Unit
  claim_result binding uid namespace name result =
      if succeeded result
      then pure tt
      else if int_is 78 result.exit_code
      then (do
        set_host_phase env binding name namespace uid "Quarantined" "RemoteOwnershipMismatch"
        raise (permanent "Remote host identity is not owned by this Machine UID"))
      else raise (temporary "Remote host operation is still busy" 15)

  -- `_ensure_bootstrap_ownership(conn, binding, uid, namespace, name, status, patch)`
  pub ensure_bootstrap_ownership :
      Binding → (uid namespace name : String) → MachineStatus → Exec Unit
  ensure_bootstrap_ownership binding uid namespace name status = do
    now ← gets (λ s. env.iso s.trace)
    let ownership = or_else status.bootstrap_ownership (new_ownership uid now binding)
    if not (text_eq ownership.machine_uid (some uid))
        then raise (permanent "Bootstrap ownership belongs to a different Machine UID")
        else (do
          _ ←
              persist_machine_status env namespace name uid
                (record no_changes { bootstrap_ownership = some ownership })
          stage (λ p. record p { bootstrap_ownership = some ownership })
          command ← lift (owned_command uid "true" true false false)
          result ← remote env.ssh (execute_ssh command)
          claim_result binding uid namespace name result)
