-- ===== src/Lifecycle.antt =====
-- capi_provider_ssh/lifecycle.py: the deletion of an SSHMachine (delete_machine). The claim and the
-- finalizer are kept until the cleanup has succeeded; the durable receipt is `cleanup.phase`.
pub mod Quiet
pub mod Receipt
use capi_provider_ssh.Base.{
  ℕ, String, Bool, true, false, not, ◌&&◌, ◌||◌, List, [], ◌∷◌, ◌++◌, Option, none, some, or_else,
  is_some, has_text, is_true, text_eq, opt_eq, nat_eq, filter, ◌==◌, if◌then◌else◌,
}
use capi_provider_ssh.Shell.{text}
use capi_provider_ssh.Objects.{
  Condition, Meta, Binding, Ownership, MachineSpec, MachineStatus, Machine,
}
use capi_provider_ssh.World.{
  Env, Error, permanent, temporary, Outcome, ok, err, guard, State, Patch, Exec, pure, raise, lift,
  attempt, gets, stage, ◌>>=◌, ◌>>◌, call, Changes, no_changes, get_machine,
}
use capi_provider_ssh.Conditions.{condition, merge_conditions, patch_conditions, report_pause}
use capi_provider_ssh.Contracts.{is_paused, persist_machine_status}
use capi_provider_ssh.Inventory.{required, recover_unstarted_claim, release_host, set_host_phase}
use capi_provider_ssh.Operations.{HostLease, host_operation, check_lease}
use capi_provider_ssh.Remote.{connected, close_after, confirmed, check_current, execute_owned}
use capi_provider_ssh.Reboot.{succeeded, exit_text, is_pending, reconcile_reboot}

-- `cleanup_conditions(reason, message, succeeded=...)`
pub cleanup_conditions : (reason message : String) → (success : Bool) → List Condition
cleanup_conditions reason message success =
    let closing = success && (reason == "Deleting" || reason == "DeletionPaused") in
    condition "Ready" "False" reason message
    ∷ condition "InfrastructureReady" "False" reason message
    ∷ condition "CleanupSucceeded" (if success then "True" else "False")
        (if closing then "CleanupCompleted" else reason)
        (if closing then "Host cleanup completed" else message)
    ∷ []

abbrev is_terminal : String → Bool
is_terminal phase = phase == "Succeeded" || phase == "Failed"

abbrev paused_items : Option (List Condition) → List Condition
paused_items staged = filter (λ c. c.type == "Paused") (or_else staged [])

abbrev unstage_receipt : String → Patch → Patch
unstage_receipt phase p = record p {
  cleanup_phase = none;
  conditions = if is_terminal phase then none else p.conditions;
}

-- the receipt that is written with the conditions
abbrev receipt : (phase : String) → List Condition → Changes
receipt phase conditions = record no_changes {
  ready = some false;
  cleanup_phase = some phase;
  conditions = some conditions;
}

abbrev has_succeeded : Option String → Bool
has_succeeded phase = text_eq phase (some "Succeeded")

abbrev pub reset_command : String
reset_command = text (
    "kubeadm reset -f && test ! -d /var/lib/etcd/member && rm -rf /etc/kubernetes /var/lib/kubelet "
    ∷ "/run/cluster-api/bootstrap-success.complete && " ∷ "rm -rf /var/lib/capi-provider-ssh" ∷ [])

abbrev release_pending : List Condition
release_pending =
    let message : String = "Cleanup completed; host claim release is pending" in
    condition "Ready" "False" "HostReleasePending" message
    ∷ condition "InfrastructureReady" "False" "HostReleasePending" message
    ∷ []

abbrev incomplete : String
incomplete = "Cleanup incomplete; host remains claimed and quarantined"

-- the run's arguments that do not change
module _ (env : Env) (spec : MachineSpec) (status : MachineStatus) (name namespace : String)
    (meta : Meta) (uid : String) where
  pub stage_conditions : List Condition → Exec Unit
  stage_conditions = patch_conditions env status.conditions meta.generation

  -- `record_cleanup(namespace, name, meta, status, patch, phase, reason, message)`
  pub record_cleanup : (phase reason message : String) → Exec Unit
  record_cleanup phase reason message = do
    staged ← gets (λ s. s.patch.conditions)
    let updates = cleanup_conditions reason message (phase == "Succeeded") ++ paused_items staged
    stage (unstage_receipt phase)
    now ← gets (λ s. env.iso s.trace)
    current ←
        persist_machine_status env namespace name uid
          (receipt phase (merge_conditions [] updates meta.generation now))
    stage (λ p. record p { ready = some false; conditions = some current.status.conditions })

  pub released : Outcome Unit → Exec Unit
  released (ok _) = pure tt
  released (err e) = do
    stage_conditions release_pending
    raise (temporary "Cleanup completed; retrying host claim release without another reset" 30)

  -- `release_cleaned_host(binding, name, namespace, meta, status, patch)`; `{}` is `none`
  pub release_cleaned_host : Option Binding → Exec Unit
  release_cleaned_host none = pure tt
  release_cleaned_host (some binding) = do
    reply ← attempt (release_host env binding name namespace uid)
    released reply

  -- the receipt of a cleanup that is done or not required, and then the release
  pub succeed_and_release : (reason message : String) → Option Binding → Exec Unit
  succeed_and_release reason message binding = do
    record_cleanup "Succeeded" reason message
    release_cleaned_host binding

  -- `blocked(message)`
  pub blocked : {A : Type 0} → (message : String) → Exec A
  blocked message = do
    stage_conditions (cleanup_conditions "CleanupBlocked" message false)
    raise (temporary message 30)

  pub quarantine : Option Binding → (reason : String) → Exec Unit
  quarantine none reason = pure tt
  quarantine (some binding) reason =
      set_host_phase env binding name namespace uid "Quarantined" reason

  abbrev is_provisioned : Bool
  is_provisioned = is_true status.provisioned || has_text spec.provider_id

  pub adopt : Option Binding → Exec (Option Binding)
  adopt none = pure none
  adopt (some binding) =
      if has_text spec.host_ref && not (text_eq spec.host_ref binding.host_ref)
      then blocked "Unstarted host claim differs from the selected host"
      else (do
        _ ←
            persist_machine_status env namespace name uid
              (record no_changes { allocation = some binding })
        pure (some binding))

  -- the claim that a crash left before the allocation was written
  pub recovered : Exec (Option Binding)
  recovered = do found ← recover_unstarted_claim env name namespace uid; adopt found

  -- the branch with no bootstrap ownership
  pub delete_unowned : Exec Unit
  delete_unowned = do
    binding ←
        (if not is_provisioned
            && not (is_some status.allocation)
            && (has_text spec.host_ref
                || is_some (elim spec.host_selector [ none ↦ none | some x ↦ x.match_labels ]))
          then recovered
          else pure status.allocation)
    if is_provisioned || (has_text spec.host_ref && not (is_some binding))
        then (do
          quarantine binding "LegacyOwnershipUnverified"
          blocked "Legacy host ownership is unverified; explicit recovery required")
        else succeed_and_release "CleanupNotRequired"
            "No remote mutation was recorded; host cleanup is not required" binding

  -- the remote cleanup, up to its receipt
  pub reset_host : HostLease → Exec Unit
  reset_host operation = do
    _ ← check_current env namespace name uid
    check_lease env operation
    result ← execute_owned env uid reset_command true
    lift (
        guard (succeeded result)
          (temporary (text ("Host cleanup failed (exit " ∷ exit_text result ∷ ")" ∷ [])) 30))
    record_cleanup "Succeeded" "CleanupCompleted" "Host cleanup completed"

  pub retry_finalization : Exec Unit
  retry_finalization =
      raise (temporary "Cleanup completed; retrying finalization without another reset" 30)

  -- the handler of a failed cleanup, where the receipt has not been confirmed
  pub after_failure : Exec Unit
  after_failure = do
    current ← call env.machine (get_machine namespace name)
    lift (
        guard (text_eq current.metadata.uid (some uid))
          (temporary "Machine identity changed during cleanup finalization" 15))
    if has_succeeded current.status.cleanup_phase
        then (do
          stage (λ p. record p { conditions = some current.status.conditions })
          retry_finalization)
        else (do
          quarantine status.allocation "CleanupFailed"
          record_cleanup "Failed" "CleanupFailed" incomplete
          raise (temporary incomplete 30))

  -- the end of the `try`: the flag says whether the receipt was confirmed before the exception
  pub finish : Binding → (confirmed : Bool) → Outcome Unit → Exec Unit
  finish binding confirmed (ok _) = release_cleaned_host (some binding)
  finish binding true (err e) = retry_finalization
  finish binding false (err e) = after_failure

  pub finish_all : Binding → Outcome (Outcome Unit × Outcome Unit) → Exec Unit
  finish_all binding (err e) = finish binding false (err e)
  finish_all binding (ok (result, closed)) =
      finish binding (confirmed result) (close_after result closed)

  -- the cleanup of a host that this Machine owns
  pub clean_host : Binding → Exec Unit
  clean_host binding = do
    set_host_phase env binding name namespace uid "Cleaning" ""
    record_cleanup "Running" "CleanupInProgress" "Host cleanup is in progress"
    outcomes ← attempt (
        host_operation env binding uid
          (λ operation. connected env binding namespace (reset_host operation)))
    finish_all binding outcomes

  -- a reboot whose outcome is open is observed, and the cleanup waits
  pub wait_for_reboot : Exec Unit
  wait_for_reboot = do
    stage_conditions
        (cleanup_conditions "WaitingForReboot" "Cleanup waits for a resolved reboot outcome" false)
    reconcile_reboot env spec status name namespace meta true
    raise (temporary "Cleanup waits for a resolved reboot outcome" 15)

  -- the fields of the ownership record that must be the allocation's
  abbrev same_target : Ownership → Binding → Bool
  same_target ownership binding =
      text_eq ownership.address binding.address
      && opt_eq nat_eq ownership.port (some binding.port)
      && text_eq ownership.host_uid binding.host_uid

  pub delete_target : Ownership → Binding → Exec Unit
  delete_target ownership binding =
      if not (text_eq ownership.machine_uid (some uid))
      then blocked "Cannot establish bootstrap ownership for cleanup"
      else if not (same_target ownership binding)
      then blocked "Cleanup target differs from bootstrap ownership"
      else if has_succeeded status.cleanup_phase
      then succeed_and_release "CleanupCompleted" "Host cleanup completed" (some binding)
      else if is_pending status.reboot
      then wait_for_reboot
      else clean_host binding

  -- the branch of a recorded bootstrap ownership
  pub delete_owned : Ownership → Option Binding → Exec Unit
  delete_owned ownership none = blocked "Cannot establish bootstrap ownership for cleanup"
  delete_owned ownership (some binding) = delete_target ownership binding

  abbrev is_foreign : Option Binding → Bool
  is_foreign none = false
  is_foreign (some binding) = not (text_eq binding.machine_uid (some uid))

  pub delete_by_ownership : Option Ownership → Exec Unit
  delete_by_ownership none = delete_unowned
  delete_by_ownership (some ownership) = delete_owned ownership status.allocation

  -- what follows the pause check
  pub delete_running : Exec Unit
  delete_running =
      if is_foreign status.allocation
      then blocked "Cannot delete a different Machine UID's allocation"
      else delete_by_ownership status.bootstrap_ownership

  pub delete_paused : Exec Unit
  delete_paused = do
    stage_conditions (
        cleanup_conditions "DeletionPaused" "Deletion is paused by CAPI"
          (has_succeeded status.cleanup_phase))
    raise (temporary "Deletion is paused by CAPI" 15)

-- `delete_machine(spec, status, name, namespace, meta, patch)`. The UID of the live object is there;
-- a missing one is the KeyError of `meta["uid"]`.
pub delete_machine :
    Env → MachineSpec → MachineStatus → (name namespace : String) → Meta → Exec Unit
delete_machine env spec status name namespace meta = do
  stage (λ p. record p { ready = some false })
  patch_conditions env status.conditions meta.generation (
      cleanup_conditions "Deleting" "Deletion is awaiting cleanup checks"
        (has_succeeded status.cleanup_phase))
  paused ←
      report_pause env status.conditions meta.generation (is_paused env spec.paused meta namespace)
  if paused then delete_paused env spec status name namespace meta "" else (do
    uid ← lift (required meta.uid)
    delete_running env spec status name namespace meta uid)
