-- ===== src/Reboot.antt =====
-- capi_provider_ssh/lifecycle.py: the reboot request, persisted before it is submitted and never
-- replayed (reconcile_reboot).
pub mod Quiet
pub mod Replay
use capi_provider_ssh.Base.{
  ℕ, suc, ◌+◌, String, code, Bool, true, false, not, ◌&&◌, ◌||◌, List, [], ◌∷◌, Option, none, some,
  or_else, has_text, is_true, text_eq, opt_eq, nat_eq, leb, any, all, if◌then◌else◌,
}
use capi_provider_ssh.Text.{codes, strip, show}
use capi_provider_ssh.Shell.{text}
use capi_provider_ssh.Objects.{Meta, Binding, Ownership, Reboot, MachineSpec, MachineStatus}
use capi_provider_ssh.World.{
  Env, Error, temporary, Outcome, ok, err, guard, Exec, pure, raise, lift, attempt, gets, stage,
  ◌>>=◌, ◌>>◌, no_changes, SshResult,
}
use capi_provider_ssh.Text.Number.{int_is}
use capi_provider_ssh.Value.{show_int}
use capi_provider_ssh.Contracts.{is_paused, persist_machine_status}
use capi_provider_ssh.Inventory.{required}
use capi_provider_ssh.Allocation.{bind_machine}
use capi_provider_ssh.Operations.{HostLease, host_operation, check_lease}
use capi_provider_ssh.Remote.{with_connection, check_current, execute_owned}

abbrev pub succeeded : SshResult → Bool
succeeded result = int_is 0 result.exit_code

abbrev pub exit_text : SshResult → String
exit_text result = show_int result.exit_code

is_boot_code : ℕ → Bool
is_boot_code c =
    leb b'0' c && leb c b'9'
    || leb b'a' c && leb c b'f'
    || leb b'A' c && leb c b'F'
    || nat_eq c b'-'

length : List ℕ → ℕ
length [] = 0
length (x ∷ xs) = suc (length xs)

-- `re.fullmatch(r"[0-9a-fA-F-]{36}", boot_id)`
unfoldable pub is_boot_id : String → Bool
unfolding is_boot_code length
is_boot_id s = nat_eq (length (codes s)) 36 && all is_boot_code (codes s)

abbrev pub is_phase : Option Reboot → List String → Bool
is_phase none phases = false
is_phase (some r) phases = any (λ p. text_eq r.phase (some p)) phases

abbrev pub is_pending : Option Reboot → Bool
is_pending reboot = is_phase reboot ("Prepared" ∷ "Submitted" ∷ "Unknown" ∷ [])

abbrev pub last_requested : Option Reboot → Option String
last_requested none = none
last_requested (some r) = r.last_requested_at

abbrev pub no_reboot : Reboot
no_reboot = record {
  last_requested_at = none;
  phase = none;
  previous_boot_id = none;
  started_at = none;
  success = false;
  last_completed_at = none;
  observed_boot_id = none;
  message = "";
}

abbrev pub completed : Reboot → (now boot_id : String) → Reboot
completed previous now boot_id = record previous {
  phase = some "Succeeded";
  success = true;
  last_completed_at = some now;
  observed_boot_id = some boot_id;
  message = "A new host boot ID was observed";
}

abbrev pub unobserved : Reboot → Reboot
unobserved previous = record previous {
  phase = some "Unknown";
  success = false;
  message = "No new boot observed; request will not be replayed automatically";
}

abbrev pub prepared : (requested now boot_id : String) → Reboot
prepared requested now boot_id = record {
  last_requested_at = some requested;
  phase = some "Prepared";
  previous_boot_id = some boot_id;
  started_at = some now;
  success = false;
  last_completed_at = none;
  observed_boot_id = none;
  message = "Reboot intent persisted before command submission";
}

abbrev pub reboot_command : String
reboot_command = "nohup sh -c 'sleep 2; (systemctl reboot || reboot)' >/dev/null 2>&1 &"

abbrev pub boot_id_command : String
boot_id_command = "cat /proc/sys/kernel/random/boot_id"

-- the request that this run is about
abbrev pub request_of : MachineSpec → Option Reboot → (observe_only : Bool) → Option String
request_of spec previous observe_only =
    if observe_only then last_requested previous else spec.reboot_requested_at

module _ (env : Env) where
  -- `write_reboot(namespace, name, uid, patch, state)`
  pub write_reboot : (namespace name uid : String) → Reboot → Exec Unit
  write_reboot namespace name uid state = do
    _ ← persist_machine_status env namespace name uid (record no_changes { reboot = some state })
    stage (λ p. record p { reboot = some state })

  pub observe_boot : (uid : String) → Exec String
  observe_boot uid = do
    observed ← execute_owned env uid boot_id_command false
    let boot_id = strip observed.stdout
    lift (
        guard (succeeded observed && is_boot_id boot_id)
          (temporary "Cannot establish host boot identity" 15))
    pure boot_id

  -- `age >= 300` for a request that is still pending
  pub still_waiting : (namespace name uid : String) → Reboot → Exec Unit
  still_waiting namespace name uid previous = do
    stamp ← lift (required previous.started_at)
    started ← lift (required (env.parse_iso stamp))
    now ← gets (λ s. env.seconds s.trace)
    if leb (started + 300) now
        then write_reboot namespace name uid (unobserved previous)
        else raise (temporary "Waiting to observe the requested host reboot" 15)

  -- what the command's outcome leaves in the status
  pub record_submission : (namespace name uid : String) → Reboot → Outcome SshResult → Exec Unit
  record_submission namespace name uid state (err e) = do
    write_reboot namespace name uid (record state {
      phase = some "Unknown";
      message = "Command outcome unknown; observe boot ID before retrying";
    })
    raise (temporary "Reboot submission outcome is unknown" 15)
  record_submission namespace name uid state (ok result) = write_reboot namespace name uid (
      if succeeded result
      then record state {
        phase = some "Submitted";
        message = "Reboot submitted; completion not yet observed";
      }
      else record state {
        phase = some "Failed";
        message = text ("Reboot command rejected (exit " ∷ exit_text result ∷ ")" ∷ []);
      })

  -- the intent, the lease once more, the command and its outcome
  pub submit_reboot : (namespace name uid requested boot_id : String) → HostLease → Exec Unit
  submit_reboot namespace name uid requested boot_id operation = do
    now ← gets (λ s. env.iso s.trace)
    let state = prepared requested now boot_id
    write_reboot namespace name uid state
    check_lease env operation
    result ← attempt (execute_owned env uid reboot_command false)
    record_submission namespace name uid state result

  -- the tests between the observation and the submission; `some` is the early return
  pub resolve_pending :
      (namespace name uid boot_id : String) → Reboot → (same_request : Bool) → Exec Bool
  resolve_pending namespace name uid boot_id previous same_request =
      if not (text_eq (some boot_id) previous.previous_boot_id)
      then (do
        now ← gets (λ s. env.iso s.trace)
        write_reboot namespace name uid (completed previous now boot_id)
        pure true)
      else if same_request
      then (do still_waiting namespace name uid previous; pure true)
      else if not (text_eq previous.phase (some "Unknown"))
      then raise (temporary "A previous reboot is still in progress" 15)
      else pure false

  -- the body of the host operation
  pub reboot_operation :
      (namespace name uid requested : String)
      → Option Reboot
      → (observe_only : Bool) → HostLease
      → Exec Unit
  reboot_operation namespace name uid requested previous observe_only operation = do
    _ ← check_current env namespace name uid
    check_lease env operation
    boot_id ← observe_boot uid
    resolved ←
        (if is_pending previous
          then resolve_pending namespace name uid boot_id (or_else previous no_reboot)
              (text_eq (last_requested previous) (some requested))
          else pure false)
    if resolved || observe_only
        then pure tt
        else submit_reboot namespace name uid requested boot_id operation

  abbrev may_reboot : MachineStatus → (uid : String) → Bool
  may_reboot status uid =
      text_eq (elim status.bootstrap_ownership [ none ↦ none | some o ↦ o.machine_uid ]) (some uid)
      && is_true status.provisioned

  pub reboot_requested :
      MachineSpec
      → MachineStatus
      → (name namespace uid requested : String) → (observe_only : Bool) → Exec Unit
  reboot_requested spec status name namespace uid requested observe_only = do
    lift (
        guard (may_reboot status uid)
          (temporary "Reboot requires a provisioned, UID-owned allocation" 15))
    binding ← bind_machine env spec status name namespace uid
    if text_eq (last_requested status.reboot) (some requested)
          && is_phase status.reboot ("Succeeded" ∷ "Failed" ∷ [])
        then pure tt
        else host_operation env binding uid (λ operation.
          with_connection env binding namespace
            (reboot_operation namespace name uid requested status.reboot observe_only operation))

  -- `reconcile_reboot(spec, status, name, namespace, meta, patch, observe_only=...)`
  pub reconcile_reboot :
      MachineSpec
      → MachineStatus
      → (name namespace : String) → Meta
      → (observe_only : Bool) → Exec Unit
  reconcile_reboot spec status name namespace meta observe_only =
      let requested = request_of spec status.reboot observe_only in
      if not (has_text requested) then pure tt else (do
        paused ← is_paused env spec.paused meta namespace
        if paused || (is_true spec.dry_run && not observe_only) then pure tt else (do
          uid ← lift (required meta.uid)
          reboot_requested spec status name namespace uid (or_else requested "") observe_only))
