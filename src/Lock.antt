-- ===== src/Lock.antt =====
-- capi_provider_ssh/controllers/sshmachine.py: the reconcile lock across processes, an annotation of
-- the SSHMachine, and the handler that runs under it (sshmachine_reconcile, sshmachine_delete).
pub mod Acquire
pub mod Quiet
pub mod RoundTrip
pub mod Delete
use capi_provider_ssh.Base.{
  ℕ, zero, suc, ◌+◌, String, Bool, true, false, not, ◌&&◌, ◌||◌, Option, none, some, or_else,
  has_text, truthy, get, ltb, nat_eq, ◌==◌, text_eq, List, [], ◌∷◌, if◌then◌else◌,
}
use capi_provider_ssh.Text.{Parts, rpartition, show}
use capi_provider_ssh.Text.Number.{ℤ, exceeds, parse_int}
use capi_provider_ssh.Shell.{text}
use capi_provider_ssh.Objects.{Meta, MachineSpec, MachineStatus, Machine}
use capi_provider_ssh.World.{
  Env, Error, temporary, api_exception, Outcome, ok, err, Exec, pure, raise, lift, attempt, gets,
  ◌>>=◌, ◌>>◌, call, get_machine, patch_machine_lock,
}
use capi_provider_ssh.Lifecycle.{delete_machine}

-- the module's settings, read once from the process environment, and the holder's identity
pub record LockSettings : Type 0 where
  pub enabled : Bool
  pub ttl_seconds : ℕ
  pub retry_delay : ℕ
  pub holder : String

abbrev pub lock_annotation : String
lock_annotation = "infrastructure.cluster.x-k8s.io/reconcile-lock"

-- `max(30, ttl)`
abbrev pub at_least_30 : ℕ → ℕ
at_least_30 n = if ltb 30 n then n else 30

-- `_distributed_reconcile_lock_value(holder, expires_epoch)`
unfoldable pub lock_value : (holder : String) (expires_epoch : ℕ) → String
lock_value holder expires_epoch = text (holder ∷ "|" ∷ show expires_epoch ∷ [])

abbrev expiry : String → Option ℤ → Option (String × ℤ)
expiry holder none = none
expiry holder (some n) = some (holder, n)

abbrev lock_parts : Parts → Option (String × ℤ)
lock_parts p = if p.found && truthy p.before then expiry p.before (parse_int p.after) else none

-- `_parse_distributed_reconcile_lock_value(value)`
unfoldable pub parse_lock : Option String → Option (String × ℤ)
parse_lock none = none
parse_lock (some value) = if truthy value then lock_parts (rpartition b'|' value) else none

-- a lock of another holder that has not expired
abbrev pub is_foreign_lock : (holder : String) (now : ℕ) → Option (String × ℤ) → Bool
is_foreign_lock holder now none = false
is_foreign_lock holder now (some (other, expires)) = not (other == holder) && exceeds expires now

abbrev pub lock_of : Machine → Option (String × ℤ)
lock_of obj = parse_lock (get obj.metadata.annotations lock_annotation)

-- the handlers of the lock's write: a conflict takes the next turn of the loop
unfoldable pub written : {A : Type 0} → (gone : Bool) → (next : Exec Bool) → Outcome A → Exec Bool
written gone next (ok _) = pure true
written gone next (err (api_exception status)) =
    if nat_eq status 409
    then next
    else if nat_eq status 404
    then pure gone
    else raise (api_exception status)
written gone next (err e) = raise e

-- a lock without a value is free, and another's is left
abbrev is_own_lock : (holder : String) → (String × ℤ) → Bool
is_own_lock holder (other, _) = other == holder

module _ (env : Env) (settings : LockSettings) (namespace name : String) where
  -- one turn of the loop, before the next ones
  unfoldable pub acquire_turn : (next : Exec Bool) → Exec Bool
  acquire_turn next = do
    obj ← call env.machine (get_machine namespace name)
    if not (has_text obj.metadata.resource_version) then pure false else (do
      now ← gets (λ s. env.seconds s.trace)
      if is_foreign_lock settings.holder now (lock_of obj) then pure false else (do
        reply ← attempt (
            call env.machine (
              patch_machine_lock namespace name (or_else obj.metadata.resource_version "")
                (some (lock_value settings.holder (now + at_least_30 settings.ttl_seconds)))))
        written false next reply))

  unfoldable pub acquire_turns : (turns : ℕ) → Exec Bool
  acquire_turns zero = pure false
  acquire_turns (suc n) = acquire_turn (acquire_turns n)

  -- `_acquire_distributed_reconcile_lock(namespace, name)`
  unfoldable pub acquire_lock : Exec Bool
  acquire_lock = if settings.enabled then acquire_turns 5 else pure true

  release_own : Exec Bool → Machine → Option (String × ℤ) → Exec Bool
  release_own next obj none = pure true
  release_own next obj (some lock) =
      if is_own_lock settings.holder lock
      then (do
        reply ← attempt (
            call env.machine
              (patch_machine_lock namespace name (or_else obj.metadata.resource_version "") none))
        written true next reply)
      else pure false

  -- the object that the release reads; a deleted one needs no release
  release_found : Exec Bool → Outcome Machine → Exec Bool
  release_found next (err (api_exception status)) =
      if nat_eq status 404 then pure true else raise (api_exception status)
  release_found next (err e) = raise e
  release_found next (ok obj) =
      if not (has_text obj.metadata.resource_version)
      then pure false
      else release_own next obj (lock_of obj)

  release_turn : (next : Exec Bool) → Exec Bool
  release_turn next = do
    obj ← attempt (call env.machine (get_machine namespace name))
    release_found next obj

  pub release_turns : (turns : ℕ) → Exec Bool
  release_turns zero = pure false
  release_turns (suc n) = release_turn (release_turns n)

  -- `_release_distributed_reconcile_lock(namespace, name)`
  pub release_lock : Exec Bool
  release_lock = if settings.enabled then release_turns 5 else pure true

  lock_or_requeue : (operation : String) → Outcome Bool → Exec Unit
  lock_or_requeue operation (err e) = raise (
      temporary
        (text (
          "distributed reconcile lock acquisition failed during "
          ∷ operation
          ∷ ": "
          ∷ env.error_text e
          ∷ []))
        settings.retry_delay)
  lock_or_requeue operation (ok acquired) =
      if acquired
      then pure tt
      else raise (
          temporary
            (text
              ("distributed reconcile lock is held by another controller during " ∷ operation ∷ []))
            settings.retry_delay)

  -- `_acquire_distributed_lock_or_requeue(namespace, name, operation)`
  pub acquire_lock_or_requeue : (operation : String) → Exec Unit
  acquire_lock_or_requeue operation = do
    reply ← attempt acquire_lock
    lock_or_requeue operation reply

  -- `_release_distributed_lock_with_logging`: no exception leaves it
  pub release_lock_with_logging : Exec Unit
  release_lock_with_logging = do _ ← attempt release_lock; pure tt

  -- `_read_current_sshmachine(namespace, name)` with the `try` around its call
  current_machine : Outcome Machine → Exec (Option Machine)
  current_machine (ok obj) = pure (some obj)
  current_machine (err e) =
      if elim e [ api_exception status ↦ nat_eq status 404 | _ ↦ false ]
      then pure none
      else raise (
          temporary
            (text (
              "failed to refresh live SSHMachine state under reconcile lock: "
              ∷ env.error_text e
              ∷ []))
            15)

  pub read_current_sshmachine : Exec (Option Machine)
  read_current_sshmachine = do
    reply ← attempt (call env.machine (get_machine namespace name))
    current_machine reply

  -- the action of the handler, on the live object
  abbrev pub Action : Type 0
  Action = MachineSpec → MachineStatus → Meta → Exec Unit

  on_live : Action → (event_uid : Option String) → Option Machine → Exec Unit
  on_live act event_uid none = pure tt
  on_live act event_uid (some latest) =
      if has_text latest.metadata.uid && not (text_eq event_uid latest.metadata.uid)
      then pure tt
      else act latest.spec latest.status latest.metadata

  -- the body under the lock: a stale event is dropped, and the action takes the live state
  pub refreshed : Action → MachineSpec → MachineStatus → Meta → Exec Unit
  refreshed act spec status meta =
      if has_text meta.uid
      then (do latest ← read_current_sshmachine; on_live act meta.uid latest)
      else act spec status meta

  -- `sshmachine_reconcile` around its action
  pub serialized : Action → MachineSpec → MachineStatus → Meta → Exec Unit
  serialized act spec status meta = do
    acquire_lock_or_requeue "reconcile"
    result ← attempt (refreshed act spec status meta)
    release_lock_with_logging
    lift result

  -- `sshmachine_delete`
  pub sshmachine_delete : MachineSpec → MachineStatus → Meta → Exec Unit
  sshmachine_delete =
      serialized (λ spec status meta. delete_machine env spec status name namespace meta)
