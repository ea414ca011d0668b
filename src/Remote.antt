-- ===== src/Remote.antt =====
-- capi_provider_ssh/lifecycle.py: the connection of a binding and the check of the live object
-- before remote work.
pub mod Local
pub mod Quiet
pub mod Receipt
use capi_provider_ssh.Base.{
  String, Bool, not, Option, none, some, or_else, has_text, text_eq, get, if◌then◌else◌,
}
use capi_provider_ssh.Objects.{Binding, Machine}
use capi_provider_ssh.World.{
  remote, Env, permanent, temporary, guard, Exec, pure, raise, lift, ◌>>=◌, ◌>>◌, call, SshResult,
  get_machine, read_secret, connect_ssh, execute_ssh, close_ssh, attempt, Outcome, ok, err,
}
use capi_provider_ssh.Contracts.{is_paused, read_known_hosts}
use capi_provider_ssh.Inventory.{required}
use capi_provider_ssh.Fence.{owned_command}

-- whether the body of a `try` ended without an exception
abbrev pub confirmed : Outcome Unit → Bool
confirmed (ok _) = Bool.true
confirmed (err _) = Bool.false

-- the way out of `async with ... as conn`: an exception of the close replaces the body's
unfoldable pub close_after : {A : Type 0} → Outcome A → Outcome Unit → Outcome A
close_after result (ok _) = result
close_after result (err e) = err e

module _ (env : Env) where
  -- `connect(binding, namespace)`; a missing entry of the Secret is a KeyError or TypeError
  pub connect : Binding → (namespace : String) → Exec Unit
  connect binding namespace =
      if not (has_text binding.ssh_key_ref.name)
      then raise (permanent "Allocated target has no SSH key reference")
      else (do
        entries ← call env.secret (read_secret namespace (or_else binding.ssh_key_ref.name ""))
        values ← lift (required entries)
        encoded ← lift (required (get values (or_else binding.ssh_key_ref.key "value")))
        _ ← lift (required (env.b64decode_strict encoded))
        _ ← read_known_hosts env namespace binding.ssh_host_key_ref
        remote env.unit (connect_ssh binding.address binding.port binding.user))

  -- `check_current(namespace, name, uid)`
  pub check_current : (namespace name uid : String) → Exec Machine
  check_current namespace name uid = do
    current ← call env.machine (get_machine namespace name)
    lift (
        guard (text_eq current.metadata.uid (some uid))
          (temporary "Machine identity changed before remote execution" 15))
    paused ← is_paused env current.spec.paused current.metadata namespace
    if paused then raise (temporary "Machine operation is paused by CAPI" 15) else pure current

  -- `conn.execute(owned_command(uid, command, cleaned_retry=...))`
  unfoldable pub execute_owned : (uid command : String) → (cleaned_retry : Bool) → Exec SshResult
  execute_owned uid command cleaned_retry = do
    owned ← lift (owned_command uid command Bool.false cleaned_retry Bool.false)
    remote env.ssh (execute_ssh owned)

  close_connection : Exec Unit
  close_connection = remote env.unit close_ssh

  -- the body of `async with await connect(...) as conn`, and then the close, with both outcomes
  pub connected :
      {A : Type 0} → Binding → (namespace : String) → Exec A → Exec (Outcome A × Outcome Unit)
  connected binding namespace body = do
    connect binding namespace
    result ← attempt body
    closed ← attempt close_connection
    pure (result, closed)

  pub with_connection : {A : Type 0} → Binding → (namespace : String) → Exec A → Exec A
  with_connection binding namespace body = do
    both ← connected binding namespace body
    lift (close_after both.0 both.1)
