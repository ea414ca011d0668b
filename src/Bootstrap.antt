-- ===== src/Bootstrap.antt =====
-- The durable bootstrap job (capi_provider_ssh/operations.py: durable_bootstrap), and the Secrets that
-- a bootstrap reads (capi_provider_ssh/controllers/sshmachine.py: _read_bootstrap_data,
-- _read_secret_value).
pub mod Local
pub mod Quiet
pub mod Observe
pub mod Rounds
use capi_provider_ssh.Base.{
  ℕ, zero, suc, ◌+◌, String, code, Bool, true, false, not, [], ◌∷◌, Option, none, some, or_else,
  has_text, Dict, get, ltb, nat_eq, ◌==◌, if◌then◌else◌,
}
use capi_provider_ssh.Text.{partition}
use capi_provider_ssh.Text.Number.{ℤ, int_is, parse_int}
use capi_provider_ssh.Shell.{text, quote}
use capi_provider_ssh.Objects.{CapiObject}
use capi_provider_ssh.World.{
  remote, sleep, ◌>>◌, Env, Error, temporary, api_exception, Outcome, ok, err, Exec, pure, raise,
  lift, attempt, gets, ◌>>=◌, call, SshResult, execute_ssh, get_capi_object, read_secret,
}
use capi_provider_ssh.Inventory.{required}
use capi_provider_ssh.Operations.{owner_path}
use capi_provider_ssh.Fence.{owned_command}
use capi_provider_ssh.Reboot.{succeeded}
use capi_provider_ssh.Probe.{read_ssh_key}

abbrev started : String
started = "/var/lib/capi-provider-ssh/bootstrap-started"

abbrev receipt_path : String
receipt_path = "/var/lib/capi-provider-ssh/bootstrap-exit-code"

abbrev output_path : String
output_path = "/var/lib/capi-provider-ssh/bootstrap-output"

-- the shell text of the job: once per receipt, never again after an interruption
bootstrap_job : (path command : String) → String
bootstrap_job path command = text (
    "if test -f "
    ∷ receipt_path
    ∷ "; then rm -f "
    ∷ quote path
    ∷ "; exit 0; fi; if test -f "
    ∷ started
    ∷ "; then printf '%s\\n' 'Bootstrap process interrupted; cleanup/replacement required' > "
    ∷ output_path
    ∷ "; printf '123\\n' > "
    ∷ receipt_path
    ∷ "; rm -f "
    ∷ quote path
    ∷ "; exit 0; fi; umask 077; touch "
    ∷ started
    ∷ "; set +e; ("
    ∷ command
    ∷ ") > "
    ∷ output_path
    ∷ " 2>&1; result=$?; printf '%s\\n' \"$result\" > "
    ∷ receipt_path
    ∷ ".tmp; mv "
    ∷ receipt_path
    ∷ ".tmp "
    ∷ receipt_path
    ∷ [])

pub observe_command : (uid : String) → String
observe_command uid = text (
    "test \"$(cat "
    ∷ quote owner_path
    ∷ ")\" = "
    ∷ quote uid
    ∷ " || exit 78; if test -f "
    ∷ receipt_path
    ∷ "; then printf 'CAPI_EXIT='; cat "
    ∷ receipt_path
    ∷ "; tail -c 8192 "
    ∷ output_path
    ∷ "; else printf 'CAPI_PENDING\\n'; fi"
    ∷ [])

-- `s.startswith(prefix)` with `s.removeprefix(prefix)`
pub drop_prefix : (prefix s : String) → Option String
drop_prefix String.[] s = some s
drop_prefix (String.◌∷◌ p ps) String.[] = none
drop_prefix (String.◌∷◌ p ps) (String.◌∷◌ x s) =
    let rest = drop_prefix ps s in if nat_eq (code p) (code x) then rest else none

-- `SSHResult(code, log if code == 0 else "", log if code != 0 else "")`, or the ValueError
pub receipt_result : Option ℤ → (log : String) → Outcome SshResult
receipt_result none log = err (temporary "Invalid bootstrap receipt; refusing replay" 15)
receipt_result (some code) log = ok (record {
  exit_code = code;
  stdout = if int_is 0 code then log else "";
  stderr = if int_is 0 code then "" else log;
})

abbrev pub found_result : Outcome SshResult → Outcome (Option SshResult)
found_result (err e) = err e
found_result (ok result) = ok (some result)

-- what one observation gives: an exit receipt, or none while the job is pending
pub observed : (pending : Bool) (log : String) → Option String → Outcome (Option SshResult)
observed pending log (some exit) = found_result (receipt_result (parse_int exit) log)
observed pending log none =
    if pending then ok none else err (temporary "Unrecognized bootstrap state; refusing replay" 15)

-- what the answer to an observation gives
pub turn_result : SshResult → Outcome (Option SshResult)
turn_result result =
    let parts = partition 10 result.stdout in
    if not (succeeded result)
    then err (temporary "Cannot observe the UID-owned bootstrap job" 15)
    else observed (parts.before == "CAPI_PENDING") parts.after
        (drop_prefix "CAPI_EXIT=" parts.before)

abbrev pub still_running : Error
still_running = temporary "Bootstrap is still running; observe its receipt on retry" 15

module _ (env : Env) where
  -- the body of the loop, up to the sleep
  pub observe_turn : (uid : String) → Exec (Option SshResult)
  observe_turn uid = do
    result ← remote env.ssh (execute_ssh (observe_command uid))
    lift (turn_result result)

  -- the end of the body: `return`, or `await asyncio.sleep(2)` and the loop again
  observe_again : (next : Exec SshResult) → Option SshResult → Exec SshResult
  observe_again next (some result) = pure result
  observe_again next none = do sleep 2; next

  -- one round of the loop
  observe_before : (uid : String) (deadline : ℕ) → (next : Exec SshResult) → Exec SshResult
  observe_before uid deadline next = do
    now ← gets (λ s. env.seconds s.trace)
    if ltb now deadline
        then (do found ← observe_turn uid; observe_again next found)
        else raise still_running

  -- the loop up to the deadline, by rounds
  unfoldable pub observe_until : (uid : String) (deadline rounds : ℕ) → Exec SshResult
  unfolding receipt_result observed turn_result observe_turn observe_again observe_before
      observe_command drop_prefix
  observe_until uid deadline zero = raise still_running
  observe_until uid deadline (suc rounds) =
      observe_before uid deadline (observe_until uid deadline rounds)

  -- `durable_bootstrap(conn, uid, path, command, timeout=timeout)`
  pub durable_bootstrap : (uid path command : String) (timeout : ℕ) → Exec SshResult
  durable_bootstrap uid path command timeout = do
    owned ← lift (owned_command uid (bootstrap_job path command) false false true)
    submitted ←
        remote env.ssh
          (execute_ssh (text ("nohup " ∷ owned ∷ " </dev/null >/dev/null 2>&1 &" ∷ [])))
    if not (succeeded submitted)
        then raise (temporary "Cannot submit the fenced bootstrap job" 15)
        else (do now ← gets (λ s. env.seconds s.trace); observe_until uid (now + timeout) timeout)

  -- `_read_secret_value(namespace, secret_name, secret_key)`, which is `_read_ssh_key` once more
  pub read_secret_value : (namespace secret_name secret_key : String) → Exec String
  read_secret_value namespace secret_name secret_key =
      read_ssh_key env namespace secret_name secret_key

  -- a missing object is none
  pub if_found : {A : Type 0} → Outcome A → Exec (Option A)
  if_found (ok a) = pure (some a)
  if_found (err (api_exception status)) =
      if nat_eq status 404 then pure none else raise (api_exception status)
  if_found (err e) = raise e

  secret_entry : Option String → Exec (Option String)
  secret_entry none = pure none
  secret_entry (some encoded) = do
    value ← lift (required (env.b64decode encoded))
    pure (some value)

  secret_value : Option (Option (Dict String)) → Exec (Option String)
  secret_value none = pure none
  secret_value (some entries) = secret_entry (get (or_else entries []) "value")

  read_data : (namespace : String) → Option CapiObject → Exec (Option String)
  read_data namespace none = pure none
  read_data namespace (some machine) =
      if has_text machine.data_secret_name
      then (do
        reply ←
            attempt (call env.secret (read_secret namespace (or_else machine.data_secret_name "")))
        found ← if_found reply
        secret_value found)
      else pure none

  -- `_read_bootstrap_data(namespace, machine_name)`
  pub read_bootstrap_data : (namespace machine_name : String) → Exec (Option String)
  read_bootstrap_data namespace machine_name = do
    reply ←
        attempt (call env.capi_object (get_capi_object "machines" namespace machine_name "v1beta1"))
    found ← if_found reply
    read_data namespace found
