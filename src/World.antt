-- ===== src/World.antt =====
-- How a handler runs. The Kubernetes API server, SSH, the clock and base64 are not code of the
-- provider: an `Env` answers each request as any function of all that happened before it, so it
-- stands for every server state, race, conflict, failure and time. A handler is an action that
-- extends the history of requests and the staged kopf patch, and returns or raises.
pub mod Trace
pub mod Wp
pub mod Order
pub mod Claims
pub mod Remote
pub mod Returns
use capi_provider_ssh.Base.{
  ℕ, String, Bool, true, false, List, [], ◌∷◌, Option, Dict, ◌≡◌, refl, ap, ◌⊎◌, inl, inr, none,
  some,
}
use capi_provider_ssh.Objects.{
  SecretRef, ConsumerRef, Condition, Binding, Connection, Ownership, Reboot, Diagnostics, Host,
  Machine, CapiObject,
}
use capi_provider_ssh.Text.Number.{ℤ}
use capi_provider_ssh.Value.{Value, Values, Parsed}

-- What is raised: kopf's two errors with their texts and delay, the API client's error with its
-- status, asyncio's TimeoutError, and any other exception.
pub data Error : Type 0 where
  permanent : String → Error
  temporary : String → ℕ → Error
  api_exception : ℕ → Error
  timeout_error : Error
  other_error : Error

pub data Outcome (A : Type 0) : Type 0 where
  ok : A → Outcome A
  err : Error → Outcome A

abbrev value : {A : Type 0} → A → Outcome A → A
value d (ok a) = a
value d (err _) = d

pub ok-injective : {A : Type 0} {a b : A} → ok a ≡ ok b → a ≡ b
ok-injective {a} e = ap (value a) e

pub err-ne-ok : {A : Type 0} {e : Error} {a : A} → err e ≡ ok a → ⊥
err-ne-ok h = cc

-- `if not b: raise e`
abbrev pub guard : Bool → Error → Outcome Unit
guard true e = ok tt
guard false e = err e

pub guard-true : (b : Bool) (e : Error) {u : Unit {0}} → guard b e ≡ ok u → b ≡ true
guard-true true e h = refl
guard-true false e h = cc

-- The answer to one request of the SDK or of SSH. `transport` is urllib3's HTTPError or an OSError;
-- `timed_out` is a TimeoutError, which is an OSError too.
pub data Reply (A : Type 0) : Type 0 where
  answered : A → Reply A
  refused : ℕ → Reply A
  transport : Reply A
  timed_out : Reply A
  crashed : Reply A

-- The keys of a status patch of an SSHMachine; `none` is a key that the patch leaves out.
pub record Changes : Type 0 where
  pub ready : Option Bool
  pub cleanup_phase : Option String
  pub conditions : Option (List Condition)
  pub allocation : Option Binding
  pub bootstrap_ownership : Option Ownership
  pub reboot : Option Reboot

abbrev pub no_changes : Changes
no_changes = record {
  ready = none;
  cleanup_phase = none;
  conditions = none;
  allocation = none;
  bootstrap_ownership = none;
  reboot = none;
}

-- A Lease object, times in seconds.
pub record Lease : Type 0 where
  pub holder_identity : Option String
  pub renew_time : Option ℕ
  pub acquire_time : Option ℕ
  pub lease_duration_seconds : Option ℕ
  pub resource_version : Option String

-- `SSHResult`; the wrapper gives -1 where SSH reports no exit code
pub record SshResult : Type 0 where
  pub exit_code : ℤ
  pub stdout : String
  pub stderr : String

-- The requests: reads, writes with their bodies and fences, leases, remote work, and the time to sleep.
pub data Request : Type 0 where
  get_machine : (namespace name : String) → Request
  get_host : (namespace name : String) → Request
  get_capi_object : (plural namespace name version : String) → Request
  list_hosts : (namespace : String) → Request
  read_secret : (namespace name : String) → Request
  patch_machine_spec :
      (namespace name uid : String) (resource_version : Option String) (selected : Connection)
      (host_ref : Option String)
      → Request
  patch_machine_status :
      (namespace name uid : String) (resource_version : Option String) (changes : Changes) → Request
  -- `annotations: {reconcile-lock: value}`; `none` removes the annotation
  patch_machine_lock :
      (namespace name : String) (resource_version : String) (value : Option String) → Request
  patch_consumer :
      (namespace name : String) (uid resource_version : Option String) (ref : Option ConsumerRef)
      → Request
  patch_host_phase :
      (namespace name : String) (uid resource_version : Option String) (phase : String)
      (in_use : Bool) (cleanup_reason : String)
      → Request
  read_lease : (name : String) → Request
  create_lease : (name : String) (lease : Lease) → Request
  replace_lease : (name : String) (lease : Lease) → Request
  connect_ssh : (address : Option String) (port : ℕ) (user : String) → Request
  execute_ssh : (command : String) → Request
  upload_ssh : (path content : String) → Request
  close_ssh : Request
  sleep_for : (seconds : ℕ) → Request

-- A request that was made, and whether it was answered without an error.
pub record Event : Type 0 where
  pub request : Request
  pub done : Bool

-- The history, the latest event first.
abbrev pub Trace : Type 0
Trace = List Event

pub record Env : Type 0 where
  pub machine : Trace → Request → Reply Machine
  pub host : Trace → Request → Reply Host
  pub capi_object : Trace → Request → Reply CapiObject
  pub hosts : Trace → Request → Reply (List Host)
  -- the Secret's data; `none` where it has none
  pub secret : Trace → Request → Reply (Option (Dict String))
  pub lease : Trace → Request → Reply Lease
  pub unit : Trace → Request → Reply (Unit {0})
  pub ssh : Trace → Request → Reply SshResult
  -- the time, in seconds and as `datetime.now(UTC).isoformat()`
  pub seconds : Trace → ℕ
  pub iso : Trace → String
  -- the seconds of an ISO text, `none` where `fromisoformat` raises
  pub parse_iso : String → Option ℕ
  -- base64, then UTF-8; `none` where decoding raises
  pub b64decode : String → Option String
  -- the same, with `validate=True`, and the inverse from UTF-8
  pub b64decode_strict : String → Option String
  pub b64encode : String → String
  -- yaml.safe_load, safe_load_all, safe_dump and safe_dump_all, these with `sort_keys=False`
  pub yaml_load : String → Parsed Value
  pub yaml_load_all : String → Parsed (List Value)
  pub yaml_dump : Value → String
  pub yaml_dump_all : List Value → String
  -- the first forty hexadecimal digits of SHA-256 of the text with these code points
  pub sha256 : List ℕ → String
  -- `str(e)` of an exception
  pub error_text : Error → String
  -- `uuid.uuid4()`, fresh for each call
  pub uuid : Trace → String

-- The staged `kopf.Patch`: `none` is a key that is not staged, `some none` one that is set to null.
pub record Patch : Type 0 where
  pub provider_id : Option String
  -- the five connection fields, staged together
  pub connection : Option Connection
  pub host_ref : Option String
  pub ready : Option Bool
  pub provisioned : Option Bool
  pub conditions : Option (List Condition)
  pub cleanup_phase : Option String
  pub allocation : Option Binding
  pub bootstrap_ownership : Option Ownership
  pub reboot : Option Reboot
  pub failure_reason : Option (Option String)
  pub failure_message : Option (Option String)
  pub bootstrap_diagnostics : Option (Option Diagnostics)
  -- the address of the one entry of `status.addresses`, an InternalIP
  pub internal_ip : Option String

abbrev pub no_patch : Patch
no_patch = record {
  provider_id = none;
  connection = none;
  host_ref = none;
  ready = none;
  provisioned = none;
  conditions = none;
  cleanup_phase = none;
  allocation = none;
  bootstrap_ownership = none;
  reboot = none;
  failure_reason = none;
  failure_message = none;
  bootstrap_diagnostics = none;
  internal_ip = none;
}

pub record State : Type 0 where
  pub trace : Trace
  pub patch : Patch

abbrev pub initial : State
initial = record { trace = []; patch = no_patch }

-- What was done before a raise stays done, so the state comes back beside the error too.
abbrev pub Exec : Type 0 → Type 0
Exec A = State → Outcome A × State

module _ {A : Type 0} where
  unfoldable pub pure : A → Exec A
  pure a s = (ok a, s)

  unfoldable pub raise : Error → Exec A
  raise e s = (err e, s)

  unfoldable pub lift : Outcome A → Exec A
  lift r s = (r, s)

  -- `try: m; except Exception`, with the outcome as a value
  unfoldable pub attempt : Exec A → Exec (Outcome A)
  attempt m s = let (r, s') = m s in (ok r, s')

unfoldable pub gets : {A : Type 0} → (State → A) → Exec A
gets f s = (ok (f s), s)

-- A change of the staged patch.
unfoldable pub stage : (Patch → Patch) → Exec Unit
stage f s = (ok tt, record s { patch = f s.patch })

abbrev pub continue : {A B : Type 0} → Outcome A → (A → Exec B) → Exec B
continue (ok a) f s = f a s
continue (err e) f s = (err e, s)

infixl 5 ◌>>=◌ ◌>>◌
unfoldable pub ◌>>=◌ : {A B : Type 0} → Exec A → (A → Exec B) → Exec B
unfolding pure raise lift attempt gets stage
◌>>=◌ m f s = let (r, s') = m s in continue r f s'

abbrev pub ◌>>◌ : {B : Type 0} → Exec Unit → Exec B → Exec B
m >> k = m >>= λ _. k

pub replied : {A : Type 0} → Reply A → Bool
replied (answered _) = true
replied _ = false

-- `api_io.request`: a transport failure becomes a retry, and any other exception passes.
unfoldable pub outcome : {A : Type 0} → Reply A → Outcome A
outcome (answered a) = ok a
outcome (refused status) = err (api_exception status)
outcome transport = err (temporary "Kubernetes API transport failed; retrying reconciliation" 15)
outcome timed_out = err (temporary "Kubernetes API transport failed; retrying reconciliation" 15)
outcome crashed = err other_error

-- a failure of SSH passes as it is
unfoldable pub remote_outcome : {A : Type 0} → Reply A → Outcome A
remote_outcome (answered a) = ok a
remote_outcome (refused status) = err other_error
remote_outcome transport = err other_error
remote_outcome timed_out = err timeout_error
remote_outcome crashed = err other_error

module _ {A : Type 0} (answer : Trace → Request → Reply A) (r : Request) where
  -- One request of the SDK: the environment answers it, and the history records it.
  unfoldable pub call : Exec A
  unfolding replied outcome
  call s =
      let reply = answer s.trace r in
      (outcome reply, record s { trace = record { request = r; done = replied reply } ∷ s.trace })

  -- One request of SSH.
  unfoldable pub remote : Exec A
  unfolding replied remote_outcome
  remote s =
      let reply = answer s.trace r in
      (
        remote_outcome reply,
        record s { trace = record { request = r; done = replied reply } ∷ s.trace },
      )

-- `await asyncio.sleep(seconds)`, which the history records
unfoldable pub sleep : (seconds : ℕ) → Exec Unit
sleep seconds s =
    (ok tt, record s { trace = record { request = sleep_for seconds; done = true } ∷ s.trace })

-- Every reply is an answer, or raises and is recorded as not done.
pub Reply-cases :
    {A : Type 0} (r : Reply A)
    → ((a : A) × (r ≡ answered a)) ⊎ ((e : Error) × (outcome r ≡ err e) × (replied r ≡ false))
unfolding outcome replied
Reply-cases (answered a) = inl (a, refl)
Reply-cases (refused status) = inr (api_exception status, refl, refl)
Reply-cases transport = inr (_, refl, refl)
Reply-cases timed_out = inr (_, refl, refl)
Reply-cases crashed = inr (other_error, refl, refl)
