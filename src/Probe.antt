-- ===== src/Probe.antt =====
-- capi_provider_ssh/controllers/sshhost.py: the probe of a host. Its patch is the result.
pub mod Local
use capi_provider_ssh.Base.{
  String, Bool, true, false, not, ◌||◌, List, [], ◌∷◌, ◌++◌, Option, none, some, or_else, is_some,
  has_text, filter, get, ◌==◌, if◌then◌else◌,
}
use capi_provider_ssh.Text.{show}
use capi_provider_ssh.Shell.{text}
use capi_provider_ssh.Objects.{Condition, SecretRef, HostSpec, Meta}
use capi_provider_ssh.World.{
  remote, Env, permanent, Outcome, ok, err, Exec, pure, raise, lift, attempt, gets, ◌>>=◌, ◌>>◌,
  call, read_secret, connect_ssh, close_ssh,
}
use capi_provider_ssh.Conditions.{condition}
use capi_provider_ssh.Contracts.{is_paused, read_known_hosts}
use capi_provider_ssh.Inventory.{required, is_claimed}

pub record HostPatch : Type 0 where
  pub in_use : Option Bool
  pub ready : Option Bool
  pub last_probe_time : Option String
  pub last_probe_success : Option Bool
  pub conditions : Option (List Condition)

abbrev pub no_host_patch : HostPatch
no_host_patch = record {
  in_use = none;
  ready = none;
  last_probe_time = none;
  last_probe_success = none;
  conditions = none;
}

abbrev no_ref : SecretRef
no_ref = record { name = none; key = none }

-- the patch of a probe that was made at `now`
abbrev pub probed :
    (spec : HostSpec) (others : List Condition) (now : String) (success : Bool)
    (reason message : String)
    → HostPatch
probed spec others now success reason message = record {
  in_use = some (is_claimed spec.consumer_ref);
  ready = some success;
  last_probe_time = some now;
  last_probe_success = some success;
  conditions = some (
      others
      ++ record (condition "SSHReachable" (if success then "True" else "False") reason message) {
        last_transition_time = some now;
      }
        ∷ []);
}

abbrev place : HostSpec → String
place spec = text (or_else spec.address "" ∷ ":" ∷ show (or_else spec.port 22) ∷ [])

module _ (env : Env) where
  key_entry : (namespace secret_name secret_key : String) → Option String → Exec String
  key_entry namespace secret_name secret_key none = raise (
      permanent (
        text
          ("Secret " ∷ namespace ∷ "/" ∷ secret_name ∷ " missing key '" ∷ secret_key ∷ "'" ∷ [])))
  key_entry namespace secret_name secret_key (some encoded) =
      lift (required (env.b64decode encoded))

  -- `_read_ssh_key(namespace, secret_name, secret_key)`
  pub read_ssh_key : (namespace secret_name secret_key : String) → Exec String
  read_ssh_key namespace secret_name secret_key = do
    entries ← call env.secret (read_secret namespace secret_name)
    key_entry namespace secret_name secret_key (get (or_else entries []) secret_key)

  -- `async with await SSHClient.connect(...): pass`
  probe_connection : HostSpec → Exec Unit
  probe_connection spec = do
    remote env.unit (connect_ssh spec.address (or_else spec.port 22) (or_else spec.user "root"))
    remote env.unit close_ssh

  read_trust : (spec : HostSpec) (namespace secret_name secret_key : String) → Exec Unit
  read_trust spec namespace secret_name secret_key = do
    _ ← read_ssh_key namespace secret_name secret_key
    _ ← read_known_hosts env namespace (or_else spec.ssh_host_key_ref no_ref)
    pure tt

  probe_outcome : HostSpec → List Condition → String → Outcome Unit → HostPatch
  probe_outcome spec others now (ok _) =
      probed spec others now true "ProbeSucceeded"
        (text ("SSH probe to " ∷ place spec ∷ " succeeded" ∷ []))
  probe_outcome spec others now (err e) =
      probed spec others now false "ProbeFailed"
        (text ("SSH probe to " ∷ place spec ∷ " failed: " ∷ env.error_text e ∷ []))

  -- the second `try` of the probe, where the first one ended well
  probe_with : HostSpec → List Condition → String → Outcome Unit → Exec HostPatch
  probe_with spec others now (err e) = pure (
      probed spec others now false "SSHKeyReadError"
        (text ("Failed to read SSH key: " ∷ env.error_text e ∷ [])))
  probe_with spec others now (ok _) = do
    reply ← attempt (probe_connection spec)
    pure (probe_outcome spec others now reply)

  -- `sshhost_probe(spec, status, name, namespace, patch)`; of the status only the conditions are read
  pub sshhost_probe :
      (paused : Option Bool)
      → HostSpec
      → (status : List Condition) → (namespace : String) → Meta
      → Exec HostPatch
  sshhost_probe paused spec status namespace meta = do
    is_off ← is_paused env paused meta namespace
    let ref = or_else spec.ssh_key_ref no_ref
    if is_off
        then pure no_host_patch
        else if not (has_text spec.address) || not (has_text ref.name)
        then pure no_host_patch
        else (do
          now ← gets (λ s. env.iso s.trace)
          trust ←
              attempt (read_trust spec namespace (or_else ref.name "") (or_else ref.key "value"))
          probe_with spec (filter (λ c. not (c.type == "SSHReachable")) status) now trust)
