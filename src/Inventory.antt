-- ===== src/Inventory.antt =====
-- capi_provider_ssh/inventory.py: host claims bound to a Machine's UID, their phase, release and
-- recovery. The selection of a host and the binding are in Allocation.
pub mod Consumer
pub mod Release
pub mod Local
pub mod Quiet
use capi_provider_ssh.Base.{
  ℕ, String, Char, Bool, true, false, not, ◌&&◌, ◌||◌, List, [], ◌∷◌, Option, none, some, or_else,
  is_some, has_text, is_true, truthy, text_eq, opt_eq, nat_eq, all, filter, Dict, get, ◌==◌,
  if◌then◌else◌,
}
use capi_provider_ssh.Text.{Parts, partition, join, concat}
use capi_provider_ssh.Objects.{
  SecretRef, ConsumerRef, Meta, Host, HostSpec, HostSelector, Connection, Binding, MachineSpec,
  MachineStatus, Machine,
}
use capi_provider_ssh.World.{
  Env, Error, permanent, temporary, api_exception, other_error, Outcome, ok, err, Exec, pure, raise,
  lift, attempt, stage, ◌>>=◌, ◌>>◌, call, Changes, Request, get_machine, get_host, list_hosts,
  patch_consumer, patch_host_phase, patch_machine_spec,
}
use capi_provider_ssh.Contracts.{persist_machine_status, slash}

abbrev pub slash_char : Char
slash_char = "/"

-- `consumer_ref(name, namespace, uid)`
unfoldable pub consumer_ref : (name namespace uid : String) → Outcome ConsumerRef
consumer_ref name namespace uid =
    if truthy uid
    then ok (record {
      kind = some "SSHMachine";
      name = some name;
      namespace = some namespace;
      uid = some uid;
    })
    else err (permanent "Machine UID is required to claim a host")

abbrev names_consumer : ConsumerRef → (name namespace uid : String) → Bool
names_consumer ref name namespace uid =
    truthy uid
    && text_eq ref.uid (some uid)
    && text_eq ref.kind (some "SSHMachine")
    && text_eq ref.name (some name)
    && text_eq ref.namespace (some namespace)

-- `same_consumer(ref, name, namespace, uid)`; `{}` names nobody
unfoldable pub same_consumer : Option ConsumerRef → (name namespace uid : String) → Bool
same_consumer none name namespace uid = false
same_consumer (some ref) name namespace uid = names_consumer ref name namespace uid

-- Python's truth of `spec.consumerRef`: there, and not `{}`
abbrev pub is_claimed : Option ConsumerRef → Bool
is_claimed none = false
is_claimed (some ref) =
    is_some ref.kind || is_some ref.name || is_some ref.namespace || is_some ref.uid

abbrev pub no_ref : SecretRef
no_ref = record { name = none; key = none }

-- `connection_spec(spec)`, of an SSHHost and of an SSHMachine
unfoldable pub connection_spec : HostSpec → Connection
connection_spec spec = record {
  address = spec.address;
  port = or_else spec.port 22;
  user = or_else spec.user "root";
  ssh_key_ref = or_else spec.ssh_key_ref no_ref;
  ssh_host_key_ref = or_else spec.ssh_host_key_ref no_ref;
}

unfoldable pub machine_connection_spec : MachineSpec → Connection
machine_connection_spec spec = record {
  address = spec.address;
  port = or_else spec.port 22;
  user = or_else spec.user "root";
  ssh_key_ref = or_else spec.ssh_key_ref no_ref;
  ssh_host_key_ref = or_else spec.ssh_host_key_ref no_ref;
}

-- `d[key]`: a KeyError where the key is missing
abbrev pub required : {A : Type 0} → Option A → Outcome A
required none = err other_error
required (some a) = ok a

-- `host_ns, host_name = ref.split("/", 1)`: a ValueError where there is no slash
abbrev pub split_ref : String → Outcome Parts
split_ref ref = if (partition slash ref).found then ok (partition slash ref) else err other_error

abbrev pub host_ref_of : (namespace : String) → Host → String
host_ref_of namespace host = join namespace slash_char host.metadata.name

abbrev pub host_binding : (namespace uid : String) → Host → Binding
host_binding namespace uid host = record {
  connection = connection_spec host.spec;
  machine_uid = some uid;
  host_uid = host.metadata.uid;
  host_ref = some (host_ref_of namespace host);
}

-- the hosts that this Machine's UID has claimed
abbrev pub own_hosts : (name namespace uid : String) → List Host → List Host
own_hosts name namespace uid = filter (λ h. same_consumer h.spec.consumer_ref name namespace uid)

module _ (env : Env) where
  -- `_host_patch`, of the claim and of the status; both carry the UID and version of `host`
  unfoldable pub patch_claim : Host → (namespace : String) → Option ConsumerRef → Exec Host
  patch_claim host namespace ref = call env.host (
      patch_consumer namespace host.metadata.name host.metadata.uid host.metadata.resource_version
        ref)

  unfoldable pub patch_phase :
      Host → (namespace phase : String) → (in_use : Bool) → (cleanup_reason : String) → Exec Host
  patch_phase host namespace phase in_use reason = call env.host (
      patch_host_phase namespace host.metadata.name host.metadata.uid host.metadata.resource_version
        phase in_use reason)

  -- the host of a binding, once its UID is confirmed to be the allocated one
  unfoldable pub set_phase_of : Binding → (name namespace uid phase reason ref : String) → Exec Unit
  set_phase_of binding name namespace uid phase reason ref = do
    parts ← lift (split_ref ref)
    host ← call env.host (get_host parts.before parts.after)
    live_uid ← lift (required host.metadata.uid)
    bound_uid ← lift (required binding.host_uid)
    if not (live_uid == bound_uid) || not (same_consumer host.spec.consumer_ref name namespace uid)
        then raise (temporary "Host ownership changed; refusing lifecycle state mutation" 15)
        else (do _ ← patch_phase host parts.before phase true reason; pure tt)

  -- `set_host_phase(binding, name, namespace, uid, phase, reason)`
  unfoldable pub set_host_phase : Binding → (name namespace uid phase reason : String) → Exec Unit
  set_host_phase binding name namespace uid phase reason =
      if has_text binding.host_ref
      then set_phase_of binding name namespace uid phase reason (or_else binding.host_ref "")
      else pure tt

  unfoldable pub release_claim : Host → (host_namespace name namespace uid : String) → Exec Unit
  release_claim host host_namespace name namespace uid =
      if not (is_claimed host.spec.consumer_ref)
      then pure tt
      else if not (same_consumer host.spec.consumer_ref name namespace uid)
      then raise (temporary "Cannot release another Machine UID's host" 15)
      else (do
        available ← patch_phase host host_namespace "Available" false ""
        _ ← patch_claim available host_namespace none
        pure tt)

  unfoldable pub release_ref : Binding → (name namespace uid ref : String) → Exec Unit
  release_ref binding name namespace uid ref = do
    parts ← lift (split_ref ref)
    host ← call env.host (get_host parts.before parts.after)
    live_uid ← lift (required host.metadata.uid)
    bound_uid ← lift (required binding.host_uid)
    if not (live_uid == bound_uid)
        then raise (temporary "Host UID changed before release" 15)
        else release_claim host parts.before name namespace uid

  -- `release_host(binding, name, namespace, uid)`
  unfoldable pub release_host : Binding → (name namespace uid : String) → Exec Unit
  release_host binding name namespace uid =
      if has_text binding.host_ref
      then release_ref binding name namespace uid (or_else binding.host_ref "")
      else pure tt

  pub sole_claim : (namespace uid : String) → List Host → Exec (Option Binding)
  sole_claim namespace uid [] = pure none
  sole_claim namespace uid (host ∷ []) = pure (some (host_binding namespace uid host))
  sole_claim namespace uid (_ ∷ _ ∷ _) =
      raise (temporary "Multiple UID claims require inventory recovery before deletion" 30)

  -- `recover_unstarted_claim(name, namespace, uid)`; `{}` is `none`
  pub recover_unstarted_claim : (name namespace uid : String) → Exec (Option Binding)
  recover_unstarted_claim name namespace uid = do
    hosts ← call env.hosts (list_hosts namespace)
    sole_claim namespace uid (own_hosts name namespace uid hosts)
