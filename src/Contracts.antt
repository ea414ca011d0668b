-- ===== src/Contracts.antt =====
-- capi_provider_ssh/contracts.py: the identity of owners, the pause state, the fenced status write
-- and the host trust Secret.
pub mod Owner
pub mod Pause
pub mod Persist
pub mod Local
pub mod Quiet
pub mod Receipt
use capi_provider_ssh.Base.{
  ℕ, String, Bool, true, false, not, ◌&&◌, ◌||◌, List, [], ◌∷◌, Option, none, some, or_else,
  has_text, is_true, truthy, text_eq, nat_eq, ◌==◌, Dict, get, contains, if◌then◌else◌,
}
use capi_provider_ssh.Text.{Parts, partition, has_char}
use capi_provider_ssh.Objects.{SecretRef, Condition, Meta, OwnerRef, CapiObject, Machine}
use capi_provider_ssh.World.{
  Env, Error, permanent, temporary, api_exception, other_error, Outcome, ok, err, Exec, pure, raise,
  lift, attempt, gets, ◌>>=◌, ◌>>◌, call, Changes, Request, get_machine, get_capi_object,
  read_secret, patch_machine_status,
}
use capi_provider_ssh.Conditions.{merge_conditions}

abbrev pub paused_annotation : String
paused_annotation = "cluster.x-k8s.io/paused"

abbrev pub cluster_label : String
cluster_label = "cluster.x-k8s.io/cluster-name"

abbrev pub capi_group : String
capi_group = "cluster.x-k8s.io"

abbrev pub slash : ℕ
slash = b'/'

abbrev pub group_version : Parts → Option String
group_version p =
    if p.before == capi_group && p.found && truthy p.after && not (has_char slash p.after)
    then some p.after
    else none

abbrev version_of : Option String → Option String
version_of none = none
version_of (some t) = group_version (partition slash t)

-- `capi_owner_api_version(owner)`; a version that is no text counts as absent
unfoldable pub capi_owner_api_version : OwnerRef → Option String
capi_owner_api_version owner = version_of owner.api_version

-- what one turn of the loop over the owners leaves: an answer, or the cluster to ask for next
pub data Decision : Type 0 where
  decided : Bool → Decision
  next : (cluster_name : Option String) (cluster_version : String) → Decision

abbrev pub is_paused_object : CapiObject → Bool
is_paused_object obj = is_true obj.paused || contains obj.metadata.annotations paused_annotation

-- `kind.lower() + "s"` for the two kinds that are asked for
abbrev pub plural_of : Option String → String
plural_of kind = if text_eq kind (some "Machine") then "machines" else "clusters"

-- the handlers and tests after `get_object` in the loop
unfoldable pub owner_answer :
    (owner : OwnerRef) (version : String) (cluster_name : Option String)
    → Outcome CapiObject
    → Exec Decision
owner_answer owner version cluster_name (err (api_exception status)) =
    if nat_eq status 404
    then pure (decided true)
    else raise (temporary "Cannot establish CAPI owner pause state" 15)
owner_answer owner version cluster_name (err e) = raise e
owner_answer owner version cluster_name (ok obj) =
    if has_text owner.uid && not (text_eq obj.metadata.uid owner.uid)
    then raise (temporary "CAPI owner UID changed; waiting for a current owner reference" 15)
    else if is_paused_object obj
    then pure (decided true)
    else if text_eq owner.kind (some "Cluster")
    then pure (decided false)
    else pure (next (if has_text obj.cluster_name then obj.cluster_name else cluster_name) version)

unfoldable pub cluster_answer : Outcome CapiObject → Exec Bool
cluster_answer (err (api_exception status)) =
    if nat_eq status 404
    then pure true
    else raise (temporary "Cannot establish Cluster pause state" 15)
cluster_answer (err e) = raise e
cluster_answer (ok cluster) = pure (is_paused_object cluster)

-- `persist_machine_status` after its read, the write's own errors included
unfoldable pub persisted : Outcome Machine → Exec Machine
persisted (err (api_exception _)) =
    raise (temporary "Lifecycle state could not be persisted; no new remote operation started" 15)
persisted (err e) = raise e
persisted (ok machine) = pure machine

abbrev pub merged_changes : Machine → String → Changes → Changes
merged_changes current now changes = record changes {
  conditions = elim changes.conditions [
    | none ↦ none
    | some updates ↦ some (merge_conditions current.status.conditions updates none now)
  ];
}

module _ (env : Env) where
  unfoldable pub owner_step :
      (namespace : String) (owner : OwnerRef) (cluster_name : Option String)
      (cluster_version : String)
      → Option String
      → Exec Decision
  owner_step namespace owner cluster_name cluster_version none =
      pure (next cluster_name cluster_version)
  owner_step namespace owner cluster_name cluster_version (some version) =
      if text_eq owner.kind (some "Machine") || text_eq owner.kind (some "Cluster")
      then (do
        obj ← attempt (
            call env.capi_object
              (get_capi_object (plural_of owner.kind) namespace owner.name version))
        owner_answer owner version cluster_name obj)
      else pure (next cluster_name cluster_version)

  unfoldable pub cluster_pause :
      (namespace : String) (cluster_name : Option String) (version : String) → Exec Bool
  cluster_pause namespace none version = pure false
  cluster_pause namespace (some name) version =
      if truthy name
      then (do
        cluster ← attempt (call env.capi_object (get_capi_object "clusters" namespace name version))
        cluster_answer cluster)
      else pure false

  -- the loop over `ownerReferences`, and what follows it
  unfoldable pub owners_loop :
      (namespace : String)
      → List OwnerRef
      → (cluster_name : Option String) (cluster_version : String) → Exec Bool
  owners_loop namespace [] cluster_name cluster_version =
      cluster_pause namespace cluster_name cluster_version
  owners_loop namespace (owner ∷ owners) cluster_name cluster_version = do
    d ← owner_step namespace owner cluster_name cluster_version (capi_owner_api_version owner)
    elim d [ decided b ↦ pure b | next name version ↦ owners_loop namespace owners name version ]

  -- `is_paused(spec, meta, namespace)`; of the spec only `paused` is read
  unfoldable pub is_paused : (paused : Option Bool) → Meta → (namespace : String) → Exec Bool
  is_paused paused meta namespace =
      if is_true paused || contains meta.annotations paused_annotation
      then pure true
      else owners_loop namespace meta.owner_references (get meta.labels cluster_label) "v1beta1"

  -- `persist_machine_status(namespace, name, uid, changes)`; an absent UID is the empty text
  unfoldable pub persist_machine_status : (namespace name uid : String) → Changes → Exec Machine
  persist_machine_status namespace name uid changes =
      if not (truthy uid)
      then raise (permanent "SSHMachine metadata.uid is required for lifecycle operations")
      else (do
        current ← call env.machine (get_machine namespace name)
        if not (text_eq current.metadata.uid (some uid))
            then raise (temporary "SSHMachine UID changed before status persistence" 15)
            else (do
              now ← gets (λ s. env.iso s.trace)
              reply ← attempt (
                  call env.machine (
                    patch_machine_status namespace name uid current.metadata.resource_version
                      (merged_changes current now changes)))
              persisted reply))

  pub known_hosts_entry : Option (Dict String) → String → Exec String
  known_hosts_entry none key =
      raise (permanent "Host trust Secret does not contain the configured known_hosts entry")
  known_hosts_entry (some entries) key =
      if has_text (get entries key)
      then lift (elim (env.b64decode_strict (or_else (get entries key) "")) [
        | none ↦ err other_error
        | some t ↦ ok t
      ])
      else raise (permanent "Host trust Secret does not contain the configured known_hosts entry")

  -- `read_known_hosts(namespace, spec)`, of the `sshHostKeyRef` of the spec
  pub read_known_hosts : (namespace : String) → SecretRef → Exec String
  read_known_hosts namespace ref =
      if not (has_text ref.name)
      then raise
          (permanent "spec.sshHostKeyRef.name is required; automatic host-key trust is disabled")
      else (do
        entries ← call env.secret (read_secret namespace (or_else ref.name ""))
        known_hosts_entry entries (or_else ref.key "known_hosts"))
