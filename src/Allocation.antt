-- ===== src/Allocation.antt =====
-- capi_provider_ssh/inventory.py: the selection of a host, and the binding of a Machine to an
-- immutable target.
pub mod Sort
pub mod Eligible
pub mod Bind
pub mod Local
pub mod Quiet
use Prim.Native.Nat.{Ordering}
use Prim.Native.String.{compare}
use capi_provider_ssh.Base.{
  ℕ, String, Bool, true, false, not, ◌&&◌, ◌||◌, List, [], ◌∷◌, Option, none, some, or_else,
  is_some, has_text, is_true, truthy, text_eq, opt_eq, nat_eq, all, Dict, get, ◌==◌, if◌then◌else◌,
}
use capi_provider_ssh.Text.{concat}
use capi_provider_ssh.Objects.{
  SecretRef, Meta, Host, HostSelector, Connection, Binding, MachineSpec, MachineStatus, Machine,
}
use capi_provider_ssh.World.{
  Env, Error, permanent, temporary, api_exception, Outcome, ok, err, guard, Exec, pure, raise, lift,
  attempt, stage, ◌>>=◌, ◌>>◌, call, Changes, no_changes, get_machine, get_host, list_hosts,
  patch_machine_spec,
}
use capi_provider_ssh.Contracts.{persist_machine_status}
use capi_provider_ssh.Inventory.{
  consumer_ref, same_consumer, is_claimed, connection_spec, machine_connection_spec, own_hosts,
  patch_claim, set_host_phase, host_binding, split_ref,
}

-- the key `(ready is not True, name)` of the sort, as "not after"
abbrev text_le : String → String → Bool
text_le a b = elim (compare a b) [ Ordering.gt ↦ false | _ ↦ true ]

abbrev pub is_ready : Host → Bool
is_ready h = is_true h.status.ready

pub candidate_le : Host → Host → Bool
candidate_le a b =
    if is_ready a
    then (if is_ready b then text_le a.metadata.name b.metadata.name else true)
    else if is_ready b
    then false
    else text_le a.metadata.name b.metadata.name

pub insert_candidate : Host → List Host → List Host
insert_candidate h [] = h ∷ []
insert_candidate h (x ∷ xs) = if candidate_le h x then h ∷ x ∷ xs else x ∷ insert_candidate h xs

-- `sorted(hosts, key=...)`, which is stable
pub sort_candidates : List Host → List Host
sort_candidates [] = []
sort_candidates (h ∷ hs) = insert_candidate h (sort_candidates hs)

abbrev has_label : Meta → String × String → Bool
has_label meta (k, v) = text_eq (get meta.labels k) (some v)

abbrev is_free_phase : Option String → Bool
is_free_phase none = true
is_free_phase (some phase) = phase == "Available"

-- what the `continue`s of the loop leave
pub is_eligible : Dict String → Host → Bool
is_eligible labels host =
    not (has_text host.metadata.deletion_timestamp)
    && all (has_label host.metadata) labels
    && not (is_claimed host.spec.consumer_ref)
    && is_free_phase host.status.phase
    && not (opt_eq (λ a b. if a then b else not b) host.status.ready (some false))

-- after a claim: a host that is gone or was changed by another is passed over
pub claim_answer : Outcome Host → Exec Host → Exec Host
claim_answer (ok host) rest = pure host
claim_answer (err (api_exception status)) rest =
    if nat_eq status 404 || nat_eq status 409 then rest else raise (api_exception status)
claim_answer (err e) rest = raise e

abbrev pub labels_of : Option HostSelector → Dict String
labels_of none = []
labels_of (some selector) = or_else selector.match_labels []

module _ (env : Env) where
  pub claim_candidate : (name namespace uid : String) → Host → Exec Host → Exec Host
  claim_candidate name namespace uid host rest = do
    ref ← lift (consumer_ref name namespace uid)
    reply ← attempt (patch_claim env host namespace (some ref))
    claim_answer reply rest

  -- the loop over the candidates
  unfoldable pub claim_first : Dict String → (name namespace uid : String) → List Host → Exec Host
  unfolding claim_candidate claim_answer is_eligible
  claim_first labels name namespace uid [] =
      raise (temporary "No available SSHHost matches the selector" 30)
  claim_first labels name namespace uid (host ∷ hosts) =
      let rest = claim_first labels name namespace uid hosts in
      if is_eligible labels host then claim_candidate name namespace uid host rest else rest

  pub select_new :
      MachineSpec → MachineStatus → (name namespace uid : String) → List Host → Exec Host
  select_new spec status name namespace uid hosts =
      if has_text spec.host_ref || has_text spec.provider_id || is_true status.provisioned
      then raise (
          permanent
            "Existing machine has no matching UID-bound host claim; automatic replacement is forbidden")
      else elim (labels_of spec.host_selector) [
        | [] ↦ raise (permanent "hostSelector.matchLabels must not be empty")
        | l ∷ ls ↦ claim_first (l ∷ ls) name namespace uid (sort_candidates hosts)
      ]

  pub select_from :
      MachineSpec
      → MachineStatus
      → (name namespace uid : String) → (hosts own : List Host) → Exec Host
  select_from spec status name namespace uid hosts [] =
      select_new spec status name namespace uid hosts
  select_from spec status name namespace uid hosts (host ∷ []) = pure host
  select_from spec status name namespace uid hosts (_ ∷ _ ∷ _) =
      raise
        (permanent "Multiple hosts claimed by this Machine UID; explicit inventory repair required")

  -- `_select_host(spec, status, name, namespace, uid)`
  pub select_host : MachineSpec → MachineStatus → (name namespace uid : String) → Exec Host
  select_host spec status name namespace uid = do
    hosts ← call env.hosts (list_hosts namespace)
    select_from spec status name namespace uid hosts (own_hosts name namespace uid hosts)

unfoldable pub require_unquarantined : (message : String) → Host → Exec Unit
require_unquarantined message host =
    if text_eq host.status.phase (some "Quarantined") || text_eq host.status.phase (some "Cleaning")
    then raise (temporary message 30)
    else pure tt

abbrev pub provider_id_of : Option String → String
provider_id_of address = concat "ssh://" (or_else address "None")

abbrev pub same_ref : SecretRef → SecretRef → Bool
same_ref a b = text_eq a.name b.name && text_eq a.key b.key

-- `==` of two bindings
unfoldable pub same_binding : Binding → Binding → Bool
same_binding a b =
    text_eq a.address b.address
    && nat_eq a.port b.port
    && a.user == b.user
    && same_ref a.ssh_key_ref b.ssh_key_ref
    && same_ref a.ssh_host_key_ref b.ssh_host_key_ref
    && text_eq a.machine_uid b.machine_uid
    && text_eq a.host_uid b.host_uid
    && text_eq a.host_ref b.host_ref

-- `spec.get(field) is not None and spec[field] != binding.get(field)`
abbrev pub text_differs : Option String → Option String → Bool
text_differs none bound = false
text_differs (some s) bound = not (text_eq (some s) bound)

abbrev pub port_differs : Option ℕ → ℕ → Bool
port_differs none bound = false
port_differs (some p) bound = not (nat_eq p bound)

abbrev immutable : String → Error
immutable field =
    permanent (concat "Allocated " (concat field " is immutable; create a replacement Machine"))

-- the checks of the spec against an allocation
unfoldable pub check_spec : MachineSpec → Binding → Outcome Unit
check_spec spec binding =
    if text_differs spec.address binding.address
    then err (immutable "address")
    else if port_differs spec.port binding.port
    then err (immutable "port")
    else if text_differs spec.host_ref binding.host_ref
    then err (immutable "hostRef")
    else if has_text spec.provider_id
        && not (text_eq spec.provider_id (some (provider_id_of binding.address)))
    then err (permanent "providerID does not match the allocated target")
    else ok tt

-- the checks of the allocated host against an allocation
unfoldable pub check_host : Binding → (name namespace uid : String) → Host → Outcome Unit
check_host binding name namespace uid host =
    if not (text_eq host.metadata.uid binding.host_uid)
      || not (same_consumer host.spec.consumer_ref name namespace uid)
    then err (permanent "Allocated SSHHost identity/claim changed; replacement is forbidden")
    else if not (text_eq (connection_spec host.spec).address binding.address)
    then err (permanent "SSHHost address changed after allocation")
    else if not (nat_eq (connection_spec host.spec).port binding.port)
    then err (permanent "SSHHost port changed after allocation")
    else ok tt

-- `binding.update(user, sshKeyRef, sshHostKeyRef)`: these can rotate
abbrev pub rotate : Binding → Connection → Binding
rotate binding target = record binding {
  connection = record binding.connection {
    user = target.user;
    ssh_key_ref = target.ssh_key_ref;
    ssh_host_key_ref = target.ssh_host_key_ref;
  };
}

-- whether the providerID of the spec names another address
abbrev pub other_target : Option String → Option String → Bool
other_target provider_id address =
    has_text provider_id && not (text_eq provider_id (some (provider_id_of address)))

abbrev pub non_empty : Option String → Option String
non_empty ref = if has_text ref then ref else none

module _ (env : Env) where
  unfoldable pub allocated_target :
      MachineSpec → (name namespace uid : String) → Binding → Exec Connection
  allocated_target spec name namespace uid binding =
      if has_text binding.host_ref
      then (do
        parts ← lift (split_ref (or_else binding.host_ref ""))
        host ← call env.host (get_host parts.before parts.after)
        lift (check_host binding name namespace uid host)
        require_unquarantined "Allocated host awaits cleanup or quarantine recovery" host
        pure (connection_spec host.spec))
      else pure (machine_connection_spec spec)

  -- the branch of an existing allocation
  unfoldable pub bind_allocated :
      MachineSpec → (name namespace uid : String) → Binding → Exec Binding
  bind_allocated spec name namespace uid binding = do
    lift (
        guard (text_eq binding.machine_uid (some uid))
          (permanent "Allocation belongs to a different Machine UID"))
    lift (check_spec spec binding)
    target ← allocated_target spec name namespace uid binding
    pure (rotate binding target)

  -- the branch of a host from the inventory
  pub bind_selected : MachineSpec → MachineStatus → (name namespace uid : String) → Exec Binding
  bind_selected spec status name namespace uid = do
    host ← select_host env spec status name namespace uid
    require_unquarantined "Host claim is quarantined or cleaning" host
    pure (host_binding namespace uid host)

  -- the branch of an address in the spec
  pub bind_direct : MachineSpec → (uid : String) → Exec Binding
  bind_direct spec uid =
      if not (has_text spec.address)
      then raise (permanent "Either address or hostSelector must be provided")
      else if other_target spec.provider_id spec.address
      then raise (permanent "providerID does not match the target")
      else pure (record {
        connection = machine_connection_spec spec;
        machine_uid = some uid;
        host_uid = none;
        host_ref = none;
      })

  abbrev pub has_selector : MachineSpec → Bool
  has_selector spec =
      is_some (elim spec.host_selector [ none ↦ none | some x ↦ x.match_labels ])
      || has_text spec.host_ref

  unfoldable pub choose_binding :
      MachineSpec → MachineStatus → (name namespace uid : String) → Option Binding → Exec Binding
  choose_binding spec status name namespace uid (some binding) =
      bind_allocated spec name namespace uid binding
  choose_binding spec status name namespace uid none =
      if has_selector spec
      then bind_selected spec status name namespace uid
      else bind_direct spec uid

  -- the writes of a new or rotated allocation, to the spec first and then to the status
  unfoldable pub commit_binding : (name namespace uid : String) → Binding → Exec Unit
  commit_binding name namespace uid binding = do
    current ← call env.machine (get_machine namespace name)
    if not (text_eq current.metadata.uid (some uid))
        then raise (temporary "Machine identity changed during allocation" 15)
        else (do
          _ ← call env.machine (
              patch_machine_spec namespace name uid current.metadata.resource_version
                binding.connection (non_empty binding.host_ref))
          _ ←
              persist_machine_status env namespace name uid
                (record no_changes { allocation = some binding })
          pure tt)

  -- the staged patch and the phase of the host, at the end
  unfoldable pub publish_binding : (name namespace uid : String) → Binding → Exec Binding
  publish_binding name namespace uid binding = do
    stage (λ p. record p { allocation = some binding; connection = some binding.connection })
    if has_text binding.host_ref
        then (do
          stage (λ p. record p { host_ref = binding.host_ref })
          set_host_phase env binding name namespace uid "Claimed" "")
        else pure tt
    pure binding

  abbrev is_committed : MachineStatus → Binding → Bool
  is_committed status binding = opt_eq same_binding status.allocation (some binding)

  -- `bind_machine(spec, status, name, namespace, uid, patch)`; an absent UID is the empty text
  unfoldable pub bind_machine :
      MachineSpec → MachineStatus → (name namespace uid : String) → Exec Binding
  bind_machine spec status name namespace uid =
      if not (truthy uid) then raise (permanent "SSHMachine metadata.uid is required") else (do
        binding ← choose_binding spec status name namespace uid status.allocation
        if is_committed status binding then pure tt else commit_binding name namespace uid binding
        publish_binding name namespace uid binding)
