-- ===== src/Tests.antt =====
-- Concrete runs of the code, on the small cluster of Sample.
use capi_provider_ssh.Base.{String, Bool, true, false, [], ◌∷◌, none, some, ◌≡◌, ◌↔◌, refl, truthy}
use capi_provider_ssh.Objects.{Condition, Host}
use capi_provider_ssh.World.{ok, err, api_exception, initial, no_changes}
use capi_provider_ssh.World.Claims.{Guarded}
use capi_provider_ssh.Sample.{
  env, hostless_env, machine_spec, machine_status, owned_meta, binding, claim, claimed_host,
  capi_owner,
}
use capi_provider_ssh.Base.{◌⊎◌, ◌||◌, ◌&&◌, is_true, contains}
use capi_provider_ssh.Text.{partition, has_char, join}
use capi_provider_ssh.World.{◌>>=◌, call, pure, raise, lift, attempt, gets, stage, get_machine}
use capi_provider_ssh.World.Trace.{Since}
use capi_provider_ssh.Contracts.{
  slash, capi_group, paused_annotation, is_paused, owners_loop, owner_step, owner_answer,
  capi_owner_api_version, persist_machine_status,
}
use capi_provider_ssh.Contracts.Persist.{Fenced, persist_machine_status-writes}
use capi_provider_ssh.Contracts.Pause.{Owned, is_paused-fails_closed}
use capi_provider_ssh.Contracts.Owner.{slash_char, capi_owner_api_version_iff}
use capi_provider_ssh.Conditions.{condition, find, merge_conditions}
use capi_provider_ssh.Conditions.Merge.{
  Stamped, IsUnique, merge_conditions-again, merge_conditions-Stamped, merge_conditions-others,
  merge_conditions-keeps_time, merge_conditions-moves_time, merge_conditions-IsUnique,
}
use capi_provider_ssh.Inventory.Consumer.{
  claim_of, same_consumer_iff, same_consumer_unique, consumer_ref-same_consumer,
}
use capi_provider_ssh.Allocation.Sort.{ReadyFirst, sort_candidates-ReadyFirst}
use capi_provider_ssh.Cluster.{ClusterSpec, has_capi_cluster_owner, has_endpoint, reconcile}
use capi_provider_ssh.Cluster.Report.{Reports, reconcile-Reports}
use capi_provider_ssh.Inventory.{
  consumer_ref, release_host, release_ref, release_claim, patch_phase, patch_claim, same_consumer,
  connection_spec, set_host_phase, set_phase_of,
}
use capi_provider_ssh.Inventory.Release.{
  Released, NotCleared, release_host-Released, release_host-Kept,
}
use capi_provider_ssh.Allocation.{
  sort_candidates, bind_machine, choose_binding, bind_allocated, allocated_target, check_spec,
  check_host, require_unquarantined, same_binding, publish_binding,
}
use capi_provider_ssh.Allocation.Bind.{SameTarget, bind_machine-keeps_target}
use capi_provider_ssh.Lifecycle.{delete_machine}
use capi_provider_ssh.Lifecycle.Receipt.{delete_machine-Guarded}
use capi_provider_ssh.Operations.{
  HostLease, acquire, acquire_over, write_lease, found_lease, taken, is_held,
}
use capi_provider_ssh.Operations.Acquire.{Acquired, acquire-Acquired}
use capi_provider_ssh.Provision.{backfill_provisioned_fields}
use capi_provider_ssh.Provision.Backfill.{Complete, backfill_provisioned_fields-Complete}
use capi_provider_ssh.Lock.{
  LockSettings, sshmachine_delete, acquire_lock, acquire_turns, acquire_turn, written, parse_lock,
}
use capi_provider_ssh.Lock.Delete.{sshmachine_delete-Guarded}
use capi_provider_ssh.Lock.Acquire.{Taken, acquire_lock-Taken}

delete_machine-Guarded_example :
    Guarded (delete_machine env machine_spec machine_status "m1" "ns" owned_meta initial).1.trace
delete_machine-Guarded_example =
    delete_machine-Guarded env machine_spec machine_status "m1" "ns" owned_meta initial tt

abbrev settings : LockSettings
settings = record { enabled = true; ttl_seconds = 120; retry_delay = 5; holder = "pod-1" }

sshmachine_delete-Guarded_example :
    Guarded
      (sshmachine_delete env settings "ns" "m1" machine_spec machine_status owned_meta
        initial).1.trace
sshmachine_delete-Guarded_example =
    sshmachine_delete-Guarded env settings "ns" "m1" machine_spec machine_status owned_meta initial
      tt

acquired : (acquire_lock env settings "ns" "m1" initial).0 ≡ ok true
unfolding ◌>>=◌ acquire_lock acquire_turns acquire_turn written parse_lock call pure attempt gets
acquired = refl

acquire_lock-Taken_example :
    Taken env settings "ns" "m1" (acquire_lock env settings "ns" "m1" initial).1.trace
acquire_lock-Taken_example = acquire_lock-Taken env settings "ns" "m1" initial refl acquired

released : (release_host env binding "m1" "ns" "machine-uid" initial).0 ≡ ok tt
unfolding ◌>>=◌ call pure lift raise release_host release_ref release_claim patch_phase patch_claim
    same_consumer partition
released = refl

release_host-Released_example :
    Released env binding "m1" "ns" "machine-uid" initial
      (release_host env binding "m1" "ns" "machine-uid" initial).1
release_host-Released_example =
    release_host-Released env binding "m1" "ns" "machine-uid" initial released

not_released :
    (release_host hostless_env binding "m1" "ns" "machine-uid" initial).0 ≡ err (api_exception 404)
unfolding ◌>>=◌ call pure lift raise release_host release_ref partition
not_released = refl

release_host-Kept_example :
    Since NotCleared [] (release_host hostless_env binding "m1" "ns" "machine-uid" initial).1.trace
release_host-Kept_example =
    release_host-Kept hostless_env binding "m1" "ns" "machine-uid" initial (api_exception 404)
      not_released

bound :
    (bind_machine env machine_spec machine_status "m1" "ns" "machine-uid" initial).0 ≡ ok binding
unfolding ◌>>=◌ call pure lift raise gets stage bind_machine choose_binding bind_allocated
    allocated_target check_spec check_host require_unquarantined same_consumer connection_spec
    same_binding publish_binding set_host_phase set_phase_of patch_phase partition
bound = refl

bind_machine-keeps_target_example :
    (binding.machine_uid ≡ some "machine-uid") × SameTarget (some binding) binding
bind_machine-keeps_target_example =
    bind_machine-keeps_target env machine_spec machine_status "m1" "ns" "machine-uid" initial
      binding bound

persist_machine_status-writes_example :
    (((persist_machine_status env "ns" "m1" "machine-uid" no_changes initial).1.trace ≡ [])
      ⊎ ((b : Bool) × ((persist_machine_status env "ns" "m1" "machine-uid" no_changes
              initial).1.trace
            ≡ record { request = get_machine "ns" "m1"; done = b } ∷ [])))
    ⊎ Fenced env "ns" "m1" "machine-uid" no_changes initial
persist_machine_status-writes_example =
    persist_machine_status-writes env "ns" "m1" "machine-uid" no_changes initial

not_paused : (is_paused env none owned_meta "ns" initial).0 ≡ ok false
unfolding ◌>>=◌ call pure raise attempt is_paused owners_loop owner_step owner_answer
    capi_owner_api_version partition has_char
not_paused = refl

is_paused-fails_closed_example :
    (is_true none || contains owned_meta.annotations paused_annotation ≡ false)
    × Owned env none owned_meta "ns" initial (is_paused env none owned_meta "ns" initial).1.trace
is_paused-fails_closed_example = is_paused-fails_closed env none owned_meta "ns" initial not_paused

abbrev cluster_spec : ClusterSpec
cluster_spec = record {
  paused = none;
  control_plane_endpoint = some (record { host = some "10.0.0.9"; port = some 6443 });
}

reconcile-Reports_example :
    ((reconcile env cluster_spec "ns" owned_meta [] initial).0 ≡ ok tt)
    × Reports
        (has_capi_cluster_owner owned_meta.owner_references && has_endpoint cluster_spec)
        (reconcile env cluster_spec "ns" owned_meta [] initial).1.patch
reconcile-Reports_example = reconcile-Reports env cluster_spec "ns" owned_meta [] initial not_paused

abbrev ready : (status message : String) → Condition
ready status message = condition "Ready" status "Reason" message

-- a condition that became true at t0
abbrev known : Condition
known = record (ready "True" "old") { last_transition_time = some "t0" }

merge_conditions-again_example :
    merge_conditions
      (merge_conditions (known ∷ []) (ready "False" "new" ∷ []) none "t1")
      (ready "False" "new" ∷ [])
      none
      "t2"
    ≡ merge_conditions (known ∷ []) (ready "False" "new" ∷ []) none "t1"
unfolding find
merge_conditions-again_example =
    merge_conditions-again (known ∷ []) (ready "False" "new" ∷ []) none "t1" "t2" refl (refl, tt)
      (refl, tt) (refl, tt) (refl, tt) (refl, tt)

merge_conditions-Stamped_example :
    Stamped none "t1"
      (known ∷ [])
      (merge_conditions (known ∷ []) (ready "False" "new" ∷ []) none "t1")
      (ready "False" "new" ∷ [])
unfolding find
merge_conditions-Stamped_example =
    merge_conditions-Stamped (known ∷ []) (ready "False" "new" ∷ []) none "t1" (refl, tt) (refl, tt)
      (refl, tt)

merge_conditions-others_example :
    find "Paused" (merge_conditions (known ∷ []) (ready "False" "new" ∷ []) none "t1")
    ≡ find "Paused" (known ∷ [])
unfolding find
merge_conditions-others_example =
    merge_conditions-others "Paused" (known ∷ []) (ready "False" "new" ∷ []) none "t1" (refl, tt)
      (refl, tt) (refl, tt)

merge_conditions-keeps_time_example :
    (r : Condition) × (find "Ready"
        (merge_conditions (known ∷ []) (ready "True" "new" ∷ []) none "t1")
      ≡ some r)
    × (r.last_transition_time ≡ some "t0")
    × (r.status ≡ "True")
    × (r.reason ≡ "Reason")
    × (r.message ≡ "new")
unfolding find
merge_conditions-keeps_time_example =
    merge_conditions-keeps_time (known ∷ []) (ready "True" "new") known none "t1" "t0" (refl, tt)
      (refl, tt) refl refl refl refl

merge_conditions-moves_time_example :
    (r : Condition) × (find "Ready"
        (merge_conditions (known ∷ []) (ready "False" "new" ∷ []) none "t1")
      ≡ some r)
    × (r.last_transition_time ≡ some "t1")
    × (r.status ≡ "False")
unfolding find
merge_conditions-moves_time_example =
    merge_conditions-moves_time (known ∷ []) (ready "False" "new") known none "t1" (refl, tt)
      (refl, tt) refl refl refl

merge_conditions-IsUnique_example :
    IsUnique (merge_conditions (known ∷ known ∷ []) (ready "False" "new" ∷ []) none "t1")
merge_conditions-IsUnique_example =
    merge_conditions-IsUnique (known ∷ known ∷ []) (ready "False" "new" ∷ []) none "t1"

capi_owner_api_version_iff_example : (capi_owner_api_version capi_owner ≡ some "v1beta1") ↔ (
    (capi_owner.api_version ≡ some (join capi_group slash_char "v1beta1"))
    × (truthy "v1beta1" ≡ true)
    × (has_char slash "v1beta1" ≡ false))
capi_owner_api_version_iff_example = capi_owner_api_version_iff capi_owner "v1beta1"

same_consumer_iff_example :
    (same_consumer (some claim) "m1" "ns" "machine-uid" ≡ true)
    ↔ ((truthy "machine-uid" ≡ true) × (some claim ≡ some (claim_of "m1" "ns" "machine-uid")))
same_consumer_iff_example = same_consumer_iff (some claim) "m1" "ns" "machine-uid"

abbrev my_name : String
my_name = "m1"

abbrev my_namespace : String
my_namespace = "ns"

abbrev my_uid : String
my_uid = "machine-uid"

same_consumer_unique_example :
    (my_name ≡ my_name) × (my_namespace ≡ my_namespace) × (my_uid ≡ my_uid)
unfolding same_consumer
same_consumer_unique_example =
    same_consumer_unique (some claim) my_name my_namespace my_uid my_name my_namespace my_uid refl
      refl

consumer_ref-same_consumer_example : same_consumer (some claim) "m1" "ns" "machine-uid" ≡ true
unfolding consumer_ref
consumer_ref-same_consumer_example = consumer_ref-same_consumer "m1" "ns" "machine-uid" claim refl

abbrev cold_host : Host
cold_host = record claimed_host { status = record { phase = none; ready = none } }

sort_candidates-ReadyFirst_example : ReadyFirst (sort_candidates (cold_host ∷ claimed_host ∷ []))
sort_candidates-ReadyFirst_example = sort_candidates-ReadyFirst (cold_host ∷ claimed_host ∷ [])

abbrev host_lease : HostLease
host_lease = record { name = "ssh-host-1"; holder = "machine-uid/u1" }

lease_held : (acquire env host_lease initial).0 ≡ ok true
unfolding ◌>>=◌ call pure lift attempt gets acquire acquire_over write_lease found_lease taken
    is_held
lease_held = refl

acquire-Acquired_example : Acquired env host_lease initial (acquire env host_lease initial).1.trace
acquire-Acquired_example = acquire-Acquired env host_lease initial lease_held

backfill_provisioned_fields-Complete_example :
    Complete machine_spec machine_status "ssh://10.0.0.1"
      (backfill_provisioned_fields env machine_spec machine_status "ssh://10.0.0.1" "10.0.0.1"
        (some 1)
        initial).1.patch
backfill_provisioned_fields-Complete_example =
    backfill_provisioned_fields-Complete env machine_spec machine_status "ssh://10.0.0.1" "10.0.0.1"
      (some 1) []
