-- ===== src/Cluster.antt =====
-- capi_provider_ssh/controllers/sshcluster.py. The keys that it stages are among those of a Machine's
-- patch: `ready`, `initialization.provisioned` and `conditions`.
pub mod Report
use capi_provider_ssh.Base.{
  ℕ, String, Bool, true, false, not, ◌&&◌, ◌||◌, List, [], ◌∷◌, Option, none, some, or_else,
  is_some, text_eq, has_text, any, nat_eq, if◌then◌else◌,
}
use capi_provider_ssh.Text.{show}
use capi_provider_ssh.Shell.{text}
use capi_provider_ssh.Objects.{Condition, Meta, OwnerRef}
use capi_provider_ssh.World.{Env, temporary, Exec, pure, raise, gets, stage, ◌>>=◌, ◌>>◌}
use capi_provider_ssh.Conditions.{condition, patch_conditions, report_pause}
use capi_provider_ssh.Contracts.{capi_owner_api_version, is_paused}

-- `spec.controlPlaneEndpoint`
pub record Endpoint : Type 0 where
  pub host : Option String
  pub port : Option ℕ

pub record ClusterSpec : Type 0 where
  pub paused : Option Bool
  pub control_plane_endpoint : Option Endpoint

is_capi_cluster : OwnerRef → Bool
is_capi_cluster ref = is_some (capi_owner_api_version ref) && text_eq ref.kind (some "Cluster")

-- `_has_capi_cluster_owner(owner_references)`; with no owner `any` is false as well
pub has_capi_cluster_owner : List OwnerRef → Bool
unfolding is_capi_cluster
has_capi_cluster_owner refs = any is_capi_cluster refs

abbrev pub status_of : Bool → String
status_of b = if b then "True" else "False"

-- `_condition(condition_type, status, reason, message)` at the time `now`
timed_condition : (now kind status reason message : String) → Condition
timed_condition now kind status reason message = record (condition kind status reason message) {
  last_transition_time = some now;
}

-- `_cluster_lifecycle_conditions`; each call gives one Boolean for its three conditions, and one
-- reason and message for the first two
pub cluster_lifecycle_conditions :
    (now : String) (ready : Bool) (reason message endpoint_reason endpoint_message : String)
    → List Condition
unfolding timed_condition
cluster_lifecycle_conditions now ready reason message endpoint_reason endpoint_message =
    timed_condition now "Ready" (status_of ready) reason message
    ∷ timed_condition now "InfrastructureReady" (status_of ready) reason message
    ∷ timed_condition now "ControlPlaneEndpointReady" (status_of ready) endpoint_reason
        endpoint_message
    ∷ []

-- `endpoint.get("host", "")`, `endpoint.get("port", 0)`
abbrev pub endpoint_host : ClusterSpec → String
endpoint_host spec = or_else (elim spec.control_plane_endpoint [ none ↦ none | some e ↦ e.host ]) ""

abbrev pub endpoint_port : ClusterSpec → ℕ
endpoint_port spec = or_else (elim spec.control_plane_endpoint [ none ↦ none | some e ↦ e.port ]) 0

abbrev pub has_endpoint : ClusterSpec → Bool
has_endpoint spec =
    not (not (has_text (some (endpoint_host spec))) || nat_eq (endpoint_port spec) 0)

abbrev deleting : String
deleting = "Cluster infrastructure is deleting"

module _ (env : Env) (spec : ClusterSpec) (namespace : String) (meta : Meta)
    (status : List Condition) where
  -- one of the three endings of `_reconcile`: the flags, and the conditions with the same value
  pub report : (ready : Bool) (reason message endpoint_reason endpoint_message : String) → Exec Unit
  report ready reason message endpoint_reason endpoint_message = do
    stage (λ p. record p { provisioned = some ready; ready = some ready })
    now ← gets (λ s. env.iso s.trace)
    patch_conditions env status meta.generation
        (cluster_lifecycle_conditions now ready reason message endpoint_reason endpoint_message)

  -- what follows the pause check in `_reconcile`
  pub reconcile_running : Exec Unit
  reconcile_running =
      if not (has_capi_cluster_owner meta.owner_references)
      then report false "WaitingForClusterOwner" "No CAPI Cluster ownerReference found"
          "WaitingForClusterOwner"
          "Control plane endpoint cannot be evaluated before owner is available"
      else (let place : String = text (endpoint_host spec ∷ ":" ∷ show (endpoint_port spec) ∷ []) in
          let invalid : String = text ("Invalid controlPlaneEndpoint: " ∷ place ∷ []) in
          let message : String = text ("Control plane endpoint " ∷ place ∷ " registered" ∷ []) in
          if not (has_endpoint spec)
          then report false "InvalidEndpoint" invalid "InvalidEndpoint" invalid
          else report true "Provisioned" message "EndpointConfigured" message)

  -- `_reconcile(spec, name, namespace, meta, patch, status)`
  pub reconcile : Exec Unit
  reconcile = do
    paused ← report_pause env status meta.generation (is_paused env spec.paused meta namespace)
    if paused then pure tt else reconcile_running

  -- `sshcluster_delete`
  pub sshcluster_delete : Exec Unit
  sshcluster_delete = do
    stage (λ p. record p { ready = some false })
    patch_conditions env status meta.generation (
        condition "Ready" "False" "Deleting" deleting
        ∷ condition "InfrastructureReady" "False" "Deleting" deleting
        ∷ condition "CleanupSucceeded" "False" "Deleting"
            "Cluster deletion is awaiting pause checks"
        ∷ [])
    paused ← report_pause env status meta.generation (is_paused env spec.paused meta namespace)
    if paused then raise (temporary "Cluster deletion is paused by CAPI" 15) else (do
      stage (λ p. record p { provisioned = some false })
      patch_conditions env status meta.generation (
          condition "ControlPlaneEndpointReady" "False" "Deleting"
            "Control plane endpoint is being removed"
          ∷ condition "CleanupSucceeded" "True" "CleanupNotRequired"
              "SSHCluster has no provider-owned resources to clean up"
          ∷ []))
