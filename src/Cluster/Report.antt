-- ===== src/Cluster/Report.antt =====
-- What a reconciliation of an SSHCluster reports.
use capi_provider_ssh.Base.{
  String, Bool, true, false, ◌&&◌, ◌≡◌, refl, ◌∙◌, sym, List, some, Bool-cases, inl, inr,
}
use capi_provider_ssh.Objects.{Condition, Meta}
use capi_provider_ssh.World.{Env, Outcome, ok, err, State, Patch, Exec, err-ne-ok}
use capi_provider_ssh.World.Wp.{
  Wp, wp-bind, wp-gets, wp-stage, wp-if, wp-mono, wp-pure, wp_self, wp-ok, wp-err,
}
use capi_provider_ssh.Conditions.{find, report_pause}
use capi_provider_ssh.Conditions.Merge.{IsUnique}
use capi_provider_ssh.Conditions.Staged.{Shows, NoRaise, patch-Shown, report_pause-same}
use capi_provider_ssh.Contracts.{is_paused}
use capi_provider_ssh.Cluster.{
  ClusterSpec, status_of, has_capi_cluster_owner, has_endpoint, cluster_lifecycle_conditions,
  report, reconcile_running, reconcile,
}

-- The flags and the three conditions agree on `b`.
pub record Reports (b : Bool) (p : Patch) : Type 0 where
  pub ready : p.ready ≡ some b
  pub provisioned : p.provisioned ≡ some b
  pub ready_condition : Shows "Ready" (status_of b) p
  pub infrastructure_condition : Shows "InfrastructureReady" (status_of b) p
  pub endpoint_condition : Shows "ControlPlaneEndpointReady" (status_of b) p

distinct :
    (now : String) (b : Bool) (reason message endpoint_reason endpoint_message : String)
    → IsUnique (cluster_lifecycle_conditions now b reason message endpoint_reason endpoint_message)
unfolding cluster_lifecycle_conditions find
distinct now b reason message endpoint_reason endpoint_message = (refl, (refl, (refl, tt)))

module _ (env : Env) (spec : ClusterSpec) (namespace : String) (meta : Meta)
    (status : List Condition) where
  report-wp :
      (b : Bool) (reason message endpoint_reason endpoint_message : String) (s : State)
      → Wp
          (report env spec namespace meta status b reason message endpoint_reason endpoint_message)
          s
          (λ _ s'. Reports b s'.patch)
          NoRaise
  unfolding report cluster_lifecycle_conditions
  report-wp b reason message endpoint_reason endpoint_message s = wp-bind _ _ _ (
      wp-stage _ _ (
        wp-bind _ _ _ (
          wp-gets _ _ (
            wp-mono _ _
              (patch-Shown env status meta.generation _ _
                (distinct _ b reason message endpoint_reason endpoint_message))
              (λ _ s' h. record {
                ready = h.same_ready;
                provisioned = h.same_provisioned;
                ready_condition = h.shows.0;
                infrastructure_condition = h.shows.1.0;
                endpoint_condition = h.shows.1.1.0;
              })
              (λ _ _ x. x)))))

  -- what a reconciliation reports
  abbrev pub is_registered : Bool
  is_registered = has_capi_cluster_owner meta.owner_references && has_endpoint spec

  running-wp :
      (s : State)
      → Wp
          (reconcile_running env spec namespace meta status)
          s
          (λ _ s'. Reports is_registered s'.patch)
          NoRaise
  unfolding reconcile_running
  running-wp s = elim (Bool-cases (has_capi_cluster_owner meta.owner_references)) [
    | inr no_owner ↦ rw no_owner (report-wp false _ _ _ _ s)
    | inl owned ↦ elim (Bool-cases (has_endpoint spec)) [
      | inr invalid ↦ rw (owned, invalid) (report-wp false _ _ _ _ s)
      | inl valid ↦ rw (owned, valid) (report-wp true _ _ _ _ s)
    ]
  ]

  abbrev pause_check : Exec Bool
  pause_check = is_paused env spec.paused meta namespace

  abbrev IfRunning : Type 0 → State → Type 0
  IfRunning P s = (pause_check s).0 ≡ ok false → P

  reconcile-wp :
      (s : State)
      → Wp
          (reconcile env spec namespace meta status)
          s
          (λ _ s'. IfRunning (Reports is_registered s'.patch) s)
          (λ _ _. IfRunning ⊥ s)
  unfolding reconcile
  reconcile-wp s = wp-bind _ _ _ (
      wp-mono _ _ (wp_self (report_pause env status meta.generation pause_check) s)
        (λ paused t h.
          wp-if paused _ _ _
            (λ is_on. wp-pure tt t (λ off. absurd (differ paused is_on (sym (same s) ∙ h) off)))
            (λ _. wp-mono _ _ (running-wp t) (λ _ _ r _. r) (λ _ _ x. absurd x)))
        (λ e t h off. absurd (err-ne-ok (sym h ∙ same s ∙ off))))
    where
      same :
          (s : State)
          → (report_pause env status meta.generation pause_check s).0 ≡ (pause_check s).0
      same = report_pause-same env status meta.generation pause_check

      differ : (b : Bool) → b ≡ true → (pause_check s).0 ≡ ok b → (pause_check s).0 ≡ ok false → ⊥
      differ b e h off = cc

-- Where the pause check answers that nothing is paused, the reconciliation of an SSHCluster returns.
-- It then reports `ready`, `initialization.provisioned` and its three conditions with one value:
-- true exactly where a Cluster of CAPI owns the object and its endpoint has a host and a port.
pub reconcile-Reports :
    (env : Env) (spec : ClusterSpec) (namespace : String) (meta : Meta) (status : List Condition)
    (s : State)
    → (is_paused env spec.paused meta namespace s).0 ≡ ok false
    → ((reconcile env spec namespace meta status s).0 ≡ ok tt)
      × Reports
          (has_capi_cluster_owner meta.owner_references && has_endpoint spec)
          (reconcile env spec namespace meta status s).1.patch
reconcile-Reports env spec namespace meta status s h =
    let w = reconcile-wp env spec namespace meta status s in
    let done = returned (reconcile env spec namespace meta status s).0 refl in
    (done, wp-ok (reconcile env spec namespace meta status) s w done h)
  where
    returned :
        (r : Outcome Unit)
        → (reconcile env spec namespace meta status s).0 ≡ r
        → (reconcile env spec namespace meta status s).0 ≡ ok tt
    returned (ok tt) e = e
    returned (err x) e = absurd (
        wp-err (reconcile env spec namespace meta status) s
          (reconcile-wp env spec namespace meta status s) e h)
