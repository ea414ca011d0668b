-- ===== src/NamespaceAudit/Complete.antt =====
-- What a report of stuck namespaces has.
use mathlib.Core.List.{append-nil}
use capi_provider_ssh.Base.{
  ℕ, String, List, [], ◌∷◌, ◌++◌, map, filter, Option, ◌≡◌, refl, ap, inl, inr, Bool-cases,
}
use capi_provider_ssh.World.{Outcome, ok}
use capi_provider_ssh.Fallible.{◌>>=◌}
use capi_provider_ssh.Readiness.{Instant}
use capi_provider_ssh.NamespaceAudit.{
  NamespaceObject, Item, Report, resource_of, name_of, is_stuck_test, audit_action, resources_in,
  report_of, reported, audit,
}

module _ (list_objects : (group plural namespace : String) → Outcome (List Item)) where
  -- A report names its namespace and has the namespace's Machines and SSHMachines, all of them.
  pub record ReportOf (namespace : NamespaceObject) (report : Report) : Type 0 where
    pub same_name : report.namespace ≡ name_of namespace
    pub same_deletion : report.deletion_timestamp ≡ namespace.deletion_timestamp
    pub machines : List Item
    pub machines_listed :
        list_objects "cluster.x-k8s.io" "machines" (name_of namespace) ≡ ok machines
    pub sshmachines : List Item
    pub sshmachines_listed :
        list_objects "infrastructure.alpininsight.ai" "sshmachines" (name_of namespace)
        ≡ ok sshmachines
    pub all_resources : report.resources ≡ map resource_of machines ++ map resource_of sshmachines

  -- one report for each namespace, in the same order
  pub Reports : List NamespaceObject → List Report → Type 0
  Reports [] [] = Unit
  Reports [] (_ ∷ _) = ⊥
  Reports (_ ∷ _) [] = ⊥
  Reports (namespace ∷ namespaces) (report ∷ reports) =
      ReportOf namespace report × Reports namespaces reports

  report_of-ReportOf :
      (namespace : NamespaceObject) (machines sshmachines : List Item)
      → list_objects "cluster.x-k8s.io" "machines" (name_of namespace) ≡ ok machines
      → list_objects "infrastructure.alpininsight.ai" "sshmachines" (name_of namespace)
        ≡ ok sshmachines
      → (report : Report) × (report_of list_objects namespace ≡ ok report)
        × ReportOf namespace report
  unfolding report_of resources_in ◌>>=◌
  report_of-ReportOf namespace machines sshmachines hm hs = (
    record {
      namespace = name_of namespace;
      deletion_timestamp = namespace.deletion_timestamp;
      resources = map resource_of machines ++ (map resource_of sshmachines ++ []);
      action = audit_action;
    },
    rw hm (rw hs refl),
    record {
      same_name = refl;
      same_deletion = refl;
      machines = machines;
      machines_listed = hm;
      sshmachines = sshmachines;
      sshmachines_listed = hs;
      all_resources = ap (λ x. map resource_of machines ++ x) (append-nil _);
    },
  )

  reported-Reports :
      (namespace : NamespaceObject) (namespaces : List NamespaceObject) (report : Report)
      (rest : Outcome (List Report)) (reports : List Report)
      → report_of list_objects namespace ≡ ok report
      → ReportOf namespace report
      → rest ≡ ok reports
      → Reports namespaces reports
      → (all : List Report) × (reported list_objects namespace rest ≡ ok all)
        × Reports (namespace ∷ namespaces) all
  unfolding reported ◌>>=◌ Reports
  reported-Reports namespace namespaces report rest reports h r hr rs =
      (report ∷ reports, rw h (rw hr refl), (r, rs))

  module _ (fromisoformat : String → Option Instant) (now : ℕ) where
    -- When every list of objects is answered, the audit returns one report for each stuck test
    -- namespace, in their order, and no other.
    pub audit-Complete :
        (answered : (group plural namespace : String)
          → (items : List Item) × (list_objects group plural namespace ≡ ok items))
        (namespaces : List NamespaceObject)
        → (reports : List Report) × (audit fromisoformat now list_objects namespaces ≡ ok reports)
          × Reports (filter (is_stuck_test fromisoformat now) namespaces) reports
    unfolding audit Reports
    audit-Complete answered [] = ([], refl, tt)
    audit-Complete answered (namespace ∷ namespaces) =
        let (reports, h, rs) = audit-Complete answered namespaces in
        let name = name_of namespace in
        let (machines, hm) = answered "cluster.x-k8s.io" "machines" name in
        let (sshmachines, hs) = answered "infrastructure.alpininsight.ai" "sshmachines" name in
        let (report, hf, r) = report_of-ReportOf namespace machines sshmachines hm hs in
        elim (Bool-cases (is_stuck_test fromisoformat now namespace)) [
          | inl stuck ↦ rw stuck (reported-Reports namespace _ report _ reports hf r h rs)
          | inr other ↦ rw other (reports, h, rs)
        ]
