-- ===== src/NamespaceAudit.antt =====
-- capi_provider_ssh/namespace_audit.py: the report of test namespaces that are stuck in deletion.
pub mod Complete
use capi_provider_ssh.Base.{
  ℕ, ◌-◌, String, Char, code, Bool, true, false, not, ◌&&◌, List, [], ◌∷◌, ◌++◌, map, Option, none,
  some, or_else, Dict, get, leb, nat_eq, truthy, text_eq, if◌then◌else◌,
}
use capi_provider_ssh.Text.{concat}
use capi_provider_ssh.Text.Lines.{starts_with}
use capi_provider_ssh.World.{Outcome, ok}
use capi_provider_ssh.Fallible.{◌>>=◌}
use capi_provider_ssh.Readiness.{Instant}

-- a namespace as the API client gives it; a missing key is none
pub record NamespaceObject : Type 0 where
  pub name : Option String
  pub labels : Dict String
  pub phase : Option String
  pub deletion_timestamp : Option String

pub record Item : Type 0 where
  pub kind : String
  pub name : String
  pub uid : String
  pub finalizers : List String
  pub cleanup_phase : Option String

pub record Resource : Type 0 where
  pub kind : String
  pub name : String
  pub uid : String
  pub finalizers : List String
  pub cleanup : Option String

pub record Report : Type 0 where
  pub namespace : String
  pub deletion_timestamp : Option String
  pub resources : List Resource
  pub action : String

abbrev pub audit_action : String
audit_action = "Investigate cleanup; finalizers and claims preserved"

abbrev pub test_label : String
test_label = "capi-provider-ssh-test"

-- MIN_AGE, in microseconds
abbrev pub min_age : ℕ
min_age = 3600000000

-- `s.replace("Z", "+00:00")`
unfoldable pub utc_offset : String → String
utc_offset String.[] = ""
utc_offset (String.◌∷◌ x s) =
    let rest = utc_offset s in
    if nat_eq (code x) b'Z' then concat "+00:00" rest else String.◌∷◌ x rest

abbrev pub resource_of : Item → Resource
resource_of item = record {
  kind = item.kind;
  name = item.name;
  uid = item.uid;
  finalizers = item.finalizers;
  cleanup = item.cleanup_phase;
}

abbrev pub name_of : NamespaceObject → String
name_of namespace = or_else namespace.name ""

-- the answer of list_namespaced_custom_object for a group, a plural and a namespace
module _ (list_objects : (group plural namespace : String) → Outcome (List Item)) where
  -- the two loops over the kinds and their objects
  pub resources_in : (namespace : String) → List (String × String) → Outcome (List Resource)
  resources_in namespace [] = ok []
  resources_in namespace ((group, plural) ∷ kinds) = do
    items ← list_objects group plural namespace
    rest ← resources_in namespace kinds
    ok (map resource_of items ++ rest)

  abbrev pub audited_kinds : List (String × String)
  audited_kinds =
      ("cluster.x-k8s.io", "machines") ∷ ("infrastructure.alpininsight.ai", "sshmachines") ∷ []

  pub report_of : NamespaceObject → Outcome Report
  report_of namespace = do
    resources ← resources_in (name_of namespace) audited_kinds
    ok (record {
      namespace = name_of namespace;
      deletion_timestamp = namespace.deletion_timestamp;
      resources = resources;
      action = audit_action;
    })

  pub reported : NamespaceObject → Outcome (List Report) → Outcome (List Report)
  reported namespace rest = do found ← report_of namespace; reports ← rest; ok (found ∷ reports)

module _ (fromisoformat : String → Option Instant) (now : ℕ) where
  abbrev is_old : Option Instant → Bool
  is_old none = false
  is_old (some time) = time.aware && leb min_age (now - time.micros)

  -- `is_stuck_test(namespace, now)`
  unfoldable pub is_stuck_test : NamespaceObject → Bool
  unfolding utc_offset
  is_stuck_test namespace =
      let deleted = or_else namespace.deletion_timestamp "" in
      if not (
        starts_with "test-capi-ssh-" (name_of namespace)
        && text_eq (get namespace.labels test_label) (some "true"))
      then false
      else if not (text_eq namespace.phase (some "Terminating"))
      then false
      else if not (truthy deleted)
      then false
      else is_old (fromisoformat (utc_offset deleted))

  module _ (list_objects : (group plural namespace : String) → Outcome (List Item)) where
    -- the loop of `audit` over the namespaces
    unfoldable pub audit : List NamespaceObject → Outcome (List Report)
    unfolding reported report_of resources_in ◌>>=◌
    audit [] = ok []
    audit (namespace ∷ namespaces) =
        let rest = audit namespaces in
        if not (is_stuck_test namespace) then rest else reported list_objects namespace rest
