-- ===== src/ReadinessTests.antt =====
-- Concrete runs of the readiness probe and of the audit of namespaces.
use capi_provider_ssh.Base.{
  ℕ, String, true, false, List, [], ◌∷◌, filter, Option, none, some, ◌≡◌, ◌↔◌, ◌⊎◌, refl, ◌==◌,
  if◌then◌else◌,
}
use capi_provider_ssh.Text.Number.{pos}
use capi_provider_ssh.Text.Lines.{starts_with}
use capi_provider_ssh.Value.{
  Entries, named, boolean, integer, str, dict_of, end, entry, find, get_value, value_eq,
}
use capi_provider_ssh.World.{Outcome, ok}
use capi_provider_ssh.NamespaceAudit.{
  NamespaceObject, Item, Report, test_label, is_stuck_test, audit,
}
use capi_provider_ssh.NamespaceAudit.Complete.{Reports, audit-Complete}
use capi_provider_ssh.Readiness.{Instant, Python, replied, Api, ready, is_boolean, check_readiness}
use capi_provider_ssh.Readiness.Equivalence.{Peered, check_readiness_iff}

-- two times that are read, of the start and of the heartbeat after it
abbrev read_time : String → Option Instant
read_time s =
    if s == "start"
    then some (record { micros = 1000000; aware = true })
    else if s == "beat"
    then some (record { micros = 2000000; aware = true })
    else none

abbrev python : Python
python = record {
  fromisoformat = read_time;
  float_micros = λ _. some 60000000;
  float_is = λ _ _. false;
}

abbrev runtime : Entries
runtime =
    entry (named "configured") (boolean true)
      (entry (named "priority") (integer (pos 7)) (entry (named "started_at") (str "start") end))

abbrev heartbeat_entries : Entries
heartbeat_entries =
    entry (named "priority") (integer (pos 7))
      (entry (named "lastseen") (str "beat") (entry (named "lifetime") (integer (pos 60)) end))

abbrev api : Api
api = record {
  clusters = replied end;
  peering =
      replied (
        entry (named "status") (dict_of (entry (named "own") (dict_of heartbeat_entries) end)) end);
}

fresh_is_ready : check_readiness python 3000000 api runtime ≡ ready
unfolding check_readiness find value_eq
fresh_is_ready = refl

check_readiness_iff_example :
    check_readiness python 3000000 api runtime ≡ ready
    ↔ (is_boolean true (get_value runtime "configured") ≡ true)
      × ((es : Entries) × (api.clusters ≡ replied es))
      × ((is_boolean false (get_value runtime "ha") ≡ true) ⊎ Peered python 3000000 api runtime)
check_readiness_iff_example = check_readiness_iff python 3000000 api runtime

abbrev namespace_named : String → String → NamespaceObject
namespace_named name phase = record {
  name = some name;
  labels = (test_label, "true") ∷ [];
  phase = some phase;
  deletion_timestamp = some "start";
}

abbrev namespaces : List NamespaceObject
namespaces =
    namespace_named "test-capi-ssh-1" "Terminating"
    ∷ namespace_named "production" "Terminating"
    ∷ namespace_named "test-capi-ssh-2" "Active"
    ∷ []

abbrev stuck_item : Item
stuck_item = record {
  kind = "Machine";
  name = "m1";
  uid = "machine-uid";
  finalizers = "machine.cluster.x-k8s.io" ∷ [];
  cleanup_phase = some "Failed";
}

abbrev list_objects : (group plural namespace : String) → Outcome (List Item)
list_objects group plural namespace = ok (stuck_item ∷ [])

abbrev objects_listed :
    (group plural namespace : String)
    → (items : List Item) × (list_objects group plural namespace ≡ ok items)
objects_listed group plural namespace = (stuck_item ∷ [], refl)

abbrev audit_time : ℕ
audit_time = 7200000000

first_is_stuck :
    filter (is_stuck_test read_time audit_time) namespaces
    ≡ namespace_named "test-capi-ssh-1" "Terminating" ∷ []
unfolding is_stuck_test starts_with
first_is_stuck = refl

audit-Complete_example :
    (reports : List Report) × (audit read_time audit_time list_objects namespaces ≡ ok reports)
    × Reports list_objects (filter (is_stuck_test read_time audit_time) namespaces) reports
audit-Complete_example = audit-Complete list_objects read_time audit_time objects_listed namespaces
