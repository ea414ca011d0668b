-- ===== src/Readiness.antt =====
-- capi_provider_ssh/readiness.py: check_readiness, the probe of a replica's readiness.
pub mod Equivalence
use capi_provider_ssh.Base.{
  ℕ, ◌-◌, String, Bool, true, false, not, ◌&&◌, ◌||◌, Option, none, some, ltb, leb, if◌then◌else◌,
}
use capi_provider_ssh.Text.Number.{ℤ, pos}
use capi_provider_ssh.Value.{
  Value, Entries, null, boolean, integer, floating, other_value, str, seq_of, dict_of, end, entry,
  find, get_value, value_eq, is_truthy, as_text, as_dict,
}

-- a datetime in microseconds; `aware` when it has a time zone
pub record Instant : Type 0 where
  pub micros : ℕ
  pub aware : Bool

-- what Python does with texts and floats: `datetime.fromisoformat`; `float(v)` in microseconds, rounded
-- up, where what is negative or no number is 0; and whether a float equals an int
pub record Python : Type 0 where
  pub fromisoformat : String → Option Instant
  pub float_micros : Value → Option ℕ
  pub float_is : String → ℤ → Bool

-- a request's answer, or the name of the exception's type
pub data Reply : Type 0 where
  replied : Entries → Reply
  request_failed : String → Reply

-- the answers of list_cluster_custom_object and get_cluster_custom_object
pub record Api : Type 0 where
  pub clusters : Reply
  pub peering : Reply

-- returns, raises NotReadyError with a message, or raises another exception
pub data Checked : Type 0 where
  ready : Checked
  not_ready : String → Checked
  raised : String → Checked

-- PEERING_LIFETIME, in microseconds
abbrev pub peering_lifetime : ℕ
peering_lifetime = 30000000

abbrev shorter : ℕ → ℕ → ℕ
shorter a b = if ltb b a then b else a

-- `type(v) is int`
abbrev pub as_int : Value → Option ℤ
as_int (integer n) = some n
as_int null = none
as_int (boolean _) = none
as_int (floating _) = none
as_int (other_value _) = none
as_int (str _) = none
as_int (seq_of _) = none
as_int (dict_of _) = none

abbrev pub is_boolean : Bool → Value → Bool
is_boolean b (boolean c) = if b then c else not c
is_boolean b null = false
is_boolean b (integer _) = false
is_boolean b (floating _) = false
is_boolean b (other_value _) = false
is_boolean b (str _) = false
is_boolean b (seq_of _) = false
is_boolean b (dict_of _) = false

abbrev int_of_bool : Bool → Value
int_of_bool b = integer (if b then pos 1 else pos 0)

-- `(peering.get("status") or {})`, none when it has no `values`
abbrev pub peers_of : Entries → Option Entries
peers_of peering =
    let status = get_value peering "status" in if is_truthy status then as_dict status else some end

-- a naive time is refused
abbrev pub aware_only : Option Instant → Option ℕ
aware_only none = none
aware_only (some t) = if t.aware then some t.micros else none

module _ (python : Python) where
  -- `v == priority`
  abbrev pub same_priority : ℤ → Value → Bool
  same_priority p (integer n) = value_eq (integer n) (integer p)
  same_priority p (boolean b) = value_eq (int_of_bool b) (integer p)
  same_priority p (floating f) = python.float_is f p
  same_priority p null = false
  same_priority p (other_value _) = false
  same_priority p (str _) = false
  same_priority p (seq_of _) = false
  same_priority p (dict_of _) = false

  -- `datetime.fromisoformat(d[key])`
  abbrev pub time_at : Entries → (key : String) → Option Instant
  time_at es key = elim (as_text (get_value es key)) [
    | none ↦ none
    | some s ↦ python.fromisoformat s
  ]

  abbrev pub lifetime_at : Entries → Option ℕ
  lifetime_at peer = elim (find peer "lifetime") [ none ↦ none | some v ↦ python.float_micros v ]

  module _ (now : ℕ) where
    -- `last_seen >= started_at and 0 <= age < lifetime`; a naive `last_seen` is a TypeError
    pub is_recent : (started : ℕ) → Option ℕ → Option ℕ → Bool
    is_recent started none lifetime = false
    is_recent started (some last) none = false
    is_recent started (some last) (some lifetime) =
        leb started last && (leb last now && ltb (now - last) (shorter lifetime peering_lifetime))

    pub is_fresh : ℤ → (started : ℕ) → Option Entries → Bool
    is_fresh p started none = false
    is_fresh p started (some peer) =
        same_priority p (get_value peer "priority")
        && is_recent started (aware_only (time_at peer "lastseen")) (lifetime_at peer)

    -- the loop over the peers
    pub has_fresh : ℤ → (started : ℕ) → Entries → Bool
    has_fresh p started end = false
    has_fresh p started (entry _ peer es) =
        is_fresh p started (as_dict peer) || has_fresh p started es

    pub peers_checked : ℤ → (started : ℕ) → Option Entries → Checked
    peers_checked p started none = raised "AttributeError"
    peers_checked p started (some peers) =
        if has_fresh p started peers
        then ready
        else not_ready "this operator has no fresh peering heartbeat since startup"

    pub peering_checked : ℤ → (started : ℕ) → Reply → Checked
    peering_checked p started (request_failed e) = raised e
    peering_checked p started (replied peering) = peers_checked p started (peers_of peering)

    pub startup_checked : ℤ → Option ℕ → Reply → Checked
    startup_checked p none peering = not_ready "operator startup epoch is unavailable"
    startup_checked p (some started) peering = peering_checked p started peering

    pub identity_checked : Option ℤ → Option ℕ → Reply → Checked
    identity_checked none started peering = not_ready "operator peering identity is unavailable"
    identity_checked (some p) started peering = startup_checked p started peering

    pub clusters_checked : Reply → (standalone : Bool) → Checked → Checked
    clusters_checked (request_failed e) standalone rest = raised e
    clusters_checked (replied _) standalone rest = if standalone then ready else rest

    -- `check_readiness(api, runtime, now=now)`
    unfoldable pub check_readiness : Api → (runtime : Entries) → Checked
    unfolding is_recent is_fresh has_fresh peers_checked peering_checked startup_checked
        identity_checked clusters_checked
    check_readiness api runtime =
        if not (is_boolean true (get_value runtime "configured"))
        then not_ready "operator startup has not completed"
        else (clusters_checked api.clusters (is_boolean false (get_value runtime "ha")) (
            identity_checked (as_int (get_value runtime "priority"))
              (aware_only (time_at runtime "started_at")) api.peering))
