-- ===== src/Provision/Backfill.antt =====
-- What the backfill of a provisioned Machine leaves, once its patch is applied.
use capi_provider_ssh.Base.{
  ℕ, String, Bool, true, false, ◌≡◌, refl, inl, inr, Bool-cases, Option, none, some, is_some,
  is_true, text_eq, eq_of_text, if◌then◌else◌,
}
use capi_provider_ssh.Objects.{MachineSpec, MachineStatus}
use capi_provider_ssh.World.{Env, State, ◌>>=◌, gets, stage, pure, Patch, Trace, no_patch}
use capi_provider_ssh.Conditions.{patch_conditions}
use capi_provider_ssh.Provision.{is_stale, backfill_fields, backfill_provisioned_fields}

-- the value of a field after a patch: a staged key replaces it
abbrev pub applied : {A : Type 0} → Option A → Option A → Option A
applied none old = old
applied (some a) old = some a

abbrev pub nulled : {A : Type 0} → Option (Option A) → Option A → Option A
nulled none old = old
nulled (some new) old = new

-- The Machine with the patch has the providerID, is ready and provisioned, and shows no failure.
pub record Complete (spec : MachineSpec) (status : MachineStatus) (provider_id : String) (p : Patch)
    : Type 0 where
  pub has_provider_id : applied p.provider_id spec.provider_id ≡ some provider_id
  pub is_ready : applied p.ready status.ready ≡ some true
  pub is_provisioned : is_true (applied p.provisioned status.provisioned) ≡ true
  pub no_failure_reason : nulled p.failure_reason status.failure_reason ≡ none
  pub no_failure_message : nulled p.failure_message status.failure_message ≡ none
  pub no_diagnostics : nulled p.bootstrap_diagnostics status.bootstrap_diagnostics ≡ none

provider_applied :
    (old : Option String) (id : String)
    → applied (if text_eq old (some id) then none else some id) old ≡ some id
provider_applied old id = elim (Bool-cases (text_eq old (some id))) [
  | inl same ↦ rw same (eq_of_text old (some id) same)
  | inr other ↦ rw other refl
]

flag_applied :
    (old : Option Bool) → is_true (applied (if is_true old then none else some true) old) ≡ true
flag_applied none = refl
flag_applied (some true) = refl
flag_applied (some false) = refl

null_applied :
    {A : Type 0} (old : Option A) → nulled (if is_some old then some none else none) old ≡ none
null_applied none = refl
null_applied (some t) = refl

module _ (env : Env) (spec : MachineSpec) (status : MachineStatus) (provider_id address : String)
    (generation : Option ℕ) (t : Trace) where
  abbrev start : State
  start = record { trace = t; patch = no_patch }

  -- Applied to a Machine, the patch that the backfill stages from an empty one gives the providerID,
  -- makes the Machine ready and provisioned, and clears the failure and the diagnostics.
  pub backfill_provisioned_fields-Complete :
      Complete spec status provider_id
        (backfill_provisioned_fields env spec status provider_id address generation start).1.patch
  unfolding backfill_provisioned_fields ◌>>=◌ gets stage pure patch_conditions backfill_fields
  backfill_provisioned_fields-Complete = elim (Bool-cases (is_stale status.conditions generation)) [
    | inl stale ↦ rw stale (record {
      has_provider_id = provider_applied spec.provider_id provider_id;
      is_ready = refl;
      is_provisioned = flag_applied status.provisioned;
      no_failure_reason = null_applied status.failure_reason;
      no_failure_message = null_applied status.failure_message;
      no_diagnostics = null_applied status.bootstrap_diagnostics;
    })
    | inr fresh ↦ rw fresh (record {
      has_provider_id = provider_applied spec.provider_id provider_id;
      is_ready = refl;
      is_provisioned = flag_applied status.provisioned;
      no_failure_reason = null_applied status.failure_reason;
      no_failure_message = null_applied status.failure_message;
      no_diagnostics = null_applied status.bootstrap_diagnostics;
    })
  ]
