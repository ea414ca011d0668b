-- ===== src/Inventory/Consumer.antt =====
-- Whom a claim names (consumer_ref, same_consumer).
use capi_provider_ssh.Base.{
  String, true, ◌≡◌, ◌↔◌, refl, ap, sym, ◌∙◌, subst, inl, inr, Bool-cases, Option, none, some,
  truthy, eq_refl, eq_of_text, and_true, arith,
}
use capi_provider_ssh.Objects.{ConsumerRef}
use capi_provider_ssh.World.{ok, ok-injective, err-ne-ok}
use capi_provider_ssh.Inventory.{consumer_ref, same_consumer}

-- the claim of a Machine
abbrev pub claim_of : (name namespace uid : String) → ConsumerRef
claim_of name namespace uid = record {
  kind = some "SSHMachine";
  name = some name;
  namespace = some namespace;
  uid = some uid;
}

ref_eq :
    (ref other : ConsumerRef)
    → ref.kind ≡ other.kind
    → ref.name ≡ other.name
    → ref.namespace ≡ other.namespace
    → ref.uid ≡ other.uid
    → ref ≡ other
ref_eq ref other k n s u i = record { kind = k i; name = n i; namespace = s i; uid = u i }

same_consumer_from :
    (ref : Option ConsumerRef) (name namespace uid : String)
    → same_consumer ref name namespace uid ≡ true
    → (truthy uid ≡ true) × (ref ≡ some (claim_of name namespace uid))
unfolding same_consumer
same_consumer_from none name namespace uid h = cc
same_consumer_from (some ref) name namespace uid h =
    let (abcd, e) = and_true _ _ h in
    let (abc, d) = and_true _ _ abcd in
    let (ab, c) = and_true _ _ abc in
    let (a, b) = and_true _ _ ab in
    (
      a,
      ap some (
          ref_eq ref (claim_of name namespace uid) (eq_of_text _ _ c) (eq_of_text _ _ d)
            (eq_of_text _ _ e) (eq_of_text _ _ b)),
    )

same_consumer_self :
    (name namespace uid : String)
    → truthy uid ≡ true
    → same_consumer (some (claim_of name namespace uid)) name namespace uid ≡ true
unfolding same_consumer
same_consumer_self name namespace uid h = rw (h, eq_refl uid, eq_refl name, eq_refl namespace) refl

-- A reference names a Machine exactly if the UID is not empty and all four fields are the Machine's.
pub same_consumer_iff :
    (ref : Option ConsumerRef) (name namespace uid : String)
    → (same_consumer ref name namespace uid ≡ true)
      ↔ ((truthy uid ≡ true) × (ref ≡ some (claim_of name namespace uid)))
same_consumer_iff ref name namespace uid = (
  same_consumer_from ref name namespace uid,
  λ h. rw h.1 (same_consumer_self name namespace uid h.0),
)

-- Two Machines that one reference names have the same name, namespace and UID.
pub same_consumer_unique :
    (ref : Option ConsumerRef) (name namespace uid name' namespace' uid' : String)
    → same_consumer ref name namespace uid ≡ true
    → same_consumer ref name' namespace' uid' ≡ true
    → (name ≡ name') × (namespace ≡ namespace') × (uid ≡ uid')
same_consumer_unique ref name namespace uid name' namespace' uid' h k =
    let p : some (claim_of name namespace uid) ≡ some (claim_of name' namespace' uid') =
      sym (same_consumer_from ref name namespace uid h).1
      ∙ (same_consumer_from ref name' namespace' uid' k).1 in
    (ground arith, ground arith, ground arith)

-- The claim that `consumer_ref` returns names the Machine that it was made for.
pub consumer_ref-same_consumer :
    (name namespace uid : String) (ref : ConsumerRef)
    → consumer_ref name namespace uid ≡ ok ref
    → same_consumer (some ref) name namespace uid ≡ true
unfolding consumer_ref
consumer_ref-same_consumer name namespace uid ref h = elim (Bool-cases (truthy uid)) [
  | inl has ↦
      subst (λ r. same_consumer (some r) name namespace uid ≡ true) (ok-injective (rw has at h))
        (same_consumer_self name namespace uid has)
  | inr lacks ↦ absurd (err-ne-ok (rw lacks at h))
]
