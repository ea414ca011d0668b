-- ===== src/Contracts/Owner.antt =====
-- Which owner references count as Cluster API's (capi_owner_api_version).
use capi_provider_ssh.Base.{
  String, Char, code, ap, ◌∙◌, true, false, ◌≡◌, ◌↔◌, refl, Option, none, some, truthy, eq_iff,
  arith,
}
use text.Mathlib.TextEquality.{Char-path}
use capi_provider_ssh.Text.{join, Parts, partition, has_char}
use capi_provider_ssh.Text.Partition.{partition-join, join-partition}
use capi_provider_ssh.Objects.{OwnerRef}
use capi_provider_ssh.Contracts.{
  capi_owner_api_version, version_of, capi_group, slash, group_version,
}

abbrev pub slash_char : Char
slash_char = "/"

group_version_inv :
    (p : Parts) (v : String)
    → group_version p ≡ some v
    → (p.before ≡ capi_group)
      × (p.found ≡ true)
      × (p.after ≡ v)
      × (truthy v ≡ true)
      × (has_char slash v ≡ false)
group_version_inv p v h = ground (arith, eq_iff p.before capi_group)

abbrev HasVersion : Option String → String → Type 0
HasVersion t v =
    (t ≡ some (join capi_group slash_char v)) × (truthy v ≡ true) × (has_char slash v ≡ false)

slash_unique : (x : Char) → code x ≡ slash → x ≡ slash_char
slash_unique x e = Char-path x slash_char e

to_version : (t : Option String) (v : String) → HasVersion t v → version_of t ≡ some v
unfolding has_char
to_version t v (e, nonempty, plain) =
    rw e (rw (join-partition slash capi_group slash_char v refl refl) (rw (nonempty, plain) refl))

of_version : (t : Option String) (v : String) → version_of t ≡ some v → HasVersion t v
of_version none v h = cc
of_version (some t) v h =
    let (group, found, version, nonempty, plain) = group_version_inv (partition slash t) v h in
    let (x, e, q) = partition-join slash t found in
    (ap some (q ∙ rw (group, version, slash_unique x e) refl), nonempty, plain)

-- An owner counts exactly if its apiVersion is the group of Cluster API, one slash, and a version
-- that is not empty and has no slash.
pub capi_owner_api_version_iff :
    (owner : OwnerRef) (v : String)
    → (capi_owner_api_version owner ≡ some v) ↔ (
        (owner.api_version ≡ some (join capi_group slash_char v))
        × (truthy v ≡ true)
        × (has_char slash v ≡ false))
unfolding capi_owner_api_version
capi_owner_api_version_iff owner v =
    (of_version owner.api_version v, to_version owner.api_version v)
