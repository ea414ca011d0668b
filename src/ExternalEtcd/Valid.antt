-- ===== src/ExternalEtcd/Valid.antt =====
-- What a configuration of an external etcd that passes its checks looks like.
use capi_provider_ssh.Base.{
  String, true, ◌≡◌, inl, inr, Bool-cases, List, [], Option, none, some, or_else, truthy, All,
  subst, if◌then◌else◌,
}
use capi_provider_ssh.Text.Lines.{starts_with}
use capi_provider_ssh.Value.{
  Values, Entries, nil, cons, str, find, null, as_text, as_dict, is_truthy,
}
use capi_provider_ssh.Objects.{MachineSpec}
use capi_provider_ssh.World.{Outcome, ok, err, ok-injective, err-ne-ok}
use capi_provider_ssh.Fallible.{bind_ok, expect}
use capi_provider_ssh.ExternalEtcd.{
  ExternalEtcd, absolute_text, required_secret_ref, as_full_text, endpoint_texts, file_path,
  normalized, normalize_external_etcd,
}

abbrev pub Absolute : String → Type 0
Absolute s = starts_with "/" s ≡ true

-- No endpoint that is empty, and absolute paths.
pub record Valid (etcd : ExternalEtcd) : Type 0 where
  pub full_endpoints : All (λ s. truthy s ≡ true) etcd.endpoints
  pub absolute_ca : Absolute etcd.ca_file
  pub absolute_cert : Absolute etcd.cert_file
  pub absolute_key : Absolute etcd.key_file

abbrev texts : Outcome (List String) → List String
texts (ok ss) = ss
texts (err e) = []

full_text_truthy :
    (o : Option String) (m s : String)
    → expect (elim o [ none ↦ none | some t ↦ (if truthy t then some t else none) ]) m ≡ ok s
    → truthy s ≡ true
full_text_truthy none m s h = absurd (err-ne-ok h)
full_text_truthy (some t) m s h = elim (Bool-cases (truthy t)) [
  | inl full ↦ subst (λ x. truthy x ≡ true) (ok-injective (rw full at h)) full
  | inr empty ↦ absurd (err-ne-ok (rw empty at h))
]

endpoints_full :
    (vs : Values) (ss : List String) → endpoint_texts vs ≡ ok ss → All (λ s. truthy s ≡ true) ss
unfolding endpoint_texts
endpoints_full nil ss h = subst (λ x. All (λ s. truthy s ≡ true) x) (ok-injective h) tt
endpoints_full (cons v vs) ss h =
    let (s, es, h') = bind_ok (expect (as_full_text v) _) _ ss h in
    let (rest, er, h'') = bind_ok (endpoint_texts vs) _ ss h' in
    subst (λ x. All (λ s. truthy s ≡ true) x) (ok-injective h'')
      (full_text_truthy (as_text v) _ s es, endpoints_full vs rest er)

Absolute-file : (o : Option String) (m s : String) → expect (absolute_text o) m ≡ ok s → Absolute s
Absolute-file none m s h = absurd (err-ne-ok h)
Absolute-file (some t) m s h = elim (Bool-cases (starts_with "/" t)) [
  | inl yes_slash ↦ subst Absolute (ok-injective (rw yes_slash at h)) yes_slash
  | inr other ↦ absurd (err-ne-ok (rw other at h))
]

file_path-Absolute :
    (files : Entries) (field default s : String) → file_path files field default ≡ ok s → Absolute s
unfolding file_path
file_path-Absolute files field default s h =
    Absolute-file (as_text (or_else (find files field) (str default))) _ s h

normalized-Valid :
    (config : Entries) (etcd : ExternalEtcd) → normalized config ≡ ok etcd → Valid etcd
unfolding normalized
normalized-Valid config etcd h =
    let (values, _, h) = bind_ok (expect _ _) _ etcd h in
    let (endpoints, ee, h) = bind_ok (endpoint_texts values) _ etcd h in
    let (files, _, h) = bind_ok (expect _ _) _ etcd h in
    let (ca, ec, h) = bind_ok (file_path files "caFile" _) _ etcd h in
    let (cert, et, h) = bind_ok (file_path files "certFile" _) _ etcd h in
    let (key, ek, h) = bind_ok (file_path files "keyFile" _) _ etcd h in
    let (ca_ref, _, h) = bind_ok (required_secret_ref config "caCertRef") _ etcd h in
    let (cert_ref, _, h) = bind_ok (required_secret_ref config "clientCertRef") _ etcd h in
    let (key_ref, _, h) = bind_ok (required_secret_ref config "clientKeyRef") _ etcd h in
    subst Valid (ok-injective h) (record {
      full_endpoints = endpoints_full values endpoints ee;
      absolute_ca = file_path-Absolute files "caFile" _ ca ec;
      absolute_cert = file_path-Absolute files "certFile" _ cert et;
      absolute_key = file_path-Absolute files "keyFile" _ key ek;
    })

-- A configuration of an external etcd that passes the checks has no empty endpoint, and its three
-- files have absolute paths.
pub normalize_external_etcd-Valid :
    (spec : MachineSpec) (etcd : ExternalEtcd)
    → normalize_external_etcd spec ≡ ok (some etcd)
    → Valid etcd
unfolding normalize_external_etcd
normalize_external_etcd-Valid spec etcd h =
    elim (Bool-cases (is_truthy (or_else spec.external_etcd null))) [
      | inl configured ↦
          let (es, _, h) =
            bind_ok (expect (as_dict (or_else spec.external_etcd null)) _) _ (some etcd)
              (rw configured at h) in
          let (found, ef, h) = bind_ok (normalized es) _ (some etcd) h in
          subst Valid (some_inj (ok-injective h)) (normalized-Valid es found ef)
      | inr absent ↦ absurd (none-some (ok-injective (rw absent at h)))
    ]
  where
    some_inj : {a b : ExternalEtcd} → some a ≡ some b → a ≡ b
    some_inj h = cc

    none-some : {a : ExternalEtcd} → none ≡ some a → ⊥
    none-some h = cc
