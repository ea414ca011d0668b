-- ===== src/ExternalEtcd.antt =====
-- capi_provider_ssh/controllers/sshmachine.py: the external etcd of a control plane, its
-- configuration (_required_secret_ref, _normalize_external_etcd), the kubeadm documents
-- (_patch_external_etcd_in_kubeadm_yaml) and its certificates (_external_etcd_files_script).
pub mod Local
pub mod Valid
use capi_provider_ssh.Base.{
  String, Bool, true, false, not, ◌&&◌, ◌||◌, List, [], ◌∷◌, ◌++◌, Option, none, some, or_else,
  truthy, if◌then◌else◌,
}
use capi_provider_ssh.Text.{concat}
use capi_provider_ssh.Text.Lines.{join_with, join_lines, newline, starts_with, dirname}
use capi_provider_ssh.Shell.{text, quote}
use capi_provider_ssh.Value.{
  Value, Values, Entries, null, str, seq_of, dict_of, nil, cons, end, entry, named, find, get_value,
  put, value_eq, is_truthy, as_text, as_dict, as_list, texts_value, scalar_text,
}
use capi_provider_ssh.Objects.{MachineSpec}
use capi_provider_ssh.World.{Env, Outcome, ok, err, permanent, Exec, pure}
use capi_provider_ssh.World
use capi_provider_ssh.Fallible.{◌>>=◌, ◌>>◌, check, expect, is_text, is_among}
use capi_provider_ssh.Kubeadm.{
  v1beta3, v1beta4, set_kubeadm_args, PatchedDoc, PatchedText, untouched, patch_yaml,
}
use capi_provider_ssh.Bootstrap.{read_secret_value}

pub record KeyRef : Type 0 where
  pub name : String
  pub key : String

-- what `_normalize_external_etcd` returns; its `servers` are the endpoints joined by commas
pub record ExternalEtcd : Type 0 where
  pub endpoints : List String
  pub ca_ref : KeyRef
  pub cert_ref : KeyRef
  pub key_ref : KeyRef
  pub ca_file : String
  pub cert_file : String
  pub key_file : String

abbrev pub servers : ExternalEtcd → String
servers etcd = join_with "," etcd.endpoints

-- a text with at least one character
abbrev pub as_full_text : Value → Option String
as_full_text v = elim (as_text v) [ none ↦ none | some s ↦ (if truthy s then some s else none) ]

-- a name that is no text is one by its `str`; the CRD admits none
abbrev as_name : Value → Option String
as_name v = if is_truthy v then scalar_text v else none

-- `_required_secret_ref(config, field)`
pub required_secret_ref : (config : Entries) (field : String) → Outcome KeyRef
required_secret_ref config field = do
  ref ←
      expect (as_dict (or_else (find config field) (dict_of end)))
        (text ("externalEtcd." ∷ field ∷ " must be an object with name/key" ∷ []))
  name ←
      expect (as_name (get_value ref "name"))
        (text ("externalEtcd." ∷ field ∷ ".name is required" ∷ []))
  key ←
      expect (as_full_text (or_else (find ref "key") (str "value")))
        (text ("externalEtcd." ∷ field ∷ ".key must be a non-empty string" ∷ []))
  ok (record { name = name; key = key })

-- the loop over the endpoints
pub endpoint_texts : Values → Outcome (List String)
endpoint_texts nil = ok []
endpoint_texts (cons v vs) = do
  endpoint ← expect (as_full_text v) "externalEtcd.endpoints entries must be non-empty strings"
  rest ← endpoint_texts vs
  ok (endpoint ∷ rest)

abbrev as_full_list : Value → Option Values
as_full_list (seq_of (cons v vs)) = some (cons v vs)
as_full_list _ = none

abbrev absolute_text : Option String → Option String
absolute_text none = none
absolute_text (some s) = if starts_with "/" s then some s else none

pub file_path : (files : Entries) (field default : String) → Outcome String
file_path files field default =
    expect (absolute_text (as_text (or_else (find files field) (str default))))
      (text ("externalEtcd.files." ∷ field ∷ " must be an absolute path" ∷ []))

-- `config.get("files", {}) or {}`
abbrev files_of : Entries → Value
files_of config =
    if is_truthy (get_value config "files") then get_value config "files" else dict_of end

pub normalized : Entries → Outcome ExternalEtcd
normalized config = do
  values ←
      expect (as_full_list (get_value config "endpoints"))
        "externalEtcd.endpoints must be a non-empty list"
  endpoints ← endpoint_texts values
  files ← expect (as_dict (files_of config)) "externalEtcd.files must be an object when set"
  ca_file ← file_path files "caFile" "/etc/kubernetes/pki/etcd-external/ca.crt"
  cert_file ← file_path files "certFile" "/etc/kubernetes/pki/etcd-external/client.crt"
  key_file ← file_path files "keyFile" "/etc/kubernetes/pki/etcd-external/client.key"
  ca_ref ← required_secret_ref config "caCertRef"
  cert_ref ← required_secret_ref config "clientCertRef"
  key_ref ← required_secret_ref config "clientKeyRef"
  ok (record {
    endpoints = endpoints;
    ca_ref = ca_ref;
    cert_ref = cert_ref;
    key_ref = key_ref;
    ca_file = ca_file;
    cert_file = cert_file;
    key_file = key_file;
  })

-- `_normalize_external_etcd(spec)`
unfoldable pub normalize_external_etcd : MachineSpec → Outcome (Option ExternalEtcd)
unfolding normalized required_secret_ref endpoint_texts file_path ◌>>=◌
normalize_external_etcd spec =
    let config = or_else spec.external_etcd null in
    if not (is_truthy config)
    then ok none
    else (expect (as_dict config) "externalEtcd must be an object" >>= λ es.
        normalized es >>= λ etcd. ok (some etcd))

abbrev pub desired_args_of : ExternalEtcd → List (String × String)
desired_args_of etcd =
    ("etcd-servers", servers etcd)
    ∷ ("etcd-cafile", etcd.ca_file)
    ∷ ("etcd-certfile", etcd.cert_file)
    ∷ ("etcd-keyfile", etcd.key_file)
    ∷ []

endpoint_values : List String → Values
endpoint_values [] = nil
endpoint_values (s ∷ ss) = cons (str s) (endpoint_values ss)

-- the `etcd` of a ClusterConfiguration
pub desired_etcd : ExternalEtcd → Value
desired_etcd etcd = dict_of (
    entry (named "external")
      (dict_of (
        entry (named "endpoints") (seq_of (endpoint_values etcd.endpoints)) (
          entry (named "caFile") (str etcd.ca_file) (
            entry (named "certFile") (str etcd.cert_file)
              (entry (named "keyFile") (str etcd.key_file) end)))))
      end)

abbrev has_entry : Entries → String → Bool
has_entry es k = elim (find es k) [ none ↦ false | some _ ↦ true ]

module _ (env : Env) where
  -- the check of a control plane's join, which the existing API configures
  join_seen : Entries → Outcome Bool
  join_seen es =
      if is_text (get_value es "kind") "JoinConfiguration" && has_entry es "controlPlane"
      then (do
        supported ← is_among (get_value es "apiVersion") (v1beta3 ∷ v1beta4 ∷ [])
        check supported "Unsupported kubeadm configuration API for control-plane join"
        ok true)
      else ok false

  cluster_doc : ExternalEtcd → Entries → Outcome PatchedDoc
  cluster_doc etcd es = do
    api_server ←
        expect (as_dict (or_else (find es "apiServer") (dict_of end)))
          "kubeadm ClusterConfiguration.apiServer must be a mapping"
    (parent, args_changed) ← set_kubeadm_args es api_server "extraArgs" (desired_args_of etcd)
    let same : Bool = value_eq (get_value es "etcd") (desired_etcd etcd)
    let with_args : Entries = put es "apiServer" (dict_of parent)
    ok (record {
      doc = dict_of (if same then with_args else put with_args "etcd" (desired_etcd etcd));
      saw = true;
      changed = args_changed || not same;
    })

  external_etcd_entries : ExternalEtcd → Entries → Outcome PatchedDoc
  external_etcd_entries etcd es = do
    joins ← join_seen es
    if is_text (get_value es "kind") "ClusterConfiguration"
        then cluster_doc etcd es
        else ok (record (untouched (dict_of es)) { saw = joins })

  pub external_etcd_doc : ExternalEtcd → Value → Outcome PatchedDoc
  external_etcd_doc etcd doc = elim (as_dict doc) [
    | none ↦ ok (untouched doc)
    | some es ↦ external_etcd_entries etcd es
  ]

  -- `_patch_external_etcd_in_kubeadm_yaml(yaml_text, external_etcd)`
  unfoldable pub patch_external_etcd : (yaml_text : String) → ExternalEtcd → Outcome PatchedText
  unfolding external_etcd_doc external_etcd_entries cluster_doc join_seen set_kubeadm_args ◌>>=◌
  patch_external_etcd yaml_text etcd =
      patch_yaml env (external_etcd_doc etcd) yaml_text (env.yaml_load_all yaml_text)

  -- the lines that install one file
  file_lines : (mode path encoded : String) → List String
  file_lines mode path encoded =
      text ("install -d -m 0700 " ∷ quote (dirname path) ∷ [])
      ∷ text ("umask 077; printf '%s' " ∷ quote encoded ∷ " | base64 -d > " ∷ quote path ∷ [])
      ∷ text ("chmod " ∷ mode ∷ " " ∷ quote path ∷ [])
      ∷ []

  pub staged_file : (namespace : String) → KeyRef → (mode path : String) → Exec (List String)
  staged_file namespace ref mode path =
      World.◌>>=◌ (read_secret_value env namespace ref.name ref.key)
        (λ value. pure (file_lines mode path (env.b64encode value)))

  -- `_external_etcd_files_script(namespace, external_etcd)`
  pub external_etcd_files_script : (namespace : String) → ExternalEtcd → Exec String
  external_etcd_files_script namespace etcd =
      World.◌>>=◌ (staged_file namespace etcd.ca_ref "0644" etcd.ca_file) (λ ca.
        World.◌>>=◌ (staged_file namespace etcd.cert_ref "0644" etcd.cert_file) (λ cert.
          World.◌>>=◌ (staged_file namespace etcd.key_ref "0600" etcd.key_file)
            (λ key. pure (concat (join_lines (ca ++ cert ++ key)) newline))))
