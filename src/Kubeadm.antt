-- ===== src/Kubeadm.antt =====
-- capi_provider_ssh/controllers/sshmachine.py: the kubeadm documents of a bootstrap, into which the
-- provider writes its arguments (_set_kubeadm_args, _patch_provider_id_in_kubeadm_yaml,
-- _patch_external_etcd_in_kubeadm_yaml).
pub mod Arguments
use capi_provider_ssh.Base.{
  String, Bool, true, false, not, ◌&&◌, ◌||◌, List, [], ◌∷◌, Option, none, some, or_else, is_some,
  Dict, contains, if◌then◌else◌, filter,
}
use capi_provider_ssh.Text.Lines.{rstrip_char}
use capi_provider_ssh.Shell.{text}
use capi_provider_ssh.Value.{
  Value, Values, Entries, null, str, seq_of, dict_of, nil, cons, end, entry, named, find, get_value,
  put, append_values, value_eq, as_text, as_dict, as_list, is_null, texts_value, scalar_text,
  parsed, yaml_error, other_failure, Parsed,
}
use capi_provider_ssh.World.{Env, Outcome, ok, err, permanent, other_error}
use capi_provider_ssh.Fallible.{◌>>=◌, ◌>>◌, check, expect, is_text, is_among}

abbrev pub v1beta3 : String
v1beta3 = "kubeadm.k8s.io/v1beta3"

abbrev pub v1beta4 : String
v1beta4 = "kubeadm.k8s.io/v1beta4"

-- `isinstance(arg, dict)` with texts for its name and its value
abbrev is_named_text : Entries → Bool
is_named_text es =
    is_some (as_text (get_value es "name")) && is_some (as_text (get_value es "value"))

abbrev pub is_argument : Value → Bool
is_argument v = elim (as_dict v) [ none ↦ false | some es ↦ is_named_text es ]

pub all_arguments : Values → Bool
all_arguments nil = true
all_arguments (cons v vs) = is_argument v && all_arguments vs

abbrev pub name_among : Dict String → Option String → Bool
name_among desired none = false
name_among desired (some name) = contains desired name

-- `arg["name"] in desired`
abbrev pub is_owned : Dict String → Value → Bool
is_owned desired v = elim (as_dict v) [
  | none ↦ false
  | some es ↦ name_among desired (as_text (get_value es "name"))
]

pub other_arguments : Dict String → Values → Values
other_arguments desired nil = nil
other_arguments desired (cons v vs) =
    let rest = other_arguments desired vs in if is_owned desired v then rest else cons v rest

-- `{"name": key, "value": value}`
abbrev pub argument : String → String → Value
argument key value =
    dict_of (entry (named "name") (str key) (entry (named "value") (str value) end))

pub arguments : Dict String → Values
arguments [] = nil
arguments ((key, value) ∷ desired) = cons (argument key value) (arguments desired)

-- `args.update(desired)`
pub updated : Entries → Dict String → Entries
updated es [] = es
updated es ((key, value) ∷ desired) = updated (put es key (str value)) desired

-- the new `parent[field]`
unfoldable pub desired_args :
    (version : Value) → Value → (field : String) → Dict String → Outcome Value
unfolding all_arguments other_arguments arguments updated
desired_args version old field desired =
    if is_text version v1beta4
    then (expect (as_list old)
          (text ("kubeadm v1beta4 " ∷ field ∷ " must be a list of name/value strings" ∷ []))
        >>= λ args.
            check (all_arguments args)
              (text ("kubeadm v1beta4 " ∷ field ∷ " must be a list of name/value strings" ∷ []))
            >> ok (seq_of (append_values (other_arguments desired args) (arguments desired))))
    else if is_text version v1beta3
    then (expect (as_dict old) (text ("kubeadm v1beta3 " ∷ field ∷ " must be a mapping" ∷ []))
        >>= λ args. ok (dict_of (updated args desired)))
    else err (permanent "Unsupported kubeadm configuration API; expected v1beta3 or v1beta4")

abbrev pub empty_args : (version : Value) → Value
empty_args version = if is_text version v1beta4 then seq_of nil else dict_of end

-- `_set_kubeadm_args(doc, parent, field, desired)`: the new parent, and whether the field changed
unfoldable pub set_kubeadm_args :
    (doc parent : Entries) (field : String) → Dict String → Outcome (Entries × Bool)
unfolding desired_args ◌>>=◌
set_kubeadm_args doc parent field desired =
    let version = get_value doc "apiVersion" in
    let before = get_value parent field in
    desired_args version (or_else (find parent field) (empty_args version)) field desired
    >>= λ args. ok (put parent field args, not (value_eq before args))

-- a document after its patch, whether it was of the right kind, and whether it changed
pub record PatchedDoc : Type 0 where
  pub doc : Value
  pub saw : Bool
  pub changed : Bool

abbrev pub untouched : Value → PatchedDoc
untouched doc = record { doc = doc; saw = false; changed = false }

-- the new text of a YAML, whether a document of the right kind is in it, and whether it changed
pub record PatchedText : Type 0 where
  pub patched_text : String
  pub saw : Bool
  pub changed : Bool

pub record PatchedDocs : Type 0 where
  pub docs : List Value
  pub saw : Bool
  pub changed : Bool

-- the loop over the documents
pub patch_docs : (Value → Outcome PatchedDoc) → List Value → Outcome PatchedDocs
patch_docs patch [] = ok (record { docs = []; saw = false; changed = false })
patch_docs patch (d ∷ ds) = patch d >>= λ one. patch_docs patch ds >>= λ rest. ok (record {
  docs = one.doc ∷ rest.docs;
  saw = one.saw || rest.saw;
  changed = one.changed || rest.changed;
})

abbrev unchanged : String → Bool → PatchedText
unchanged yaml_text saw = record { patched_text = yaml_text; saw = saw; changed = false }

module _ (env : Env) where
  abbrev rendered : String → PatchedDocs → PatchedText
  rendered yaml_text r =
      if r.changed
      then record {
        patched_text = rstrip_char 10 (env.yaml_dump_all r.docs);
        saw = r.saw;
        changed = true;
      }
      else unchanged yaml_text r.saw

  -- the loading before the loop and the dump after it, which the two functions share
  unfoldable pub patch_yaml :
      (Value → Outcome PatchedDoc)
      → (yaml_text : String) → Parsed (List Value)
      → Outcome PatchedText
  unfolding patch_docs ◌>>=◌
  patch_yaml patch yaml_text (parsed docs) =
      patch_docs patch (filter (λ d. not (is_null d)) docs) >>= λ r. ok (rendered yaml_text r)
  patch_yaml patch yaml_text (yaml_error mark) = ok (unchanged yaml_text false)
  patch_yaml patch yaml_text other_failure = err other_error

  -- the turn of `_patch_provider_id_in_kubeadm_yaml` for a mapping
  provider_id_entries : (provider_id : String) → Entries → Outcome PatchedDoc
  provider_id_entries provider_id es = do
    registers ← is_among (get_value es "kind") ("InitConfiguration" ∷ "JoinConfiguration" ∷ [])
    if not registers then ok (untouched (dict_of es)) else (do
      registration ← expect (as_dict (or_else (find es "nodeRegistration") (dict_of end))) (
          text (
            "kubeadm "
            ∷ or_else (as_text (get_value es "kind")) ""
            ∷ " nodeRegistration must be a mapping"
            ∷ []))
      (parent, changed) ←
          set_kubeadm_args es registration "kubeletExtraArgs" (("provider-id", provider_id) ∷ [])
      ok (record {
        doc = dict_of (put es "nodeRegistration" (dict_of parent));
        saw = true;
        changed = changed;
      }))

  unfoldable pub provider_id_doc : (provider_id : String) → Value → Outcome PatchedDoc
  unfolding provider_id_entries set_kubeadm_args ◌>>=◌
  provider_id_doc provider_id doc = elim (as_dict doc) [
    | none ↦ ok (untouched doc)
    | some es ↦ provider_id_entries provider_id es
  ]

  -- `_patch_provider_id_in_kubeadm_yaml(yaml_text, provider_id)`
  unfoldable pub patch_provider_id : (yaml_text provider_id : String) → Outcome PatchedText
  unfolding patch_yaml provider_id_doc
  patch_provider_id yaml_text provider_id =
      patch_yaml (provider_id_doc provider_id) yaml_text (env.yaml_load_all yaml_text)
