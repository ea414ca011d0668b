-- ===== src/Inject.antt =====
-- capi_provider_ssh/controllers/sshmachine.py: the kubeadm documents inside a bootstrap payload. They
-- stand in the heredocs of a shell script (_parse_heredoc_start) or in the files of a cloud-config,
-- and get the providerID and the external etcd (_inject_provider_id_into_bootstrap_data,
-- _inject_external_etcd_into_bootstrap_data).
pub mod Refines
use capi_provider_ssh.Base.{
  ℕ, zero, suc, String, code, Bool, true, false, not, ◌&&◌, ◌||◌, List, [], ◌∷◌, ◌++◌, Option, none,
  some, or_else, Dict, get, nat_eq, leb, ◌==◌, if◌then◌else◌,
}
use capi_provider_ssh.Text.{concat, strip, is_space}
use capi_provider_ssh.Text.Lines.{splitlines, join_lines, newline, has_part, ends_with, rstrip_char}
use capi_provider_ssh.Text.Regex.{
  Regex, one, many, maybe, text_end, group, literal, some_of, not_space, all_of, is_word, matches,
  Cursor,
}
use capi_provider_ssh.Shell.{text}
use capi_provider_ssh.Value.{Values, append_values, seq_of, dict_of, nil, cons, put}
use capi_provider_ssh.World.{Env, Outcome, ok, err, permanent}
use capi_provider_ssh.Fallible.{◌>>=◌, ◌>>◌, check}
use capi_provider_ssh.Kubeadm.{PatchedText, patch_provider_id}
use capi_provider_ssh.ExternalEtcd.{ExternalEtcd, patch_external_etcd}
use capi_provider_ssh.CloudConfig.{
  Format, cloud_config, detect_bootstrap_format, parse_cloud_config, FileEntry, CloudConfig,
  decode_cloud_write_file_content, store_cloud_write_file_content,
}

is_mark : ℕ → Bool
is_mark c = nat_eq c 34 || nat_eq c 39

is_tag_start : ℕ → Bool
is_tag_start c = leb b'a' c && leb c b'z' || leb b'A' c && leb c b'Z' || nat_eq c b'_'

path_group : Regex
path_group = group "path" (some_of not_space)

-- a tag, between quotes or not
tag_part : Regex
tag_part = all_of (
    maybe is_mark
    ∷ group "tag" (all_of (one is_tag_start ∷ many is_word ∷ []))
    ∷ maybe is_mark
    ∷ [])

-- `cat > path << tag`
direct : Regex
direct = all_of (
    many is_space
    ∷ literal "cat"
    ∷ some_of is_space
    ∷ literal ">"
    ∷ many is_space
    ∷ path_group
    ∷ some_of is_space
    ∷ literal "<<"
    ∷ many is_space
    ∷ tag_part
    ∷ many is_space
    ∷ text_end
    ∷ [])

-- `cat << tag > path`
reverse : Regex
reverse = all_of (
    many is_space
    ∷ literal "cat"
    ∷ some_of is_space
    ∷ literal "<<"
    ∷ many is_space
    ∷ tag_part
    ∷ some_of is_space
    ∷ literal ">"
    ∷ many is_space
    ∷ path_group
    ∷ many is_space
    ∷ text_end
    ∷ [])

pub record Heredoc : Type 0 where
  pub path : String
  pub tag : String

abbrev heredoc_of : Dict String → Heredoc
heredoc_of groups = record {
  path = or_else (get groups "path") "";
  tag = or_else (get groups "tag") "";
}

-- `_parse_heredoc_start(line)`
unfoldable pub parse_heredoc_start : String → Option Heredoc
unfolding direct reverse path_group tag_part is_mark is_tag_start
parse_heredoc_start line = elim (matches direct line) [
  | some c ↦ some (heredoc_of c.groups)
  | none ↦ elim (matches reverse line) [ some c ↦ some (heredoc_of c.groups) | none ↦ none ]
]

-- `"kubeadm" in path and path.endswith((".yaml", ".yml"))`
abbrev pub is_kubeadm_path : String → Bool
is_kubeadm_path path = has_part "kubeadm" path && (ends_with ".yaml" path || ends_with ".yml" path)

-- what the functions do to one YAML
abbrev pub Patcher : Type 0
Patcher = String → Outcome PatchedText

-- a heredoc whose end is not reached yet, with its lines so far
pub record Open : Type 0 where
  pub heredoc : Heredoc
  pub body : List String

-- one line: what is written for it, and the heredoc that is open after it
pub record Turn : Type 0 where
  pub output : List String
  pub next : Option Open
  pub saw : Bool
  pub changed : Bool

abbrev pub plain_turn : List String → Option Open → Turn
plain_turn output next = record { output = output; next = next; saw = false; changed = false }

-- the end of a heredoc: the body of a kubeadm file is patched
pub close_heredoc : Patcher → Open → (line : String) → Outcome Turn
close_heredoc patch h line =
    if is_kubeadm_path h.heredoc.path
    then (patch (join_lines h.body) >>= λ p. ok (record {
      output = (if p.saw then splitlines p.patched_text else h.body) ++ line ∷ [];
      next = none;
      saw = p.saw;
      changed = p.changed;
    }))
    else ok (plain_turn (h.body ++ line ∷ []) none)

unfoldable pub line_turn : Patcher → Option Open → (line : String) → Outcome Turn
unfolding close_heredoc ◌>>=◌
line_turn patch none line = elim (parse_heredoc_start line) [
  | none ↦ ok (plain_turn (line ∷ []) none)
  | some h ↦ ok (plain_turn (line ∷ []) (some (record { heredoc = h; body = [] })))
]
line_turn patch (some h) line =
    if strip line == h.heredoc.tag
    then close_heredoc patch h line
    else ok (plain_turn [] (some (record h { body = h.body ++ line ∷ [] })))

pub record Injected : Type 0 where
  pub output : List String
  pub saw : Bool
  pub changed : Bool

-- the loop over the lines; a heredoc without an end keeps its lines
unfoldable pub inject_lines : Patcher → Option Open → List String → Outcome Injected
unfolding line_turn ◌>>=◌
inject_lines patch none [] = ok (record { output = []; saw = false; changed = false })
inject_lines patch (some h) [] = ok (record { output = h.body; saw = false; changed = false })
inject_lines patch open_heredoc (line ∷ lines) = line_turn patch open_heredoc line >>= λ t.
    inject_lines patch t.next lines >>= λ rest. ok (record {
      output = t.output ++ rest.output;
      saw = t.saw || rest.saw;
      changed = t.changed || rest.changed;
    })

-- the text with the final newline of the data
abbrev pub with_final_newline : (bootstrap_data rendered : String) → String
with_final_newline bootstrap_data rendered =
    if ends_with newline bootstrap_data then concat rendered newline else rendered

abbrev pub shell_text : (bootstrap_data : String) → Injected → String
shell_text bootstrap_data r = with_final_newline bootstrap_data (join_lines r.output)

abbrev pub no_cluster_configuration : String
no_cluster_configuration =
    "externalEtcd is configured but bootstrap data has no kubeadm ClusterConfiguration to wire"

-- the files of a cloud-config after the loop over them
pub record InjectedFiles : Type 0 where
  pub files : Values
  pub saw : Bool
  pub changed : Bool

module _ (env : Env) where
  -- one file: the entry, whether a document of the right kind is in it, and whether it changed
  pub inject_file : Patcher → (index : ℕ) → FileEntry → Outcome InjectedFiles
  inject_file patch index file =
      if is_kubeadm_path file.path
      then (do
        content ← decode_cloud_write_file_content env file.entries index
        p ← patch content
        let stored =
            if p.saw
            then store_cloud_write_file_content env file.entries p.patched_text
            else file.entries
        ok (record { files = cons (dict_of stored) nil; saw = p.saw; changed = p.changed }))
      else ok (record { files = cons (dict_of file.entries) nil; saw = false; changed = false })

  pub inject_files : Patcher → (index : ℕ) → List FileEntry → Outcome InjectedFiles
  inject_files patch index [] = ok (record { files = nil; saw = false; changed = false })
  inject_files patch index (file ∷ files) = do
    this ← inject_file patch index file
    rest ← inject_files patch (suc index) files
    ok (record {
      files = append_values this.files rest.files;
      saw = this.saw || rest.saw;
      changed = this.changed || rest.changed;
    })

  abbrev cloud_text : (bootstrap_data : String) → CloudConfig → Values → String
  cloud_text bootstrap_data c files = with_final_newline bootstrap_data (
      concat "#cloud-config\n"
        (rstrip_char 10 (env.yaml_dump (dict_of (put c.config "write_files" (seq_of files))))))

  -- `_inject_external_etcd_into_shell_bootstrap_data(bootstrap_data, external_etcd)`
  unfoldable pub inject_external_etcd_shell : String → ExternalEtcd → Outcome (String × Bool)
  unfolding inject_lines ◌>>=◌
  inject_external_etcd_shell bootstrap_data etcd = do
    r ←
        inject_lines (λ yaml_text. patch_external_etcd env yaml_text etcd) none
          (splitlines bootstrap_data)
    check r.saw no_cluster_configuration
    ok (shell_text bootstrap_data r, r.changed)

  -- `_inject_external_etcd_into_cloud_config_bootstrap_data`
  unfoldable pub inject_external_etcd_cloud_config : String → ExternalEtcd → Outcome (String × Bool)
  unfolding inject_files inject_file ◌>>=◌
  inject_external_etcd_cloud_config bootstrap_data etcd = do
    config ← parse_cloud_config env bootstrap_data
    r ← inject_files (λ yaml_text. patch_external_etcd env yaml_text etcd) 0 config.write_files
    check r.saw no_cluster_configuration
    ok (cloud_text bootstrap_data config r.files, r.changed)

  -- `_inject_external_etcd_into_bootstrap_data(bootstrap_data, external_etcd)`
  unfoldable pub inject_external_etcd : String → ExternalEtcd → Outcome (String × Bool)
  unfolding inject_external_etcd_shell inject_external_etcd_cloud_config
  inject_external_etcd bootstrap_data etcd = elim (detect_bootstrap_format bootstrap_data) [
    | cloud_config ↦ inject_external_etcd_cloud_config bootstrap_data etcd
    | _ ↦ inject_external_etcd_shell bootstrap_data etcd
  ]

  -- `_inject_provider_id_into_shell_bootstrap_data(bootstrap_data, provider_id)`
  unfoldable pub inject_provider_id_shell :
      (bootstrap_data provider_id : String) → Outcome (String × Bool)
  unfolding inject_lines ◌>>=◌
  inject_provider_id_shell bootstrap_data provider_id =
      inject_lines (λ yaml_text. patch_provider_id env yaml_text provider_id) none
        (splitlines bootstrap_data)
      >>= λ r.
          ok (if r.changed then (shell_text bootstrap_data r, true) else (bootstrap_data, false))

  -- `_inject_provider_id_into_cloud_config_bootstrap_data`
  unfoldable pub inject_provider_id_cloud_config :
      (bootstrap_data provider_id : String) → Outcome (String × Bool)
  unfolding inject_files inject_file ◌>>=◌
  inject_provider_id_cloud_config bootstrap_data provider_id = do
    config ← parse_cloud_config env bootstrap_data
    r ← inject_files (λ yaml_text. patch_provider_id env yaml_text provider_id) 0 config.write_files
    ok (
        if r.changed
        then (cloud_text bootstrap_data config r.files, true)
        else (bootstrap_data, false))

  -- `_inject_provider_id_into_bootstrap_data(bootstrap_data, provider_id)`
  unfoldable pub inject_provider_id :
      (bootstrap_data provider_id : String) → Outcome (String × Bool)
  unfolding inject_provider_id_shell inject_provider_id_cloud_config
  inject_provider_id bootstrap_data provider_id = elim (detect_bootstrap_format bootstrap_data) [
    | cloud_config ↦ inject_provider_id_cloud_config bootstrap_data provider_id
    | _ ↦ inject_provider_id_shell bootstrap_data provider_id
  ]
