-- ===== src/CloudConfig.antt =====
-- capi_provider_ssh/controllers/sshmachine.py: the bootstrap payload, its format
-- (_detect_bootstrap_format), the cloud-config (_parse_cloud_config, the content and the mode of its
-- files) and the shell script that is run (_render_cloud_config_to_shell, _prepare_bootstrap_script).
use Prim.Native.Nat.{◌/◌, ◌%◌}
use capi_provider_ssh.Base.{
  ℕ, zero, suc, ◌+◌, String, Bool, false, not, ◌||◌, List, [], ◌∷◌, ◌++◌, Option, none, some,
  truthy, nat_eq, ltb, codes_eq, map, if◌then◌else◌,
}
use capi_provider_ssh.Text.{codes, concat, lower, strip, is_space, show}
use capi_provider_ssh.Text.Number.{ℤ, pos, negsuc}
use capi_provider_ssh.Text.Lines.{
  splitlines, join_lines, join_with, newline, starts_with, drop_chars, strip_chars, rstrip_char,
  dirname,
}
use capi_provider_ssh.Shell.{text, quote}
use capi_provider_ssh.Value.{
  Value, Values, Entries, boolean, integer, str, seq_of, dict_of, nil, cons, end, get_value, put,
  is_truthy, is_null, as_text, as_dict, as_list, scalar_text, Parsed, parsed, yaml_error,
  other_failure,
}
use capi_provider_ssh.World.{Env, Outcome, ok, err, permanent, other_error}
use capi_provider_ssh.Fallible.{◌>>=◌, ◌>>◌, check, expect}
use capi_provider_ssh.ExternalEtcd.{as_full_text}

pub data Format : Type 0 where
  cloud_config : Format
  shell : Format
  unknown : Format

abbrev is_cloud_line : String → Bool
is_cloud_line line =
    starts_with "#cloud-config" line
    || starts_with "write_files:" line
    || starts_with "runcmd:" line

-- the first line that is neither blank nor a template marker decides
unfoldable pub format_of_lines : List String → Format
format_of_lines [] = unknown
format_of_lines (line ∷ lines) =
    let rest = format_of_lines lines in
    let stripped = strip line in
    if not (truthy stripped) || starts_with "## template:" stripped
    then rest
    else if is_cloud_line stripped
    then cloud_config
    else shell

-- `_detect_bootstrap_format(bootstrap_data)`
unfoldable pub detect_bootstrap_format : String → Format
unfolding format_of_lines
detect_bootstrap_format bootstrap_data = format_of_lines (splitlines bootstrap_data)

-- `f"... write_files[{index}]{what}"`
abbrev pub file_message : (index : ℕ) (what : String) → String
file_message index what =
    text ("bootstrap cloud-config write_files[" ∷ show index ∷ "]" ∷ what ∷ [])

abbrev runcmd_message : (index : ℕ) (what : String) → String
runcmd_message index what = text ("bootstrap cloud-config runcmd[" ∷ show index ∷ "]" ∷ what ∷ [])

abbrev yaml_message : Option (ℕ × ℕ) → String
yaml_message none = "bootstrap cloud-config YAML is invalid"
yaml_message (some (line, column)) = text (
    "bootstrap cloud-config YAML is invalid at line "
    ∷ show (line + 1)
    ∷ ", column "
    ∷ show (column + 1)
    ∷ [])

-- `yaml.safe_load(bootstrap_data) or {}`
loaded : Parsed Value → Outcome Value
loaded (yaml_error mark) = err (permanent (yaml_message mark))
loaded other_failure = err other_error
loaded (parsed v) = ok (if is_truthy v then v else dict_of end)

-- one entry of `write_files`, with its path
pub record FileEntry : Type 0 where
  pub path : String
  pub entries : Entries

pub file_entries : (index : ℕ) → Values → Outcome (List FileEntry)
file_entries index nil = ok []
file_entries index (cons v vs) = do
  es ← expect (as_dict v) (file_message index " must be an object")
  path ←
      expect (as_full_text (get_value es "path"))
        (file_message index ".path must be a non-empty string")
  rest ← file_entries (suc index) vs
  ok (record { path = path; entries = es } ∷ rest)

-- a command of `runcmd`: a text, or the texts of scalars
pub data Command : Type 0 where
  line : String → Command
  words : List String → Command

scalar_words : Values → Option (List String)
scalar_words nil = some []
scalar_words (cons v vs) = elim (scalar_text v) [
  | none ↦ none
  | some s ↦ elim (scalar_words vs) [ none ↦ none | some ss ↦ some (s ∷ ss) ]
]

command_of : (index : ℕ) → Value → Outcome Command
command_of index (str s) = ok (line s)
command_of index (seq_of vs) =
    expect (scalar_words vs) (runcmd_message index " list entries must be scalar values") >>= λ ss.
    ok (words ss)
command_of index v = err (permanent (runcmd_message index " must be string or list"))

pub commands_of : (index : ℕ) → Values → Outcome (List Command)
commands_of index nil = ok []
commands_of index (cons v vs) = do
  command ← command_of index v
  rest ← commands_of (suc index) vs
  ok (command ∷ rest)

-- `config.get(field, [])`, where null is an empty list too
abbrev list_field : Entries → String → Value
list_field config field =
    if is_null (get_value config field) then seq_of nil else get_value config field

-- the mapping with both fields set, its files and its commands
pub record CloudConfig : Type 0 where
  pub config : Entries
  pub write_files : List FileEntry
  pub runcmd : List Command

pub checked_config : Value → Outcome CloudConfig
checked_config value = do
  config ← expect (as_dict value) "bootstrap cloud-config must be a mapping"
  let write_files = list_field config "write_files"
  files ← expect (as_list write_files) "bootstrap cloud-config write_files must be a list"
  entries ← file_entries 0 files
  let runcmd = list_field config "runcmd"
  commands ← expect (as_list runcmd) "bootstrap cloud-config runcmd must be a list"
  checked ← commands_of 0 commands
  ok (record {
    config = put (put config "write_files" write_files) "runcmd" runcmd;
    write_files = entries;
    runcmd = checked;
  })

-- `encoding.strip().lower()`
abbrev is_encoding : String → String → Bool
is_encoding name encoding = codes_eq (lower (codes (strip encoding))) (codes name)

abbrev is_base64 : String → Bool
is_base64 encoding = is_encoding "b64" encoding || is_encoding "base64" encoding

abbrev is_plain : String → Bool
is_plain encoding =
    is_encoding "" encoding || is_encoding "text" encoding || is_encoding "plain" encoding

-- a mode that is an int, in octal
octal_onto : (fuel : ℕ) → ℕ → String → String
octal_onto zero n acc = acc
octal_onto (suc fuel) n acc =
    let digits = concat (show (n % 8)) acc in
    let rest = octal_onto fuel (n / 8) digits in if ltb n 8 then digits else rest

-- `format(n, "o")`
octal : ℤ → String
octal (pos n) = octal_onto (suc n) n ""
octal (negsuc n) = concat "-" (octal_onto (suc (suc n)) (suc n) "")

is_quote_mark : ℕ → Bool
is_quote_mark c = nat_eq c 39 || nat_eq c 34

-- the text of a mode: an int, a bool among them, or a text that is not blank
mode_text : Value → Option String
mode_text (integer n) = some (octal n)
mode_text (boolean b) = some (if b then "1" else "0")
mode_text (str s) =
    let normalized = strip_chars is_quote_mark (strip s) in
    if truthy normalized then some normalized else none
mode_text v = none

-- `_format_cloud_file_mode(mode, index)`
unfoldable pub format_cloud_file_mode : Value → (index : ℕ) → Outcome String
unfolding mode_text octal octal_onto is_quote_mark
format_cloud_file_mode mode index =
    expect (mode_text mode)
      (file_message index ".permissions must be a non-empty string or integer")

module _ (env : Env) where
  -- `_parse_cloud_config(bootstrap_data)`
  unfoldable pub parse_cloud_config : String → Outcome CloudConfig
  unfolding loaded checked_config file_entries commands_of command_of scalar_words ◌>>=◌
  parse_cloud_config bootstrap_data =
      loaded (env.yaml_load bootstrap_data) >>= λ value. checked_config value

  decoded : (content encoding : String) (index : ℕ) → Outcome String
  decoded content encoding index =
      if is_plain encoding
      then ok content
      else if is_base64 encoding
      then expect (env.b64decode_strict (drop_chars is_space content))
          (file_message index " has invalid base64 or UTF-8 content")
      else err (permanent (file_message index " encoding is unsupported; expected text or base64"))

  -- `entry.get("content", "")`, where null is an empty text too
  abbrev content_of : Entries → Value
  content_of file = if is_null (get_value file "content") then str "" else get_value file "content"

  -- `_decode_cloud_write_file_content(entry, index)`
  unfoldable pub decode_cloud_write_file_content : Entries → (index : ℕ) → Outcome String
  unfolding decoded ◌>>=◌
  decode_cloud_write_file_content file index = do
    content ←
        expect (as_text (content_of file)) (file_message index ".content must be a string when set")
    if is_null (get_value file "encoding") then ok content else (do
      encoding ←
          expect (as_text (get_value file "encoding"))
            (file_message index ".encoding must be a string when set")
      decoded content encoding index)

  -- `_store_cloud_write_file_content(entry, text)`
  unfoldable pub store_cloud_write_file_content : Entries → (content : String) → Entries
  store_cloud_write_file_content file content =
      let encoded : Bool = elim (as_text (get_value file "encoding")) [
        | none ↦ false
        | some e ↦ is_base64 e
      ] in
      put file "content" (str (if encoded then env.b64encode content else content))

  mode_lines : Value → (path : String) (index : ℕ) → Outcome (List String)
  mode_lines mode path index =
      if is_null mode
      then ok []
      else (format_cloud_file_mode mode index >>= λ m.
          ok (text ("chmod " ∷ quote m ∷ " " ∷ quote path ∷ []) ∷ []))

  owner_lines : Value → (path : String) (index : ℕ) → Outcome (List String)
  owner_lines owner path index =
      if is_null owner
      then ok []
      else (expect (as_full_text owner) (file_message index ".owner must be a non-empty string")
          >>= λ o. ok (text ("chown " ∷ quote o ∷ " " ∷ quote path ∷ []) ∷ []))

  -- `posixpath.dirname(path) or "/"`
  abbrev directory_of : String → String
  directory_of path = if truthy (dirname path) then dirname path else "/"

  abbrev marker : ℕ → String
  marker index = text ("__CAPI_BOOTSTRAP_FILE_" ∷ show index ∷ "__" ∷ [])

  -- the lines that write one file
  file_lines : (index : ℕ) → FileEntry → Outcome (List String)
  file_lines index file = do
    content ← decode_cloud_write_file_content file.entries index
    modes ← mode_lines (get_value file.entries "permissions") file.path index
    owners ← owner_lines (get_value file.entries "owner") file.path index
    ok (
        text ("install -d -m 0755 " ∷ quote (directory_of file.path) ∷ [])
          ∷ text ("cat <<'" ∷ marker index ∷ "' > " ∷ quote file.path ∷ [])
          ∷ splitlines content
        ++ marker index ∷ modes
        ++ owners)

  pub files_lines : (index : ℕ) → List FileEntry → Outcome (List String)
  files_lines index [] = ok []
  files_lines index (file ∷ files) = do
    lines ← file_lines index file
    rest ← files_lines (suc index) files
    ok (lines ++ rest)

  -- quoted words are never empty, so a command of at least one word gives a line
  command_lines : Command → List String
  command_lines (line s) = s ∷ []
  command_lines (words []) = []
  command_lines (words (w ∷ ws)) = join_with " " (map quote (w ∷ ws)) ∷ []

  pub commands_lines : List Command → List String
  commands_lines [] = []
  commands_lines (c ∷ cs) = command_lines c ++ commands_lines cs

  -- `_render_cloud_config_to_shell(bootstrap_data)`
  unfoldable pub render_cloud_config_to_shell : String → Outcome String
  unfolding parse_cloud_config files_lines file_lines mode_lines owner_lines commands_lines
      command_lines ◌>>=◌
  render_cloud_config_to_shell bootstrap_data = do
    config ← parse_cloud_config bootstrap_data
    lines ← files_lines 0 config.write_files
    let script =
        join_lines ("#!/bin/bash" ∷ "set -euo pipefail" ∷ lines ++ commands_lines config.runcmd)
    ok (concat (rstrip_char 10 script) newline)

  -- `_prepare_bootstrap_script(bootstrap_data)`
  unfoldable pub prepare_bootstrap_script : String → Outcome (String × Format)
  unfolding render_cloud_config_to_shell ◌>>=◌
  prepare_bootstrap_script bootstrap_data = elim (detect_bootstrap_format bootstrap_data) [
    | cloud_config ↦ render_cloud_config_to_shell bootstrap_data >>= λ s. ok (s, cloud_config)
    | shell ↦
        check (truthy (strip bootstrap_data)) "bootstrap data is empty"
        >> ok (bootstrap_data, shell)
    | unknown ↦ err (permanent "bootstrap data format is not supported")
  ]
