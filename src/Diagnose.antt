-- ===== src/Diagnose.antt =====
-- capi_provider_ssh/controllers/sshmachine.py: the commands of a bootstrap and of the check after it,
-- and what a failure leaves in the status, redacted and short (_sanitize_bootstrap_diagnostic_text,
-- _excerpt_command_output, _detect_bootstrap_failure_phase, _classify_bootstrap_failure,
-- _classify_kubelet_not_ready).
pub mod Bounds
use capi_provider_ssh.Base.{
  ℕ, String, Bool, true, false, not, ◌&&◌, ◌||◌, List, [], ◌∷◌, Dict, get, or_else, truthy, any,
  leb, nat_eq, map, filter, Option, none, some, if◌then◌else◌,
}
use capi_provider_ssh.Text.{codes, concat, strip, strip_right, is_space, lower_code}
use capi_provider_ssh.Text.Lines.{join_lines, dirname, text_length, text_take}
use capi_provider_ssh.Text.Regex.{
  Regex, one, many, alt, seq, word_boundary, group, literal_any_case, some_of, not_space, all_of,
  finds, substitute,
}
use capi_provider_ssh.Shell.{text, quote}
use capi_provider_ssh.World.{SshResult}
use capi_provider_ssh.Reboot.{exit_text}

abbrev pub success_sentinel : String
success_sentinel = "/run/cluster-api/bootstrap-success.complete"

abbrev pub sentinel_hit : String
sentinel_hit = "__CAPI_PROVIDER_SSH_BOOTSTRAP_SENTINEL_HIT__"

abbrev pub kubelet_ready : String
kubelet_ready = "__CAPI_PROVIDER_SSH_KUBELET_READY__"

-- `_bootstrap_execution_command(path)`
unfoldable pub bootstrap_execution_command : (path : String) → String
bootstrap_execution_command path =
    let script_path = quote path in
    let sentinel_path = quote success_sentinel in
    text (
      "trap 'rm -f -- "
      ∷ script_path
      ∷ "' EXIT; if [ -f "
      ∷ sentinel_path
      ∷ " ]; then printf '%s\\n' "
      ∷ quote sentinel_hit
      ∷ "; exit 0; fi && chmod 0700 "
      ∷ script_path
      ∷ " && "
      ∷ script_path
      ∷ " && install -d -m 0755 "
      ∷ quote (dirname success_sentinel)
      ∷ " && touch "
      ∷ sentinel_path
      ∷ [])

-- `_post_bootstrap_readiness_command()`
unfoldable pub post_bootstrap_readiness_command : String
post_bootstrap_readiness_command = text (
    "if ! command -v systemctl >/dev/null 2>&1; then echo 'systemctl command not found on host' >&2; "
    ∷ "exit 31; fi && if systemctl is-active --quiet kubelet; then printf '%s\\n' "
    ∷ quote kubelet_ready
    ∷ "; else (systemctl is-active kubelet || true) >&2; "
    ∷ "(systemctl --no-pager --full status kubelet 2>/dev/null | tail -n 20 || true) >&2; "
    ∷ "exit 32; fi"
    ∷ [])

is_colon : ℕ → Bool
is_colon c = nat_eq c b':' || nat_eq c b'='

-- `(?:=|\s+)`
separator : Regex
separator = alt (one (nat_eq b'=')) (some_of is_space)

-- `(?i)(--token(?:=|\s+))\S+` for an option
option_value : (option : String) → Regex
option_value option = seq (group "1" (seq (literal_any_case option) separator)) (some_of not_space)

-- `(?i)\b(token|...)\b\s*[:=]\s*\S+`
assignment : Regex
assignment = all_of (
    word_boundary
    ∷ group "1" (
        alt (literal_any_case "token") (
          alt (literal_any_case "certificate-key")
            (literal_any_case "discovery-token-ca-cert-hash")))
    ∷ word_boundary
    ∷ many is_space
    ∷ one is_colon
    ∷ many is_space
    ∷ some_of not_space
    ∷ [])

abbrev first_group : Dict String → String
first_group groups = or_else (get groups "1") ""

redact_option : (option s : String) → String
redact_option option s =
    substitute (option_value option) (λ g. concat (first_group g) "[REDACTED]") s

-- the replacements of BOOTSTRAP_DIAGNOSTIC_REDACTIONS, in their order
redact : String → String
redact s =
    substitute assignment (λ g. concat (first_group g) "=[REDACTED]")
      (redact_option "--discovery-token-ca-cert-hash"
        (redact_option "--certificate-key" (redact_option "--token" s)))

-- `_sanitize_bootstrap_diagnostic_text(text)`
unfoldable pub sanitize : String → String
unfolding redact redact_option option_value assignment separator is_colon
sanitize s = strip (substitute (some_of is_space) (λ _. " ") (redact s))

abbrev pub max_excerpt : ℕ
max_excerpt = 240

-- at most 240 characters, with three dots for what is left out
unfoldable pub shortened : String → String
shortened excerpt =
    if leb (text_length excerpt) max_excerpt
    then excerpt
    else concat (strip_right (text_take 237 excerpt)) "..."

-- `_excerpt_command_output(result)`
unfoldable pub excerpt_command_output : SshResult → String
excerpt_command_output result =
    let stderr = sanitize result.stderr in
    let stdout = sanitize result.stdout in
    if truthy stderr then shortened stderr else if truthy stdout then shortened stdout else ""

-- `\bfirst\s+second\b`
two_words : (first second : String) → Regex
two_words first second = all_of (
    word_boundary
    ∷ literal_any_case first
    ∷ some_of is_space
    ∷ literal_any_case second
    ∷ word_boundary
    ∷ [])

whole_word : String → Regex
whole_word w = all_of (word_boundary ∷ literal_any_case w ∷ word_boundary ∷ [])

reset_signatures : List Regex
reset_signatures =
    two_words "kubeadm" "reset"
    ∷ literal_any_case "[reset]"
    ∷ all_of (
        word_boundary
        ∷ literal_any_case "failed"
        ∷ some_of is_space
        ∷ literal_any_case "to"
        ∷ some_of is_space
        ∷ literal_any_case "reset"
        ∷ word_boundary
        ∷ [])
    ∷ []

init_signatures : List Regex
init_signatures =
    two_words "kubeadm" "init"
    ∷ literal_any_case "[init]"
    ∷ whole_word "initconfiguration"
    ∷ whole_word "control-plane"
    ∷ []

join_signatures : List Regex
join_signatures =
    two_words "kubeadm" "join"
    ∷ literal_any_case "[join]"
    ∷ whole_word "discovery-token"
    ∷ two_words "node" "join"
    ∷ []

pub data Phase : Type 0 where
  reset : Phase
  init : Phase
  join : Phase
  unknown : Phase

-- the fallback on the script prefers the main operation over an optional cleanup
unfoldable pub script_phase : (has_init has_join has_reset : Bool) → Phase
script_phase has_init has_join has_reset =
    if has_init && not has_join
    then init
    else if has_join && not has_init
    then join
    else if has_reset && not (has_init || has_join)
    then reset
    else if has_init
    then init
    else if has_join
    then join
    else if has_reset
    then reset
    else unknown

-- `needle in script.lower()`, for a needle in lower case
mentions : (needle script : String) → Bool
mentions needle script = finds (literal_any_case needle) script

-- `_detect_bootstrap_failure_phase(stderr, stdout, bootstrap_script)`
unfoldable pub detect_bootstrap_failure_phase : (stderr stdout bootstrap_script : String) → Phase
unfolding reset_signatures init_signatures join_signatures two_words whole_word mentions
detect_bootstrap_failure_phase stderr stdout bootstrap_script =
    let combined = join_lines (filter truthy (stderr ∷ stdout ∷ [])) in
    if any (λ r. finds r combined) reset_signatures
    then reset
    else if any (λ r. finds r combined) init_signatures
    then init
    else if any (λ r. finds r combined) join_signatures
    then join
    else script_phase (mentions "kubeadm init" bootstrap_script)
        (mentions "kubeadm join" bootstrap_script) (mentions "kubeadm reset" bootstrap_script)

abbrev pub phase_text : Phase → String
phase_text reset = "reset"
phase_text init = "init"
phase_text join = "join"
phase_text unknown = "unknown"

-- BOOTSTRAP_PHASE_REASON_MAP, and the reason of any other phase
abbrev pub phase_reason : Phase → String
phase_reason reset = "BootstrapResetFailed"
phase_reason init = "BootstrapInitFailed"
phase_reason join = "BootstrapJoinFailed"
phase_reason unknown = "BootstrapFailed"

abbrev pub phase_label : Phase → String
phase_label reset = "reset phase"
phase_label init = "init phase"
phase_label join = "join phase"
phase_label unknown = "execution"

pub record Failure : Type 0 where
  pub reason : String
  pub phase : Phase
  pub message : String
  pub excerpt : String

-- `_classify_bootstrap_failure(result, bootstrap_script)`
unfoldable pub classify_bootstrap_failure : SshResult → (bootstrap_script : String) → Failure
unfolding excerpt_command_output detect_bootstrap_failure_phase
classify_bootstrap_failure result bootstrap_script =
    let phase = detect_bootstrap_failure_phase result.stderr result.stdout bootstrap_script in
    let excerpt = excerpt_command_output result in
    let failed : String =
      text ("Bootstrap " ∷ phase_label phase ∷ " failed (exit " ∷ exit_text result ∷ ")" ∷ []) in
    record {
      reason = phase_reason phase;
      phase = phase;
      message =
          if truthy excerpt
          then text (failed ∷ ": " ∷ excerpt ∷ [])
          else concat failed ". Inspect kubeadm and cloud-init logs on the host.";
      excerpt = excerpt;
    }

-- the message of `_classify_kubelet_not_ready(result)`; its reason is KubeletNotReady
unfoldable pub classify_kubelet_not_ready : SshResult → String
unfolding excerpt_command_output
classify_kubelet_not_ready result =
    let excerpt = excerpt_command_output result in
    let failed : String =
      text ("Bootstrap completed, but kubelet is not ready (exit " ∷ exit_text result ∷ ")" ∷ []) in
    if truthy excerpt
    then text (failed ∷ ": " ∷ excerpt ∷ [])
    else concat failed ". Waiting for kubelet to become active."
