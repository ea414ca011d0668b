-- ===== src/MachineTests.antt =====
-- Concrete runs of the reconciliation of an SSHMachine and of its bootstrap payload.
use capi_provider_ssh.Base.{
  ℕ, ◌+◌, ◌*◌, ◌≤◌, String, true, false, List, [], ◌∷◌, none, some, ◌≡◌, ◌≢◌, refl, arith, Dict,
}
use capi_provider_ssh.Text.{is_space, strip}
use capi_provider_ssh.Text.{partition}
use capi_provider_ssh.Text.Number.{pos, parse_int}
use capi_provider_ssh.Text.Lines.{text_length, has_part, starts_with, ends_with, splitlines}
use capi_provider_ssh.Text.Regex.{matches, literal, reversed}
use capi_provider_ssh.Value.{
  Value, Entries, named, str, seq_of, dict_of, nil, cons, end, entry, find, get_value, put,
  append_values, value_eq,
}
use capi_provider_ssh.Objects.{Host, OwnerRef, Meta, CapiObject, MachineSpec, MachineStatus}
use capi_provider_ssh.World.{Env, Event, Trace, answered, ok, initial, SshResult}
use capi_provider_ssh.World.{
  Request, sleep_for, patch_consumer, call, attempt, lift, pure, raise, gets, remote,
}
use capi_provider_ssh.World
use capi_provider_ssh.World.Wp.{logged}
use capi_provider_ssh.World.Trace.{Emits}
use capi_provider_ssh.World.Claims.{Quiet, Local}
use capi_provider_ssh.World.Remote.{Recorded}
use capi_provider_ssh.Sample.{
  env, meta_of, machine_spec, machine_status, cluster_object, claimed_host,
}
use capi_provider_ssh.Fallible
use capi_provider_ssh.Reboot.{reconcile_reboot, prepared}
use capi_provider_ssh.Reboot.Replay.{Observes, reconcile_reboot-Observes}
use capi_provider_ssh.Allocation.{claim_first}
use capi_provider_ssh.Inventory.{consumer_ref, patch_claim}
use capi_provider_ssh.Allocation.Eligible.{Ended, choose, claim_first-Chosen}
use capi_provider_ssh.Lock.{LockSettings, lock_value, parse_lock}
use capi_provider_ssh.Lock.RoundTrip.{parse_lock-lock_value}
use capi_provider_ssh.Bootstrap.{observe_until}
use capi_provider_ssh.Bootstrap.Observe.{Observed, observe_until-Observed}
use capi_provider_ssh.Bootstrap.Rounds.{Clock, Loop, observe_until-Loop}
use capi_provider_ssh.Kubeadm.{set_kubeadm_args, desired_args}
use capi_provider_ssh.Kubeadm.Arguments.{argument_values, set_kubeadm_args-Set}
use capi_provider_ssh.Inject.{Patcher, Injected, inject_lines, line_turn, parse_heredoc_start}
use capi_provider_ssh.Inject.Refines.{Rewrites, inject_lines-Rewrites}
use capi_provider_ssh.Diagnose.{excerpt_command_output, max_excerpt}
use capi_provider_ssh.Diagnose.Bounds.{excerpt_command_output-le}
use capi_provider_ssh.ExternalEtcd.{ExternalEtcd, normalize_external_etcd}
use capi_provider_ssh.ExternalEtcd.Valid.{Valid, normalize_external_etcd-Valid}
use capi_provider_ssh.Machine.Reconcile.{sshmachine_reconcile, reconcile_impl}
use capi_provider_ssh.Machine.Reconcile.Quiet.{sshmachine_reconcile-Quiet}
use capi_provider_ssh.Machine.Reconcile.Ordered.{reconcile_impl-Recorded}
use capi_provider_ssh.Machine.Reconcile.DryRun.{reconcile_impl-Local}

abbrev machine_owner : OwnerRef
machine_owner = record {
  api_version = some "cluster.x-k8s.io/v1beta1";
  kind = some "Machine";
  name = "m1";
  uid = some "owner-uid";
}

abbrev machine_meta : Meta
machine_meta = record (meta_of "m1" "machine-uid") { owner_references = machine_owner ∷ [] }

abbrev capi_machine : CapiObject
capi_machine = record cluster_object { data_secret_name = some "data" }

-- the cluster with a bootstrap secret
abbrev bootstrap_env : Env
bootstrap_env = record env { capi_object = λ _ _. answered capi_machine }

abbrev settings : LockSettings
settings = record { enabled = true; ttl_seconds = 120; retry_delay = 5; holder = "pod-1" }

sshmachine_reconcile-Quiet_example : Emits Quiet (
    sshmachine_reconcile bootstrap_env settings 300 "ns" "m1" machine_spec machine_status
      machine_meta)
sshmachine_reconcile-Quiet_example =
    sshmachine_reconcile-Quiet bootstrap_env settings 300 "ns" "m1" machine_spec machine_status
      machine_meta

reconcile_impl-Recorded_example :
    Recorded "machine-uid"
      (reconcile_impl bootstrap_env 300 machine_spec machine_status "m1" "ns" machine_meta
        initial).1.trace
reconcile_impl-Recorded_example =
    reconcile_impl-Recorded bootstrap_env 300 machine_spec machine_status "m1" "ns" machine_meta
      initial tt

abbrev dry_spec : MachineSpec
dry_spec = record machine_spec { dry_run = some true }

reconcile_impl-Local_example :
    Emits Local (reconcile_impl bootstrap_env 300 dry_spec machine_status "m1" "ns" machine_meta)
reconcile_impl-Local_example =
    reconcile_impl-Local bootstrap_env 300 dry_spec machine_status "m1" "ns" machine_meta refl

abbrev reboot_spec : MachineSpec
reboot_spec = record machine_spec { reboot_requested_at = some "t1" }

abbrev pending_status : MachineStatus
pending_status = record machine_status {
  provisioned = some true;
  reboot = some (prepared "t1" "t0" "boot");
}

reconcile_reboot-Observes_example :
    Emits
      (Observes "machine-uid")
      (reconcile_reboot env reboot_spec pending_status "m1" "ns" machine_meta false)
reconcile_reboot-Observes_example =
    reconcile_reboot-Observes env reboot_spec pending_status "m1" "ns" machine_meta "machine-uid"
      refl refl refl

abbrev labels : Dict String
labels = ("rack", "a") ∷ []

-- a host in use, and one that is free, of the same rack
abbrev free_host : Host
free_host = record claimed_host {
  metadata = record (meta_of "h2" "host-uid-2") { labels = ("rack", "a") ∷ [] };
  spec = record claimed_host.spec { consumer_ref = none };
  status = record { phase = some "Available"; ready = some true };
}

claims_free_host :
    choose env labels "m1" "ns" "machine-uid" (claimed_host ∷ free_host ∷ []) initial ≡ (
      ok claimed_host,
      logged initial
          (patch_consumer "ns" "h2" (some "host-uid-2") (some "7") (
            some (record {
              kind = some "SSHMachine";
              name = some "m1";
              namespace = some "ns";
              uid = some "machine-uid";
            })))
          true,
    )
unfolding claim_first patch_claim consumer_ref World.◌>>=◌ call attempt lift pure raise
claims_free_host = refl

claim_first-Chosen_example :
    Ended env labels "m1" "ns" "machine-uid"
      (claimed_host ∷ free_host ∷ [])
      []
      (choose env labels "m1" "ns" "machine-uid" (claimed_host ∷ free_host ∷ []) initial)
claim_first-Chosen_example =
    claim_first-Chosen env labels "m1" "ns" "machine-uid" (claimed_host ∷ free_host ∷ []) initial

parse_lock-lock_value_example :
    parse_lock (some (lock_value "pod|1" 1120)) ≡ some ("pod|1", pos 1120)
parse_lock-lock_value_example = parse_lock-lock_value "pod|1" 1120 refl

-- a host where the job has failed
abbrev failed_env : Env
failed_env = record env {
  ssh = λ _ _.
      answered (record { exit_code = pos 0; stdout = "CAPI_EXIT=1\nno space left"; stderr = "" });
}

abbrev failed_result : SshResult
failed_result = record { exit_code = pos 1; stdout = ""; stderr = "no space left" }

observed_failure : (observe_until failed_env "machine-uid" 1300 300 initial).0 ≡ ok failed_result
unfolding observe_until World.◌>>=◌ gets remote lift pure partition parse_int strip
observed_failure = refl

observe_until-Observed_example :
    Observed failed_env "machine-uid" failed_result
      (observe_until failed_env "machine-uid" 1300 300 initial).1.trace
observe_until-Observed_example =
    observe_until-Observed failed_env "machine-uid" 1300 300 initial failed_result observed_failure

abbrev seconds_of : Request → ℕ
seconds_of (sleep_for n) = n
seconds_of _ = 0

slept_seconds : Trace → ℕ
slept_seconds [] = 0
slept_seconds (e ∷ t) = slept_seconds t + seconds_of e.request

-- a clock that runs while the provider sleeps, and a job that stays pending
abbrev pending_env : Env
pending_env = record env {
  seconds = slept_seconds;
  ssh = λ _ _. answered (record { exit_code = pos 0; stdout = "CAPI_PENDING\n"; stderr = "" });
}

pending_clock : Clock pending_env "machine-uid"
unfolding slept_seconds
pending_clock = record { forward = λ t e. omega arith; slept = λ t n. omega arith }

observe_until-Loop_example :
    (n : ℕ) × Loop pending_env "machine-uid"
      (slept_seconds [] + 3)
      n
      initial
      (observe_until pending_env "machine-uid" (slept_seconds [] + 3) 3 initial)
    × (2 * n ≤ 4)
observe_until-Loop_example = observe_until-Loop pending_env "machine-uid" pending_clock 3 initial

abbrev result : SshResult
result = record { exit_code = pos 1; stdout = ""; stderr = "failed --token=abc" }

excerpt_command_output-le_example : text_length (excerpt_command_output result) ≤ max_excerpt
excerpt_command_output-le_example = excerpt_command_output-le result

-- kubelet arguments in the list of v1beta4
abbrev document : Entries
document = entry (named "apiVersion") (str "kubeadm.k8s.io/v1beta4") end

abbrev argument_of : String → String → Value
argument_of key value =
    dict_of (entry (named "name") (str key) (entry (named "value") (str value) end))

abbrev registration : Entries
registration =
    entry (named "kubeletExtraArgs")
      (seq_of (cons (argument_of "provider-id" "old") (cons (argument_of "v" "2") nil))) end

abbrev registered : Entries
registered =
    entry (named "kubeletExtraArgs")
      (seq_of (cons (argument_of "v" "2") (cons (argument_of "provider-id" "ssh://h") nil))) end

set_registered :
    set_kubeadm_args document registration "kubeletExtraArgs" (("provider-id", "ssh://h") ∷ [])
    ≡ ok (registered, true)
unfolding set_kubeadm_args desired_args find put append_values value_eq
set_registered = refl

set_kubeadm_args-Set_example :
    (argument_values (get_value registered "kubeletExtraArgs") "provider-id" ≡ str "ssh://h" ∷ [])
    × ((k : String)
        → "provider-id" ≢ k
        → argument_values (get_value registered "kubeletExtraArgs") k
          ≡ argument_values (get_value registration "kubeletExtraArgs") k)
    × ((other : String)
        → "kubeletExtraArgs" ≢ other
        → find registered other ≡ find registration other)
set_kubeadm_args-Set_example =
    set_kubeadm_args-Set document registration registered "kubeletExtraArgs" "provider-id" "ssh://h"
      true set_registered

-- every YAML becomes one line
abbrev patcher : Patcher
patcher yaml = ok (record { patched_text = "kind: patched"; saw = true; changed = true })

abbrev script : List String
script =
    "set -e" ∷ "cat > /etc/kubeadm.yaml <<EOF" ∷ "kind: InitConfiguration" ∷ "EOF" ∷ "kubeadm init"
    ∷ []

abbrev injected : Injected
injected = record {
  output =
      "set -e" ∷ "cat > /etc/kubeadm.yaml <<EOF" ∷ "kind: patched" ∷ "EOF" ∷ "kubeadm init" ∷ [];
  saw = true;
  changed = true;
}

script_injected : inject_lines patcher none script ≡ ok injected
unfolding inject_lines line_turn parse_heredoc_start matches Fallible.◌>>=◌ is_space literal strip
    reversed has_part ends_with splitlines
script_injected = refl

inject_lines-Rewrites_example : Rewrites patcher none script injected.output
inject_lines-Rewrites_example = inject_lines-Rewrites patcher none script injected script_injected

abbrev ref_to : String → Value
ref_to secret = dict_of (entry (named "name") (str secret) end)

abbrev external : Entries
external = entry (named "endpoints") (seq_of (cons (str "https://10.0.0.1:2379") nil)) (
    entry (named "caCertRef") (ref_to "ca") (
      entry (named "clientCertRef") (ref_to "cert")
        (entry (named "clientKeyRef") (ref_to "key") end)))

abbrev external_spec : MachineSpec
external_spec = record machine_spec { external_etcd = some (dict_of external) }

abbrev external_config : ExternalEtcd
external_config = record {
  endpoints = "https://10.0.0.1:2379" ∷ [];
  ca_ref = record { name = "ca"; key = "value" };
  cert_ref = record { name = "cert"; key = "value" };
  key_ref = record { name = "key"; key = "value" };
  ca_file = "/etc/kubernetes/pki/etcd-external/ca.crt";
  cert_file = "/etc/kubernetes/pki/etcd-external/client.crt";
  key_file = "/etc/kubernetes/pki/etcd-external/client.key";
}

external_normalized : normalize_external_etcd external_spec ≡ ok (some external_config)
unfolding normalize_external_etcd Fallible.◌>>=◌ find starts_with
external_normalized = refl

normalize_external_etcd-Valid_example : Valid external_config
normalize_external_etcd-Valid_example =
    normalize_external_etcd-Valid external_spec external_config external_normalized
