-- ===== src/Fence.antt =====
-- capi_provider_ssh/operations.py: `owned_command`, the shell text that runs a command only under
-- the host's lock and only if the host's ownership record names the Machine's UID.
use capi_provider_ssh.Base.{String, Bool, [], ◌∷◌, truthy, if◌then◌else◌}
use capi_provider_ssh.Shell.{text, quote}
use capi_provider_ssh.World.{permanent, Outcome, ok, err}
use capi_provider_ssh.Operations.{owner_path, remote_lock}

abbrev pub refuse_unowned : String
refuse_unowned = "echo 'No provider ownership record; refusing mutation' >&2; exit 78"

-- what the script does where there is no ownership record
pub absent : (owner expected : String) (claim cleaned_retry : Bool) → String
absent owner expected claim cleaned_retry =
    if claim
    then text (
        "if test -e /etc/kubernetes/kubelet.conf || test -e /var/lib/kubelet/config.yaml "
        ∷ "|| test -e /etc/kubernetes/manifests/kube-apiserver.yaml || test -d /var/lib/etcd/member "
        ∷ "|| test -e /run/cluster-api/bootstrap-success.complete; then "
        ∷ "echo 'Existing Kubernetes state has no matching owner' >&2; exit 78; fi; "
        ∷ "install -d -m 0700 /var/lib/capi-provider-ssh; umask 077; printf '%s' " ∷ expected
        ∷ " > " ∷ owner ∷ ".tmp; mv " ∷ owner ∷ ".tmp " ∷ owner ∷ [])
    else if cleaned_retry
    then text (
        "if ! test -e /etc/kubernetes/kubelet.conf && ! test -e /var/lib/kubelet/config.yaml "
        ∷ "&& ! test -e /etc/kubernetes/manifests/kube-apiserver.yaml && ! test -d /var/lib/etcd/member "
        ∷ "&& ! test -e /run/cluster-api/bootstrap-success.complete; then exit 0; fi; "
        ∷ refuse_unowned ∷ [])
    else refuse_unowned

pub script : (uid command : String) (claim cleaned_retry : Bool) → String
script uid command claim cleaned_retry =
    let owner = quote owner_path in
    let expected = quote uid in
    text (
      "if test -f "
      ∷ owner
      ∷ "; then test \"$(cat "
      ∷ owner
      ∷ ")\" = "
      ∷ expected
      ∷ " || { echo 'Host belongs to another Machine UID' >&2; exit 78; }; else "
      ∷ absent owner expected claim cleaned_retry
      ∷ "; fi; "
      ∷ command
      ∷ [])

-- `owned_command(uid, command, claim, cleaned_retry, blocking)`
pub owned_command : (uid command : String) (claim cleaned_retry blocking : Bool) → Outcome String
owned_command uid command claim cleaned_retry blocking =
    if truthy uid
    then ok (
        text (
          "flock "
          ∷ (if blocking then "" else "-n ")
          ∷ quote remote_lock
          ∷ " sh -ceu "
          ∷ quote (script uid command claim cleaned_retry)
          ∷ []))
    else err (permanent "Machine UID is required for remote execution")
