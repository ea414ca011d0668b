-- ===== src/Machine/Local.antt =====
-- What an SSHMachine's reconciliation does before its SSH session clears no claim and does nothing on
-- a host.
use capi_provider_ssh.Base.{String, Option, none, some, List}
use capi_provider_ssh.Objects.{Condition, SecretRef, MachineSpec, MachineStatus}
use capi_provider_ssh.World.{
  Env, permanent, temporary, timeout_error, other_error, api_exception, Outcome, ok, err, Patch,
}
use capi_provider_ssh.World.Trace.{Emits, emits_rules}
use capi_provider_ssh.World.Claims.{Local}
use capi_provider_ssh.Conditions.Local.{patch-Local}
use capi_provider_ssh.Contracts.Local.{known_hosts-Local}
use capi_provider_ssh.Probe.Local.{key-Local}
use capi_provider_ssh.ExternalEtcd.{ExternalEtcd}
use capi_provider_ssh.Bootstrap.Local.{read-Local}
use capi_provider_ssh.Machine.{
  report, report_failure, or_report, bootstrap_data, wired, prepare, credentials_read,
  read_key_and_trust, credentials,
}

module _ (env : Env) (status : MachineStatus) (generation : Option _) where
  pub report-Local :
      (change : Patch → Patch) (conditions : String → List Condition)
      → Emits Local (report env status generation change conditions)
  unfolding report
  report-Local change conditions = search (emits_rules, patch-Local) depth 9

  pub failure-Local :
      (reason message failure_message bootstrap_reason bootstrap_message : String)
      → Emits Local (
          report_failure env status generation reason message failure_message bootstrap_reason
            bootstrap_message)
  unfolding report_failure
  failure-Local reason message failure_message bootstrap_reason bootstrap_message = report-Local _ _

  pub or_report-Local :
      {A : Type 0} (reason bootstrap_message : String) (o : Outcome A)
      → Emits Local (or_report env status generation reason bootstrap_message o)
  unfolding or_report
  or_report-Local reason bootstrap_message (ok a) = search emits_rules
  or_report-Local reason bootstrap_message (err (permanent m)) =
      search (emits_rules, failure-Local) depth 9
  or_report-Local reason bootstrap_message (err (api_exception n)) = search emits_rules
  or_report-Local reason bootstrap_message (err timeout_error) = search emits_rules
  or_report-Local reason bootstrap_message (err other_error) = search emits_rules
  or_report-Local reason bootstrap_message (err (temporary m d)) = search emits_rules

  data-Local :
      (namespace machine_name : String) (found : Option String)
      → Emits Local (bootstrap_data env status generation namespace machine_name found)
  unfolding bootstrap_data
  data-Local namespace machine_name found = search (emits_rules, report-Local) depth 9

  wired-Local :
      (data_text : String) (etcd : Option ExternalEtcd)
      → Emits Local (wired env status generation data_text etcd)
  unfolding wired
  wired-Local data_text none = search emits_rules
  wired-Local data_text (some etcd) = search (emits_rules, or_report-Local) depth 9

  pub prepare-Local :
      (spec : MachineSpec) (namespace machine_name provider_id : String)
      → Emits Local (prepare env status generation spec namespace machine_name provider_id)
  unfolding prepare
  prepare-Local spec namespace machine_name provider_id =
      search (emits_rules, read-Local, data-Local, wired-Local, or_report-Local) depth 14

  read_end-Local : (o : Outcome Unit) → Emits Local (credentials_read env status generation o)
  unfolding credentials_read
  read_end-Local (ok a) = search emits_rules
  read_end-Local (err (permanent m)) = search emits_rules
  read_end-Local (err (api_exception n)) = search (emits_rules, failure-Local) depth 9
  read_end-Local (err timeout_error) = search (emits_rules, failure-Local) depth 9
  read_end-Local (err other_error) = search (emits_rules, failure-Local) depth 9
  read_end-Local (err (temporary m d)) = search (emits_rules, failure-Local) depth 9

  trust-Local :
      (namespace secret_name secret_key : String) (trust : SecretRef)
      → Emits Local
          (read_key_and_trust env status generation namespace secret_name secret_key trust)
  unfolding read_key_and_trust
  trust-Local namespace secret_name secret_key trust =
      search (emits_rules, key-Local, known_hosts-Local) depth 9

  pub credentials-Local :
      (namespace : String) (key_ref trust : SecretRef)
      → Emits Local (credentials env status generation namespace key_ref trust)
  unfolding credentials
  credentials-Local namespace key_ref trust =
      search (emits_rules, failure-Local, trust-Local, read_end-Local) depth 10
