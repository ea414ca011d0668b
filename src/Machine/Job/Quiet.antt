-- ===== src/Machine/Job/Quiet.antt =====
-- The SSH session of an SSHMachine's reconciliation, and all else that it does, clear no claim.
use capi_provider_ssh.Base.{ℕ, String, Option, none, some, Bool, List}
use capi_provider_ssh.Objects.{Condition, Binding, Machine, MachineStatus}
use capi_provider_ssh.World.{
  Env, permanent, temporary, timeout_error, other_error, api_exception, Outcome, ok, err, Exec,
  pure, SshResult, Patch,
}
use capi_provider_ssh.World.Trace.{Emits, Emits-mono, emits_rules}
use capi_provider_ssh.World.Claims.{Local, Quiet, Quiet-Local}
use capi_provider_ssh.Contracts.Local.{is_paused-Local}
use capi_provider_ssh.Inventory.Quiet.{phase-Quiet}
use capi_provider_ssh.Operations.{HostLease}
use capi_provider_ssh.Operations.Quiet.{operation-Quiet, check-Quiet}
use capi_provider_ssh.Provision.Quiet.{ownership-Quiet}
use capi_provider_ssh.Bootstrap.Local.{found-Local}
use capi_provider_ssh.Bootstrap.Quiet.{durable-Quiet}
use capi_provider_ssh.ExternalEtcd.{ExternalEtcd}
use capi_provider_ssh.ExternalEtcd.Local.{script-Local}
use capi_provider_ssh.Machine.{
  Strategy, check_ssh, check_none, Target, Payload, report, report_failure,
}
use capi_provider_ssh.Machine.Local.{report-Local, failure-Local}
use capi_provider_ssh.Machine.Job.{
  with_ssh, live_machine, is_stopped, full_script, job_failed, kubelet_checked, check_kubelet,
  run_job, upload_and_run, bootstrap_body, session, session_ended, dry_run_ended, dry_run,
}

module _ (env : Env) (status : MachineStatus) (generation : Option ℕ) (command_timeout : ℕ) where
  with-Quiet :
      {A : Type 0} (target : Target) (body : Exec A)
      → Emits Quiet body
      → Emits Quiet (with_ssh env status generation command_timeout target body)
  unfolding with_ssh
  with-Quiet target body h = search emits_rules depth 10

  pub live-Local :
      (namespace name uid when : String)
      → Emits Local (live_machine env status generation command_timeout namespace name uid when)
  unfolding live_machine
  live-Local namespace name uid when = search (emits_rules, found-Local) depth 9

  pub stopped-Local :
      (namespace : String) (m : Machine)
      → Emits Local (is_stopped env status generation command_timeout namespace m)
  unfolding is_stopped
  stopped-Local namespace m = search (emits_rules, is_paused-Local) depth 9

  live-Quiet :
      (namespace name uid when : String)
      → Emits Quiet (live_machine env status generation command_timeout namespace name uid when)
  live-Quiet namespace name uid when = Emits-mono Quiet-Local (live-Local namespace name uid when)

  stopped-Quiet :
      (namespace : String) (m : Machine)
      → Emits Quiet (is_stopped env status generation command_timeout namespace m)
  stopped-Quiet namespace m = Emits-mono Quiet-Local (stopped-Local namespace m)

  etcd-Local :
      (namespace script : String) (etcd : Option ExternalEtcd)
      → Emits Local (
          full_script env status generation command_timeout namespace
            (record { script = script; etcd = etcd }))
  unfolding full_script
  etcd-Local namespace script none = search emits_rules
  etcd-Local namespace script (some etcd) = search (emits_rules, script-Local)

  pub full-Quiet :
      (namespace : String) (payload : Payload)
      → Emits Quiet (full_script env status generation command_timeout namespace payload)
  full-Quiet namespace payload =
      Emits-mono Quiet-Local (etcd-Local namespace payload.script payload.etcd)

  report-Quiet :
      (change : Patch → Patch) (conditions : String → List Condition)
      → Emits Quiet (report env status generation change conditions)
  report-Quiet change conditions =
      Emits-mono Quiet-Local (report-Local env status generation change conditions)

  failure-Quiet :
      (reason message failure_message bootstrap_reason bootstrap_message : String)
      → Emits Quiet (
          report_failure env status generation reason message failure_message bootstrap_reason
            bootstrap_message)
  failure-Quiet reason message failure_message bootstrap_reason bootstrap_message =
      Emits-mono Quiet-Local (
        failure-Local env status generation reason message failure_message bootstrap_reason
          bootstrap_message)

  failed-Quiet :
      (binding : Binding) (namespace name uid script : String) (result : SshResult)
      → Emits Quiet (
          job_failed env status generation command_timeout binding namespace name uid script result)
  unfolding job_failed
  failed-Quiet binding namespace name uid script result =
      search (emits_rules, phase-Quiet, report-Quiet) depth 10

  kubelet-Quiet :
      (strategy : Strategy)
      → Emits Quiet (check_kubelet env status generation command_timeout strategy)
  unfolding check_kubelet kubelet_checked
  kubelet-Quiet check_none = search emits_rules
  kubelet-Quiet check_ssh = search (emits_rules, report-Quiet) depth 12

  job-Quiet :
      (binding : Binding) (strategy : Strategy) (namespace name uid path script : String)
      → Emits Quiet (
          run_job env status generation command_timeout binding strategy namespace name uid path
            script)
  unfolding run_job
  job-Quiet binding strategy namespace name uid path script =
      search (emits_rules, durable-Quiet, kubelet-Quiet, failed-Quiet) depth 10

  pub upload-Quiet :
      (binding : Binding) (strategy : Strategy) (namespace name uid script : String)
      (lease : HostLease)
      → Emits Quiet (
          upload_and_run env status generation command_timeout binding strategy namespace name uid
            script lease)
  unfolding upload_and_run
  upload-Quiet binding strategy namespace name uid script lease =
      search (emits_rules, check-Quiet, live-Quiet, stopped-Quiet, job-Quiet) depth 14

  body-Quiet :
      (binding : Binding) (strategy : Strategy) (namespace name uid : String) (payload : Payload)
      (lease : HostLease)
      → Emits Quiet (
          bootstrap_body env status generation command_timeout binding strategy namespace name uid
            payload lease)
  unfolding bootstrap_body
  body-Quiet binding strategy namespace name uid payload lease =
      search
        (
          emits_rules, check-Quiet, live-Quiet, stopped-Quiet, ownership-Quiet, full-Quiet,
          upload-Quiet,
        )
        depth 14

  pub session-Quiet :
      (target : Target) (binding : Binding) (strategy : Strategy) (namespace name uid : String)
      (payload : Payload)
      → Emits Quiet (
          session env status generation command_timeout target binding strategy namespace name uid
            payload)
  unfolding session
  session-Quiet target binding strategy namespace name uid payload =
      search (operation-Quiet, with-Quiet, body-Quiet)

  pub ended-Local :
      (o : Outcome Bool) → Emits Local (session_ended env status generation command_timeout o)
  unfolding session_ended
  ended-Local (ok b) = search emits_rules
  ended-Local (err (permanent m)) = search emits_rules
  ended-Local (err (temporary m d)) = search emits_rules
  ended-Local (err timeout_error) = search (emits_rules, failure-Local) depth 9
  ended-Local (err other_error) = search (emits_rules, failure-Local) depth 9
  ended-Local (err (api_exception n)) = search (emits_rules, failure-Local) depth 9

  dry_end-Local :
      (address : String) (o : Outcome Unit)
      → Emits Local (dry_run_ended env status generation command_timeout address o)
  unfolding dry_run_ended
  dry_end-Local address (ok u) = search (emits_rules, report-Local) depth 9
  dry_end-Local address (err e) = search (emits_rules, failure-Local) depth 9

  with_nothing-Local :
      (target : Target)
      → Emits Local (with_ssh env status generation command_timeout target (pure tt))
  unfolding with_ssh
  with_nothing-Local target = search emits_rules depth 10

  pub dry_run-Local :
      (target : Target) → Emits Local (dry_run env status generation command_timeout target)
  unfolding dry_run
  dry_run-Local target = search (emits_rules, with_nothing-Local, dry_end-Local) depth 9
