-- ===== src/Machine/Job/Ordered.antt =====
-- The SSH session of a bootstrap works on the host only after the ownership record is confirmed.
use capi_provider_ssh.Base.{ℕ, String, Option}
use capi_provider_ssh.Objects.{Binding, MachineStatus}
use capi_provider_ssh.World.{Env, Exec}
use capi_provider_ssh.World.Trace.{emits_rules}
use capi_provider_ssh.World.Claims.{is_remote, Quiet}
use capi_provider_ssh.World.Order.{
  Keeps-bind, Keeps-attempt, Keeps-if, Keeps-Readies, Readies-after, Readies-before,
}
use capi_provider_ssh.World.Remote.{Keeps, Keeps-Local, is_ownership}
use capi_provider_ssh.Operations.{HostLease}
use capi_provider_ssh.Operations.Local.{check-Local}
use capi_provider_ssh.Operations.Ordered.{operation-Keeps}
use capi_provider_ssh.Provision.Ordered.{ownership-Readies}
use capi_provider_ssh.Machine.{Strategy, Target, Payload}
use capi_provider_ssh.Machine.Job.{with_ssh, bootstrap_body, session}
use capi_provider_ssh.Machine.Job.Quiet.{live-Local, stopped-Local, full-Quiet, upload-Quiet}

module _ (env : Env) (status : MachineStatus) (generation : Option ℕ) (command_timeout : ℕ) where
  with-Keeps :
      (uid : String) {A : Type 0} (target : Target) (body : Exec A)
      → Keeps uid body
      → Keeps uid (with_ssh env status generation command_timeout target body)
  unfolding with_ssh
  with-Keeps uid target body h =
      Keeps-bind is_remote (is_ownership uid) _ _ (Keeps-Local uid (search emits_rules)) λ _.
        Keeps-bind is_remote (is_ownership uid) _ _ (Keeps-attempt is_remote (is_ownership uid) _ h)
          λ result. Keeps-Local uid (search emits_rules depth 9)

  body-Keeps :
      (binding : Binding) (strategy : Strategy) (namespace name uid : String) (payload : Payload)
      (lease : HostLease)
      → Keeps uid (
          bootstrap_body env status generation command_timeout binding strategy namespace name uid
            payload lease)
  unfolding bootstrap_body
  body-Keeps binding strategy namespace name uid payload lease =
      Keeps-bind is_remote (is_ownership uid) _ _
        (Keeps-Local uid (live-Local env status generation command_timeout namespace name uid _))
        λ live.
          Keeps-bind is_remote (is_ownership uid) _ _
            (Keeps-Local uid (stopped-Local env status generation command_timeout namespace live))
            λ stopped.
              Keeps-if is_remote (is_ownership uid) stopped _ _
                (Keeps-Local uid (search emits_rules))
                (Keeps-Readies is_remote (is_ownership uid) (
                  Readies-before is_remote (is_ownership uid) _ _
                    (Keeps-Local uid (check-Local env lease))
                    λ _.
                      Readies-after is_remote (is_ownership uid) {φ = Quiet} _ _
                        (ownership-Readies env namespace name uid binding status)
                        λ _. search (
                          emits_rules,
                          full-Quiet env status generation command_timeout,
                          upload-Quiet env status generation command_timeout,
                        )))

  pub session-Keeps :
      (target : Target) (binding : Binding) (strategy : Strategy) (namespace name uid : String)
      (payload : Payload)
      → Keeps uid (
          session env status generation command_timeout target binding strategy namespace name uid
            payload)
  unfolding session
  session-Keeps target binding strategy namespace name uid payload =
      operation-Keeps env uid binding uid _ λ lease.
        with-Keeps uid target _ (body-Keeps binding strategy namespace name uid payload lease)
