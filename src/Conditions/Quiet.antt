-- ===== src/Conditions/Quiet.antt =====
-- The condition updates send no request that clears a claim.
use capi_provider_ssh.Base.{ℕ, Bool, List, Option}
use capi_provider_ssh.Objects.{Condition}
use capi_provider_ssh.World.{Env, Exec}
use capi_provider_ssh.World.Trace.{Emits, Emits-mono}
use capi_provider_ssh.World.Claims.{Quiet, Quiet-Local}
use capi_provider_ssh.Conditions.{patch_conditions, report_pause}
use capi_provider_ssh.Conditions.Local.{patch-Local, report-Emits}

module _ (env : Env) (status : List Condition) (generation : Option ℕ) where
  pub patch-Quiet :
      (updates : List Condition) → Emits Quiet (patch_conditions env status generation updates)
  patch-Quiet updates = Emits-mono Quiet-Local (patch-Local env status generation updates)

  pub report-Quiet :
      (check : Exec Bool)
      → Emits Quiet check
      → Emits Quiet (report_pause env status generation check)
  report-Quiet check h = report-Emits env status generation check Quiet-Local h
