-- ===== src/Conditions/Local.antt =====
-- The condition updates send no request that clears a claim.
use capi_provider_ssh.Base.{ℕ, Bool, Option, List}
use capi_provider_ssh.Objects.{Condition}
use capi_provider_ssh.World.{Event, Env, Outcome, ok, err, Exec}
use capi_provider_ssh.World.Trace.{Emits, Emits-mono, Emits-bind, Emits-attempt, emits_rules}
use capi_provider_ssh.World.Claims.{Local}
use capi_provider_ssh.Conditions.{patch_conditions, report_pause, report_outcome}

module _ (env : Env) (status : List Condition) (generation : Option ℕ) where
  pub patch-Local :
      (updates : List Condition) → Emits Local (patch_conditions env status generation updates)
  unfolding patch_conditions
  patch-Local updates = search emits_rules

  outcome-Local : (o : Outcome Bool) → Emits Local (report_outcome env status generation o)
  unfolding report_outcome
  outcome-Local (ok b) = search (emits_rules, patch-Local)
  outcome-Local (err e) = search (emits_rules, patch-Local)

  pub report-Emits :
      {φ : Event → Type 0} (check : Exec Bool)
      → ((e : Event) → Local e → φ e)
      → Emits φ check
      → Emits φ (report_pause env status generation check)
  unfolding report_pause
  report-Emits check weaker h =
      Emits-bind _ _ (Emits-attempt _ h) (λ o. Emits-mono weaker (outcome-Local o))
