-- ===== src/Conditions/Staged.antt =====
-- The conditions and the outcome that patch_conditions and report_pause leave.
use capi_provider_ssh.Base.{ℕ, String, Bool, ◌≡◌, refl, List, [], ◌∷◌, Option, some, All}
use capi_provider_ssh.Objects.{Condition}
use capi_provider_ssh.World.{Env, Error, Outcome, ok, err, State, Patch, Exec, attempt, ◌>>=◌}
use capi_provider_ssh.World.Wp.{Wp, wp-bind, wp-gets, wp-stage}
use capi_provider_ssh.Conditions.{patch_conditions, report_outcome, report_pause}
use capi_provider_ssh.Conditions.Merge.{IsUnique, HasStatus, merge_conditions-HasStatus}

-- The staged conditions give the type `k` this status.
abbrev pub Shows : (k v : String) → Patch → Type 0
Shows k v p = (cs : List Condition) × (p.conditions ≡ some cs) × HasStatus k v cs

abbrev pub NoRaise : Error → State → Type 0
NoRaise _ _ = ⊥

-- The updates are shown, and the two flags of the patch stay.
pub record Shown (updates : List Condition) (s s' : State) : Type 0 where
  pub shows : All (λ u. Shows u.type u.status s'.patch) updates
  pub same_ready : s'.patch.ready ≡ s.patch.ready
  pub same_provisioned : s'.patch.provisioned ≡ s.patch.provisioned

Shows-All :
    (p : Patch) (cs us : List Condition)
    → All (λ u. HasStatus u.type u.status cs) us
    → All (λ u. Shows u.type u.status (record p { conditions = some cs })) us
Shows-All p cs [] h = tt
Shows-All p cs (u ∷ us) h = ((cs, refl, h.0), Shows-All p cs us h.1)

module _ (env : Env) (status : List Condition) (generation : Option ℕ) where
  pub patch-Shown :
      (updates : List Condition) (s : State)
      → IsUnique updates
      → Wp (patch_conditions env status generation updates) s (λ _ s'. Shown updates s s') NoRaise
  unfolding patch_conditions
  patch-Shown updates s d = wp-bind _ _ _ (
      wp-gets _ _ (
        wp-stage _ _ (record {
          shows = Shows-All s.patch _ updates (merge_conditions-HasStatus _ updates generation _ d);
          same_ready = refl;
          same_provisioned = refl;
        })))

  outcome_same : (o : Outcome Bool) (s : State) → (report_outcome env status generation o s).0 ≡ o
  unfolding report_outcome patch_conditions ◌>>=◌
  outcome_same (ok b) s = refl
  outcome_same (err e) s = refl

  -- The outcome of the pause check passes through.
  pub report_pause-same :
      (check : Exec Bool) (s : State) → (report_pause env status generation check s).0 ≡ (check s).0
  unfolding report_pause ◌>>=◌ attempt
  report_pause-same check s = outcome_same (check s).0 (check s).1
