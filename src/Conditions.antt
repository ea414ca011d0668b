-- ===== src/Conditions.antt =====
-- capi_provider_ssh/conditions.py. A dict of conditions keyed by type is the list of its values in
-- insertion order; `assign` is the assignment to a key.
pub mod Merge
pub mod Local
pub mod Quiet
pub mod Staged
use capi_provider_ssh.Base.{
  ℕ, String, Bool, ◌&&◌, true, false, List, [], ◌∷◌, ◌++◌, Option, none, some, has_text, truthy,
  or_else, is_some, text_eq, filter, ◌==◌, if◌then◌else◌,
}
use capi_provider_ssh.Objects.{Condition, Meta}
use capi_provider_ssh.World.{
  Env, State, Patch, Exec, Outcome, ok, err, pure, raise, attempt, gets, stage, ◌>>=◌, ◌>>◌,
}

-- `condition(kind, status, reason, message)`
abbrev pub condition : (kind status reason message : String) → Condition
condition kind status reason message = record {
  type = kind;
  status = status;
  reason = reason;
  message = message;
  last_transition_time = none;
  observed_generation = none;
}

-- `result.get(kind)`
unfoldable pub find : String → List Condition → Option Condition
find kind [] = none
find kind (c ∷ cs) = if c.type == kind then some c else find kind cs

-- `result[c.type] = c`: a key keeps its place, and a new one goes to the end.
pub assign : Condition → List Condition → List Condition
assign c [] = c ∷ []
assign c (x ∷ xs) = if x.type == c.type then c ∷ xs else x ∷ assign c xs

-- the dict comprehension over conditions, into the entries so far
pub index : List Condition → List Condition → List Condition
index so_far [] = so_far
index so_far (c ∷ cs) = index (assign c so_far) cs

-- whether the previous entry has the update's status and a transition time to keep
abbrev pub same_status : Option Condition → Condition → Bool
same_status none _ = false
same_status (some previous) update =
    previous.status == update.status && has_text previous.last_transition_time

abbrev pub previous_time : Option Condition → Option String
previous_time none = none
previous_time (some previous) = previous.last_transition_time

abbrev pub generation_or : Option ℕ → Option ℕ → Option ℕ
generation_or none old = old
generation_or (some g) _ = some g

-- the body of the loop, up to the assignment
pub stamp : (generation : Option ℕ) (now : String) → Option Condition → Condition → Condition
stamp generation now previous update = record update {
  last_transition_time =
      if same_status previous update
      then previous_time previous
      else some (or_else update.last_transition_time now);
  observed_generation = generation_or generation update.observed_generation;
}

pub merge_loop :
    (generation : Option ℕ) (now : String) → List Condition → List Condition → List Condition
merge_loop generation now result [] = result
merge_loop generation now result (update ∷ updates) =
    merge_loop generation now
      (assign (stamp generation now (find update.type result) update) result) updates

-- `merge_conditions(existing, updates, generation)`, where each reading of the clock gives `now`
pub merge_conditions :
    (existing updates : List Condition) (generation : Option ℕ) (now : String) → List Condition
merge_conditions existing updates generation now =
    merge_loop generation now (index [] (filter (λ c. truthy c.type) existing)) updates

module _ (env : Env) where
  -- `patch_conditions(patch, status, meta, updates)`; only the generation of meta is read
  unfoldable pub patch_conditions :
      (status : List Condition) (generation : Option ℕ) → List Condition → Exec Unit
  patch_conditions status generation updates = do
    now ← gets (λ s. env.iso s.trace)
    stage λ p. record p {
      conditions =
          some (
            merge_conditions (index [] (status ++ or_else p.conditions [])) updates generation now);
    }

  pub paused_condition : Bool → Condition
  paused_condition paused =
      condition "Paused" (if paused then "True" else "False")
        (if paused then "Paused" else "NotPaused")
        (if paused
          then "Reconciliation is paused or awaiting a referenced CAPI owner"
          else "Reconciliation is not paused")

  pub report_outcome : List Condition → Option ℕ → Outcome Bool → Exec Bool
  report_outcome status generation (err e) = do
    patch_conditions status generation (
        condition "Paused" "Unknown" "PauseCheckFailed"
          "Cannot establish CAPI pause and owner state"
        ∷ [])
    raise e
  report_outcome status generation (ok paused) = do
    patch_conditions status generation (paused_condition paused ∷ [])
    pure paused

  -- `report_pause(patch, status, meta, check)`
  pub report_pause : List Condition → Option ℕ → Exec Bool → Exec Bool
  report_pause status generation check = do
    paused ← attempt check
    report_outcome status generation paused
