-- ===== src/Allocation/Local.antt =====
-- The binding of a Machine makes claims and clears none.
use capi_provider_ssh.Base.{String, Option, none, some, List, [], ◌∷◌, Dict}
use capi_provider_ssh.Objects.{Host, Binding, MachineSpec, MachineStatus}
use capi_provider_ssh.World.{Env, Exec, raise, Outcome, ok, err, permanent, api_exception}
use capi_provider_ssh.World.Trace.{Emits, emits_rules, Emits-if}
use capi_provider_ssh.World.Claims.{Local}
use capi_provider_ssh.Contracts.Local.{persist-Local}
use capi_provider_ssh.Inventory.Local.{phase-Local, claim-Local}
use capi_provider_ssh.Allocation.{
  claim_answer, claim_candidate, claim_first, select_new, select_from, select_host, labels_of,
  sort_candidates, is_eligible, require_unquarantined, allocated_target, bind_allocated,
  bind_selected, bind_direct, choose_binding, commit_binding, publish_binding, bind_machine,
}

answer-Local :
    (o : Outcome Host) (rest : Exec Host) → Emits Local rest → Emits Local (claim_answer o rest)
unfolding claim_answer
answer-Local (ok h) rest q = search emits_rules
answer-Local (err (api_exception n)) rest q = search emits_rules
answer-Local (err (permanent m)) rest q = search emits_rules
answer-Local (err _) rest q = search emits_rules

module _ (env : Env) where
  candidate-Local :
      (name namespace uid : String) (host : Host) (rest : Exec Host)
      → Emits Local rest
      → Emits Local (claim_candidate env name namespace uid host rest)
  unfolding claim_candidate
  candidate-Local name namespace uid host rest q =
      search (emits_rules, answer-Local, claim-Local) depth 9

  first-Local :
      (labels : Dict String) (name namespace uid : String) (hosts : List Host)
      → Emits Local (claim_first env labels name namespace uid hosts)
  unfolding claim_first
  first-Local labels name namespace uid [] = search emits_rules
  first-Local labels name namespace uid (host ∷ hosts) =
      let rest = first-Local labels name namespace uid hosts in
      Emits-if (is_eligible labels host) _ _ (λ _. candidate-Local name namespace uid host _ rest)
        (λ _. rest)

  labels-Local :
      (labels : Dict String) (name namespace uid : String) (hosts : List Host)
      → Emits Local {A = Host} (elim labels [
        | [] ↦ raise (permanent "hostSelector.matchLabels must not be empty")
        | l ∷ ls ↦ claim_first env (l ∷ ls) name namespace uid (sort_candidates hosts)
      ])
  labels-Local [] name namespace uid hosts = search emits_rules
  labels-Local (l ∷ ls) name namespace uid hosts = first-Local (l ∷ ls) name namespace uid _

  from-Local :
      (spec : MachineSpec) (status : MachineStatus) (name namespace uid : String)
      (hosts own : List Host)
      → Emits Local (select_from env spec status name namespace uid hosts own)
  unfolding select_from select_new
  from-Local spec status name namespace uid hosts [] =
      search (emits_rules, labels-Local (labels_of spec.host_selector) name namespace uid hosts)
  from-Local spec status name namespace uid hosts (h ∷ []) = search emits_rules
  from-Local spec status name namespace uid hosts (h ∷ k ∷ hs) = search emits_rules

  select-Local :
      (spec : MachineSpec) (status : MachineStatus) (name namespace uid : String)
      → Emits Local (select_host env spec status name namespace uid)
  unfolding select_host
  select-Local spec status name namespace uid = search (emits_rules, from-Local)

  unquarantined-Local :
      (message : String) (host : Host) → Emits Local (require_unquarantined message host)
  unfolding require_unquarantined
  unquarantined-Local message host = search emits_rules

  choose-Local :
      (spec : MachineSpec) (status : MachineStatus) (name namespace uid : String)
      (a : Option Binding)
      → Emits Local (choose_binding env spec status name namespace uid a)
  unfolding choose_binding bind_allocated allocated_target bind_selected bind_direct
  choose-Local spec status name namespace uid (some a) =
      search (emits_rules, unquarantined-Local) depth 14
  choose-Local spec status name namespace uid none =
      search (emits_rules, unquarantined-Local, select-Local) depth 10

  commit-Local :
      (name namespace uid : String) (b : Binding)
      → Emits Local (commit_binding env name namespace uid b)
  unfolding commit_binding
  commit-Local name namespace uid b = search (emits_rules, persist-Local) depth 10

  publish-Local :
      (name namespace uid : String) (b : Binding)
      → Emits Local (publish_binding env name namespace uid b)
  unfolding publish_binding
  publish-Local name namespace uid b = search (emits_rules, phase-Local) depth 10

  pub bind-Local :
      (spec : MachineSpec) (status : MachineStatus) (name namespace uid : String)
      → Emits Local (bind_machine env spec status name namespace uid)
  unfolding bind_machine
  bind-Local spec status name namespace uid =
      search (emits_rules, choose-Local, commit-Local, publish-Local) depth 10
