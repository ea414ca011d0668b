-- ===== src/Contracts/Local.antt =====
-- The pause check, the condition updates and the status write clear no claim.
use capi_provider_ssh.Base.{String, Dict, Bool, Option, none, some, List, [], ◌∷◌}
use capi_provider_ssh.Objects.{OwnerRef, Meta, CapiObject, Machine, SecretRef}
use capi_provider_ssh.World.{Env, Outcome, ok, err, permanent, api_exception, Exec, pure, Changes}
use capi_provider_ssh.World.Trace.{Emits, emits_rules, Emits-pure, Emits-bind}
use capi_provider_ssh.World.Claims.{Local}
use capi_provider_ssh.Contracts.{
  Decision, decided, next, owner_answer, owner_step, cluster_answer, cluster_pause, owners_loop,
  is_paused, persist_machine_status, persisted, read_known_hosts, known_hosts_entry,
}

answer-Local :
    (owner : OwnerRef) (version : String) (name : Option String) (o : Outcome CapiObject)
    → Emits Local (owner_answer owner version name o)
unfolding owner_answer
answer-Local owner version name (ok obj) = search emits_rules
answer-Local owner version name (err (api_exception n)) = search emits_rules
answer-Local owner version name (err (permanent m)) = search emits_rules
answer-Local owner version name (err _) = search emits_rules

cluster_answer-Local : (o : Outcome CapiObject) → Emits Local (cluster_answer o)
unfolding cluster_answer
cluster_answer-Local (ok obj) = search emits_rules
cluster_answer-Local (err (api_exception n)) = search emits_rules
cluster_answer-Local (err (permanent m)) = search emits_rules
cluster_answer-Local (err _) = search emits_rules

persisted-Local : (o : Outcome Machine) → Emits Local (persisted o)
unfolding persisted
persisted-Local (ok m) = search emits_rules
persisted-Local (err (api_exception n)) = search emits_rules
persisted-Local (err (permanent m)) = search emits_rules
persisted-Local (err _) = search emits_rules

module _ (env : Env) where
  step-Local :
      (namespace : String) (owner : OwnerRef) (name : Option String) (version : String)
      (v : Option String)
      → Emits Local (owner_step env namespace owner name version v)
  unfolding owner_step
  step-Local namespace owner name version none = search emits_rules
  step-Local namespace owner name version (some v) = search (emits_rules, answer-Local)

  cluster-Local :
      (namespace : String) (name : Option String) (version : String)
      → Emits Local (cluster_pause env namespace name version)
  unfolding cluster_pause
  cluster-Local namespace none version = search emits_rules
  cluster-Local namespace (some name) version = search (emits_rules, cluster_answer-Local)

  decision-Local :
      (d : Decision) (rest : Option String → String → Exec Bool)
      → ((n : Option String) (v : String) → Emits Local (rest n v))
      → Emits Local {A = Bool} (elim d [ decided b ↦ pure b | next n v ↦ rest n v ])
  decision-Local (decided b) rest h = Emits-pure b
  decision-Local (next n v) rest h = h n v

  loop-Local :
      (namespace : String) (owners : List OwnerRef) (name : Option String) (version : String)
      → Emits Local (owners_loop env namespace owners name version)
  unfolding owners_loop
  loop-Local namespace [] name version = cluster-Local namespace name version
  loop-Local namespace (owner ∷ owners) name version =
      Emits-bind _ _ (step-Local namespace owner name version _)
        (λ d. decision-Local d (owners_loop env namespace owners) (loop-Local namespace owners))

  pub is_paused-Local :
      (paused : Option Bool) (meta : Meta) (namespace : String)
      → Emits Local (is_paused env paused meta namespace)
  unfolding is_paused
  is_paused-Local paused meta namespace = search (emits_rules, loop-Local)

  pub persist-Local :
      (namespace name uid : String) (changes : Changes)
      → Emits Local (persist_machine_status env namespace name uid changes)
  unfolding persist_machine_status
  persist-Local namespace name uid changes = search (emits_rules, persisted-Local) depth 12

  entry-Local :
      (entries : Option (Dict String)) (key : String)
      → Emits Local (known_hosts_entry env entries key)
  unfolding known_hosts_entry
  entry-Local none key = search emits_rules
  entry-Local (some entries) key = search emits_rules

  pub known_hosts-Local :
      (namespace : String) (ref : SecretRef) → Emits Local (read_known_hosts env namespace ref)
  unfolding read_known_hosts
  known_hosts-Local namespace ref = search (emits_rules, entry-Local)
