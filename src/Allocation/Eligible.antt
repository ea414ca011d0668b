-- ===== src/Allocation/Eligible.antt =====
-- Which host the allocation claims.
use mathlib.Core.List.{Memᴰ}
use capi_provider_ssh.Base.{
  String, Bool, true, false, not, ◌≡◌, ◌≢◌, ◌⊎◌, inl, inr, refl, ap, List, [], ◌∷◌, Option, none,
  some, Dict, All, all, and_true, or_false, of_not-true, has_text, is_some, get, eq_of_text, opt_eq,
  eq_iff, ◌||◌, nat_eq, if◌then◌else◌,
}
use capi_provider_ssh.Objects.{ConsumerRef, Meta, Host}
use capi_provider_ssh.World.{
  Env, Error, Event, Trace, State, Outcome, ok, err, api_exception, permanent, temporary,
  timeout_error, other_error, answered, Exec, patch_consumer,
}
use capi_provider_ssh.World.Trace.{Since, Since-refl, Since-snoc}
use capi_provider_ssh.World.Wp.{
  Wp, wp-bind, wp-call, wp-lift, wp-attempt, wp-if, wp-pure, wp-raise, Case,
}
use capi_provider_ssh.Inventory.{consumer_ref, is_claimed, patch_claim}
use capi_provider_ssh.Allocation.{
  has_label, is_free_phase, is_eligible, claim_answer, claim_candidate, claim_first,
}

abbrev empty_ref : ConsumerRef
empty_ref = record { kind = none; name = none; namespace = none; uid = none }

-- A host that is not being deleted, has each label of the selector, has no claim, is in no phase but
-- Available, and is not known to be unready.
pub record Eligible (labels : Dict String) (host : Host) : Type 0 where
  pub not_deleting : has_text host.metadata.deletion_timestamp ≡ false
  pub labelled : All (λ (k, v). get host.metadata.labels k ≡ some v) labels
  pub unclaimed : (host.spec.consumer_ref ≡ none) ⊎ (host.spec.consumer_ref ≡ some empty_ref)
  pub available : (host.status.phase ≡ none) ⊎ (host.status.phase ≡ some "Available")
  pub not_unready : host.status.ready ≢ some false

is_none : {A : Type 0} (o : Option A) → is_some o ≡ false → o ≡ none
is_none none h = refl
is_none (some a) h = cc

no_ref : (o : Option ConsumerRef) → is_claimed o ≡ false → (o ≡ none) ⊎ (o ≡ some empty_ref)
no_ref none h = inl refl
no_ref (some ref) h =
    let (a, h) = or_false (is_some ref.kind || is_some ref.name || is_some ref.namespace) _ h in
    let (b, h') = or_false (is_some ref.kind || is_some ref.name) _ a in
    let (c, d) = or_false (is_some ref.kind) (is_some ref.name) b in
    inr (
      ap some (
        all_none ref.kind ref.name ref.namespace ref.uid (is_none _ c) (is_none _ d) (is_none _ h')
          (is_none _ h)))
  where
    all_none :
        (kind name namespace uid : Option String)
        → kind ≡ none
        → name ≡ none
        → namespace ≡ none
        → uid ≡ none
        → record { kind = kind; name = name; namespace = namespace; uid = uid } ≡ empty_ref
    all_none kind name namespace uid a b c d = cc

labels_all :
    (meta : Meta) (labels : Dict String)
    → all (has_label meta) labels ≡ true
    → All (λ (k, v). get meta.labels k ≡ some v) labels
labels_all meta [] h = tt
labels_all meta ((k, v) ∷ labels) h =
    let (here, rest) = and_true (has_label meta (k, v)) _ h in
    (eq_of_text (get meta.labels k) (some v) here, labels_all meta labels rest)

free_phase : (o : Option String) → is_free_phase o ≡ true → (o ≡ none) ⊎ (o ≡ some "Available")
free_phase none h = inl refl
free_phase (some phase) h = inr (ap some ((eq_iff phase "Available").0 h))

ready_known :
    (o : Option Bool)
    → opt_eq (λ a b. if a then b else not b) o (some false) ≡ false
    → o ≢ some false
ready_known none h e = cc
ready_known (some true) h e = cc
ready_known (some false) h e = cc

is_eligible-Eligible :
    (labels : Dict String) (host : Host) → is_eligible labels host ≡ true → Eligible labels host
unfolding is_eligible
is_eligible-Eligible labels host h =
    let (h4, ready) = and_true _ _ h in
    let (h3, phase) = and_true _ (is_free_phase host.status.phase) h4 in
    let (h2, free) = and_true _ (not (is_claimed host.spec.consumer_ref)) h3 in
    let (live, labelled) = and_true _ (all (has_label host.metadata) labels) h2 in
    record {
      not_deleting = of_not-true _ live;
      labelled = labels_all host.metadata labels labelled;
      unclaimed = no_ref host.spec.consumer_ref (of_not-true _ free);
      available = free_phase host.status.phase phase;
      not_unready = ready_known host.status.ready (of_not-true _ ready);
    }

-- The request claims an eligible host of the list for the Machine, at the UID and the version that
-- the list gave it.
pub record Claims (labels : Dict String) (name namespace uid : String) (hosts : List Host)
    (e : Event) : Type 0 where
  pub host : Host
  pub listed : Memᴰ host hosts
  pub eligible : Eligible labels host
  pub ref : ConsumerRef
  pub own : consumer_ref name namespace uid ≡ ok ref
  pub claims :
      e.request
      ≡ patch_consumer namespace host.metadata.name host.metadata.uid host.metadata.resource_version
          (some ref)

module _ (env : Env) (labels : Dict String) (name namespace uid : String) (hosts : List Host)
    (start : Trace) where
  -- a claim that was not confirmed
  abbrev pub Missed : Event → Type 0
  Missed e = Claims labels name namespace uid hosts e × (e.done ≡ false)

  -- The last request is the one confirmed claim, and the chosen host is its answer.
  pub record Chosen (chosen : Host) (t : Trace) : Type 0 where
    pub earlier : Trace
    pub last : Event
    pub history : t ≡ last ∷ earlier
    pub claimed : Claims labels name namespace uid hosts last
    pub confirmed : last.done ≡ true
    pub answer : env.host earlier last.request ≡ answered chosen
    pub missed : Since Missed start earlier

  -- what a choice leaves: a chosen host, or no confirmed claim
  pub Ended : Outcome Host × State → Type 0
  Ended (ok chosen, s) = Chosen chosen s.trace
  Ended (err e, s) = Since Missed start s.trace

  abbrev Good : Host → State → Type 0
  Good chosen s = Chosen chosen s.trace

  abbrev None : Error → State → Type 0
  None e s = Since Missed start s.trace

  answer-wp :
      (rest : Exec Host) (s : State)
      → Wp rest s Good None
      → Since Missed start s.trace
      → (e : Error) → Wp (claim_answer (err e) rest) s Good None
  unfolding claim_answer
  answer-wp rest s h missed (api_exception n) =
      wp-if (nat_eq n 404 || nat_eq n 409) _ _ s (λ _. h) (λ _. wp-raise _ s missed)
  answer-wp rest s h missed (permanent m) = wp-raise _ s missed
  answer-wp rest s h missed (temporary m d) = wp-raise _ s missed
  answer-wp rest s h missed timeout_error = wp-raise _ s missed
  answer-wp rest s h missed other_error = wp-raise _ s missed

  Claims-host :
      (host : Host)
      → Memᴰ host hosts
      → Eligible labels host
      → (ref : ConsumerRef) → consumer_ref name namespace uid ≡ ok ref
      → (done : Bool)
      → Claims labels name namespace uid hosts (record {
        request =
            patch_consumer namespace host.metadata.name host.metadata.uid
              host.metadata.resource_version
              (some ref);
        done = done;
      })
  Claims-host host listed eligible ref own done = record {
    host = host;
    listed = listed;
    eligible = eligible;
    ref = ref;
    own = own;
    claims = refl;
  }

  candidate-wp :
      (host : Host) (rest : Exec Host) (s : State)
      → Memᴰ host hosts
      → Eligible labels host
      → Since Missed start s.trace
      → ((t : State) → Since Missed start t.trace → Wp rest t Good None)
      → Wp (claim_candidate env name namespace uid host rest) s Good None
  unfolding claim_candidate patch_claim claim_answer
  candidate-wp host rest s listed eligible missed h = wp-bind _ _ s (
      wp-lift _ s
        (λ ref own.
          let claims = Claims-host host listed eligible ref own in
          wp-bind _ _ s (
            wp-attempt _ s (
              wp-call _ _ s
                (λ chosen answer. wp-pure chosen _ (record {
                  earlier = s.trace;
                  last = _;
                  history = refl;
                  claimed = claims true;
                  confirmed = refl;
                  answer = answer;
                  missed = missed;
                }))
                (λ e _.
                  let still = Since-snoc Missed start s.trace _ false (claims false, refl) missed in
                  answer-wp rest _ (h _ still) still e))))
        (λ _ _. missed))

  first-wp :
      (candidates : List Host) (s : State)
      → ((host : Host) → Memᴰ host candidates → Memᴰ host hosts)
      → Since Missed start s.trace
      → Wp (claim_first env labels name namespace uid candidates) s Good None
  unfolding claim_first
  first-wp [] s listed missed = wp-raise _ s missed
  first-wp (host ∷ candidates) s listed missed =
      let rest : (t : State) → Since Missed start t.trace → _ =
        λ t m. first-wp candidates t (λ h member. listed h (Memᴰ.tail member)) m in
      wp-if (is_eligible labels host) _ _ s
        (λ eligible.
          candidate-wp host _ s (listed host (Memᴰ.head refl))
            (is_eligible-Eligible labels host eligible) missed rest)
        (λ _. rest s missed)

module _ (env : Env) (labels : Dict String) (name namespace uid : String) (hosts : List Host)
    (s : State) where
  abbrev pub choose : Outcome Host × State
  choose = claim_first env labels name namespace uid hosts s

  -- The choice among the candidates claims at most one host. Where it returns a host, its last request
  -- is a confirmed claim that the API server answered with that host, and where it raises, no claim is
  -- confirmed. Every other request is a claim that was not confirmed. Each claim is of a host of the
  -- list that is not being deleted, has the labels of the selector, has no claim, has no phase but
  -- Available and is not known to be unready, and it is for this Machine and fenced with the UID and
  -- the version that the list gave the host.
  pub claim_first-Chosen : Ended env labels name namespace uid hosts s.trace choose
  unfolding Ended
  claim_first-Chosen =
      ended choose
        (first-wp env labels name namespace uid hosts s.trace hosts s (λ host listed. listed)
          (Since-refl _ s.trace)).at
    where
      ended :
          (r : Outcome Host × State)
          → Case
              (Good env labels name namespace uid hosts s.trace)
              (None env labels name namespace uid hosts s.trace)
              r
          → Ended env labels name namespace uid hosts s.trace r
      ended (ok host, s') h = h
      ended (err e, s') h = h
