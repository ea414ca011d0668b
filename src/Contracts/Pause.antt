-- ===== src/Contracts/Pause.antt =====
-- The pause check fails closed (is_paused).
use capi_provider_ssh.Base.{
  String, Bool, true, false, not, ◌≡◌, ◌≢◌, ◌||◌, ◌⊎◌, inl, inr, refl, ap, sym, subst, ◌∙◌, List,
  [], ◌∷◌, Option, none, some, contains, get, has_text, is_true, truthy, text_eq, eq_of_text,
  text_of_eq, nat_eq, ◌&&◌, or_false, of_not-false, if◌then◌else◌,
}
use capi_provider_ssh.Objects.{OwnerRef, Meta, CapiObject}
use capi_provider_ssh.World.{
  Env, State, Trace, Error, Outcome, ok, err, answered, permanent, temporary, timeout_error,
  other_error, api_exception, ok-injective, err-ne-ok, pure, get_capi_object,
}
use capi_provider_ssh.World.Wp.{
  Wp, wp-pure, wp-raise, wp-if, wp-bind, wp-attempt, wp-call, wp-mono, wp-ok, logged,
}
use capi_provider_ssh.Contracts.{
  Decision, decided, next, is_paused_object, plural_of, owner_answer, owner_step, cluster_answer,
  cluster_pause, owners_loop, is_paused, capi_owner_api_version, paused_annotation, cluster_label,
}

-- Neither `spec.paused` nor the annotation.
pub record Running (obj : CapiObject) : Type 0 where
  pub not_paused : is_true obj.paused ≡ false
  pub not_annotated : contains obj.metadata.annotations paused_annotation ≡ false

module _ (env : Env) (namespace : String) where
  -- The object is read in this history, and it runs.
  pub record Read (plural name version : String) (obj : CapiObject) (t : Trace) : Type 0 where
    pub given : env.capi_object t (get_capi_object plural namespace name version) ≡ answered obj
    pub running : Running obj

  abbrev pub after_read : (plural name version : String) → Trace → Trace
  after_read plural name version t =
      record { request = get_capi_object plural namespace name version; done = true } ∷ t

  -- an owner reference without a UID, or with the object's
  abbrev pub SameUid : OwnerRef → CapiObject → Type 0
  SameUid owner obj = has_text owner.uid ≡ true → obj.metadata.uid ≡ owner.uid

  abbrev pub cluster_after : CapiObject → Option String → Option String
  cluster_after obj cluster = if has_text obj.cluster_name then obj.cluster_name else cluster

  -- `Chain owners cluster version t t'`: from the history t to t', each Machine and each Cluster of
  -- Cluster API among the owners was read, is the one that is referred to, and runs, up to the first
  -- Cluster. Without a Cluster among them, the Cluster that the last Machine names, or else
  -- `cluster`, was read and runs, or there is no such name. Nothing else was requested.
  pub data Chain
      : List OwnerRef → (cluster : Option String) (version : String) → Trace → Trace → Type 0 where
    no_cluster :
        (cluster : Option String) (version : String) (t : Trace)
        → has_text cluster ≡ false
        → Chain [] cluster version t t
    named_cluster :
        (name version : String) (obj : CapiObject) (t : Trace)
        → truthy name ≡ true
        → Read "clusters" name version obj t
        → Chain [] (some name) version t (after_read "clusters" name version t)
    other_owner :
        (owner : OwnerRef) (owners : List OwnerRef) (cluster : Option String) (version : String)
        (t t' : Trace)
        → (capi_owner_api_version owner ≡ none)
          ⊎ ((owner.kind ≢ some "Machine") × (owner.kind ≢ some "Cluster"))
        → Chain owners cluster version t t'
        → Chain (owner ∷ owners) cluster version t t'
    owner_cluster :
        (owner : OwnerRef) (owners : List OwnerRef) (cluster : Option String) (version own : String)
        (obj : CapiObject) (t : Trace)
        → capi_owner_api_version owner ≡ some own
        → owner.kind ≡ some "Cluster"
        → SameUid owner obj
        → Read "clusters" owner.name own obj t
        → Chain (owner ∷ owners) cluster version t (after_read "clusters" owner.name own t)
    owner_machine :
        (owner : OwnerRef) (owners : List OwnerRef) (cluster : Option String) (version own : String)
        (obj : CapiObject) (t t' : Trace)
        → capi_owner_api_version owner ≡ some own
        → owner.kind ≡ some "Machine"
        → SameUid owner obj
        → Read "machines" owner.name own obj t
        → Chain owners (cluster_after obj cluster) own (after_read "machines" owner.name own t) t'
        → Chain (owner ∷ owners) cluster version t t'

running : (obj : CapiObject) → is_paused_object obj ≡ false → Running obj
running obj h =
    let (a, b) = or_false (is_true obj.paused) _ h in record { not_paused = a; not_annotated = b }

ne_of_text : (a b : Option String) → text_eq a b ≡ false → a ≢ b
ne_of_text a b h e = differ (text_of_eq a b e)
  where
    differ : text_eq a b ≡ true → ⊥
    differ k = cc

same_uid :
    (owner : OwnerRef) (obj : CapiObject)
    → has_text owner.uid && not (text_eq obj.metadata.uid owner.uid) ≡ false
    → has_text owner.uid ≡ true
    → obj.metadata.uid ≡ owner.uid
same_uid owner obj h full = eq_of_text obj.metadata.uid owner.uid (of_not-false _ (rw full at h))

abbrev NoRaise : Error → State → Type 0
NoRaise e s = Unit

true_false : {P : Type 0} → true ≡ false → P
true_false h = cc

or_left : (a b : Bool) → a || b ≡ true → b ≡ false → a ≡ true
or_left true b h k = refl
or_left false true h k = cc
or_left false false h k = cc

module _ (env : Env) (namespace : String) where
  abbrev Owners : List OwnerRef → Option String → String → Trace → Trace → Type 0
  Owners = Chain env namespace

  -- the answer `False` rests on a chain
  abbrev FlagOk : List OwnerRef → Option String → String → Trace → Bool → State → Type 0
  FlagOk owners cluster version t b s = b ≡ false → Owners owners cluster version t s.trace

  cluster_answer-wp :
      (name version : String) (o : Outcome CapiObject) (s : State) (t : Trace)
      → truthy name ≡ true
      → ((obj : CapiObject)
          → o ≡ ok obj
          → (s.trace ≡ after_read env namespace "clusters" name version t)
            × (env.capi_object t (get_capi_object "clusters" namespace name version)
                ≡ answered obj))
      → Wp (cluster_answer o) s (FlagOk [] (some name) version t) NoRaise
  unfolding cluster_answer
  cluster_answer-wp name version (ok obj) s t full read =
      let (history, given) = read obj refl in
      wp-pure _ s (λ clear. subst (Owners [] (some name) version t) (sym history) (
        named_cluster name version obj t full
          (record { given = given; running = running obj clear })))
  cluster_answer-wp name version (err (api_exception n)) s t full read =
      wp-if (nat_eq n 404) _ _ s (λ _. wp-pure true s true_false) (λ _. wp-raise _ s tt)
  cluster_answer-wp name version (err (permanent m)) s t full read = wp-raise _ s tt
  cluster_answer-wp name version (err (temporary m d)) s t full read = wp-raise _ s tt
  cluster_answer-wp name version (err timeout_error) s t full read = wp-raise _ s tt
  cluster_answer-wp name version (err other_error) s t full read = wp-raise _ s tt

  cluster-wp :
      (cluster : Option String) (version : String) (s : State)
      → Wp
          (cluster_pause env namespace cluster version)
          s
          (FlagOk [] cluster version s.trace)
          NoRaise
  unfolding cluster_pause
  cluster-wp none version s = wp-pure false s (λ _. no_cluster none version s.trace refl)
  cluster-wp (some name) version s =
      wp-if (truthy name) _ _ s
        (λ full. wp-bind _ _ s (
          wp-attempt _ s (
            wp-call _ _ s
              (λ obj given.
                cluster_answer-wp name version (ok obj) _ s.trace full
                  (λ o e. (refl, given ∙ ap answered (ok-injective e))))
              (λ e _.
                cluster_answer-wp name version (err e) _ s.trace full
                  (λ o h. absurd (err-ne-ok h))))))
        (λ empty. wp-pure false s (λ _. no_cluster (some name) version s.trace empty))

  -- what a turn of the loop leaves for the owners that follow
  abbrev StepOk :
      OwnerRef → List OwnerRef → Option String → String → Trace → Decision → State → Type 0
  StepOk owner owners cluster version t (decided b) s =
      FlagOk (owner ∷ owners) cluster version t b s
  StepOk owner owners cluster version t (next c v) s =
      (t' : Trace) → Owners owners c v s.trace t' → Owners (owner ∷ owners) cluster version t t'

  module _ (owner : OwnerRef) (owners : List OwnerRef) (cluster : Option String)
      (version : String) where
    found_cluster :
        (own : String) (obj : CapiObject) (t : Trace)
        → capi_owner_api_version owner ≡ some own
        → owner.kind ≡ some "Cluster"
        → SameUid env namespace owner obj
        → Running obj
        → (plural : String) → plural ≡ "clusters"
        → env.capi_object t (get_capi_object plural namespace owner.name own) ≡ answered obj
        → Owners
            (owner ∷ owners)
            cluster
            version
            t
            (after_read env namespace plural owner.name own t)
    found_cluster own obj t api kind uid runs plural p given = rw p (
        owner_cluster owner owners cluster version own obj t api kind uid
          (record { given = rw p at given; running = runs }))

    found_machine :
        (own : String) (obj : CapiObject) (t : Trace)
        → capi_owner_api_version owner ≡ some own
        → owner.kind ≡ some "Machine"
        → SameUid env namespace owner obj
        → Running obj
        → (plural : String) → plural ≡ "machines"
        → env.capi_object t (get_capi_object plural namespace owner.name own) ≡ answered obj
        → (t' : Trace)
        → Owners owners
            (cluster_after env namespace obj cluster)
            own
            (after_read env namespace plural owner.name own t)
            t'
        → Owners (owner ∷ owners) cluster version t t'
    found_machine own obj t api kind uid runs plural p given t' rest =
        owner_machine owner owners cluster version own obj t t' api kind uid
          (record { given = rw p at given; running = runs }) (rw p at rest)

    answer-wp :
        (own : String) (obj : CapiObject) (s : State)
        → capi_owner_api_version owner ≡ some own
        → text_eq owner.kind (some "Machine") || text_eq owner.kind (some "Cluster") ≡ true
        → env.capi_object s.trace (get_capi_object (plural_of owner.kind) namespace owner.name own)
          ≡ answered obj
        → Wp
            (owner_answer owner own cluster (ok obj))
            (logged s (get_capi_object (plural_of owner.kind) namespace owner.name own) true)
            (StepOk owner owners cluster version s.trace)
            NoRaise
    unfolding owner_answer
    answer-wp own obj s api kind given =
        wp-if (has_text owner.uid && not (text_eq obj.metadata.uid owner.uid)) _ _ _
          (λ _. wp-raise _ _ tt)
          (λ uid.
            wp-if (is_paused_object obj) _ _ _ (λ _. wp-pure _ _ true_false)
              (λ clear.
                wp-if (text_eq owner.kind (some "Cluster")) _ _ _
                  (λ is_cluster.
                    let cluster_kind = eq_of_text owner.kind (some "Cluster") is_cluster in
                    wp-pure _ _ (λ _.
                      found_cluster own obj s.trace api cluster_kind (same_uid owner obj uid)
                        (running obj clear) (plural_of owner.kind) (ap plural_of cluster_kind)
                        given))
                  (λ no_cluster.
                    let is_machine =
                      eq_of_text owner.kind (some "Machine") (or_left _ _ kind no_cluster) in
                    wp-pure _ _ (
                      found_machine own obj s.trace api is_machine (same_uid owner obj uid)
                        (running obj clear) (plural_of owner.kind) (ap plural_of is_machine)
                        given))))

    failed-wp :
        (own : String) (e : Error) (t : Trace) (s : State)
        → Wp
            (owner_answer owner own cluster (err e))
            s
            (StepOk owner owners cluster version t)
            NoRaise
    unfolding owner_answer
    failed-wp own (api_exception n) t s =
        wp-if (nat_eq n 404) _ _ s (λ _. wp-pure _ s true_false) (λ _. wp-raise _ s tt)
    failed-wp own (permanent m) t s = wp-raise _ s tt
    failed-wp own (temporary m d) t s = wp-raise _ s tt
    failed-wp own timeout_error t s = wp-raise _ s tt
    failed-wp own other_error t s = wp-raise _ s tt

    step-wp :
        (own : Option String) (s : State)
        → capi_owner_api_version owner ≡ own
        → Wp
            (owner_step env namespace owner cluster version own)
            s
            (StepOk owner owners cluster version s.trace)
            NoRaise
    unfolding owner_step
    step-wp none s api =
        wp-pure _ s (λ t' rest. other_owner owner owners cluster version s.trace t' (inl api) rest)
    step-wp (some own) s api =
        wp-if (text_eq owner.kind (some "Machine") || text_eq owner.kind (some "Cluster")) _ _ s
          (λ kind. wp-bind _ _ s (
            wp-attempt _ s (
              wp-call _ _ s (λ obj given. answer-wp own obj s api kind given)
                (λ e _. failed-wp own e s.trace _))))
          (λ no_kind.
            let (machine, cluster_kind) =
              or_false (text_eq owner.kind (some "Machine")) _ no_kind in
            wp-pure _ s (λ t' rest.
              other_owner owner owners cluster version s.trace t'
                (inr (ne_of_text _ _ machine, ne_of_text _ _ cluster_kind)) rest))

  loop-wp :
      (owners : List OwnerRef) (cluster : Option String) (version : String) (s : State)
      → Wp
          (owners_loop env namespace owners cluster version)
          s
          (FlagOk owners cluster version s.trace)
          NoRaise
  unfolding owners_loop
  loop-wp [] cluster version s = cluster-wp cluster version s
  loop-wp (owner ∷ owners) cluster version s = wp-bind _ _ s (
      wp-mono _ s (step-wp owner owners cluster version (capi_owner_api_version owner) s refl)
        (after (loop-wp owners)) (λ _ _ u. u))
    where
      after :
          ((c : Option String) (v : String) (s' : State)
            → Wp (owners_loop env namespace owners c v) s' (FlagOk owners c v s'.trace) NoRaise)
          → (d : Decision) (s' : State) → StepOk owner owners cluster version s.trace d s'
          → Wp
              (elim d [ decided b ↦ pure b | next c v ↦ owners_loop env namespace owners c v ])
              s'
              (FlagOk (owner ∷ owners) cluster version s.trace)
              NoRaise
      after rest (decided b) s' h = wp-pure b s' h
      after rest (next c v) s' h =
          wp-mono _ s' (rest c v s') (λ b s'' flag is_false. h s''.trace (flag is_false))
            (λ _ _ u. u)

module _ (env : Env) (paused : Option Bool) (meta : Meta) (namespace : String) (s : State) where
  abbrev marked : Bool
  marked = is_true paused || contains meta.annotations paused_annotation

  abbrev pub Owned : Trace → Type 0
  Owned t =
      Chain env namespace meta.owner_references (get meta.labels cluster_label) "v1beta1" s.trace t

  abbrev Unmarked : Bool → State → Type 0
  Unmarked b s' = b ≡ false → (marked ≡ false) × Owned s'.trace

  check : Wp (is_paused env paused meta namespace) s Unmarked NoRaise
  unfolding is_paused
  check =
      wp-if marked _ _ s (λ _. wp-pure true s true_false)
        (λ unmarked.
          wp-mono _ s
            (loop-wp env namespace meta.owner_references (get meta.labels cluster_label) "v1beta1"
              s)
            (λ b s' flag is_false. (unmarked, flag is_false)) (λ _ _ u. u))

  -- Where the check answers that nothing is paused, the object itself is not marked, and its owners
  -- were consulted: each Machine and each Cluster of Cluster API among them, up to the first Cluster,
  -- was read with success, has the UID that the reference has, and is not paused. Without a Cluster
  -- among them, the Cluster that the last Machine or else the label names was read and is not paused,
  -- or no Cluster is named. No other request was made.
  pub is_paused-fails_closed :
      (is_paused env paused meta namespace s).0 ≡ ok false
      → (is_true paused || contains meta.annotations paused_annotation ≡ false)
        × Owned (is_paused env paused meta namespace s).1.trace
  is_paused-fails_closed h = wp-ok (is_paused env paused meta namespace) s check h refl
