-- ===== src/Inventory/Release.antt =====
-- What a release of a claim does, on every path (release_host).
use capi_provider_ssh.Base.{
  String, Bool, true, false, ◌≡◌, ◌⊎◌, inl, inr, refl, ap, sym, ◌∙◌, ◌∷◌, Option, none, some,
  has_text, or_else, Bool-cases, ◌==◌, eq_iff, not, of_not-true, of_not-false,
}
use capi_provider_ssh.Text.{partition}
use capi_provider_ssh.Objects.{Host, Binding}
use capi_provider_ssh.World.{
  Env, ok-injective, err-ne-ok, Error, ok, err, other_error, answered, State, Request, Event,
  get_host, patch_consumer, patch_host_phase,
}
use capi_provider_ssh.World.Trace.{Since, Since-refl, Since-snoc}
use capi_provider_ssh.World.Wp.{
  Wp, wp-bind, wp-call, wp-lift, wp-lift_ok, wp-lift_err, wp-pure, wp-raise, wp-if, wp-mono, wp-ok,
  wp-err, logged,
}
use capi_provider_ssh.Contracts.{slash}
use capi_provider_ssh.Inventory.{
  same_consumer, is_claimed, release_host, release_ref, release_claim, patch_phase, patch_claim,
  required, split_ref,
}

-- a request that clears a claim
abbrev pub clears : Request → Bool
clears (patch_consumer _ _ _ _ none) = true
clears _ = false

-- not a claim that was cleared and confirmed
abbrev pub NotCleared : Event → Type 0
NotCleared e = clears e.request ≡ true → e.done ≡ false

read_kept :
    (namespace name : String) (b : Bool)
    → NotCleared (record { request = get_host namespace name; done = b })
read_kept namespace name b h = cc

phase_kept :
    (a b : String) (c d : Option String) (e : String) (f : Bool) (g : String) (done : Bool)
    → NotCleared (record { request = patch_host_phase a b c d e f g; done = done })
phase_kept a b c d e f g done h = cc

failed_kept : (r : Request) → NotCleared (record { request = r; done = false })
failed_kept r h = refl

module _ (env : Env) (binding : Binding) (name namespace uid : String) (s : State) where
  abbrev pub Kept : Error → State → Type 0
  Kept e s' = Since NotCleared s.trace s'.trace

  abbrev pub ref : String
  ref = or_else binding.host_ref ""

  abbrev pub host_namespace : String
  host_namespace = (partition slash ref).before

  abbrev pub read : Request
  read = get_host host_namespace (partition slash ref).after

  abbrev pub make_available : Host → Request
  make_available host =
      patch_host_phase host_namespace host.metadata.name host.metadata.uid
        host.metadata.resource_version "Available" false ""

  -- the claim of this Machine is cleared after the status says that the host is available, on the
  -- host that the API server gives back for that status, at its version
  abbrev pub Cleared : Host → State → Type 0
  Cleared host s' =
      (available : Host) × (same_consumer host.spec.consumer_ref name namespace uid ≡ true)
      × (env.host (record { request = read; done = true } ∷ s.trace) (make_available host)
          ≡ answered available)
      × (s'.trace
          ≡ record {
            request =
                patch_consumer host_namespace available.metadata.name available.metadata.uid
                  available.metadata.resource_version none;
            done = true;
          }
            ∷ record { request = make_available host; done = true }
            ∷ record { request = read; done = true }
            ∷ s.trace)

  -- the claim was already gone, and nothing is written
  abbrev pub Free : Host → State → Type 0
  Free host s' =
      (is_claimed host.spec.consumer_ref ≡ false)
      × (s'.trace ≡ record { request = read; done = true } ∷ s.trace)

  -- the host that the binding names was read, and has the UID that was allocated
  abbrev pub Released : State → Type 0
  Released s' =
      ((has_text binding.host_ref ≡ false) × (s'.trace ≡ s.trace))
      ⊎ ((host : Host) × (env.host s.trace read ≡ answered host)
          × (host.metadata.uid ≡ binding.host_uid)
          × (Free host s' ⊎ Cleared host s'))

  claim_released :
      (host : Host)
      → Wp
          (release_claim env host host_namespace name namespace uid)
          (logged s read true)
          (λ _ s'. Free host s' ⊎ Cleared host s')
          Kept
  unfolding release_claim patch_phase patch_claim
  claim_released host =
      let base =
        Since-snoc NotCleared s.trace s.trace read true (λ h. cc) (Since-refl NotCleared s.trace) in
      wp-if (not (is_claimed host.spec.consumer_ref)) _ _ _
        (λ free. wp-pure tt _ (inl (of_not-true _ free, refl)))
        (λ _.
          wp-if (not (same_consumer host.spec.consumer_ref name namespace uid)) _ _ _
            (λ _. wp-raise _ _ base)
            (λ same. wp-bind _ _ _ (
              wp-call _ _ _
                (λ available given. wp-bind _ _ _ (
                  wp-call _ _ _
                    (λ _ _. wp-pure tt _ (inr (available, of_not-false _ same, given, refl)))
                    (λ e _.
                      Since-snoc NotCleared s.trace _ _ false (λ _. refl)
                        (Since-snoc NotCleared s.trace _ _ true (λ h. cc) base))))
                (λ e _. Since-snoc NotCleared s.trace _ _ false (λ h. refl) base))))

  same_uid :
      (live bound : Option String) (a b : String)
      → required live ≡ ok a
      → required bound ≡ ok b
      → (a == b) ≡ true
      → live ≡ bound
  same_uid none bound a b p q h = absurd (err-ne-ok p)
  same_uid (some x) none a b p q h = absurd (err-ne-ok q)
  same_uid (some x) (some y) a b p q h =
      ap some (ok-injective p ∙ (eq_iff a b).0 h ∙ sym (ok-injective q))

  ref-Released : Wp (release_ref env binding name namespace uid ref) s (λ _ s'. Released s') Kept
  unfolding release_ref
  ref-Released =
      let base = Since-refl NotCleared s.trace in
      let after_read = Since-snoc NotCleared s.trace s.trace read true (λ h. cc) base in
      elim (Bool-cases (partition slash ref).found) [
        | inr missing ↦
            wp-bind _ _ _ (wp-lift_err (split_ref ref) other_error _ (rw missing refl) base)
        | inl found ↦ wp-bind _ _ _ (
            wp-lift_ok (split_ref ref) (partition slash ref) _ (rw found refl) (
              wp-bind _ _ _ (
                wp-call env.host read s
                  (λ host answer. wp-bind _ _ _ (
                    wp-lift (required host.metadata.uid) _
                      (λ live p. wp-bind _ _ _ (
                        wp-lift (required binding.host_uid) _
                          (λ bound q.
                            wp-if (not (live == bound)) _ _ _ (λ _. wp-raise _ _ after_read)
                              (λ same.
                                wp-mono _ _ (claim_released host)
                                  (λ _ s' out. inr (
                                    host,
                                    answer,
                                    same_uid host.metadata.uid binding.host_uid live bound p q
                                        (of_not-false _ same),
                                    out,
                                  ))
                                  (λ _ _ kept. kept)))
                          (λ e _. after_read)))
                      (λ e _. after_read)))
                  (λ e _. Since-snoc NotCleared s.trace s.trace read false (λ h. refl) base))))
      ]

  release_host-outcome :
      Wp (release_host env binding name namespace uid) s (λ _ s'. Released s') Kept
  unfolding release_host
  release_host-outcome =
      wp-if (has_text binding.host_ref) _ _ _ (λ _. ref-Released)
        (λ direct. wp-pure tt s (inl (direct, refl)))

  -- A release that returns had no host to release, or it read the host that the binding names, with
  -- the UID that was allocated. There it found no claim and wrote nothing, or it found this Machine's
  -- claim, first made the host with that name and UID available, and then cleared the claim of the host that
  -- the API server gave back for it, at its UID and version, both writes confirmed.
  pub release_host-Released :
      (release_host env binding name namespace uid s).0 ≡ ok tt
      → Released (release_host env binding name namespace uid s).1
  release_host-Released h =
      wp-ok (release_host env binding name namespace uid) s release_host-outcome h

  -- A release that raises has had no confirmation of a cleared claim.
  pub release_host-Kept :
      (e : Error)
      → (release_host env binding name namespace uid s).0 ≡ err e
      → Since NotCleared s.trace (release_host env binding name namespace uid s).1.trace
  release_host-Kept e h =
      wp-err (release_host env binding name namespace uid) s release_host-outcome h
