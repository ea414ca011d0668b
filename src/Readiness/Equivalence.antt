-- ===== src/Readiness/Equivalence.antt =====
-- When a replica counts as ready.
use capi_provider_ssh.Base.{
  ℕ, ◌-◌, ◌≤◌, ◌<◌, String, Bool, true, false, ◌≡◌, ◌↔◌, ◌⊎◌, refl, ap, inl, inr, Bool-cases,
  Option, none, some, and_true, arith,
}
use capi_provider_ssh.Text.Number.{ℤ}
use capi_provider_ssh.Value.{Entries, end, entry, get_value, as_dict}
use capi_provider_ssh.Readiness.{
  Instant, Python, Reply, replied, request_failed, Api, Checked, ready, not_ready, raised,
  peering_lifetime, as_int, is_boolean, same_priority, time_at, lifetime_at, aware_only, is_recent,
  is_fresh, has_fresh, peers_of, peers_checked, peering_checked, startup_checked, identity_checked,
  clusters_checked, check_readiness,
}

not_ready-ne : {m : String} → not_ready m ≡ ready → ⊥
not_ready-ne h = cc

raised-ne : {e : String} → raised e ≡ ready → ⊥
raised-ne h = cc

pub AnyPeer : (Option Entries → Type 0) → Entries → Type 0
AnyPeer P end = ⊥
AnyPeer P (entry _ peer es) = P (as_dict peer) ⊎ AnyPeer P es

-- a time with a time zone
pub record AwareTime (o : Option Instant) (micros : ℕ) : Type 0 where
  pub time : Instant
  pub parsed_time : o ≡ some time
  pub is_aware : time.aware ≡ true
  pub same_micros : time.micros ≡ micros

false-true : false ≡ true → ⊥
false-true h = cc

some_inj : {A : Type 0} {a b : A} → some a ≡ some b → a ≡ b
some_inj h = cc

none-some : {A : Type 0} {a : A} → none ≡ some a → ⊥
none-some h = cc

aware_only-AwareTime : (o : Option Instant) (m : ℕ) → aware_only o ≡ some m → AwareTime o m
aware_only-AwareTime none m h = absurd (none-some h)
aware_only-AwareTime (some t) m h = elim (Bool-cases t.aware) [
  | inl aware ↦ record {
    time = t;
    parsed_time = refl;
    is_aware = aware;
    same_micros = some_inj (rw aware at h);
  }
  | inr naive ↦ absurd (none-some (rw naive at h))
]

AwareTime-aware_only : (o : Option Instant) (m : ℕ) → AwareTime o m → aware_only o ≡ some m
AwareTime-aware_only o m a = rw a.parsed_time (rw a.is_aware (ap some a.same_micros))

module _ (python : Python) (now : ℕ) where
  -- A peer with the replica's priority whose heartbeat came after the start, is not in the future, and
  -- is younger than its lifetime and than 30 seconds.
  pub record Heartbeat (p : ℤ) (started : ℕ) (peer : Option Entries) : Type 0 where
    pub entries : Entries
    pub is_mapping : peer ≡ some entries
    pub own_priority : same_priority python p (get_value entries "priority") ≡ true
    pub last_seen : ℕ
    pub seen : AwareTime (time_at python entries "lastseen") last_seen
    pub lifetime : ℕ
    pub lives : lifetime_at python entries ≡ some lifetime
    pub since_start : started ≤ last_seen
    pub not_future : last_seen ≤ now
    pub in_lifetime : now - last_seen < lifetime
    pub in_limit : now - last_seen < peering_lifetime

  -- The replica has a priority and a startup time, and a peer in the peering's status is its heartbeat.
  pub record Peered (api : Api) (runtime : Entries) : Type 0 where
    pub priority : ℤ
    pub has_priority : as_int (get_value runtime "priority") ≡ some priority
    pub started : ℕ
    pub has_start : AwareTime (time_at python runtime "started_at") started
    pub peering : Entries
    pub has_peering : api.peering ≡ replied peering
    pub peers : Entries
    pub has_peers : peers_of peering ≡ some peers
    pub heartbeat : AnyPeer (Heartbeat priority started) peers

  recent_bounds :
      (started last life : ℕ)
      → is_recent python now started (some last) (some life) ≡ true
      → (started ≤ last) × (last ≤ now) × (now - last < life) × (now - last < peering_lifetime)
  unfolding is_recent
  recent_bounds started last life h = (ground arith, ground arith, ground arith, ground arith)

  bounds_recent :
      (started last life : ℕ)
      → started ≤ last
      → last ≤ now
      → now - last < life
      → now - last < peering_lifetime
      → is_recent python now started (some last) (some life) ≡ true
  unfolding is_recent
  bounds_recent started last life a b c d = ground arith

  fresh-Heartbeat :
      (p : ℤ) (started : ℕ) (es : Entries) (seen : Option ℕ) (life : Option ℕ)
      → aware_only (time_at python es "lastseen") ≡ seen
      → lifetime_at python es ≡ life
      → same_priority python p (get_value es "priority") ≡ true
      → is_recent python now started seen life ≡ true
      → Heartbeat p started (some es)
  unfolding is_recent
  fresh-Heartbeat p started es none life hs hl own recent = absurd (false-true recent)
  fresh-Heartbeat p started es (some last) none hs hl own recent = absurd (false-true recent)
  fresh-Heartbeat p started es (some last) (some life) hs hl own recent =
      let (a, b, c, d) = recent_bounds started last life recent in
      record {
        entries = es;
        is_mapping = refl;
        own_priority = own;
        last_seen = last;
        seen = aware_only-AwareTime _ last hs;
        lifetime = life;
        lives = hl;
        since_start = a;
        not_future = b;
        in_lifetime = c;
        in_limit = d;
      }

  is_fresh-Heartbeat :
      (p : ℤ) (started : ℕ) (peer : Option Entries)
      → is_fresh python now p started peer ≡ true
      → Heartbeat p started peer
  unfolding is_fresh
  is_fresh-Heartbeat p started none h = absurd (false-true h)
  is_fresh-Heartbeat p started (some es) h =
      let (own, recent) = and_true (same_priority python p (get_value es "priority")) _ h in
      fresh-Heartbeat p started es _ _ refl refl own recent

  Heartbeat-is_fresh :
      (p : ℤ) (started : ℕ) (peer : Option Entries)
      → Heartbeat p started peer
      → is_fresh python now p started peer ≡ true
  unfolding is_fresh
  Heartbeat-is_fresh p started peer b = rw b.is_mapping (
      rw b.own_priority (
        rw (AwareTime-aware_only _ b.last_seen b.seen) (
          rw b.lives (
            bounds_recent started b.last_seen b.lifetime b.since_start b.not_future b.in_lifetime
              b.in_limit))))

  has_fresh-AnyPeer :
      (p : ℤ) (started : ℕ) (es : Entries)
      → has_fresh python now p started es ≡ true
      → AnyPeer (Heartbeat p started) es
  unfolding has_fresh AnyPeer
  has_fresh-AnyPeer p started end h = false-true h
  has_fresh-AnyPeer p started (entry _ peer es) h =
      elim (Bool-cases (is_fresh python now p started (as_dict peer))) [
        | inl fresh ↦ inl (is_fresh-Heartbeat p started (as_dict peer) fresh)
        | inr old ↦ inr (has_fresh-AnyPeer p started es (rw old at h))
      ]

  AnyPeer-has_fresh :
      (p : ℤ) (started : ℕ) (es : Entries)
      → AnyPeer (Heartbeat p started) es
      → has_fresh python now p started es ≡ true
  unfolding has_fresh AnyPeer
  AnyPeer-has_fresh p started end a = absurd a
  AnyPeer-has_fresh p started (entry _ peer es) (inl b) =
      rw (Heartbeat-is_fresh p started (as_dict peer) b) refl
  AnyPeer-has_fresh p started (entry _ peer es) (inr a) =
      elim (Bool-cases (is_fresh python now p started (as_dict peer))) [
        | inl fresh ↦ rw fresh refl
        | inr old ↦ rw old (AnyPeer-has_fresh p started es a)
      ]

  peers-ready :
      (p : ℤ) (started : ℕ) (o : Option Entries)
      → peers_checked python now p started o ≡ ready
      → (peers : Entries) × (o ≡ some peers) × AnyPeer (Heartbeat p started) peers
  unfolding peers_checked
  peers-ready p started none h = absurd (raised-ne h)
  peers-ready p started (some peers) h = elim (Bool-cases (has_fresh python now p started peers)) [
    | inl fresh ↦ (peers, refl, has_fresh-AnyPeer p started peers fresh)
    | inr old ↦ absurd (not_ready-ne (rw old at h))
  ]

  peering-ready :
      (api : Api) (runtime : Entries) (p : ℤ) (started : ℕ) (reply : Reply)
      → as_int (get_value runtime "priority") ≡ some p
      → AwareTime (time_at python runtime "started_at") started
      → api.peering ≡ reply
      → peering_checked python now p started reply ≡ ready
      → Peered api runtime
  unfolding peering_checked
  peering-ready api runtime p started (request_failed e) hp hs hr h = absurd (raised-ne h)
  peering-ready api runtime p started (replied peering) hp hs hr h =
      let (peers, some_peers, beats) = peers-ready p started (peers_of peering) h in
      record {
        priority = p;
        has_priority = hp;
        started = started;
        has_start = hs;
        peering = peering;
        has_peering = hr;
        peers = peers;
        has_peers = some_peers;
        heartbeat = beats;
      }

  startup-ready :
      (api : Api) (runtime : Entries) (p : ℤ) (start : Option ℕ)
      → as_int (get_value runtime "priority") ≡ some p
      → aware_only (time_at python runtime "started_at") ≡ start
      → startup_checked python now p start api.peering ≡ ready
      → Peered api runtime
  unfolding startup_checked
  startup-ready api runtime p none hp hs h = absurd (not_ready-ne h)
  startup-ready api runtime p (some started) hp hs h =
      peering-ready api runtime p started api.peering hp (aware_only-AwareTime _ started hs) refl h

  identity-ready :
      (api : Api) (runtime : Entries) (identity : Option ℤ)
      → as_int (get_value runtime "priority") ≡ identity
      → identity_checked python now identity
          (aware_only (time_at python runtime "started_at"))
          api.peering
        ≡ ready
      → Peered api runtime
  unfolding identity_checked
  identity-ready api runtime none hp h = absurd (not_ready-ne h)
  identity-ready api runtime (some p) hp h = startup-ready api runtime p _ hp refl h

  ready-identity :
      (api : Api) (runtime : Entries)
      → Peered api runtime
      → identity_checked python now
          (as_int (get_value runtime "priority"))
          (aware_only (time_at python runtime "started_at"))
          api.peering
        ≡ ready
  unfolding identity_checked startup_checked peering_checked peers_checked
  ready-identity api runtime r = rw r.has_priority (
      rw (AwareTime-aware_only _ r.started r.has_start) (
        rw r.has_peering
          (rw r.has_peers (rw (AnyPeer-has_fresh r.priority r.started r.peers r.heartbeat) refl))))

  clusters-ready :
      (clusters : Reply) (standalone : Bool) (rest : Checked) (peered : Type 0)
      → (rest ≡ ready → peered)
      → clusters_checked python now clusters standalone rest ≡ ready
      → ((es : Entries) × (clusters ≡ replied es)) × ((standalone ≡ true) ⊎ peered)
  unfolding clusters_checked
  clusters-ready (request_failed e) standalone rest peered f h = absurd (raised-ne h)
  clusters-ready (replied es) true rest peered f h = ((es, refl), inl refl)
  clusters-ready (replied es) false rest peered f h = ((es, refl), inr (f h))

  ready-clusters :
      (clusters : Reply) (standalone : Bool) (rest : Checked) (peered : Type 0)
      → (peered → rest ≡ ready)
      → ((es : Entries) × (clusters ≡ replied es)) × ((standalone ≡ true) ⊎ peered)
      → clusters_checked python now clusters standalone rest ≡ ready
  unfolding clusters_checked
  ready-clusters clusters standalone rest peered f ((es, answered), inl alone) =
      rw answered (rw alone refl)
  ready-clusters clusters true rest peered f ((es, answered), inr p) = rw answered refl
  ready-clusters clusters false rest peered f ((es, answered), inr p) = rw answered (f p)

  -- A replica is ready exactly when its startup is complete, the SSHClusters can be listed, and it
  -- either runs alone or has its own heartbeat among the peers.
  pub check_readiness_iff :
      (api : Api) (runtime : Entries)
      → check_readiness python now api runtime ≡ ready
        ↔ (is_boolean true (get_value runtime "configured") ≡ true)
          × ((es : Entries) × (api.clusters ≡ replied es))
          × ((is_boolean false (get_value runtime "ha") ≡ true) ⊎ Peered api runtime)
  unfolding check_readiness
  check_readiness_iff api runtime = (to, from)
    where
      to :
          check_readiness python now api runtime ≡ ready
          → (is_boolean true (get_value runtime "configured") ≡ true)
            × ((es : Entries) × (api.clusters ≡ replied es))
            × ((is_boolean false (get_value runtime "ha") ≡ true) ⊎ Peered api runtime)
      to h = elim (Bool-cases (is_boolean true (get_value runtime "configured"))) [
        | inl started ↦
            let (answered, peered) =
              clusters-ready api.clusters _ _ (Peered api runtime)
                (identity-ready api runtime _ refl) (rw started at h) in
            (started, answered, peered)
        | inr early ↦ absurd (not_ready-ne (rw early at h))
      ]

      from :
          (is_boolean true (get_value runtime "configured") ≡ true)
            × ((es : Entries) × (api.clusters ≡ replied es))
            × ((is_boolean false (get_value runtime "ha") ≡ true) ⊎ Peered api runtime)
          → check_readiness python now api runtime ≡ ready
      from (started, answered, rest) = rw started (
          ready-clusters api.clusters _ _ (Peered api runtime) (ready-identity api runtime)
            (answered, rest))
