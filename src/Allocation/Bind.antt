-- ===== src/Allocation/Bind.antt =====
-- What binding a Machine keeps (bind_machine).
use capi_provider_ssh.Base.{
  String, ◌≡◌, refl, ap, subst, sym, Option, none, some, has_text, not, or_else, truthy, eq_of_text,
}
use capi_provider_ssh.Objects.{Binding, Connection, MachineSpec, MachineStatus}
use capi_provider_ssh.World.{Env, guard-true, Error, ok, State}
use capi_provider_ssh.World.Wp.{
  Wp, wp-bind, wp-lift, wp-pure, wp-raise, wp-if, wp-mono, wp-always, wp-ok,
}
use capi_provider_ssh.Allocation.{
  bind_machine, choose_binding, bind_allocated, bind_selected, bind_direct, publish_binding,
  has_selector, rotate, other_target,
}

abbrev pub Anyhow : Error → State → Type 0
Anyhow e s = Unit

-- the binding belongs to the UID, and has the target of the allocation
record Keeps (uid : String) (allocation : Option Binding) (b : Binding) : Type 0 where
  pub owner : b.machine_uid ≡ some uid
  pub target :
      (a : Binding)
      → allocation ≡ some a
      → (b.address ≡ a.address)
        × (b.port ≡ a.port)
        × (b.host_uid ≡ a.host_uid)
        × (b.host_ref ≡ a.host_ref)

rotate-Keeps :
    (uid : String) (a : Binding) (t : Connection)
    → a.machine_uid ≡ some uid
    → Keeps uid (some a) (rotate a t)
rotate-Keeps uid a t h = record {
  owner = h;
  target = λ x e.
      let p = some-eq e in
      (ap (λ b. b.address) p, ap (λ b. b.port) p, ap (λ b. b.host_uid) p, ap (λ b. b.host_ref) p);
}
  where
    some-eq : {x y : Binding} → some x ≡ some y → x ≡ y
    some-eq {x} e = ap (λ o. or_else o x) e

fresh-Keeps : (uid : String) (b : Binding) → b.machine_uid ≡ some uid → Keeps uid none b
fresh-Keeps uid b h = record { owner = h; target = λ a e. cc }

module _ (env : Env) (name namespace uid : String) where
  publish_keeps :
      (b : Binding) (s : State)
      → Wp (publish_binding env name namespace uid b) s (λ b' _. b' ≡ b) Anyhow
  unfolding publish_binding
  publish_keeps b s = wp-bind _ _ _ (
      wp-always _ _ (λ _ s'. wp-bind _ _ _ (wp-always _ _ (λ _ t. wp-pure b t refl) (λ _ _. tt)))
        (λ _ _. tt))

  allocated-Keeps :
      (spec : MachineSpec) (a : Binding) (s : State)
      → Wp (bind_allocated env spec name namespace uid a) s (λ b _. Keeps uid (some a) b) Anyhow
  unfolding bind_allocated
  allocated-Keeps spec a s = wp-bind _ _ _ (
      wp-lift _ _
        (λ _ same. wp-bind _ _ _ (
          wp-lift _ _
            (λ _ _. wp-bind _ _ _ (
              wp-always _ _
                (λ t s'. wp-pure _ s' (rotate-Keeps uid a t (eq_of_text _ _ (guard-true _ _ same))))
                (λ _ _. tt)))
            (λ _ _. tt)))
        (λ _ _. tt))

  chosen-Keeps :
      (spec : MachineSpec) (status : MachineStatus) (allocation : Option Binding) (s : State)
      → Wp
          (choose_binding env spec status name namespace uid allocation)
          s
          (λ b _. Keeps uid allocation b)
          Anyhow
  unfolding choose_binding bind_selected bind_direct
  chosen-Keeps spec status (some a) s = allocated-Keeps spec a s
  chosen-Keeps spec status none s =
      wp-if (has_selector env spec) _ _ _
        (λ _. wp-bind _ _ _ (
          wp-always _ _
            (λ host t.
              wp-bind _ _ _
                (wp-always _ _ (λ _ t. wp-pure _ t (fresh-Keeps uid _ (refl))) (λ _ _. tt)))
            (λ _ _. tt)))
        (λ _.
          wp-if (not (has_text spec.address)) _ _ _ (λ _. wp-raise _ _ tt)
            (λ _.
              wp-if (other_target spec.provider_id spec.address) _ _ _ (λ _. wp-raise _ _ tt)
                (λ _. wp-pure _ _ (fresh-Keeps uid _ refl))))

  bind_machine-Keeps :
      (spec : MachineSpec) (status : MachineStatus) (s : State)
      → Wp
          (bind_machine env spec status name namespace uid)
          s
          (λ b _. Keeps uid status.allocation b)
          Anyhow
  unfolding bind_machine
  bind_machine-Keeps spec status s =
      wp-if (not (truthy uid)) _ _ _ (λ _. wp-raise _ _ tt)
        (λ _. wp-bind _ _ _ (
          wp-mono _ _ (chosen-Keeps spec status status.allocation s)
            (λ b s' k. wp-bind _ _ _ (
              wp-always _ _
                (λ _ t.
                  wp-mono _ _ (publish_keeps b t)
                    (λ b' _ e. subst (Keeps uid status.allocation) (sym e) k) (λ _ _ _. tt))
                (λ _ _. tt)))
            (λ _ _ _. tt)))

-- The target of the allocation, where there is one.
abbrev pub SameTarget : Option Binding → Binding → Type 0
SameTarget none b = Unit
SameTarget (some a) b =
    (b.address ≡ a.address)
    × (b.port ≡ a.port)
    × (b.host_uid ≡ a.host_uid)
    × (b.host_ref ≡ a.host_ref)

same_target :
    (uid : String) (allocation : Option Binding) (b : Binding)
    → Keeps uid allocation b
    → SameTarget allocation b
same_target uid none b k = tt
same_target uid (some a) b k = k.target a refl

-- A binding that bind_machine returns belongs to the Machine's UID. Where the Machine already has an
-- allocation, the binding has the allocation's address, port, host UID and host, whatever the spec
-- and the host say now.
pub bind_machine-keeps_target :
    (env : Env) (spec : MachineSpec) (status : MachineStatus) (name namespace uid : String)
    (s : State) (b : Binding)
    → (bind_machine env spec status name namespace uid s).0 ≡ ok b
    → (b.machine_uid ≡ some uid) × SameTarget status.allocation b
bind_machine-keeps_target env spec status name namespace uid s b h =
    let k =
      wp-ok (bind_machine env spec status name namespace uid) s
        (bind_machine-Keeps env name namespace uid spec status s) h in
    (k.owner, same_target uid status.allocation b k)
