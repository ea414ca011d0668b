-- ===== src/World/Trace.antt =====
-- Which events an action adds to the history: `Emits φ m` says that each of them satisfies φ,
-- whatever the environment answers.
use capi_provider_ssh.Base.{
  ℕ, Bool, true, false, ◌≡◌, refl, ap, ◌∙◌, sym, List, [], ◌∷◌, ◌++◌, All, if◌then◌else◌,
}
use mathlib.Core.List.{append_assoc}
use capi_provider_ssh.World.{
  sleep, sleep_for, Error, Outcome, ok, err, Reply, Request, Event, Trace, State, Exec, pure, raise,
  lift, attempt, gets, stage, Patch, ◌>>=◌, continue, call, remote, replied,
}

-- The state after `m` has the old history with new events on top that all satisfy φ.
pub record Emits (φ : Event → Type 0) {A : Type 0} (m : Exec A) : Type 0 where
  pub at : (s : State) → (new : List Event) × ((m s).1.trace ≡ new ++ s.trace) × All φ new

pub All-append :
    {A : Type 0} (P : A → Type 0) (xs ys : List A) → All P xs → All P ys → All P (xs ++ ys)
All-append P [] ys hx hy = hy
All-append P (x ∷ xs) ys hx hy = (hx.0, All-append P xs ys hx.1 hy)

module _ {φ : Event → Type 0} where
  pub Emits-pure : {A : Type 0} (a : A) → Emits φ (pure a)
  unfolding pure
  Emits-pure a = record { at = λ s. ([], refl, tt) }

  pub Emits-raise : {A : Type 0} (e : Error) → Emits φ (raise {A = A} e)
  unfolding raise
  Emits-raise e = record { at = λ s. ([], refl, tt) }

  pub Emits-lift : {A : Type 0} (r : Outcome A) → Emits φ (lift r)
  unfolding lift
  Emits-lift r = record { at = λ s. ([], refl, tt) }

  pub Emits-gets : {A : Type 0} (f : State → A) → Emits φ (gets f)
  unfolding gets
  Emits-gets f = record { at = λ s. ([], refl, tt) }

  pub Emits-stage : (f : Patch → Patch) → Emits φ (stage f)
  unfolding stage
  Emits-stage f = record { at = λ s. ([], refl, tt) }

  pub Emits-attempt : {A : Type 0} (m : Exec A) → Emits φ m → Emits φ (attempt m)
  unfolding attempt
  Emits-attempt m h = record { at = λ s. h.at s }

  pub Emits-if :
      {A : Type 0} (b : Bool) (m n : Exec A)
      → (b ≡ true → Emits φ m)
      → (b ≡ false → Emits φ n)
      → Emits φ (if b then m else n)
  Emits-if true m n km kn = km refl
  Emits-if false m n km kn = kn refl

  pub Emits-call :
      {A : Type 0} (answer : Trace → Request → Reply A) (r : Request)
      → ((done : Bool) → φ (record { request = r; done = done }))
      → Emits φ (call answer r)
  unfolding call
  Emits-call answer r h = record { at = λ s. (_ ∷ [], refl, (h (replied (answer s.trace r)), tt)) }

  pub Emits-remote :
      {A : Type 0} (answer : Trace → Request → Reply A) (r : Request)
      → ((done : Bool) → φ (record { request = r; done = done }))
      → Emits φ (remote answer r)
  unfolding remote
  Emits-remote answer r h = record {
    at = λ s. (_ ∷ [], refl, (h (replied (answer s.trace r)), tt));
  }

  pub Emits-sleep :
      (seconds : ℕ)
      → φ (record { request = sleep_for seconds; done = true })
      → Emits φ (sleep seconds)
  unfolding sleep
  Emits-sleep seconds h = record { at = λ s. (_ ∷ [], refl, (h, tt)) }

  Emits-continue :
      {A B : Type 0} (r : Outcome A) (f : A → Exec B)
      → ((a : A) → Emits φ (f a))
      → Emits φ (λ s. continue r f s)
  Emits-continue (ok a) f h = record { at = λ s. (h a).at s }
  Emits-continue (err e) f h = record { at = λ s. ([], refl, tt) }

  pub Emits-bind :
      {A B : Type 0} (m : Exec A) (f : A → Exec B)
      → Emits φ m
      → ((a : A) → Emits φ (f a))
      → Emits φ (m >>= f)
  unfolding ◌>>=◌
  Emits-bind m f hm hf = record {
    at = λ s.
        let (r, s') = m s in
        let one = hm.at s in
        let two = (Emits-continue r f hf).at s' in
        (
          two.0 ++ one.0,
          two.1 ∙ ap-trace two.0 one.1 ∙ sym (append_assoc two.0 one.0 s.trace),
          All-append φ two.0 one.0 two.2 one.2,
        );
  }
    where
      ap-trace : (xs : List Event) {ys zs : List Event} → ys ≡ zs → xs ++ ys ≡ xs ++ zs
      ap-trace xs p i = xs ++ p i

All-mono :
    {A : Type 0} (P Q : A → Type 0) (xs : List A) → ((x : A) → P x → Q x) → All P xs → All Q xs
All-mono P Q [] f h = tt
All-mono P Q (x ∷ xs) f h = (f x h.0, All-mono P Q xs f h.1)

pub Emits-mono :
    {φ ψ : Event → Type 0} {A : Type 0} {m : Exec A}
    → ((e : Event) → φ e → ψ e)
    → Emits φ m
    → Emits ψ m
Emits-mono {φ} {ψ} f h = record {
  at = λ s. let (new, e, q) = h.at s in (new, e, All-mono φ ψ new f q);
}

-- The history `u` is `t` with new events on top that all satisfy φ.
abbrev pub Since : (Event → Type 0) → Trace → Trace → Type 0
Since φ t u = (new : List Event) × (u ≡ new ++ t) × All φ new

pub Since-refl : (φ : Event → Type 0) (t : Trace) → Since φ t t
Since-refl φ t = ([], refl, tt)

pub Since-snoc :
    (φ : Event → Type 0) (t u : Trace) (r : Request) (done : Bool)
    → φ (record { request = r; done = done })
    → Since φ t u
    → Since φ t (record { request = r; done = done } ∷ u)
Since-snoc φ t u r done h (new, e, k) = (
  record { request = r; done = done } ∷ new,
  ap (λ x. record { request = r; done = done } ∷ x) e,
  (h, k),
)

pub ruleset emits_rules = (
  Emits-pure, Emits-raise, Emits-lift, Emits-gets, Emits-stage, Emits-attempt, Emits-if, Emits-call,
  Emits-remote, Emits-sleep, Emits-bind,
)
