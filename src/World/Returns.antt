-- ===== src/World/Returns.antt =====
-- What an action can return, for the events of the actions that follow it.
use capi_provider_ssh.Base.{◌≡◌, ap, sym, ◌∙◌, ◌++◌}
use mathlib.Core.List.{append_assoc}
use capi_provider_ssh.World.{Outcome, ok, err, Event, Trace, State, Exec, lift, ◌>>=◌, continue}
use capi_provider_ssh.World.Trace.{Emits, All-append, Since}
use capi_provider_ssh.World.Wp.{Wp, Case, wp-lift}

-- Each value that `m` returns satisfies P.
pub record Returns {A : Type 0} (P : A → Type 0) (m : Exec A) : Type 0 where
  pub at : (s : State) → Wp m s (λ a _. P a) (λ _ _. Unit)

module _ {φ : Event → Type 0} {A B : Type 0} (P : A → Type 0) (m : Exec A) (f : A → Exec B)
    (hf : (a : A) → P a → Emits φ (f a)) where
  step :
      (t : Trace) (r : Outcome A × State)
      → Case (λ a _. P a) (λ _ _. Unit) r
      → Since φ t r.1.trace
      → Since φ t (continue r.0 f r.1).1.trace
  step t (ok a, s) p (new, e, q) =
      let (more, e', q') = (hf a p).at s in
      (
        more ++ new,
        e' ∙ ap (λ u. more ++ u) e ∙ sym (append_assoc more new t),
        All-append φ more new q' q,
      )
  step t (err e, s) p h = h

  pub Emits-Returns : Returns P m → Emits φ m → Emits φ (m >>= f)
  unfolding ◌>>=◌
  Emits-Returns hp hm = record { at = λ s. step s.trace (m s) (hp.at s).at (hm.at s) }

pub Returns-lift : {A : Type 0} (r : Outcome A) → Returns (λ a. r ≡ ok a) (lift r)
Returns-lift r = record { at = λ s. wp-lift r s (λ _ e. e) (λ _ _. tt) }
