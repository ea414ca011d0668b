-- ===== src/World/Wp.antt =====
-- Weakest preconditions: `Wp m s Q E` says that `m`, run from `s`, returns with Q or raises with E.
use capi_provider_ssh.Base.{ℕ, Bool, true, false, ◌≡◌, refl, ap, subst, ◌∷◌, if◌then◌else◌}
use capi_provider_ssh.World.{
  sleep, sleep_for, Error, Outcome, ok, err, Reply, answered, Request, Trace, State, Exec, pure,
  raise, lift, attempt, gets, stage, Patch, ◌>>=◌, continue, call, replied, outcome, remote,
  remote_outcome,
}

abbrev pub Case :
    {A : Type 0} (Q : A → State → Type 0) (E : Error → State → Type 0) → Outcome A × State → Type 0
Case Q E (ok a, s) = Q a s
Case Q E (err e, s) = E e s

pub record Wp {A : Type 0} (m : Exec A) (s : State) (Q : A → State → Type 0)
    (E : Error → State → Type 0) : Type 0 where
  pub at : Case Q E (m s)

-- The state after a request: the history has one more event.
abbrev pub logged : State → Request → Bool → State
logged s r done = record s { trace = record { request = r; done = done } ∷ s.trace }

wp-reply :
    {A : Type 0} (Q : A → State → Type 0) (E : Error → State → Type 0) (reply : Reply A)
    (r : Request) (s : State)
    → ((a : A) → reply ≡ answered a → Q a (logged s r true))
    → ((e : Error) → outcome reply ≡ err e → E e (logged s r false))
    → Case Q E (outcome reply, logged s r (replied reply))
unfolding outcome replied
wp-reply Q E (answered a) r s hq he = hq a refl
wp-reply Q E (Reply.refused n) r s hq he = he (Error.api_exception n) refl
wp-reply Q E Reply.transport r s hq he = he _ refl
wp-reply Q E Reply.timed_out r s hq he = he _ refl
wp-reply Q E Reply.crashed r s hq he = he Error.other_error refl

remote-reply :
    {A : Type 0} (Q : A → State → Type 0) (E : Error → State → Type 0) (reply : Reply A)
    (r : Request) (s : State)
    → ((a : A) → reply ≡ answered a → Q a (logged s r true))
    → ((e : Error) → E e (logged s r false))
    → Case Q E (remote_outcome reply, logged s r (replied reply))
unfolding remote_outcome replied
remote-reply Q E (answered a) r s hq he = hq a refl
remote-reply Q E (Reply.refused n) r s hq he = he _
remote-reply Q E Reply.transport r s hq he = he _
remote-reply Q E Reply.timed_out r s hq he = he _
remote-reply Q E Reply.crashed r s hq he = he _

case_attempt :
    {A : Type 0} (Q : Outcome A → State → Type 0) (r : Outcome A × State)
    → Case (λ a s. Q (ok a) s) (λ e s. Q (err e) s) r
    → Q r.0 r.1
case_attempt Q (ok a, s) h = h
case_attempt Q (err e, s) h = h

Case-bind :
    {A B : Type 0} (Q : B → State → Type 0) (E : Error → State → Type 0) (f : A → Exec B)
    (r : Outcome A × State)
    → Case (λ a s. Wp (f a) s Q E) E r
    → Case Q E (continue r.0 f r.1)
Case-bind Q E f (ok a, s) h = h.at
Case-bind Q E f (err e, s) h = h

Case-mono :
    {A : Type 0} (Q R : A → State → Type 0) (E F : Error → State → Type 0) (r : Outcome A × State)
    → Case Q E r
    → ((a : A) (s : State) → Q a s → R a s)
    → ((e : Error) (s : State) → E e s → F e s)
    → Case R F r
Case-mono Q R E F (ok a, s) h q e = q a s h
Case-mono Q R E F (err x, s) h q e = e x s h

abbrev value : {A : Type 0} → A → Outcome A → A
value d (ok a) = a
value d (err _) = d

case_ok :
    {A : Type 0} (Q : A → State → Type 0) (E : Error → State → Type 0) (r : Outcome A × State)
    (a : A)
    → Case Q E r
    → r.0 ≡ ok a
    → Q a r.1
case_ok Q E (ok b, s) a h e = subst (λ x. Q x s) (ap (value b) e) h
case_ok Q E (err x, s) a h e = cc

module _ {A : Type 0} {Q : A → State → Type 0} {E : Error → State → Type 0} where
  pub wp-pure : (a : A) (s : State) → Q a s → Wp (pure a) s Q E
  unfolding pure
  wp-pure a s h = record { at = h }

  pub wp-raise : (e : Error) (s : State) → E e s → Wp (raise e) s Q E
  unfolding raise
  wp-raise e s h = record { at = h }

  pub wp-gets : (f : State → A) (s : State) → Q (f s) s → Wp (gets f) s Q E
  unfolding gets
  wp-gets f s h = record { at = h }

  pub wp-lift :
      (r : Outcome A) (s : State)
      → ((a : A) → r ≡ ok a → Q a s)
      → ((e : Error) → r ≡ err e → E e s)
      → Wp (lift r) s Q E
  unfolding lift
  wp-lift (ok a) s hq he = record { at = hq a refl }
  wp-lift (err e) s hq he = record { at = he e refl }

  pub wp-lift_ok : (r : Outcome A) (a : A) (s : State) → r ≡ ok a → Q a s → Wp (lift r) s Q E
  unfolding lift
  wp-lift_ok r a s e h = record { at = rw e h }

  pub wp-lift_err : (r : Outcome A) (e : Error) (s : State) → r ≡ err e → E e s → Wp (lift r) s Q E
  unfolding lift
  wp-lift_err r e s p h = record { at = rw p h }

  pub wp-if :
      (b : Bool) (m n : Exec A) (s : State)
      → (b ≡ true → Wp m s Q E)
      → (b ≡ false → Wp n s Q E)
      → Wp (if b then m else n) s Q E
  wp-if true m n s hm hn = hm refl
  wp-if false m n s hm hn = hn refl

  pub wp-call :
      (answer : Trace → Request → Reply A) (r : Request) (s : State)
      → ((a : A) → answer s.trace r ≡ answered a → Q a (logged s r true))
      → ((e : Error) → outcome (answer s.trace r) ≡ err e → E e (logged s r false))
      → Wp (call answer r) s Q E
  unfolding call
  wp-call answer r s hq he = record { at = wp-reply Q E (answer s.trace r) r s hq he }

  pub wp-remote :
      (answer : Trace → Request → Reply A) (r : Request) (s : State)
      → ((a : A) → answer s.trace r ≡ answered a → Q a (logged s r true))
      → ((e : Error) → E e (logged s r false))
      → Wp (remote answer r) s Q E
  unfolding remote
  wp-remote answer r s hq he = record { at = remote-reply Q E (answer s.trace r) r s hq he }

pub wp-stage :
    {Q : Unit {0} → State → Type 0} {E : Error → State → Type 0} (f : Patch → Patch) (s : State)
    → Q tt (record s { patch = f s.patch })
    → Wp (stage f) s Q E
unfolding stage
wp-stage f s h = record { at = h }

pub wp-sleep :
    {Q : Unit {0} → State → Type 0} {E : Error → State → Type 0} (seconds : ℕ) (s : State)
    → Q tt (logged s (sleep_for seconds) true)
    → Wp (sleep seconds) s Q E
unfolding sleep
wp-sleep seconds s h = record { at = h }

pub wp-attempt :
    {A : Type 0} {Q : Outcome A → State → Type 0} {E : Error → State → Type 0} (m : Exec A)
    (s : State)
    → Wp m s (λ a s'. Q (ok a) s') (λ e s'. Q (err e) s')
    → Wp (attempt m) s Q E
unfolding attempt
wp-attempt {Q} m s h = record { at = case_attempt Q (m s) h.at }

pub wp-bind :
    {A B : Type 0} {Q : B → State → Type 0} {E : Error → State → Type 0} (m : Exec A)
    (f : A → Exec B) (s : State)
    → Wp m s (λ a s'. Wp (f a) s' Q E) E
    → Wp (m >>= f) s Q E
unfolding ◌>>=◌
wp-bind {Q} {E} m f s h = record { at = Case-bind Q E f (m s) h.at }

Case-always :
    {A : Type 0} (Q : A → State → Type 0) (E : Error → State → Type 0) (r : Outcome A × State)
    → ((a : A) (s : State) → Q a s)
    → ((e : Error) (s : State) → E e s)
    → Case Q E r
Case-always Q E (ok a, s) q e = q a s
Case-always Q E (err x, s) q e = e x s

-- A postcondition that every state satisfies.
pub wp-always :
    {A : Type 0} {Q : A → State → Type 0} {E : Error → State → Type 0} (m : Exec A) (s : State)
    → ((a : A) (s' : State) → Q a s')
    → ((e : Error) (s' : State) → E e s')
    → Wp m s Q E
wp-always {Q} {E} m s q e = record { at = Case-always Q E (m s) q e }

-- A weaker postcondition.
pub wp-mono :
    {A : Type 0} {Q R : A → State → Type 0} {E F : Error → State → Type 0} (m : Exec A) (s : State)
    → Wp m s Q E
    → ((a : A) (s' : State) → Q a s' → R a s')
    → ((e : Error) (s' : State) → E e s' → F e s')
    → Wp m s R F
wp-mono {Q} {R} {E} {F} m s h q e = record { at = Case-mono Q R E F (m s) h.at q e }

Case-with :
    {A : Type 0} (Q : A → State → Type 0) (E : Error → State → Type 0) (P : State → Type 0)
    (r : Outcome A × State)
    → Case Q E r
    → P r.1
    → Case (λ a s. Q a s × P s) (λ e s. E e s × P s) r
Case-with Q E P (ok a, s) h p = (h, p)
Case-with Q E P (err x, s) h p = (h, p)

-- A postcondition together with what holds of the last state on both ways out.
pub wp-with :
    {A : Type 0} {Q : A → State → Type 0} {E : Error → State → Type 0} (P : State → Type 0)
    (m : Exec A) (s : State)
    → Wp m s Q E
    → P (m s).1
    → Wp m s (λ a s'. Q a s' × P s') (λ e s'. E e s' × P s')
wp-with {Q} {E} P m s h p = record { at = Case-with Q E P (m s) h.at p }

case_last :
    {A : Type 0} (P : State → Type 0) (r : Outcome A × State)
    → Case (λ _ s. P s) (λ _ s. P s) r
    → P r.1
case_last P (ok a, s) h = h
case_last P (err e, s) h = h

-- One condition on both ways out is a condition on the last state.
pub wp-last :
    {A : Type 0} (P : State → Type 0) (m : Exec A) (s : State)
    → Wp m s (λ _ s'. P s') (λ _ s'. P s')
    → P (m s).1
wp-last P m s h = case_last P (m s) h.at

-- What a postcondition says of a run that returned.
pub wp-ok :
    {A : Type 0} {Q : A → State → Type 0} {E : Error → State → Type 0} (m : Exec A) (s : State)
    {a : A}
    → Wp m s Q E
    → (m s).0 ≡ ok a
    → Q a (m s).1
wp-ok {Q} {E} m s {a} h e = case_ok Q E (m s) a h.at e

abbrev error : {A : Type 0} → Error → Outcome A → Error
error d (ok _) = d
error d (err e) = e

case_err :
    {A : Type 0} (Q : A → State → Type 0) (E : Error → State → Type 0) (r : Outcome A × State)
    (e : Error)
    → Case Q E r
    → r.0 ≡ err e
    → E e r.1
case_err Q E (ok b, s) e h p = cc
case_err Q E (err x, s) e h p = subst (λ x. E x s) (ap (error e) p) h

-- What a postcondition says of a run that raised.
pub wp-err :
    {A : Type 0} {Q : A → State → Type 0} {E : Error → State → Type 0} (m : Exec A) (s : State)
    {e : Error}
    → Wp m s Q E
    → (m s).0 ≡ err e
    → E e (m s).1
wp-err {Q} {E} m s {e} h p = case_err Q E (m s) e h.at p

Case-self : {A : Type 0} (r : Outcome A × State) → Case (λ a _. r.0 ≡ ok a) (λ e _. r.0 ≡ err e) r
Case-self (ok a, s) = refl
Case-self (err e, s) = refl

-- The outcome itself is a postcondition.
pub wp_self :
    {A : Type 0} (m : Exec A) (s : State) → Wp m s (λ a _. (m s).0 ≡ ok a) (λ e _. (m s).0 ≡ err e)
wp_self m s = record { at = Case-self (m s) }

pub ruleset wp_rules = (
  wp-pure, wp-raise, wp-gets, wp-lift, wp-if, wp-call, wp-remote, wp-stage, wp-sleep, wp-attempt,
  wp-bind,
)
