-- ===== src/World/Order.antt =====
-- Histories in which each request of one kind comes after a confirmed request of another kind. An
-- action avoids the first kind if it makes no such request, whatever the environment answers.
use capi_provider_ssh.Base.{
  Bool, true, false, ◌&&◌, ◌≡◌, refl, List, [], ◌∷◌, ◌++◌, any, All, arith, if◌then◌else◌,
}
use capi_provider_ssh.World.{Error, State, Exec, raise, attempt, ◌>>=◌, Request, Event, Trace}
use capi_provider_ssh.World.Trace.{Emits}
use capi_provider_ssh.World.Wp.{
  Wp, wp-always, wp-mono, wp-with, wp-bind, wp-attempt, wp-raise, wp-last,
}

-- a request of the second kind was made and confirmed
abbrev pub has_done : (Request → Bool) → Trace → Bool
has_done receipt = any (λ e. e.done && receipt e.request)

-- Each request of the first kind comes after a confirmed one of the second.
abbrev pub Ordered : (danger receipt : Request → Bool) → Trace → Type 0
Ordered danger receipt [] = Unit
Ordered danger receipt (e ∷ t) =
    (danger e.request ≡ true → has_done receipt t ≡ true) × Ordered danger receipt t

pub record Avoids (danger : Request → Bool) (e : Event) : Type 0 where
  pub avoids : danger e.request ≡ false

abbrev nothing : Unit {0}
nothing = tt

module _ (danger receipt : Request → Bool) where
  done_stays :
      (new : List Event) (t : Trace)
      → has_done receipt t ≡ true
      → has_done receipt (new ++ t) ≡ true
  done_stays [] t h = h
  done_stays (e ∷ new) t h = ground (arith, done_stays new t h)

  Avoids-Ordered :
      (new : List Event) (t : Trace)
      → All (Avoids danger) new
      → Ordered danger receipt t
      → Ordered danger receipt (new ++ t)
  Avoids-Ordered [] t h g = g
  Avoids-Ordered (e ∷ new) t h g =
      ((λ c. absurd (true_false c h.0.avoids)), Avoids-Ordered new t h.1 g)
    where
      true_false : {b : Bool} → b ≡ true → b ≡ false → ⊥
      true_false p q = cc

  done-Ordered :
      (new : List Event) (t : Trace)
      → has_done receipt t ≡ true
      → Ordered danger receipt t
      → Ordered danger receipt (new ++ t)
  done-Ordered [] t h g = g
  done-Ordered (e ∷ new) t h g = ((λ _. done_stays new t h), done-Ordered new t h g)

  abbrev pub Inv : State → Type 0
  Inv s = Ordered danger receipt s.trace

  abbrev pub Ready : State → Type 0
  Ready s = Ordered danger receipt s.trace × (has_done receipt s.trace ≡ true)

  module _ {A : Type 0} (m : Exec A) (s : State) where
    -- An action that avoids the first kind keeps the histories ordered.
    pub Avoids-keeps :
        Emits (Avoids danger) m
        → Ordered danger receipt s.trace
        → Ordered danger receipt (m s).1.trace
    Avoids-keeps h g = let (new, e, q) = h.at s in rw e (Avoids-Ordered new s.trace q g)

    -- After the confirmed request any action does.
    pub done-keeps : {φ : Event → Type 0} → Emits φ m → Ready s → Ready (m s).1
    done-keeps h (g, r) =
        let (new, e, _) = h.at s in rw e (done-Ordered new s.trace r g, done_stays new s.trace r)

    -- a confirmed request stays in the history
    pub done_kept :
        {φ : Event → Type 0}
        → Emits φ m
        → has_done receipt s.trace ≡ true
        → has_done receipt (m s).1.trace ≡ true
    done_kept h r = let (new, e, _) = h.at s in rw e (done_stays new s.trace r)

    pub wp-Avoids : Emits (Avoids danger) m → Inv s → Wp m s (λ _ s'. Inv s') (λ _ s'. Inv s')
    wp-Avoids h g =
        wp-mono m s
          (wp-with Inv m s (wp-always m s (λ _ _. nothing) (λ _ _. nothing)) (Avoids-keeps h g))
          (λ _ _ x. x.1) (λ _ _ x. x.1)

    pub wp-done :
        {φ : Event → Type 0} → Emits φ m → Ready s → Wp m s (λ _ s'. Ready s') (λ _ s'. Ready s')
    wp-done h g =
        wp-mono m s
          (wp-with Ready m s (wp-always m s (λ _ _. nothing) (λ _ _. nothing)) (done-keeps h g))
          (λ _ _ x. x.1) (λ _ _ x. x.1)

  -- From an ordered history, an action ends in an ordered one, however it ends.
  pub record Keeps {A : Type 0} (m : Exec A) : Type 0 where
    pub keeps : (s : State) → Inv s → Wp m s (λ _ s'. Inv s') (λ _ s'. Inv s')

  -- Where it returns, the confirmed request was made too.
  pub record Readies {A : Type 0} (m : Exec A) : Type 0 where
    pub readies : (s : State) → Inv s → Wp m s (λ _ s'. Ready s') (λ _ s'. Inv s')

  pub Keeps-Avoids : {A : Type 0} {m : Exec A} → Emits (Avoids danger) m → Keeps m
  Keeps-Avoids {m} h = record { keeps = λ s g. wp-Avoids m s h g }

  pub Keeps-Readies : {A : Type 0} {m : Exec A} → Readies m → Keeps m
  Keeps-Readies {m} h = record {
    keeps = λ s g. wp-mono m s (h.readies s g) (λ _ _ r. r.0) (λ _ _ g. g);
  }

  pub Keeps-bind :
      {A B : Type 0} (m : Exec A) (f : A → Exec B)
      → Keeps m
      → ((a : A) → Keeps (f a))
      → Keeps (m >>= f)
  Keeps-bind m f hm hf = record {
    keeps =
        λ s g. wp-bind m f s (wp-mono m s (hm.keeps s g) (λ a t g. (hf a).keeps t g) (λ _ _ g. g));
  }

  pub Keeps-attempt : {A : Type 0} (m : Exec A) → Keeps m → Keeps (attempt m)
  Keeps-attempt m h = record { keeps = λ s g. wp-attempt m s (h.keeps s g) }

  pub Keeps-if :
      {A : Type 0} (b : Bool) (m n : Exec A) → Keeps m → Keeps n → Keeps (if b then m else n)
  Keeps-if true m n hm hn = hm
  Keeps-if false m n hm hn = hn

  pub Readies-if :
      {A : Type 0} (b : Bool) (m n : Exec A)
      → (b ≡ true → Readies m)
      → (b ≡ false → Readies n)
      → Readies (if b then m else n)
  Readies-if true m n hm hn = hm refl
  Readies-if false m n hm hn = hn refl

  pub Readies-raise : {A : Type 0} (e : Error) → Readies {A = A} (raise e)
  Readies-raise e = record { readies = λ s g. wp-raise e s g }

  pub Readies-before :
      {A B : Type 0} (m : Exec A) (f : A → Exec B)
      → Keeps m
      → ((a : A) → Readies (f a))
      → Readies (m >>= f)
  Readies-before m f hm hf = record {
    readies = λ s g.
        wp-bind m f s (wp-mono m s (hm.keeps s g) (λ a t g. (hf a).readies t g) (λ _ _ g. g));
  }

  -- after the confirmed request any action keeps the order
  pub Readies-after :
      {φ : Event → Type 0} {A B : Type 0} (m : Exec A) (f : A → Exec B)
      → Readies m
      → ((a : A) → Emits φ (f a))
      → Readies (m >>= f)
  Readies-after m f hm hf = record {
    readies = λ s g. wp-bind m f s (
        wp-mono m s (hm.readies s g)
          (λ a t r. wp-mono (f a) t (wp-done (f a) t (hf a) r) (λ _ _ r. r) (λ _ _ r. r.0))
          (λ _ _ g. g));
  }

  pub Keeps-order :
      {A : Type 0} (m : Exec A) (s : State)
      → Keeps m
      → Ordered danger receipt s.trace
      → Ordered danger receipt (m s).1.trace
  Keeps-order m s h g = wp-last Inv m s (h.keeps s g)
