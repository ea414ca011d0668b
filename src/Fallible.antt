-- ===== src/Fallible.antt =====
-- Code that raises or returns without a request: its steps in order, and tests of values.
use capi_provider_ssh.Base.{
  String, Bool, true, false, List, Option, none, some, any, text_eq, ◌≡◌, refl,
}
use capi_provider_ssh.Value.{Value, seq_of, dict_of, as_text}
use capi_provider_ssh.World.{Outcome, ok, err, permanent, other_error, err-ne-ok}

infixl 5 ◌>>=◌ ◌>>◌
unfoldable pub ◌>>=◌ : {A B : Type 0} → Outcome A → (A → Outcome B) → Outcome B
ok a >>= f = f a
err e >>= f = err e

abbrev pub ◌>>◌ : {B : Type 0} → Outcome Unit → Outcome B → Outcome B
m >> k = m >>= λ _. k

-- `if not b: raise kopf.PermanentError(message)`
abbrev pub check : Bool → (message : String) → Outcome Unit
check true message = ok tt
check false message = err (permanent message)

-- the value that a test finds, or the PermanentError
abbrev pub expect : {A : Type 0} → Option A → (message : String) → Outcome A
expect none message = err (permanent message)
expect (some a) message = ok a

-- `v == s`, and `v in {s, ...}`, where a list or a dict cannot be hashed
abbrev pub is_text : Value → String → Bool
is_text v s = text_eq (as_text v) (some s)

abbrev pub is_among : Value → List String → Outcome Bool
is_among (seq_of _) texts = err other_error
is_among (dict_of _) texts = err other_error
is_among v texts = ok (any (is_text v) texts)

-- a chain that returns did so in both steps
pub bind_ok :
    {A B : Type 0} (m : Outcome A) (f : A → Outcome B) (b : B)
    → m >>= f ≡ ok b
    → (a : A) × (m ≡ ok a) × (f a ≡ ok b)
unfolding ◌>>=◌
bind_ok (ok a) f b h = (a, refl, h)
bind_ok (err e) f b h = absurd (err-ne-ok h)
