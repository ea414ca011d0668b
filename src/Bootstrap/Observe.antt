-- ===== src/Bootstrap/Observe.antt =====
-- What a result of a bootstrap job rests on.
use capi_provider_ssh.Base.{
  ℕ, zero, suc, String, code, Bool, true, false, ◌≡◌, ◌≢◌, refl, ap, subst, inl, inr, Bool-cases,
  Option, none, some, ◌∷◌, ◌++◌, ltb, nat_eq, arith,
}
use capi_provider_ssh.Text.{partition, codes}
use capi_provider_ssh.Text.Number.{ℤ, pos, negsuc, int_is, parse_int}
use capi_provider_ssh.World.{
  Env, Error, Outcome, ok, err, ok-injective, err-ne-ok, answered, Trace, State, Exec, SshResult,
  execute_ssh,
}
use capi_provider_ssh.World.Wp.{
  Wp, wp-bind, wp-remote, wp-lift, wp-if, wp-pure, wp-raise, wp-gets, wp-sleep, wp-ok, logged,
}
use capi_provider_ssh.Reboot.{succeeded}
use capi_provider_ssh.Bootstrap.{
  observe_command, drop_prefix, receipt_result, found_result, observed, turn_result, observe_turn,
  observe_again, observe_until,
}

none-some : {A : Type 0} {a : A} → none ≡ some a → ⊥
none-some h = cc

some_inj : {A : Type 0} {a b : A} → some a ≡ some b → a ≡ b
some_inj h = cc

drop_prefix-codes : (p s e : String) → drop_prefix p s ≡ some e → codes s ≡ codes p ++ codes e
unfolding drop_prefix
drop_prefix-codes String.[] s e h = ap codes (some_inj h)
drop_prefix-codes (String.◌∷◌ p ps) String.[] e h = cc
drop_prefix-codes (String.◌∷◌ p ps) (String.◌∷◌ x s) e h =
    elim (Bool-cases (nat_eq (code p) (code x))) [
      | inl same ↦
          let rest = drop_prefix-codes ps s e (rw same at h) in
          rw (equal_codes same) (ap (λ t. code p ∷ t) rest)
      | inr other ↦ absurd (none-some (rw other at h))
    ]
  where
    equal_codes : nat_eq (code p) (code x) ≡ true → code x ≡ code p
    equal_codes h = ground arith

-- What the text of an observation says: its first line has a receipt's code, and its other lines are
-- the log.
pub record Receipt (stdout : String) (result : SshResult) : Type 0 where
  pub exit : String
  pub first_line : codes (partition 10 stdout).before ≡ codes "CAPI_EXIT=" ++ codes exit
  pub exit_code : parse_int exit ≡ some result.exit_code
  pub on_success :
      result.exit_code ≡ pos 0
      → (result.stdout ≡ (partition 10 stdout).after) × (result.stderr ≡ "")
  pub on_failure :
      result.exit_code ≢ pos 0
      → (result.stdout ≡ "") × (result.stderr ≡ (partition 10 stdout).after)

not_zero : (code : ℤ) → int_is 0 code ≡ false → code ≢ pos 0
not_zero (pos n) h e = absurd (differ (n_zero (ap value_of e)))
  where
    value_of : ℤ → ℕ
    value_of x = elim x [ pos m ↦ m | negsuc m ↦ 0 ]

    n_zero : n ≡ 0 → nat_eq n 0 ≡ true
    n_zero h = ground arith

    differ : nat_eq n 0 ≡ true → ⊥
    differ k = cc
not_zero (negsuc n) h e = cc

is_zero : (code : ℤ) → int_is 0 code ≡ true → code ≡ pos 0
is_zero (pos n) h = ap pos (ground arith)
is_zero (negsuc n) h = cc

receipt_result-Receipt :
    (stdout exit : String) (result : SshResult)
    → drop_prefix "CAPI_EXIT=" (partition 10 stdout).before ≡ some exit
    → (code : Option ℤ) → parse_int exit ≡ code
    → receipt_result code (partition 10 stdout).after ≡ ok result
    → Receipt stdout result
unfolding receipt_result
receipt_result-Receipt stdout exit result first none parsed h = absurd (err-ne-ok h)
receipt_result-Receipt stdout exit result first (some code) parsed h =
    subst (Receipt stdout) (ok-injective h) (record {
      exit = exit;
      first_line = drop_prefix-codes "CAPI_EXIT=" (partition 10 stdout).before exit first;
      exit_code = parsed;
      on_success = λ e. rw e (refl, refl);
      on_failure = λ e. elim (Bool-cases (int_is 0 code)) [
        | inl zero_code ↦ absurd (e (is_zero code zero_code))
        | inr other ↦ (rw other refl, rw other refl)
      ];
    })

observed-Receipt :
    (stdout : String) (pending : Bool) (first : Option String) (result : SshResult)
    → drop_prefix "CAPI_EXIT=" (partition 10 stdout).before ≡ first
    → observed pending (partition 10 stdout).after first ≡ ok (some result)
    → Receipt stdout result
unfolding observed
observed-Receipt stdout pending (some exit) result first h =
    receipt_result-Receipt stdout exit result first (parse_int exit) refl (found _ h)
  where
    found : (o : Outcome SshResult) → found_result o ≡ ok (some result) → o ≡ ok result
    found (ok r) h = ap ok (some_inj (ok-injective h))
    found (err e) h = absurd (err-ne-ok h)
observed-Receipt stdout true none result first h = absurd (none-some (ok-injective h))
observed-Receipt stdout false none result first h = absurd (err-ne-ok h)

turn_result-Receipt :
    (reply result : SshResult)
    → turn_result reply ≡ ok (some result)
    → (succeeded reply ≡ true) × Receipt reply.stdout result
unfolding turn_result
turn_result-Receipt reply result h = elim (Bool-cases (succeeded reply)) [
  | inl success ↦ (success, observed-Receipt reply.stdout _ _ result refl (rw success at h))
  | inr failed ↦ absurd (err-ne-ok (rw failed at h))
]

module _ (env : Env) (uid : String) where
  -- The last request is an observation of the UID-owned job, which succeeded, and the result is what
  -- its answer says.
  pub record Observed (result : SshResult) (t : Trace) : Type 0 where
    pub earlier : Trace
    pub reply : SshResult
    pub last : t ≡ record { request = execute_ssh (observe_command uid); done = true } ∷ earlier
    pub shown : env.ssh earlier (execute_ssh (observe_command uid)) ≡ answered reply
    pub success : succeeded reply ≡ true
    pub receipt : Receipt reply.stdout result

  abbrev Anyhow : Error → State → Type 0
  Anyhow e s = Unit

  abbrev Good : SshResult → State → Type 0
  Good result s = Observed result s.trace

  again-wp :
      (next : Exec SshResult) (s : State) (reply : SshResult)
      → env.ssh s.trace (execute_ssh (observe_command uid)) ≡ answered reply
      → ((t : State) → Wp next t Good Anyhow)
      → (found : Option SshResult) → turn_result reply ≡ ok found
      → Wp
          (observe_again env next found)
          (logged s (execute_ssh (observe_command uid)) true)
          Good
          Anyhow
  unfolding observe_again
  again-wp next s reply shown h none e = wp-bind _ _ _ (wp-sleep 2 _ (h _))
  again-wp next s reply shown h (some result) e =
      let (success, receipt) = turn_result-Receipt reply result e in
      wp-pure result _ (record {
        earlier = s.trace;
        reply = reply;
        last = refl;
        shown = shown;
        success = success;
        receipt = receipt;
      })

  turn-wp :
      (next : Exec SshResult) (s : State)
      → ((t : State) → Wp next t Good Anyhow)
      → Wp
          (observe_turn env uid)
          s
          (λ found t. Wp (observe_again env next found) t Good Anyhow)
          Anyhow
  unfolding observe_turn
  turn-wp next s h = wp-bind _ _ _ (
      wp-remote _ _ _
        (λ reply shown. wp-lift _ _ (λ found e. again-wp next s reply shown h found e) (λ _ _. tt))
        (λ _. tt))

  until-wp :
      (deadline rounds : ℕ) (s : State) → Wp (observe_until env uid deadline rounds) s Good Anyhow
  unfolding observe_until
  until-wp deadline zero s = wp-raise _ s tt
  until-wp deadline (suc rounds) s = wp-bind _ _ _ (
      wp-gets _ _ (
        wp-if (ltb (env.seconds s.trace) deadline) _ _ _
          (λ _. wp-bind _ _ _ (turn-wp _ s (λ t. until-wp deadline rounds t)))
          (λ _. wp-raise _ _ tt)))

  -- Where the observation of a bootstrap job returns a result, its last request observed the job with
  -- this UID and was answered with success. The first line of the answer is CAPI_EXIT= and a number,
  -- which is the exit code of the result, and the rest of it is the log. With code 0 the log is the
  -- standard output, and with any other code the error output, and the other output is empty.
  pub observe_until-Observed :
      (deadline rounds : ℕ) (s : State) (result : SshResult)
      → (observe_until env uid deadline rounds s).0 ≡ ok result
      → Observed result (observe_until env uid deadline rounds s).1.trace
  observe_until-Observed deadline rounds s result h =
      wp-ok (observe_until env uid deadline rounds) s (until-wp deadline rounds s) h
