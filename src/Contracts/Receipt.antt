-- ===== src/Contracts/Receipt.antt =====
-- A status write that returns was confirmed.
use capi_provider_ssh.Base.{Bool, Option, String, not, true, ◌≡◌, refl, some, text_eq, truthy}
use capi_provider_ssh.Objects.{Machine}
use capi_provider_ssh.World.{
  Env, Error, err, permanent, api_exception, State, Changes, Request, patch_machine_status,
}
use capi_provider_ssh.World.Order.{has_done}
use capi_provider_ssh.World.Claims.{has_receipt, is_receipt}
use capi_provider_ssh.World.Wp.{Wp, wp-bind, wp-call, wp-pure, wp-raise, wp-if, wp-gets, wp-attempt}
use capi_provider_ssh.Contracts.{persist_machine_status, persisted, merged_changes}

abbrev pub Anyhow : Error → State → Type 0
Anyhow e s = Unit

abbrev pub Receipt : State → Type 0
Receipt s = has_receipt s.trace ≡ true

persisted_err :
    {Q : Machine → State → Type 0} (e : Error) (s : State) → Wp (persisted (err e)) s Q Anyhow
unfolding persisted
persisted_err (api_exception n) s = wp-raise _ s tt
persisted_err (permanent m) s = wp-raise _ s tt
persisted_err _ s = wp-raise _ s tt

-- a status write that returns was confirmed, whatever of its changes makes it a receipt
pub persist-done :
    (receipt : Request → Bool) (env : Env) (namespace name uid : String) (changes : Changes)
    (s : State)
    → ((version : Option String) (current : Machine) (now : String)
        → receipt
            (patch_machine_status namespace name uid version (merged_changes current now changes))
          ≡ true)
    → Wp
        (persist_machine_status env namespace name uid changes)
        s
        (λ _ s'. has_done receipt s'.trace ≡ true)
        Anyhow
unfolding persist_machine_status
persist-done receipt env namespace name uid changes s h =
    wp-if (not (truthy uid)) _ _ _ (λ _. wp-raise _ _ tt)
      (λ _. wp-bind _ _ _ (
        wp-call _ _ _
          (λ current _.
            wp-if (not (text_eq current.metadata.uid (some uid))) _ _ _ (λ _. wp-raise _ _ tt)
              (λ _. wp-bind _ _ _ (
                wp-gets _ _ (
                  wp-bind _ _ _ (
                    wp-attempt _ _ (
                      wp-call _ _ _
                        (λ m _.
                          unfold persisted in
                          wp-pure _ _ (rw (h current.metadata.resource_version current _) refl))
                        (λ e _. persisted_err e _)))))))
          (λ _ _. tt)))

-- the status write of a cleanup receipt
pub persist-Receipt :
    (env : Env) (namespace name uid : String) (changes : Changes) (s : State)
    → text_eq changes.cleanup_phase (some "Succeeded") ≡ true
    → Wp (persist_machine_status env namespace name uid changes) s (λ _ s'. Receipt s') Anyhow
persist-Receipt env namespace name uid changes s h =
    persist-done is_receipt env namespace name uid changes s (λ _ _ _. h)
