-- ===== src/World/Claims.antt =====
-- Histories in which a claim is cleared only after a cleanup receipt. An action is quiet if it
-- clears no claim, whatever the environment answers.
use capi_provider_ssh.Base.{Bool, true, false, ◌≡◌, none, some, text_eq}
use capi_provider_ssh.World.{
  State, Exec, Request, Event, Trace, patch_consumer, patch_machine_status, execute_ssh, upload_ssh,
}
use capi_provider_ssh.World.Order
use capi_provider_ssh.World.Trace.{Emits}
use capi_provider_ssh.World.Wp.{Wp}

-- the request to clear a claim, `{"spec": {"consumerRef": None}}`
abbrev pub clears : Request → Bool
clears (patch_consumer _ _ _ _ none) = true
clears _ = false

-- the status write of a cleanup receipt
abbrev pub is_receipt : Request → Bool
is_receipt (patch_machine_status _ _ _ _ changes) = text_eq changes.cleanup_phase (some "Succeeded")
is_receipt _ = false

-- a receipt was written, and the write was confirmed
abbrev pub has_receipt : Trace → Bool
has_receipt = Order.has_done is_receipt

-- Each request to clear a claim comes after a confirmed receipt.
abbrev pub Guarded : Trace → Type 0
Guarded = Order.Ordered clears is_receipt

abbrev pub Quiet : Event → Type 0
Quiet = Order.Avoids clears

-- the work on a host: its commands and its files
abbrev pub is_remote : Request → Bool
is_remote (execute_ssh _) = true
is_remote (upload_ssh _ _) = true
is_remote _ = false

-- No claim is cleared and nothing is done on a host.
pub record Local (e : Event) : Type 0 where
  pub clears_none : clears e.request ≡ false
  pub not_remote : is_remote e.request ≡ false

pub Quiet-Local : (e : Event) → Local e → Quiet e
Quiet-Local e h = record { avoids = h.clears_none }

pub record Anything (e : Event) : Type 0 where

abbrev pub Inv : State → Type 0
Inv s = Guarded s.trace

abbrev pub Ready : State → Type 0
Ready s = Guarded s.trace × (has_receipt s.trace ≡ true)

module _ {A : Type 0} (m : Exec A) (s : State) where
  pub Quiet-keeps : Emits Quiet m → Guarded s.trace → Guarded (m s).1.trace
  Quiet-keeps = Order.Avoids-keeps clears is_receipt m s

  pub receipt_kept :
      {φ : Event → Type 0}
      → Emits φ m
      → has_receipt s.trace ≡ true
      → has_receipt (m s).1.trace ≡ true
  receipt_kept h = Order.done_kept clears is_receipt m s h

  pub wp-Quiet : Emits Quiet m → Inv s → Wp m s (λ _ s'. Inv s') (λ _ s'. Inv s')
  wp-Quiet = Order.wp-Avoids clears is_receipt m s

  pub wp-receipt :
      {φ : Event → Type 0} → Emits φ m → Ready s → Wp m s (λ _ s'. Ready s') (λ _ s'. Ready s')
  wp-receipt h = Order.wp-done clears is_receipt m s h
