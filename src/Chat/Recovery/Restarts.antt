-- ===== src/Chat/Recovery/Restarts.antt =====
-- Which events ask for a restart of the gateway.
use arctic_rss.Prelude.{
  ℕ, zero, suc, ◌+◌, ◌≡◌, refl, ◌∙◌, ◌⊎◌, inl, inr, Bool, true, false, ◌&&◌, arith, branch,
}
use arctic_rss.Chat.Recovery.{
  RecoveryState, update_state, mark_client_unavailable, mark_client_ready, continue_ready,
  continue_start, resubscribed, Event, started, client_ready, client_lost, reconnecting,
  resubscription, timer, closing, on_event,
}

update_state-restarts :
    (grace now : ℕ) (s : RecoveryState) → (update_state grace now s).restarts ≡ s.restarts
unfolding update_state
update_state-restarts grace now s = ground arith

unavailable-restarts :
    (grace now : ℕ) (s : RecoveryState)
    → (mark_client_unavailable grace now s).restarts ≡ s.restarts
unfolding mark_client_unavailable
unavailable-restarts grace now s =
    ground (arith, update_state-restarts grace now (record s { connected = λ name. false }))

continue_ready-restarts :
    (grace now : ℕ) (success : Bool) (n : ℕ) (s : RecoveryState)
    → (continue_ready grace now success n s).restarts ≡ s.restarts
unfolding continue_ready
continue_ready-restarts grace now success zero s = refl
continue_ready-restarts grace now true (suc n) s =
    continue_ready-restarts grace now true n (update_state grace now s)
    ∙ update_state-restarts grace now s
continue_ready-restarts grace now false (suc n) s =
    continue_ready-restarts grace now false n (mark_client_unavailable grace now s)
    ∙ unavailable-restarts grace now s

resubscribed-restarts :
    (grace now : ℕ) (success : Bool) (s : RecoveryState)
    → (resubscribed grace now success s).restarts ≡ s.restarts
unfolding resubscribed
resubscribed-restarts grace now success s =
    let s' : RecoveryState = record s { resubscribing = false; waiting = 0 } in
    let up : RecoveryState = record s' { accepts_ready_events = true; starting = false } in
    continue_ready-restarts grace now success s.waiting (continue_start grace now success s')
    ∙ branch (λ (x : RecoveryState). x.restarts ≡ s.restarts) (s.starting && success)
        (λ e. update_state-restarts grace now up) (λ e. refl)

-- Only a timer asks for a restart.
pub on_event-restarts :
    (grace now : ℕ) (e : Event) (s : RecoveryState)
    → (e ≡ timer) ⊎ ((on_event grace now e s).restarts ≡ s.restarts)
unfolding on_event mark_client_ready
on_event-restarts grace now started s = inr refl
on_event-restarts grace now (client_ready name) s = inr (ground arith)
on_event-restarts grace now (client_lost name) s = inr (unavailable-restarts grace now s)
on_event-restarts grace now (reconnecting name) s =
    inr (unavailable-restarts grace now (record s { reconnect_count = s.reconnect_count + 1 }))
on_event-restarts grace now (resubscription success) s = inr (
    branch (λ (x : RecoveryState). x.restarts ≡ s.restarts) s.resubscribing
      (λ e. resubscribed-restarts grace now success s) (λ e. refl))
on_event-restarts grace now timer s = inl refl
on_event-restarts grace now closing s = inr refl
