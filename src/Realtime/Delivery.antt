-- ===== src/Realtime/Delivery.antt =====
-- app/realtime.py: whose sockets a message is sent to.
use monitoring_service.Prelude.{
  ℕ, ◌≡◌, ◌∙◌, ap, sym, refl, ◌⊎◌, inl, inr, Bool, Option, none, some, List, [], ◌∷◌, map, ◌==◌,
  ==_iff, All, Bool-cases, Option-cases, arith,
}
use monitoring_service.Prelude.Tables.{select, All-mono, All-append, All-select}
use monitoring_service.Prelude.Text.{Text}
use monitoring_service.Model.{User}
use monitoring_service.Auth.{Jwt, TokenSettings, user_from_token}
use monitoring_service.Realtime.{
  Handshake, ws_user, Connection, Payload, Message, other, invalid, message, SocketMessage, Hub,
  is_connected, add_connection, connect, disconnect, sockets_of, handle_message, send_next, Step,
  connected, disconnected, received, sent, Reachable, start, next,
}

pub pending-cases :
    (q : List SocketMessage)
    → (q ≡ []) ⊎ ((m : SocketMessage) × (ms : List SocketMessage) × (q ≡ m ∷ ms))
pending-cases [] = inl refl
pending-cases (m ∷ ms) = inr (m, ms, refl)

module _ (user_of : ℕ → Option ℕ) where
  -- The message names the user that the socket has been opened for.
  abbrev pub GoesToItsUser : SocketMessage → Type 0
  GoesToItsUser m = (u : ℕ) × (user_of m.websocket ≡ some u) × (m.payload.user_id ≡ some u)

  abbrev HasItsUser : Connection → Type 0
  HasItsUser c = user_of c.websocket ≡ some c.user_id

  record IsPrivate (h : Hub) : Type 0 where
    owners : All HasItsUser h.connections
    queue : All GoesToItsUser h.pending
    log : All GoesToItsUser h.delivered

  add-HasItsUser :
      (u ws : ℕ) (cs : List Connection)
      → user_of ws ≡ some u
      → All HasItsUser cs
      → All HasItsUser (add_connection u ws cs)
  unfolding add_connection
  add-HasItsUser u ws cs e h = elim (Bool-cases (is_connected u ws cs)) [
    | inl c ↦ rw c h
    | inr c ↦ rw c (All-append HasItsUser cs _ h (e, tt))
  ]

  connect-IsPrivate :
      (o : Option ℕ) (ws : ℕ) (h : Hub) → user_of ws ≡ o → IsPrivate h → IsPrivate (connect o ws h)
  unfolding connect
  connect-IsPrivate none ws h e p = p
  connect-IsPrivate (some u) ws h e p = record {
    owners = add-HasItsUser u ws h.connections e p.owners;
    queue = p.queue;
    log = p.log;
  }

  queued_for-GoesToItsUser :
      (uid : ℕ) (payload : Payload) (cs : List Connection)
      → payload.user_id ≡ some uid
      → All HasItsUser cs
      → All GoesToItsUser (
          map
            (λ (c : Connection). record { websocket = c.websocket; payload = payload })
            (select (λ (c : Connection). c.user_id == uid) cs))
  queued_for-GoesToItsUser uid payload [] e h = tt
  queued_for-GoesToItsUser uid payload (c ∷ cs) e h =
      let rest = queued_for-GoesToItsUser uid payload cs e h.1 in
      elim (Bool-cases (c.user_id == uid)) [
        | inl t ↦ rw t ((c.user_id, h.0, e ∙ sym (ap some ((==_iff c.user_id uid).0 t))), rest)
        | inr t ↦ rw t rest
      ]

  sockets_of-GoesToItsUser :
      (o : Option ℕ) (payload : Payload) (cs : List Connection)
      → payload.user_id ≡ o
      → All HasItsUser cs
      → All GoesToItsUser (
          map
            (λ (c : Connection). record { websocket = c.websocket; payload = payload })
            (sockets_of o cs))
  unfolding sockets_of
  sockets_of-GoesToItsUser none payload cs e h = tt
  sockets_of-GoesToItsUser (some uid) payload cs e h = queued_for-GoesToItsUser uid payload cs e h

  handle-IsPrivate : (m : Message) (h : Hub) → IsPrivate h → IsPrivate (handle_message m h)
  unfolding handle_message
  handle-IsPrivate other h p = p
  handle-IsPrivate invalid h p = p
  handle-IsPrivate (message payload) h p = record {
    owners = p.owners;
    queue = sockets_of-GoesToItsUser payload.user_id payload h.connections refl p.owners;
    log = p.log;
  }

  send-IsPrivate : (ok : Bool) (h : Hub) → IsPrivate h → IsPrivate (send_next ok h)
  unfolding send_next
  send-IsPrivate ok h p = elim (pending-cases h.pending) [
    | inl e ↦ rw (e, send_next) p
    | inr (m, ms, e) ↦
        let queue : All GoesToItsUser (m ∷ ms) = rw e at p.queue in
        let log' = All-append GoesToItsUser h.delivered (m ∷ []) p.log (queue.0, tt) in
        elim (Bool-cases ok) [
          | inl k ↦ rw (e, k, send_next) (record { owners = p.owners; queue = queue.1; log = log' })
          | inr k ↦
              rw (e, k, send_next) (record { owners = p.owners; queue = queue.1; log = p.log })
        ]
  ]

  Step-IsPrivate : {h h' : Hub} → Step user_of h h' → IsPrivate h → IsPrivate h'
  unfolding disconnect
  Step-IsPrivate (connected ws h n) p = connect-IsPrivate (user_of ws) ws h refl p
  Step-IsPrivate (disconnected u ws h c) p = record {
    owners = All-select HasItsUser _ h.connections p.owners;
    queue = p.queue;
    log = p.log;
  }
  Step-IsPrivate (received m h e) p = handle-IsPrivate m h p
  Step-IsPrivate (sent ok h) p = send-IsPrivate ok h p

  Reachable-IsPrivate : {h : Hub} → Reachable user_of h → IsPrivate h
  Reachable-IsPrivate start = record { owners = tt; queue = tt; log = tt }
  Reachable-IsPrivate (next r s) = Step-IsPrivate s (Reachable-IsPrivate r)

  pub delivered-GoesToItsUser : {h : Hub} → Reachable user_of h → All GoesToItsUser h.delivered
  delivered-GoesToItsUser r = (Reachable-IsPrivate r).log

module _ (jwt : Jwt) (settings : TokenSettings) where
  -- A socket's request had a token, which was a stored user's, and the message names this user.
  abbrev pub GoesToItsToken : (ℕ → Handshake) → SocketMessage → Type 0
  GoesToItsToken requests m =
      (token : Text) × (user : User) × ((requests m.websocket).token ≡ some token)
      × (user_from_token jwt settings (requests m.websocket).opened_at token
            (requests m.websocket).db
          ≡ some user)
      × (m.payload.user_id ≡ some user.id)

  ws_user_sound :
      (r : Handshake) (k : ℕ)
      → ws_user jwt settings r ≡ some k
      → (token : Text) × (user : User) × (r.token ≡ some token)
        × (user_from_token jwt settings r.opened_at token r.db ≡ some user)
        × (k ≡ user.id)
  unfolding ws_user
  ws_user_sound r k h = elim (Option-cases r.token) [
    | inl e ↦ ground arith
    | inr (token, e) ↦ elim (Option-cases (user_from_token jwt settings r.opened_at token r.db)) [
      | inl f ↦ ground arith
      | inr (user, f) ↦ (token, user, e, f, ground arith)
    ]
  ]

  -- Whatever sockets open and close, between messages and in the middle of one, a message goes only
  -- to a socket whose request had the token of a stored user, and names this user.
  pub delivered-GoesToItsToken :
      (requests : ℕ → Handshake) {h : Hub}
      → Reachable (λ ws. ws_user jwt settings (requests ws)) h
      → All (GoesToItsToken requests) h.delivered
  delivered-GoesToItsToken requests {h} r =
      All-mono (GoesToItsUser (λ ws. ws_user jwt settings (requests ws))) (GoesToItsToken requests)
        h.delivered
        (λ m (k, opened, named).
          let (token, user, e, f, same) = ws_user_sound (requests m.websocket) k opened in
          (token, user, e, f, named ∙ ap some same))
        (delivered-GoesToItsUser (λ ws. ws_user jwt settings (requests ws)) r)
