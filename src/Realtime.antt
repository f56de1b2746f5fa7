-- ===== src/Realtime.antt =====
-- app/realtime.py: the sockets of the dashboards, and the messages that are passed on to them.
-- A socket is a number, and the dictionary of sets is a list of pairs. `user_of` in the steps is what
-- `ws_user` answers for each socket: the key of the user, or a refusal.
pub mod Delivery
pub mod Gauge
mod Examples
use monitoring_service.Prelude.{
  ℕ, ◌+◌, ◌-◌, ◌≡◌, Bool, true, false, not, ◌&&◌, ◌||◌, Option, none, some, List, [], ◌∷◌, ◌++◌,
  map, ◌==◌, if◌then◌else◌,
}
use monitoring_service.Prelude.Text.{Text}
use monitoring_service.Prelude.Tables.{select, delete_where}
use monitoring_service.Model.{Database}
use monitoring_service.Auth.{Jwt, TokenSettings, user_from_token}

-- The request that opens a socket: its token, the time, and the database that is asked.
pub record Handshake : Type 0 where
  pub token : Option Text
  pub opened_at : ℕ
  pub db : Database

-- `none` is a `WebSocketException`.
unfoldable pub ws_user : Jwt → TokenSettings → Handshake → Option ℕ
ws_user jwt settings r = elim r.token [
  | none ↦ none
  | some token ↦ elim (user_from_token jwt settings r.opened_at token r.db) [
    | none ↦ none
    | some user ↦ some user.id
  ]
]

pub record Connection : Type 0 where
  pub user_id : ℕ
  pub websocket : ℕ

-- What `json.loads` gives: a `user_id` that is no user's key is `none`.
pub record Payload : Type 0 where
  pub user_id : Option ℕ
  pub text : Text

-- A message of `ps.listen()`: of another type, or data that parses with a `user_id`, or does not.
pub data Message : Type 0 where
  other invalid : Message
  message : Payload → Message

-- One `send_json` of the loop that is still to do, or that is done.
pub record SocketMessage : Type 0 where
  pub websocket : ℕ
  pub payload : Payload

-- `connections`, the gauge WEBSOCKET_CONNECTIONS, what is left of the loop in `handle_message`, and
-- what the sockets have been sent.
pub record Hub : Type 0 where
  pub connections : List Connection
  pub websocket_connections : ℕ
  pub pending : List SocketMessage
  pub delivered : List SocketMessage

abbrev pub no_sockets : Hub
no_sockets = record { connections = []; websocket_connections = 0; pending = []; delivered = [] }

-- `websocket in connections[user_id]`
abbrev pub same_connection : ℕ → ℕ → Connection → Bool
same_connection u ws c = c.user_id == u && c.websocket == ws

abbrev pub is_connected : ℕ → ℕ → List Connection → Bool
is_connected u ws [] = false
is_connected u ws (c ∷ cs) = same_connection u ws c || is_connected u ws cs

-- `set.add`
unfoldable pub add_connection : ℕ → ℕ → List Connection → List Connection
add_connection u ws cs =
    if is_connected u ws cs then cs else cs ++ record { user_id = u; websocket = ws } ∷ []

-- `dashboard` up to its first `receive_text`; a refused socket is closed before it.
unfoldable pub connect : Option ℕ → ℕ → Hub → Hub
connect none ws h = h
connect (some u) ws h = record h {
  websocket_connections = h.websocket_connections + 1;
  connections = add_connection u ws h.connections;
}

-- The `finally` of `dashboard`, on a disconnect or another exception.
unfoldable pub disconnect : ℕ → ℕ → Hub → Hub
disconnect u ws h = record h {
  websocket_connections = h.websocket_connections - 1;
  connections = delete_where (same_connection u ws) h.connections;
}

-- `connections.get(uid, set())`
unfoldable pub sockets_of : Option ℕ → List Connection → List Connection
sockets_of none cs = []
sockets_of (some uid) cs = select (λ (c : Connection). c.user_id == uid) cs

-- `handle_message` up to its loop, which is over a copy: `list(…)`.
unfoldable pub handle_message : Message → Hub → Hub
handle_message other h = h
handle_message invalid h = h
handle_message (message payload) h = record h {
  pending =
      map (λ (c : Connection). record { websocket = c.websocket; payload = payload })
        (sockets_of payload.user_id h.connections);
}

-- One pass of the loop: an exception of `send_json` is passed over.
unfoldable pub send_next : Bool → Hub → Hub
send_next sent h = elim h.pending [
  | [] ↦ h
  | m ∷ ms ↦ record h {
    pending = ms;
    delivered = if sent then h.delivered ++ m ∷ [] else h.delivered;
  }
]

-- What the event loop may do next. A socket that is open is not opened again, and it is closed
-- once; the subscriber takes the next message when the loop over the last is done.
pub data Step (user_of : ℕ → Option ℕ) : Hub → Hub → Type 0 where
  connected :
      (ws : ℕ) (h : Hub)
      → ((u : ℕ) → is_connected u ws h.connections ≡ false)
      → Step user_of h (connect (user_of ws) ws h)
  disconnected :
      (u ws : ℕ) (h : Hub)
      → is_connected u ws h.connections ≡ true
      → Step user_of h (disconnect u ws h)
  received : (m : Message) (h : Hub) → h.pending ≡ [] → Step user_of h (handle_message m h)
  sent : (ok : Bool) (h : Hub) → Step user_of h (send_next ok h)

pub data Reachable (user_of : ℕ → Option ℕ) : Hub → Type 0 where
  start : Reachable user_of no_sockets
  next : {h h' : Hub} → Reachable user_of h → Step user_of h h' → Reachable user_of h'
