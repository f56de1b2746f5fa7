-- ===== src/Realtime/Examples.antt =====
-- Two users' sockets and a message to one of them, and the theorems at that run.
use monitoring_service.Prelude.{
  ℕ, ◌*◌, [], ◌∷◌, ◌≡◌, refl, true, Option, none, some, ◌==◌, length, arith, All, if◌then◌else◌,
}
use monitoring_service.Prelude.Text.{text}
use monitoring_service.Prelude.Text.Str.{strip, is_space}
use monitoring_service.Prelude.Text.Decimal.{str, digits, int, scan_signed, scan}
use monitoring_service.Model.{User, empty, second}
use monitoring_service.Auth.{TokenSettings, user_from_token, create_access_token}
use monitoring_service.Auth.Fakes.{plain_jwt}
use monitoring_service.Realtime.{
  Handshake, ws_user, Hub, Payload, message, no_sockets, add_connection, connect, disconnect,
  handle_message, send_next, sockets_of, connected, disconnected, received, sent, Reachable, start,
  next,
}
use monitoring_service.Realtime.Delivery.{GoesToItsToken, delivered-GoesToItsToken}
use monitoring_service.Realtime.Gauge.{Reachable-gauge}

abbrev tokens : TokenSettings
tokens = record {
  secret_key = text "k";
  algorithm = text "HS256";
  access_token_expire_minutes = 30;
}

abbrev user : ℕ → User
user k = record { id = k; email = text "u"; hashed_password = []; created_at = 0 }

-- The token of user 7 or of user 8, asked for a second after it was made.
abbrev handshake : ℕ → Handshake
handshake k = record {
  token = some (create_access_token plain_jwt tokens second (str k) none);
  opened_at = 2 * second;
  db = record empty { users = user 7 ∷ user 8 ∷ [] };
}

-- socket 1 is user 7's and socket 2 user 8's; any other has no token
abbrev requests : ℕ → Handshake
requests ws =
    if ws == 1
    then handshake 7
    else if ws == 2
    then handshake 8
    else record (handshake 0) { token = none }

abbrev user_of : ℕ → Option ℕ
user_of ws = ws_user plain_jwt tokens (requests ws)

abbrev news : Payload
news = record { user_id = some 7; text = text "up" }

abbrev one_open : Hub
one_open = connect (some 7) 1 no_sockets

abbrev two_open : Hub
two_open = connect (some 8) 2 one_open

abbrev queued : Hub
queued = handle_message (message news) two_open

-- socket 2 closes before the message goes out
abbrev one_closed : Hub
one_closed = disconnect 8 2 queued

abbrev out : Hub
out = send_next true one_closed

run : Reachable user_of out
unfolding connect add_connection handle_message ws_user user_from_token create_access_token int
    scan_signed scan str digits strip is_space
run =
    next
      (next
        (next
          (next (next start (connected 1 no_sockets (λ u. refl)))
            (connected 2 one_open (λ u. ground arith)))
          (received (message news) two_open refl))
        (disconnected 8 2 queued refl))
      (sent true one_closed)

one_sent : length out.delivered ≡ 1
unfolding connect add_connection handle_message sockets_of disconnect send_next
one_sent = refl

delivered-GoesToItsToken_example : All (GoesToItsToken plain_jwt tokens requests) out.delivered
delivered-GoesToItsToken_example = delivered-GoesToItsToken plain_jwt tokens requests run

Reachable-gauge_example : out.websocket_connections ≡ length out.connections
Reachable-gauge_example = Reachable-gauge user_of run
