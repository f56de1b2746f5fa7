-- ===== src/Realtime/Gauge.antt =====
-- app/realtime.py: the gauge WEBSOCKET_CONNECTIONS beside the sets of sockets.
use monitoring_service.Prelude.{
  ℕ, suc, ◌≡◌, refl, inl, inr, Bool, true, false, ◌||◌, Option, none, some, List, [], ◌∷◌, ◌++◌,
  arith, length, length-append,
}
use monitoring_service.Prelude.Tables.{delete_where}
use monitoring_service.Realtime.{
  Connection, Hub, Message, other, invalid, message, same_connection, is_connected, add_connection,
  connect, disconnect, handle_message, send_next, connected, disconnected, received, sent,
  Reachable, start, next,
}
use monitoring_service.Realtime.Delivery.{pending-cases}

-- No socket is in the sets twice.
abbrev Once : List Connection → Type 0
Once [] = Unit
Once (c ∷ cs) = (is_connected c.user_id c.websocket cs ≡ false) × Once cs

is_connected-append :
    (a b : ℕ) (cs : List Connection) (d : Connection)
    → is_connected a b (cs ++ d ∷ []) ≡ (is_connected a b cs || same_connection a b d)
is_connected-append a b [] d = ground arith
is_connected-append a b (c ∷ cs) d = ground (arith, is_connected-append a b cs d)

Once-append :
    (u ws : ℕ) (cs : List Connection)
    → is_connected u ws cs ≡ false
    → Once cs
    → Once (cs ++ record { user_id = u; websocket = ws } ∷ [])
Once-append u ws [] n h = (refl, tt)
Once-append u ws (c ∷ cs) n h = (
  ground (
    arith,
    is_connected-append c.user_id c.websocket cs (record { user_id = u; websocket = ws }),
  ),
  Once-append u ws cs (ground arith) h.1,
)

is_connected-delete :
    (a b : ℕ) (test : Connection → Bool) (cs : List Connection)
    → is_connected a b cs ≡ false
    → is_connected a b (delete_where test cs) ≡ false
is_connected-delete a b test [] n = refl
is_connected-delete a b test (c ∷ cs) n = ground (arith, is_connected-delete a b test cs)

Once-delete :
    (test : Connection → Bool) (cs : List Connection) → Once cs → Once (delete_where test cs)
Once-delete test [] h = tt
Once-delete test (c ∷ cs) h =
    ground (arith, is_connected-delete c.user_id c.websocket test cs h.0, Once-delete test cs h.1)

delete_absent :
    (u ws : ℕ) (cs : List Connection)
    → is_connected u ws cs ≡ false
    → length (delete_where (same_connection u ws) cs) ≡ length cs
delete_absent u ws [] n = refl
delete_absent u ws (c ∷ cs) n = ground (arith, delete_absent u ws cs)

length-delete :
    (u ws : ℕ) (cs : List Connection)
    → is_connected u ws cs ≡ true
    → Once cs
    → suc (length (delete_where (same_connection u ws) cs)) ≡ length cs
length-delete u ws [] y h = cc
length-delete u ws (c ∷ cs) y h = ground (
  arith,
  delete_absent c.user_id c.websocket cs h.0,
  delete_absent u ws cs,
  length-delete u ws cs,
)

record IsCounted (h : Hub) : Type 0 where
  gauge : h.websocket_connections ≡ length h.connections
  once : Once h.connections

connect-IsCounted :
    (o : Option ℕ) (ws : ℕ) (h : Hub)
    → ((u : ℕ) → is_connected u ws h.connections ≡ false)
    → IsCounted h
    → IsCounted (connect o ws h)
unfolding connect add_connection
connect-IsCounted none ws h n p = p
connect-IsCounted (some u) ws h n p = rw (n u) (record {
  gauge =
      omega
        (arith, p.gauge, length-append h.connections (record { user_id = u; websocket = ws } ∷ []));
  once = Once-append u ws h.connections (n u) p.once;
})

disconnect-IsCounted :
    (u ws : ℕ) (h : Hub)
    → is_connected u ws h.connections ≡ true
    → IsCounted h
    → IsCounted (disconnect u ws h)
unfolding disconnect
disconnect-IsCounted u ws h y p = record {
  gauge = omega (arith, p.gauge, length-delete u ws h.connections y p.once);
  once = Once-delete (same_connection u ws) h.connections p.once;
}

handle-IsCounted : (m : Message) (h : Hub) → IsCounted h → IsCounted (handle_message m h)
unfolding handle_message
handle-IsCounted other h p = p
handle-IsCounted invalid h p = p
handle-IsCounted (message payload) h p = record { gauge = p.gauge; once = p.once }

send-IsCounted : (ok : Bool) (h : Hub) → IsCounted h → IsCounted (send_next ok h)
unfolding send_next
send-IsCounted ok h p = elim (pending-cases h.pending) [
  | inl e ↦ rw (e, send_next) p
  | inr (m, ms, e) ↦ rw (e, send_next) (record { gauge = p.gauge; once = p.once })
]

module _ (user_of : ℕ → Option ℕ) where
  Reachable-IsCounted : {h : Hub} → Reachable user_of h → IsCounted h
  Reachable-IsCounted start = record { gauge = refl; once = tt }
  Reachable-IsCounted (next r (connected ws h n)) =
      connect-IsCounted (user_of ws) ws h n (Reachable-IsCounted r)
  Reachable-IsCounted (next r (disconnected u ws h y)) =
      disconnect-IsCounted u ws h y (Reachable-IsCounted r)
  Reachable-IsCounted (next r (received m h e)) = handle-IsCounted m h (Reachable-IsCounted r)
  Reachable-IsCounted (next r (sent ok h)) = send-IsCounted ok h (Reachable-IsCounted r)

  -- After any opening and closing of sockets, the gauge is the number of those that are open.
  pub Reachable-gauge :
      {h : Hub} → Reachable user_of h → h.websocket_connections ≡ length h.connections
  Reachable-gauge r = (Reachable-IsCounted r).gauge
