-- ===== src/Session/Forwards.antt =====
-- What the relay of src/session.cpp does to its two sockets over any events.
pub mod Sides
pub mod Calls
pub mod Handlers
pub mod Over
use socks5_proxy_sum_2022_co.Prelude.{
  ℕ, ◌+◌, ◌≡◌, ◌⊎◌, inl, inr, refl, sym, ap, ◌∙◌, Bool, true, false, ◌||◌, List, [], ◌∷◌, ◌++◌,
  Bytes, length, take, drop, is_empty, arith, Bool-cases,
}
use socks5_proxy_sum_2022_co.Asio.{Asio, ErrorCode, failed}
use socks5_proxy_sum_2022_co.Session.Events.{
  Event, client_done, server_done, destroyed, client_reads, server_reads,
}

-- What has become of both sockets: the bytes that each has been given, the reads that were asked for,
-- whether they are closed, and whether a write to one of them has failed before that.
pub record Sockets : Type 0 where
  pub to_server : Bytes
  pub to_client : Bytes
  pub asked_client : ℕ
  pub asked_server : ℕ
  pub is_shut : Bool
  pub is_broken : Bool

abbrev pub give_server : Bytes → Sockets → Sockets
give_server bytes s = record s { to_server = s.to_server ++ bytes }

abbrev pub give_client : Bytes → Sockets → Sockets
give_client bytes s = record s { to_client = s.to_client ++ bytes }

-- A write gives all bytes, or fails and has given some of the first, or none on a closed socket.
abbrev pub Gives :
    {Net : Type 0}
    → (Net → Sockets)
    → (Bytes → Sockets → Sockets)
    → (Bytes → Net → ErrorCode × Net)
    → Type 0
Gives {Net} view give socket =
    (bytes : Bytes) (net : Net)
    → ((failed (socket bytes net).0 ≡ false)
        × ((view net).is_shut ≡ false)
        × (view (socket bytes net).1 ≡ give bytes (view net)))
      ⊎ ((failed (socket bytes net).0 ≡ true)
          × ((((view net).is_shut ≡ false)
                × (k : ℕ) × (view (socket bytes net).1
                    ≡ record (give (take k bytes) (view net)) { is_broken = true }))
              ⊎ (((view net).is_shut ≡ true) × (view (socket bytes net).1 ≡ view net))))

-- The documented behaviour of two sockets that a relay writes to, reads from and closes.
pub record IsPair {Net : Type 0} (a : Asio Net) : Type 0 where
  pub view : Net → Sockets
  pub write_server : Gives view give_server a.write_server
  pub write : Gives view give_client a.write
  pub client_is_open : (net : Net) → (view net).is_shut ≡ false → a.client_is_open net ≡ true
  pub server_is_open : (net : Net) → (view net).is_shut ≡ false → a.server_is_open net ≡ true
  pub reads_client :
      (net : Net)
      → view (a.async_read_client net)
        ≡ record (view net) { asked_client = (view net).asked_client + 1 }
  pub reads_server :
      (net : Net)
      → view (a.async_read_server net)
        ≡ record (view net) { asked_server = (view net).asked_server + 1 }
  pub closes :
      (net : Net)
      → view (a.close_server (a.close_client net)) ≡ record (view net) { is_shut = true }

-- What events have brought: the bytes that were read from each side, the reads that are to be asked
-- for in answer, and whether one of them ends the relay.
pub record Brought : Type 0 where
  pub from_client : Bytes
  pub from_server : Bytes
  pub client_wants : ℕ
  pub server_wants : ℕ
  pub is_over : Bool

abbrev pub nothing : Brought
nothing = record {
  from_client = [];
  from_server = [];
  client_wants = 0;
  server_wants = 0;
  is_over = false;
}

-- A read that ends the relay has an error or no bytes.
abbrev pub is_last : ErrorCode → Bytes → Bool
is_last ec chunk = failed ec || is_empty chunk

abbrev pub bring : Event → Brought → Brought
bring (client_done ec chunk) b = record b {
  from_client = b.from_client ++ chunk;
  client_wants = b.client_wants + 1;
  is_over = b.is_over || is_last ec chunk;
}
bring (server_done ec chunk) b = record b {
  from_server = b.from_server ++ chunk;
  server_wants = b.server_wants + 1;
  is_over = b.is_over || is_last ec chunk;
}
bring destroyed b = record b { is_over = true }
bring client_reads b = record b { client_wants = b.client_wants + 1 }
bring server_reads b = record b { server_wants = b.server_wants + 1 }

abbrev pub bring_all : List Event → Brought → Brought
bring_all [] b = b
bring_all (ev ∷ evs) b = bring_all evs (bring ev b)

-- How the sockets stand to what events have brought since `start`. Each has been given the bytes of
-- the other side in their order, up to some last ones. While they are open none is left, every read
-- has been answered by the next, and nothing has ended the relay; they are closed only for an event
-- that ends it, or a write that has failed.
pub record Relayed (start : Sockets) (b : Brought) (now : Sockets) : Type 0 where
  pub left_client : Bytes
  pub left_server : Bytes
  pub client_bytes : start.to_server ++ b.from_client ≡ now.to_server ++ left_client
  pub server_bytes : start.to_client ++ b.from_server ≡ now.to_client ++ left_server
  pub state :
      ((now.is_shut ≡ false)
        × (left_client ≡ [])
        × (left_server ≡ [])
        × (now.asked_client ≡ start.asked_client + b.client_wants)
        × (now.asked_server ≡ start.asked_server + b.server_wants)
        × (b.is_over ≡ false))
      ⊎ ((now.is_shut ≡ true) × ((now.is_broken ≡ true) ⊎ (b.is_over ≡ true)))
