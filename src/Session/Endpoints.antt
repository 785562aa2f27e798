-- ===== src/Session/Endpoints.antt =====
-- Which endpoint `connect` of src/session.cpp ends at.
use socks5_proxy_sum_2022_co.Prelude.{
  ℕ, ◌≡◌, refl, ap, true, List, [], ◌∷◌, ◌++◌, Option, some, Bytes,
}
use socks5_proxy_sum_2022_co.Asio.{Asio, ErrorCode, success, host_not_found, failed}
use socks5_proxy_sum_2022_co.World.{Env, World, returned, pure, ◌>>=◌, on_return}
use socks5_proxy_sum_2022_co.Session.Connect.{try_endpoints, ask, resolve, connect}

module _ {Net : Type 0} (a : Asio Net) where
  -- One attempt, on a socket that is closed first.
  abbrev pub attempt : ℕ → Net → ErrorCode × Net
  attempt p net = a.connect_server p (a.close_server_ec net).1

  -- Attempts that all fail, from one state of the network to another.
  pub data Refused : List ℕ → Net → Net → Type 0 where
    untried : {net : Net} → Refused [] net net
    tried :
        {p : ℕ} {ps : List ℕ} {net last : Net}
        → failed (attempt p net).0 ≡ true
        → Refused ps (attempt p net).1 last
        → Refused (p ∷ ps) net last

module _ {Net Db : Type 0} (e : Env Net Db) where
  try_endpoints-first :
      (refusing rest : List ℕ) (p : ℕ) (ec : ErrorCode) (w : World Net Db) (last net : Net)
      → failed ec ≡ true
      → Refused e.asio refusing w.net last
      → attempt e.asio p last ≡ (success, net)
      → try_endpoints e (refusing ++ p ∷ rest) ec w ≡ (success, record w { net = net })
  unfolding try_endpoints
  try_endpoints-first [] [] p ec w last net err Refused.untried ok = rw err (rw ok refl)
  try_endpoints-first [] (q ∷ qs) p ec w last net err Refused.untried ok = rw err (rw ok refl)
  try_endpoints-first (q ∷ qs) rest p ec w last net err (Refused.tried f more) ok =
      rw err (try_endpoints-first qs rest p _ _ last net f more ok)

  try_endpoints-Refused :
      (ps : List ℕ) (ec : ErrorCode) (w : World Net Db) (last : Net)
      → failed ec ≡ true
      → Refused e.asio ps w.net last
      → (failed (try_endpoints e ps ec w).0 ≡ true)
        × ((try_endpoints e ps ec w).1 ≡ record w { net = last })
  unfolding try_endpoints
  try_endpoints-Refused [] ec w last err Refused.untried = (err, refl)
  try_endpoints-Refused (p ∷ ps) ec w last err (Refused.tried f more) =
      rw err (try_endpoints-Refused ps _ _ last f more)

  ask-some :
      {A : Type 0} (query : Net → Option A) (a : A) (w : World Net Db)
      → query w.net ≡ some a
      → ask e query w ≡ (returned a, w)
  unfolding ask
  ask-some query a w h = rw (ask, h) refl

  -- Where the name resolves, the session ends up connected to the first endpoint that takes it, and
  -- those before it have each been tried once, in order; the local port is returned. This if neither
  -- the query for the local port nor that for the server's address throws.
  pub connect_first :
      (host service : Bytes) (w : World Net Db) (refusing rest : List ℕ) (p port : ℕ)
      (resolved last net : Net) (address : Bytes × ℕ)
      → e.asio.resolve host service w.net ≡ (success, refusing ++ p ∷ rest, resolved)
      → Refused e.asio refusing resolved last
      → attempt e.asio p last ≡ (success, net)
      → e.asio.local_port net ≡ some port
      → e.asio.server_endpoint net ≡ some address
      → connect e host service w ≡ (returned (success, port), record w { net = net })
  unfolding connect resolve ◌>>=◌ on_return pure
  connect_first host service w refusing rest p port resolved last net address r refused ok has_port
        has_address =
      let first =
        try_endpoints-first refusing rest p host_not_found (record w { net = resolved }) last net
          refl refused ok in
      let connected : World Net Db = record w { net = net } in
      let asked_port = ask-some e.asio.local_port port connected has_port in
      let asked_address = ask-some e.asio.server_endpoint address connected has_address in
      rw r (rw first (rw (◌>>=◌, asked_port) (rw (◌>>=◌, asked_address) refl)))

  -- Where the name resolves and every endpoint refuses, or there is none, an error and port zero are
  -- returned, after each endpoint has been tried once, in order.
  pub connect-Refused :
      (host service : Bytes) (w : World Net Db) (endpoints : List ℕ) (resolved last : Net)
      → e.asio.resolve host service w.net ≡ (success, endpoints, resolved)
      → Refused e.asio endpoints resolved last
      → (ec : ErrorCode) × (failed ec ≡ true)
        × (connect e host service w ≡ (returned (ec, 0), record w { net = last }))
  unfolding connect resolve ◌>>=◌ pure
  connect-Refused host service w endpoints resolved last r refused =
      let tried =
        try_endpoints-Refused endpoints host_not_found (record w { net = resolved }) last refl
          refused in
      let ec = (try_endpoints e endpoints host_not_found (record w { net = resolved })).0 in
      (ec, tried.0, rw r (rw tried.0 (ap (λ (v : World Net Db). (returned (ec, 0), v)) tried.1)))
