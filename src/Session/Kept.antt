-- ===== src/Session/Kept.antt =====
-- A condition on the state of a session that all methods of the relay keep holds after any events.
use socks5_proxy_sum_2022_co.Prelude.{
  ℕ, ◌+◌, ◌≤◌, true, false, List, [], ◌∷◌, Bytes, length, drop, length-append, ltb, arith,
  if◌then◌else◌,
}
use socks5_proxy_sum_2022_co.Asio.{ErrorCode, failed}
use socks5_proxy_sum_2022_co.World.{Env, World, pure, get, ◌>>=◌}
use socks5_proxy_sum_2022_co.World.Triple.{
  Triple, Triple-bind, Triple-if, Triple-pure, Triple-weaken, Pred,
}
use socks5_proxy_sum_2022_co.Session.Start.{client_read, server_read}
use socks5_proxy_sum_2022_co.Session.Relay.{close, write_to_socket, client_handle, server_handle}
use socks5_proxy_sum_2022_co.Session.Events.{
  Event, client_done, server_done, destroyed, client_reads, server_reads, fill, handle, handle_all,
  event_bytes, total_bytes,
}

-- The condition may say for how many bytes more there is room.
pub record Kept {Net Db : Type 0} (e : Env Net Db) (At : ℕ → Pred Net Db) : Type 0 where
  pub less : (rest n : ℕ) (w : World Net Db) → At (n + rest) w → At rest w
  -- Nothing is asked of the buffers.
  pub refill :
      (rest : ℕ) (w : World Net Db) (cs ss : Bytes)
      → At rest w
      → At rest (record w { client_buf = cs; server_buf = ss })
  pub close : (rest : ℕ) → Triple (At rest) (close e) (λ _. At rest)
  pub write_server :
      (rest n : ℕ) (buffer : Bytes)
      → n ≤ length buffer
      → Triple (At (n + rest)) (write_to_socket e e.asio.write_server buffer n true) (λ _. At rest)
  pub write_client :
      (rest n : ℕ) (buffer : Bytes)
      → n ≤ length buffer
      → Triple (At (n + rest)) (write_to_socket e e.asio.write buffer n false) (λ _. At rest)
  pub client_read : (rest : ℕ) → Triple (At rest) (client_read e) (λ _. At rest)
  pub server_read : (rest : ℕ) → Triple (At rest) (server_read e) (λ _. At rest)

module _ {Net Db : Type 0} (e : Env Net Db) (At : ℕ → Pred Net Db) (kept : Kept e At) where
  -- The handlers, on a buffer that holds the bytes.
  client_handle-Kept :
      (rest n : ℕ) (ec : ErrorCode) (w : World Net Db)
      → n ≤ length w.client_buf
      → At (n + rest) w
      → At rest (client_handle e ec n w).1
  unfolding client_handle ◌>>=◌ get
  client_handle-Kept rest n ec w long h = handled.at w h
    where
      handled :
          Triple
            (At (n + rest))
            (if failed ec then close e else do
              sent ←
                  if ltb 0 n
                  then write_to_socket e e.asio.write_server w.client_buf n true
                  else pure false
              if sent then client_read e else close e)
            (λ _. At rest)
      handled =
          Triple-if (failed ec)
            (λ _. Triple-weaken (kept.close rest) (λ x. kept.less rest n x) λ _ x p. p)
            λ _.
              Triple-bind
                (Triple-if (ltb 0 n) (λ _. kept.write_server rest n w.client_buf long)
                  λ _. Triple-pure false (λ x. kept.less rest n x))
                λ sent. Triple-if sent (λ _. kept.client_read rest) λ _. kept.close rest

  server_handle-Kept :
      (rest n : ℕ) (ec : ErrorCode) (w : World Net Db)
      → n ≤ length w.server_buf
      → At (n + rest) w
      → At rest (server_handle e ec n w).1
  unfolding server_handle ◌>>=◌ get
  server_handle-Kept rest n ec w long h = handled.at w h
    where
      handled :
          Triple
            (At (n + rest))
            (if failed ec then close e else do
              sent ←
                  if ltb 0 n
                  then write_to_socket e e.asio.write w.server_buf n false
                  else pure false
              if sent then server_read e else close e)
            (λ _. At rest)
      handled =
          Triple-if (failed ec)
            (λ _. Triple-weaken (kept.close rest) (λ x. kept.less rest n x) λ _ x p. p)
            λ _.
              Triple-bind
                (Triple-if (ltb 0 n) (λ _. kept.write_client rest n w.server_buf long)
                  λ _. Triple-pure false (λ x. kept.less rest n x))
                λ sent. Triple-if sent (λ _. kept.server_read rest) λ _. kept.close rest

  handle-Kept :
      (ev : Event) (rest : ℕ) (w : World Net Db)
      → At (event_bytes ev + rest) w
      → At rest (handle e ev w)
  unfolding handle
  handle-Kept (client_done ec chunk) rest w h =
      client_handle-Kept rest (length chunk) ec _
        (omega (arith, length-append chunk (drop (length chunk) w.client_buf)))
        (kept.refill (length chunk + rest) w (fill chunk w.client_buf) w.server_buf h)
  handle-Kept (server_done ec chunk) rest w h =
      server_handle-Kept rest (length chunk) ec _
        (omega (arith, length-append chunk (drop (length chunk) w.server_buf)))
        (kept.refill (length chunk + rest) w w.client_buf (fill chunk w.server_buf) h)
  handle-Kept destroyed rest w h = (kept.close rest).at w (kept.less rest 0 w h)
  handle-Kept client_reads rest w h = (kept.client_read rest).at w (kept.less rest 0 w h)
  handle-Kept server_reads rest w h = (kept.server_read rest).at w (kept.less rest 0 w h)

  pub handle_all-Kept :
      (evs : List Event) (w : World Net Db) → At (total_bytes evs) w → At 0 (handle_all e evs w)
  unfolding handle_all
  handle_all-Kept [] w h = h
  handle_all-Kept (ev ∷ evs) w h =
      handle_all-Kept evs (handle e ev w) (handle-Kept ev (total_bytes evs) w h)
