-- ===== src/World.antt =====
-- The state of one session, that of its `TcpSession` (src/session.h), of its `Socks` object
-- (src/socks.h, src/socks5.h) and of what they share with the rest, and the methods' state monad.
mod Int
pub mod Triple
pub use Int.*
use socks5_proxy_sum_2022_co.Prelude.{
  ℕ, zero, suc, ◌≡◌, refl, Bool, true, false, List, [], ◌∷◌, Option, none, some, Bytes,
}
use socks5_proxy_sum_2022_co.Asio.{Asio}

-- `Dest` of src/stat_db_service.h.
pub data Dest : Type 0 where
  to_server to_client : Dest

-- The fields of `Session` of src/stat_db_service.h that the proxy fills in.
pub record NewSession : Type 0 where
  pub user : Bytes
  pub src_addr : Bytes
  pub src_port : Bytes
  pub dst_addr : Bytes
  pub dst_port : Bytes

-- `DatabaseService` as its callers see it; `none` and `false` are a thrown `DatabaseException`.
pub record Database (Db : Type 0) : Type 0 where
  pub create : NewSession → Db → Option ℕ × Db
  pub update : ℕ → ℕ → Dest → Db → Bool × Db
  pub close : ℕ → Db → Bool × Db

-- What a session is run with: the two services, `Socks5::AUTH_FLAG`, and the login map.
pub record Env (Net Db : Type 0) : Type 0 where
  pub asio : Asio Net
  pub database : Database Db
  pub auth_flag : Bool
  pub users : List (Bytes × Bytes)

-- `VER` of src/socks.h: the class of the object that `_socks` points to.
pub data Version : Type 0 where
  socks4_ver socks5_ver : Version

pub record World (Net Db : Type 0) : Type 0 where
  pub net : Net
  pub db : Db
  -- `_socks`; `none` is the null pointer. Its fields follow.
  pub socks : Option Version
  pub id : ℕ
  pub dst_address : Bytes
  pub dst_port : ℕ
  pub bind_port : ℕ
  pub username : Bytes
  pub atyp : ℕ
  pub cmd : ℕ
  -- `TcpSession::_id`, `_isClosed`, the buffers, and the counter `_server->_sessions`.
  pub session_id : ℕ
  pub is_closed : Bool
  pub client_buf : Bytes
  pub server_buf : Bytes
  pub sessions : ℤ

-- A method that may throw a `std::runtime_error` returns an outcome.
pub data Outcome (A : Type 0) : Type 0 where
  returned : A → Outcome A
  thrown : Outcome A
  -- The fuel of a loop of the model ran out.
  out_of_fuel : Outcome A

abbrev pub M : Type 0 → Type 0 → Type 0 → Type 0
M Net Db A = World Net Db → A × World Net Db

module _ {Net Db : Type 0} where
  unfoldable pub pure : {A : Type 0} → A → M Net Db A
  pure a w = (a, w)

  infixl 5 ◌>>=◌ ◌>>◌
  unfoldable pub ◌>>=◌ : {A B : Type 0} → M Net Db A → (A → M Net Db B) → M Net Db B
  ◌>>=◌ m f w = f (m w).0 (m w).1

  abbrev pub ◌>>◌ : {B : Type 0} → M Net Db (Unit {0}) → M Net Db B → M Net Db B
  m >> k = m >>= λ _. k

  unfoldable pub modify : (World Net Db → World Net Db) → M Net Db (Unit {0})
  modify f w = (tt, f w)

  unfoldable pub get : M Net Db (World Net Db)
  get w = (w, w)

  -- Goes on after a call that may throw, or passes the exception on.
  unfoldable pub on_return :
      {A B : Type 0} → Outcome A → (A → M Net Db (Outcome B)) → M Net Db (Outcome B)
  unfolding pure
  on_return (returned a) f = f a
  on_return thrown f = pure thrown
  on_return out_of_fuel f = pure out_of_fuel
