-- ===== src/Tests/Peer.antt =====
-- A network for the examples: the client sends given bytes and takes all replies, every name
-- resolves to one endpoint, and every connection succeeds.
use socks5_proxy_sum_2022_co.Prelude.{
  ℕ, suc, ◌≡◌, ◌<◌, refl, Bool, true, false, [], ◌∷◌, ◌++◌, none, some, Bytes, length, take, drop,
  take_append_length, drop_append_length, length-append, ltb, if◌then◌else◌, arith, codes,
}
use socks5_proxy_sum_2022_co.Asio.{Asio, IsStream, ErrorCode, success, eof}
use socks5_proxy_sum_2022_co.World.{World, Env, Database, pos}

pub record Net : Type 0 where
  pub ins : Bytes
  pub outs : Bytes
  pub to_server : Bytes

abbrev pub read : ℕ → Net → ErrorCode × Bytes × Net
read n net =
    if ltb (length net.ins) n
    then (eof, [], record net { ins = [] })
    else (success, take n net.ins, record net { ins = drop n net.ins })

abbrev pub peer : Asio Net
peer = record {
  read = read;
  write = λ bs net. (success, record net { outs = net.outs ++ bs });
  write_server = λ bs net. (success, record net { to_server = net.to_server ++ bs });
  resolve = λ host service net. (success, 1 ∷ [], net);
  close_server_ec = λ net. (success, net);
  connect_server = λ endpoint net. (success, net);
  local_port = λ net. some 4660;
  client_endpoint = λ net. some (codes "10.0.0.2", 50000);
  server_endpoint = λ net. some (codes "10.0.0.3", 80);
  client_is_open = λ net. true;
  server_is_open = λ net. true;
  async_read_client = λ net. net;
  async_read_server = λ net. net;
  close_client = λ net. net;
  close_server = λ net. net;
}

read_all : (xs ys : Bytes) → ltb (length (xs ++ ys)) (length xs) ≡ false
read_all xs ys = ground (arith, length-append xs ys)

pub read_whole :
    (n : Net) (xs ys : Bytes)
    → n.ins ≡ xs ++ ys
    → read (length xs) n ≡ (success, xs, record n { ins = ys })
read_whole n xs ys h =
    rw (h, read_all xs ys, take_append_length xs ys, drop_append_length xs ys) refl

pub read_too_little :
    (n : Net) (k : ℕ) → length n.ins < k → read k n ≡ (eof, [], record n { ins = [] })
read_too_little n k h = let less : ltb (length n.ins) k ≡ true = ground arith in rw less refl

abbrev pub peer_stream : IsStream peer
peer_stream = record {
  incoming = λ n. n.ins;
  outgoing = λ n. n.outs;
  is_up = λ n. true;
  read_ok = λ n xs ys h. (record n { ins = ys }, read_whole n xs ys h, refl, refl, refl);
  read_short = λ n k h. (rw (read_too_little n k h) refl, rw (read_too_little n k h) refl);
  write_ok = λ n bs h. (record n { outs = n.outs ++ bs }, refl, refl, refl, refl);
}

-- Every record is given the number one.
abbrev pub database : Database ℕ
database = record {
  create = λ s db. (some 1, suc db);
  update = λ id bytes dest db. (true, db);
  close = λ id db. (true, db);
}

abbrev pub env : Bool → Env Net ℕ
env auth_flag = record {
  asio = peer;
  database = database;
  auth_flag = auth_flag;
  users = (codes "ann", codes "pw") ∷ [];
}

abbrev pub world : Bytes → World Net ℕ
world ins = record {
  net = record { ins = ins; outs = []; to_server = [] };
  db = 0;
  socks = none;
  id = 0;
  dst_address = [];
  dst_port = 0;
  bind_port = 0;
  username = [];
  atyp = 0;
  cmd = 0;
  session_id = 0;
  is_closed = false;
  client_buf = [];
  server_buf = [];
  sessions = pos 1;
}
