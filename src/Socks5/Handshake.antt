-- ===== src/Socks5/Handshake.antt =====
-- The whole of `Socks5::init` of src/socks5.cpp up to the command, on a connection that delivers
-- bytes in order: the choice of the method, the login, and the request.
use mathlib.Core.List.{append_assoc, append-nil}
use socks5_proxy_sum_2022_co.Prelude.{
  ◌≡◌, ◌≢◌, refl, sym, Bool, true, false, not, [], ◌∷◌, ◌++◌, Bytes, length, arith, ◌==◌, contains,
  if◌then◌else◌,
}
use socks5_proxy_sum_2022_co.StringUtils.Address.{to_string_lem}
use socks5_proxy_sum_2022_co.Asio.{IsStream, success}
use socks5_proxy_sum_2022_co.Config.Map.{has_user}
use socks5_proxy_sum_2022_co.World.{Env, World, Outcome, returned, pure, ◌>>=◌}
use socks5_proxy_sum_2022_co.World.Triple.{Triple, Triple-pure, Triple-then}
use socks5_proxy_sum_2022_co.Session.Stream.{
  Stands, Result, read_byte-Stands, read_bytes-Stands, write_bytes-Stands, modify-Stands,
}
use socks5_proxy_sum_2022_co.Socks.{auth_success, auth_deny}
use socks5_proxy_sum_2022_co.Socks5.{
  auth_ver, no_acc_methods, method_byte, get_server_method, auth, check_method,
  send_method_response, read_method_request, read_command_request, run_command, init,
}
use socks5_proxy_sum_2022_co.Socks5.Request.{Request, IsRequest, encode, filled, request-Stands}

abbrev pub encode_methods : Bytes → Bytes → Bytes
encode_methods methods rest = length methods ∷ (methods ++ rest)

abbrev pub encode_login : Bytes → Bytes → Bytes → Bytes
encode_login user passwd rest =
    auth_ver ∷ length user ∷ (user ++ (length passwd ∷ (passwd ++ rest)))

-- The two bytes that answer a login.
abbrev pub login_reply : Bool → Bytes
login_reply ok = auth_ver ∷ (if ok then auth_success else auth_deny) ∷ []

-- The two bytes that answer the list of methods.
abbrev pub method_reply : Bool → Bool → Bytes
method_reply auth_flag ok =
    5 ∷ method_byte (if ok then get_server_method auth_flag else no_acc_methods) ∷ []

not_zero : (xs : Bytes) → xs ≢ [] → (length xs == 0) ≡ false
not_zero [] h = absurd (h refl)
not_zero (x ∷ xs) h = ground arith

module _ {Net Db : Type 0} (e : Env Net Db) (s : IsStream e.asio) where
  login-Stands :
      (w₀ : World Net Db) (user passwd rest outs : Bytes)
      → user ≢ []
      → Triple (Stands s w₀ (encode_login user passwd rest) outs) (auth e) (λ ok w.
        (ok ≡ has_user e.users user passwd)
        × Stands s
            (record w₀ { username = user })
            rest
            (outs ++ login_reply (has_user e.users user passwd))
            w)
  unfolding auth
  login-Stands w₀ user passwd rest outs h =
      let after_user = length passwd ∷ (passwd ++ rest) in
      let w₁ = record w₀ { username = user } in
      Triple-then _ (success, 1)
        (read_byte-Stands e s w₀ 1 (length user ∷ (user ++ after_user)) outs)
        (Triple-then _ (success, length user)
          (read_byte-Stands e s w₀ (length user) (user ++ after_user) outs)
          (rw (not_zero user h) (
            Triple-then _ (success, user) (read_bytes-Stands e s w₀ user after_user outs)
              (Triple-then _ (success, length passwd)
                (read_byte-Stands e s w₀ (length passwd) (passwd ++ rest) outs)
                (Triple-then _ (success, passwd) (read_bytes-Stands e s w₀ passwd rest outs)
                  (rw (to_string_lem user, to_string_lem passwd)
                    (Triple-then _ tt (modify-Stands e s w₀ _ rest outs λ w n. refl) (
                      Triple-then _ success (write_bytes-Stands e s w₁ _ rest outs)
                        (Triple-pure _ λ w p. (refl, p))))))))))

  -- A login is answered by one byte that says whether the configuration has the user with just that
  -- password; the result says the same, and the user is stored.
  pub auth-encode_login :
      (w : World Net Db) (user passwd rest : Bytes)
      → user ≢ []
      → s.incoming w.net ≡ encode_login user passwd rest
      → s.is_up w.net ≡ true
      → ((auth e w).0 ≡ has_user e.users user passwd)
        × Stands s
            (record w { username = user })
            rest
            (s.outgoing w.net ++ login_reply (has_user e.users user passwd))
            (auth e w).1
  auth-encode_login w user passwd rest h coming up =
      (login-Stands w user passwd rest (s.outgoing w.net) h).at w
        (record { same = refl; coming = coming; sent = refl; up = up })

  check_method-Stands :
      (w₀ : World Net Db) (methods rest outs : Bytes)
      → Triple
          (Stands s w₀ (encode_methods methods rest) outs)
          (check_method e)
          (Result e s w₀ (contains methods (method_byte (get_server_method e.auth_flag))) rest outs)
  unfolding check_method
  check_method-Stands w₀ methods rest outs =
      Triple-then _ (success, length methods)
        (read_byte-Stands e s w₀ (length methods) (methods ++ rest) outs)
        (Triple-then _ (success, methods) (read_bytes-Stands e s w₀ methods rest outs)
          (Triple-pure _ λ w p. (refl, p)))

  methods-Stands :
      (w₀ : World Net Db) (methods rest outs : Bytes) (ok : Bool)
      → contains methods (method_byte (get_server_method e.auth_flag)) ≡ ok
      → Triple
          (Stands s w₀ (encode_methods methods rest) outs)
          (read_method_request e)
          (Result e s w₀ ok rest (outs ++ method_reply e.auth_flag ok))
  unfolding read_method_request send_method_response
  methods-Stands w₀ methods rest outs true h =
      Triple-then _ true (rw h at (check_method-Stands w₀ methods rest outs)) (
        Triple-then _ false
          (Triple-then _ success (write_bytes-Stands e s w₀ _ rest outs)
            (Triple-pure _ λ w p. (refl, p)))
          (Triple-pure _ λ w p. (refl, p)))
  methods-Stands w₀ methods rest outs false h =
      Triple-then _ false (rw h at (check_method-Stands w₀ methods rest outs)) (
        Triple-then _ false
          (Triple-then _ success (write_bytes-Stands e s w₀ _ rest outs)
            (Triple-pure _ λ w p. (refl, p)))
          (Triple-pure _ λ w p. (refl, p)))

  -- The list of methods is answered by the server's method if it is in the list, and by 0xFF if it
  -- is not; the result says which.
  pub read_method_request-encode :
      (w : World Net Db) (methods rest : Bytes)
      → let ok = contains methods (method_byte (get_server_method e.auth_flag)) in
        s.incoming w.net ≡ encode_methods methods rest
        → s.is_up w.net ≡ true
        → ((read_method_request e w).0 ≡ ok)
          × Stands s w rest
              (s.outgoing w.net ++ method_reply e.auth_flag ok)
              (read_method_request e w).1
  read_method_request-encode w methods rest coming up =
      (methods-Stands w methods rest (s.outgoing w.net) _ refl).at w
        (record { same = refl; coming = coming; sent = refl; up = up })

-- What a client sends first: the list of methods, and a login where the server asks for one.
abbrev pub encode_hello : Bool → Bytes → Bytes → Bytes → Bytes → Bytes
encode_hello auth_flag methods user passwd rest =
    encode_methods methods (if auth_flag then encode_login user passwd rest else rest)

-- What it is answered, and the state that it leaves.
abbrev pub hello_reply : Bool → Bytes
hello_reply auth_flag = method_reply auth_flag true ++ (if auth_flag then login_reply true else [])

abbrev pub greeted : {Net Db : Type 0} → Bool → Bytes → World Net Db → World Net Db
greeted auth_flag user w = if auth_flag then record w { username = user } else w

module _ {Net Db : Type 0} (e : Env Net Db) (s : IsStream e.asio) where
  -- The call behaves as `run_command` does at a state like `w₀`.
  abbrev pub RunsAt : World Net Db → Bytes → Bytes → Outcome Bool → World Net Db → Type 0
  RunsAt w₀ ins outs o v =
      (w : World Net Db) × Stands s w₀ ins outs w
      × (o ≡ (run_command e w).0)
      × (v ≡ (run_command e w).1)

  request-RunsAt :
      (w₀ : World Net Db) (r : Request) (rest outs : Bytes)
      → IsRequest r
      → Triple
          (Stands s w₀ (encode r rest) outs)
          (do
            command_ok ← read_command_request e
            if not command_ok then pure (returned false) else run_command e)
          (RunsAt (filled w₀ r) rest outs)
  request-RunsAt w₀ r rest outs h =
      Triple-then _ true (request-Stands e s w₀ r rest outs h)
        (record { at = λ w p. (w, p, refl, refl) })

  hello-RunsAt :
      (w₀ : World Net Db) (flag : Bool) (user passwd : Bytes) (r : Request) (rest outs : Bytes)
      → IsRequest r
      → (flag ≡ true → (user ≢ []) × (has_user e.users user passwd ≡ true))
      → Triple
          (Stands s w₀
            (if flag then encode_login user passwd (encode r rest) else encode r rest)
            outs)
          (do
            auth_ok ← if flag then auth e else pure true
            if not auth_ok then pure (returned false) else do
              command_ok ← read_command_request e
              if not command_ok then pure (returned false) else run_command e)
          (RunsAt
            (filled (greeted flag user w₀) r)
            rest
            (outs ++ (if flag then login_reply true else [])))
  hello-RunsAt w₀ true user passwd r rest outs h known =
      let (ne, ok) = known refl in
      Triple-then _ true (rw ok at (login-Stands e s w₀ user passwd (encode r rest) outs ne))
        (request-RunsAt _ r rest _ h)
  hello-RunsAt w₀ false user passwd r rest outs h known =
      Triple-then _ true (Triple-pure _ λ w p. (refl, p))
        (rw append-nil (request-RunsAt w₀ r rest outs h))

  -- A client that offers the server's method, gives a login of the configuration where one is
  -- asked for, and sends a well-formed request, is answered as the protocol says and gets to its
  -- command: `init` ends as `run_command` does, at a state that holds just the user and the request.
  pub init-encode :
      (w : World Net Db) (methods user passwd : Bytes) (r : Request) (rest : Bytes)
      → contains methods (method_byte (get_server_method e.auth_flag)) ≡ true
      → (e.auth_flag ≡ true → (user ≢ []) × (has_user e.users user passwd ≡ true))
      → IsRequest r
      → s.incoming w.net ≡ encode_hello e.auth_flag methods user passwd (encode r rest)
      → s.is_up w.net ≡ true
      → RunsAt
          (filled (greeted e.auth_flag user w) r)
          rest
          (s.outgoing w.net ++ hello_reply e.auth_flag)
          (init e w).0
          (init e w).1
  unfolding init
  init-encode w methods user passwd r rest offered known h coming up =
      let outs = s.outgoing w.net in
      let login = encode_login user passwd (encode r rest) in
      let after = if e.auth_flag then login else encode r rest in
      let answered = if e.auth_flag then login_reply true else [] in
      let steps =
        Triple-then _ true (methods-Stands e s w methods after outs true offered)
          (hello-RunsAt w e.auth_flag user passwd r rest _ h known) in
      rw (sym (append_assoc outs (method_reply e.auth_flag true) answered))
        (steps.at w (record { same = refl; coming = coming; sent = refl; up = up }))
