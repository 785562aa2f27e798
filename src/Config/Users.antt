-- ===== src/Config/Users.antt =====
-- A block of users written to a file and read by `fillUsers` of src/ConfigReader.cpp.
use socks5_proxy_sum_2022_co.Prelude.{
  ℕ, ◌+◌, ◌^◌, ◌≡◌, ◌<◌, refl, ap, ◌∙◌, Bool, false, ◌||◌, List, [], ◌∷◌, ◌++◌, none, Bytes, length,
  length-append, ◌==◌, contains, is_empty, codes, arith,
}
use socks5_proxy_sum_2022_co.Config.Map.{StringMap, replace, find-replace}
use socks5_proxy_sum_2022_co.Config.Map
use socks5_proxy_sum_2022_co.Config.Text.{is_whitespace}
use socks5_proxy_sum_2022_co.Config.Parse.{
  config_data, entry, gives, closes, login_line, password_line, fill_users,
}
use socks5_proxy_sum_2022_co.Config.Lines.{NoneAre, reduce_visible, entry_at_delimiter}
use socks5_proxy_sum_2022_co.Config.Settings.{
  is_special, NoneAre-mono, NoneAre-append, contains_none, config_data_plain, last_value,
}

-- What a login or a password has none of.
abbrev pub ends_block : ℕ → Bool
ends_block c = is_special c || c == b'}'

pub record IsCredential (value : Bytes) : Type 0 where
  pub value_ne : is_empty value ≡ false
  pub plain : NoneAre ends_block value
  pub small : length value + 10 < 2 ^ 32

-- A line of the block: a label of at most eight bytes and a text.
abbrev pub print : Bytes → Bytes → Bytes
print label value = label ++ b':' ∷ value

abbrev pub print_users : StringMap → List Bytes → List Bytes
print_users [] lines = codes "}" ∷ lines
print_users ((login, password) ∷ users) lines =
    print (codes "login") login ∷ print (codes "password") password ∷ print_users users lines

abbrev pub AreUsers : StringMap → Type 0
AreUsers [] = Unit {0}
AreUsers ((login, password) ∷ users) = (IsCredential login × IsCredential password) × AreUsers users

record IsLabel (label : Bytes) : Type 0 where
  plain : NoneAre ends_block label
  no_colon : NoneAre (λ d. d == b':') label
  short : length label < 9
  label_ne : is_empty label ≡ false

login-IsLabel : IsLabel (codes "login")
login-IsLabel = record {
  plain = (refl, (refl, (refl, (refl, (refl, tt)))));
  no_colon = (refl, (refl, (refl, (refl, (refl, tt)))));
  short = omega arith;
  label_ne = refl;
}

password-IsLabel : IsLabel (codes "password")
password-IsLabel = record {
  plain = (refl, (refl, (refl, (refl, (refl, (refl, (refl, (refl, tt))))))));
  no_colon = (refl, (refl, (refl, (refl, (refl, (refl, (refl, (refl, tt))))))));
  short = omega arith;
  label_ne = refl;
}

visible : (xs : Bytes) → NoneAre ends_block xs → NoneAre is_whitespace xs
visible xs = NoneAre-mono ends_block is_whitespace xs λ c e. ground arith

module _ (label value : Bytes) (l : IsLabel label) (c : IsCredential value) where
  print-plain : NoneAre ends_block (print label value)
  print-plain = NoneAre-append ends_block label b':' value l.plain refl c.plain

  print-contains : contains (print label value) b'}' ≡ false
  print-contains =
      contains_none b'}' _
        (NoneAre-mono ends_block (λ d. d == b'}') _ (λ c e. ground arith) print-plain)

  print-config_data : config_data (print label value) ≡ print label value
  print-config_data =
      config_data_plain _ (NoneAre-mono ends_block is_special _ (λ c e. ground arith) print-plain)
        (omega (arith, l.short, c.small, length-append label (b':' ∷ value)))

  print-entry : entry b':' (print label value) ≡ (label, value)
  print-entry =
      entry_at_delimiter b':' label value l.no_colon (omega (arith, l.short, c.small))
      ∙ rw
          (
            reduce_visible label (visible label l.plain),
            reduce_visible value (visible value c.plain),
          )
          refl

login_line-print :
    (login : Bytes) → IsCredential login → login_line (print (codes "login") login) ≡ gives login
unfolding login_line
login_line-print login c =
    let l = login-IsLabel in
    rw
      (
        print-config_data _ login l c,
        print-contains _ login l c,
        print-entry _ login l c,
        c.value_ne,
      )
      refl

password_line-print :
    (password : Bytes)
    → IsCredential password
    → password_line (print (codes "password") password) ≡ gives password
unfolding password_line
password_line-print password c =
    let l = password-IsLabel in
    rw
      (
        print-config_data _ password l c,
        print-contains _ password l c,
        print-entry _ password l c,
        c.value_ne,
      )
      refl

login_line-brace : login_line (codes "}") ≡ closes
unfolding login_line
login_line-brace = rw (config_data_plain (codes "}") (refl, tt) (omega arith)) refl

-- A block of users without special bytes is read back: the lines behind its brace are left, and a
-- login has the password of its last entry, or what the map had before.
pub fill_users-print :
    (users before : StringMap) (lines : List Bytes)
    → AreUsers users
    → let after = fill_users none (print_users users lines) before in
      (after.1 ≡ lines)
      × ((k : Bytes) → Map.find k after.0 ≡ last_value k users (Map.find k before))
unfolding fill_users
fill_users-print [] before lines plain = rw (fill_users, login_line-brace) (refl, λ k. refl)
fill_users-print ((login, password) ∷ users) before lines plain =
    let (left, found) = fill_users-print users (replace login password before) lines plain.1 in
    let set = λ (k : Bytes). ap (last_value k users) (find-replace login k password before) in
    rw (fill_users, login_line-print login plain.0.0, password_line-print password plain.0.1)
      (left, λ k. found k ∙ set k)
