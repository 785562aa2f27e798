-- ===== src/Entry/Paths.antt =====
-- The paths that src/main.cpp makes on Windows, from where its program stands, in buffers of `PATHSIZE`;
-- service/windows/main.cpp makes its own in the same way.
use socks5_proxy_sum_2022_co.Prelude.{
  ℕ, ◌+◌, ◌≡◌, ◌≢◌, ◌<◌, ◌==◌, ◌&&◌, refl, false, List, [], ◌∷◌, ◌++◌, Option, none, some, Bytes,
  length, take, take_all, ◌-◌, ltb, if◌then◌else◌, codes, All, length-append, Bool-cases, inl, inr,
  arith, ap, ◌∙◌,
}
use mathlib.Core.List.{append_assoc}

abbrev pub path_size : ℕ
path_size = 256

-- `*(strrchr(path, '\\') + 1) = '\0'`: the path up to its last backslash; `none` is a write behind a
-- null pointer, where there is no backslash.
unfoldable pub directory : Bytes → Option Bytes
directory [] = none
directory (c ∷ path) = elim (directory path) [
  | some rest ↦ some (c ∷ rest)
  | none ↦ if c == 92 then some (c ∷ []) else none
]

-- `strcpy` and `strcat` into a buffer of that size; `none` is a write behind its end. The terminator
-- takes a place.
unfoldable pub cat : Bytes → Bytes → Option Bytes
cat path name = if ltb (length path + length name) path_size then some (path ++ name) else none

-- What the program gets of Windows: the path of its file in wide characters and in the system's code
-- page, and `WideCharToMultiByte` to UTF-8 into a buffer of that size.
pub record Module : Type 0 where
  pub file_name_w : List ℕ
  pub file_name_a : Bytes
  -- `none` is a result that does not fit, which leaves the buffer without an end.
  pub to_utf8 : List ℕ → Option Bytes

pub record Paths : Type 0 where
  pub default_database_path : Bytes
  pub default_config_path : Bytes
  pub default_log_path : Bytes

-- `GetModuleFileName` into a buffer of that size cuts a path that is too long.
abbrev pub module_file_name : List ℕ → List ℕ
module_file_name path = take (path_size - 1) path

infixl 5 ◌>>=◌
abbrev pub ◌>>=◌ : {A B : Type 0} → Option A → (A → Option B) → Option B
none >>= f = none
some a >>= f = f a

-- `init` on Windows; `none` is undefined behaviour.
unfoldable pub init : Module → Option Paths
unfolding directory cat
init m = do
  pwd ← directory (module_file_name m.file_name_w)
  utf8_pwd ← m.to_utf8 pwd
  database ← cat utf8_pwd (codes "\\statistics\\statistics.db")
  ansi_pwd ← directory (module_file_name m.file_name_a)
  config ← cat ansi_pwd (codes "config.txt")
  log ← cat ansi_pwd (codes "server.log")
  some (record {
    default_database_path = database;
    default_config_path = config;
    default_log_path = log;
  })

-- `main` of service/windows/main.cpp: the file of its log, and the program that it runs.
unfoldable pub service_paths : List ℕ → Option (List ℕ × List ℕ)
unfolding directory cat
service_paths path = do
  filename ← directory (module_file_name path)
  logfilepath ← cat filename (codes "service.log")
  executable ← cat filename (codes "main.exe")
  some (logfilepath, executable)

abbrev pub HasNoBackslash : List ℕ → Type 0
HasNoBackslash = All (λ c. c ≢ 92)

directory-none : (name : List ℕ) → HasNoBackslash name → directory name ≡ none
unfolding directory
directory-none [] h = refl
directory-none (c ∷ name) (plain, h) =
    let other : (c == 92) ≡ false = ground arith in rw (directory-none name h, other) refl

directory-append :
    (dir name : List ℕ) → HasNoBackslash name → directory (dir ++ 92 ∷ name) ≡ some (dir ++ 92 ∷ [])
unfolding directory
directory-append [] name h = rw (directory-none name h) refl
directory-append (c ∷ dir) name h = rw (directory-append dir name h) refl

directory-module_file_name :
    (path dir name : List ℕ)
    → HasNoBackslash name
    → path ≡ dir ++ 92 ∷ name
    → length path < path_size
    → directory (module_file_name path) ≡ some (dir ++ 92 ∷ [])
directory-module_file_name path dir name plain is_path fits =
    ap directory (take_all (path_size - 1) path (omega arith) ∙ is_path)
    ∙ directory-append dir name plain

-- A name of ten bytes behind a directory.
cat_ten :
    (dir name : Bytes)
    → length name ≡ 10
    → cat (dir ++ 92 ∷ []) name
      ≡ (if ltb (length dir + 11) path_size then some (dir ++ 92 ∷ name) else none)
unfolding cat
cat_ten dir name ten =
    let same : length (dir ++ 92 ∷ []) + length name ≡ length dir + 11 =
      omega (arith, length-append dir (92 ∷ [])) in
    rw (same, append_assoc dir (92 ∷ []) name) refl

-- Where the program's file stands in a directory and its whole path fits a buffer, the three paths are
-- those of the files in that directory, if the directory leaves room for the longest in UTF-8 and in
-- the system's code page; if it does not, `init` writes behind the end of a buffer.
pub init_fits :
    (m : Module) (dir_w name_w : List ℕ) (dir_a name_a utf8 : Bytes)
    → HasNoBackslash name_w
    → HasNoBackslash name_a
    → m.file_name_w ≡ dir_w ++ 92 ∷ name_w
    → m.file_name_a ≡ dir_a ++ 92 ∷ name_a
    → length m.file_name_w < path_size
    → length m.file_name_a < path_size
    → m.to_utf8 (dir_w ++ 92 ∷ []) ≡ some utf8
    → init m ≡ (
        if ltb (length utf8 + 25) path_size && ltb (length dir_a + 11) path_size
        then some (record {
          default_database_path = utf8 ++ codes "\\statistics\\statistics.db";
          default_config_path = dir_a ++ codes "\\config.txt";
          default_log_path = dir_a ++ codes "\\server.log";
        })
        else none)
unfolding init
init_fits m dir_w name_w dir_a name_a utf8 plain_w plain_a is_w is_a fits_w fits_a narrow =
    rw
      (
        init,
        directory-module_file_name m.file_name_w dir_w name_w plain_w is_w fits_w,
        narrow,
        directory-module_file_name m.file_name_a dir_a name_a plain_a is_a fits_a,
        cat_ten dir_a (codes "config.txt") refl,
        cat_ten dir_a (codes "server.log") refl,
      )
      (elim (Bool-cases (ltb (length utf8 + 25) path_size)) [
        | inl wide ↦ elim (Bool-cases (ltb (length dir_a + 11) path_size)) [
          | inl near ↦ rw (cat, wide, near) refl
          | inr far ↦ rw (cat, wide, far) refl
        ]
        | inr long ↦ rw (cat, long) refl
      ])
