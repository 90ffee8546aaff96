-- ===== src/Config/App.antt =====
-- go/internal/config/config.go: the credentials of a GitHub App.
use automation_agent.Common.{
  Bool, true, false, not, ◌&&◌, ◌||◌, Option, none, some, [], ◌∷◌, Text, codes, is_empty,
  has_prefix, ℤ, ◌==◌, if◌then◌else◌, Result, ok, err, ◌>>=◌,
}
use automation_agent.Config.Settings.{GitHubApp, no_app, Outside, at_least}
use automation_agent.Config.Env.{Lookup, Error, get_or, parse_int}

-- bytes.Contains(s, t), where `t` is not empty.
abbrev contains : Text → Text → Bool
contains [] t = false
contains (c ∷ s) t = has_prefix (c ∷ s) t || contains s t

-- The escaped newlines, a backslash and an `n`, replaced: `held` says that the last byte was a
-- backslash that is not written yet.
abbrev restore : Bool → Text → Text
restore false [] = []
restore true [] = b'\\' ∷ []
restore false (c ∷ s) =
    let plain = restore false s in
    let held = restore true s in if c == b'\\' then held else c ∷ plain
restore true (c ∷ s) =
    let plain = restore false s in
    let held = restore true s in
    if c == b'n' then 10 ∷ plain else if c == b'\\' then b'\\' ∷ held else b'\\' ∷ c ∷ plain

module _ {F : Type 0} (o : Outside F) where
  -- `normalizePrivateKeyPEM`: whether the block is a PEM block with an RSA key is asked outside.
  pub normalize_private_key_pem : Text → Result Error Text
  normalize_private_key_pem raw =
      let restored =
        if contains raw (codes "-----BEGIN") && contains raw (codes "\\n")
        then restore false raw
        else raw in
      if o.is_rsa_key restored then ok restored else err (codes "GITHUB_APP_PRIVATE_KEY")

  abbrev or_unread : Option Text → Result Error Text
  or_unread none = err (codes "GITHUB_APP_PRIVATE_KEY_PATH")
  or_unread (some raw) = ok raw

  abbrev read_key : Text → Text → Result Error Text
  read_key literal path = if is_empty path then ok literal else or_unread (o.read_file path)

  -- An id, which is a positive number.
  abbrev positive_id : Error → Option ℤ → Result Error ℤ
  positive_id key none = err key
  positive_id key (some n) = if at_least 1 n then ok n else err key

  -- The variables are there: the rest of `resolveGitHubApp`.
  resolve_present : Text → Text → Text → Text → Result Error GitHubApp
  unfolding normalize_private_key_pem
  resolve_present app_id install_id literal path = do
    id ← positive_id (codes "GITHUB_APP_ID") (parse_int app_id)
    installation ← positive_id (codes "GITHUB_APP_INSTALLATION_ID") (parse_int install_id)
    raw ← read_key literal path
    pem ← normalize_private_key_pem raw
    ok (record { app_id = id; installation_id = installation; private_key_pem = pem })

  unfoldable pub resolve_values : Text → Text → Text → Text → Result Error GitHubApp
  unfolding resolve_present
  resolve_values app_id install_id literal path =
      if is_empty app_id && is_empty install_id && is_empty literal && is_empty path
      then ok no_app
      else if is_empty app_id
      then err (codes "GITHUB_APP_ID")
      else if is_empty install_id
      then err (codes "GITHUB_APP_INSTALLATION_ID")
      else if not (is_empty literal) && not (is_empty path)
      then err (codes "GITHUB_APP_PRIVATE_KEY")
      else if is_empty literal && is_empty path
      then err (codes "GITHUB_APP_PRIVATE_KEY")
      else resolve_present app_id install_id literal path

  unfoldable pub resolve_github_app : Lookup → Result Error GitHubApp
  unfolding resolve_values
  resolve_github_app get =
      resolve_values (get_or get (codes "GITHUB_APP_ID") [])
        (get_or get (codes "GITHUB_APP_INSTALLATION_ID") [])
        (get_or get (codes "GITHUB_APP_PRIVATE_KEY") [])
        (get_or get (codes "GITHUB_APP_PRIVATE_KEY_PATH") [])
