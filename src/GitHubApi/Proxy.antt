-- ===== src/GitHubApi/Proxy.antt =====
-- The proxy for GitHub in src/lifecycle/GitHubApiClient.ts: `resolveGitHubProxy` and `matchesNoProxy`.
-- The environment is a function from names to values. What `new URL` makes of a text is a parameter:
-- whether the protocol is http or https, and the text of the URL.
pub mod Choice
use run_beacon.Base.{
  ℕ, ◌≡◌, refl, List, [], ◌∷◌, Bool, true, false, not, ◌&&◌, ◌||◌, Option, none, some, leb, ◌==◌,
  if◌then◌else◌, get_or, is_empty, map, filter, reverse, inl, inr, ◌⊎◌, Option-cases, Bool-cases,
}
use run_beacon.Base.Text.{Text, ascii, text_eq, trim}
use run_beacon.Audit.{lower}

-- `URL`
pub record Url : Type 0 where
  pub is_http : Bool
  pub text : Text

pub data ProxySource : Type 0 where
  runbeacon https_env http_env git_url git direct : ProxySource

pub record ResolvedGitHubProxy : Type 0 where
  pub url : Option Text
  pub source : ProxySource
  pub no_proxy : Text

-- An empty text counts as none.
abbrev present : Text → Option Text
present [] = none
present (b ∷ bs) = some (b ∷ bs)

-- `envValue`
pub env_value : (Text → Option Text) → Text → Option Text
env_value environment key =
    let found : Option Text = elim (environment key) [
      | some v ↦ some v
      | none ↦ environment (lower key)
    ] in
    elim found [ none ↦ none | some v ↦ present (trim v) ]

-- `normalizeProxyUrl`
pub normalize_proxy_url : (Text → Option Url) → Option Text → Option Text
normalize_proxy_url parse none = none
normalize_proxy_url parse (some value) = elim (present (trim value)) [
  | none ↦ none
  | some trimmed ↦ elim (parse trimmed) [
    | none ↦ none
    | some url ↦ if url.is_http then some url.text else none
  ]
]

-- `value.split(',')`
pub split_commas : Text → List Text
split_commas [] = [] ∷ []
split_commas (b ∷ bs) =
    if b == b','
    then [] ∷ split_commas bs
    else elim (split_commas bs) [ [] ↦ (b ∷ []) ∷ [] | entry ∷ entries ↦ (b ∷ entry) ∷ entries ]

-- The text in reverse order less a port: digits up to a colon, one digit at least.
without_digits : Bool → Text → Text → Text
without_digits found [] whole = whole
without_digits found (b ∷ bs) whole =
    if leb b'0' b && leb b b'9'
    then without_digits true bs whole
    else if b == b':' && found
    then bs
    else whole

-- `entry.replace(/:\d+$/, '')`
pub without_port : Text → Text
unfolding without_digits
without_port entry = let back = reverse entry in reverse (without_digits false back back)

pub drop_byte : ℕ → Text → Text
drop_byte c [] = []
drop_byte c (b ∷ bs) = if b == c then bs else b ∷ bs

starts_with : Text → Text → Bool
starts_with [] text = true
starts_with (p ∷ ps) [] = false
starts_with (p ∷ ps) (b ∷ bs) = p == b && starts_with ps bs

ends_with : Text → Text → Bool
unfolding starts_with
ends_with ending text = starts_with (reverse ending) (reverse text)

-- The test of `matchesNoProxy` on one entry.
pub matches_entry : Text → Text → Bool
unfolding without_port drop_byte ends_with
matches_entry host entry =
    let domain = drop_byte b'.' (without_port entry) in
    text_eq entry (ascii "*") || text_eq host domain || ends_with (b'.' ∷ domain) host

any_matches : Text → List Text → Bool
unfolding matches_entry
any_matches host [] = false
any_matches host (entry ∷ entries) = matches_entry host entry || any_matches host entries

-- `matchesNoProxy`
pub matches_no_proxy : Text → Text → Bool
unfolding split_commas drop_byte any_matches
matches_no_proxy hostname value =
    let opened = drop_byte b'[' (lower (trim hostname)) in
    let host = reverse (drop_byte b']' (reverse opened)) in
    any_matches host (
      filter (λ entry. not (is_empty entry))
        (map (λ entry. lower (trim entry)) (split_commas value)))

-- The first candidate that is a proxy's URL.
pub first_proxy :
    (Text → Option Url) → List (ProxySource × Option Text) → Text → ResolvedGitHubProxy
first_proxy parse [] no_proxy = record { url = none; source = direct; no_proxy = no_proxy }
first_proxy parse ((source, value) ∷ candidates) no_proxy = elim (normalize_proxy_url parse value) [
  | none ↦ first_proxy parse candidates no_proxy
  | some url ↦ record { url = some url; source = source; no_proxy = no_proxy }
]

pub candidates_of :
    (Text → Option Text) → Option Text → Option Text → List (ProxySource × Option Text)
unfolding env_value
candidates_of environment git_url_proxy git_proxy =
    (runbeacon, env_value environment (ascii "RUNBEACON_GITHUB_PROXY"))
    ∷ (https_env, env_value environment (ascii "HTTPS_PROXY"))
    ∷ (http_env, env_value environment (ascii "HTTP_PROXY"))
    ∷ (git_url, git_url_proxy)
    ∷ (git, git_proxy)
    ∷ []

-- The value of NO_PROXY.
abbrev pub no_proxy_of : (Text → Option Text) → Text
no_proxy_of environment = get_or (env_value environment (ascii "NO_PROXY")) []

-- `resolveGitHubProxy`
pub resolve_git_hub_proxy :
    (Text → Option Url)
    → (Text → Option Text)
    → Option Text
    → Option Text
    → Text
    → ResolvedGitHubProxy
unfolding candidates_of matches_no_proxy first_proxy
resolve_git_hub_proxy parse environment git_url_proxy git_proxy hostname =
    let no_proxy = no_proxy_of environment in
    if matches_no_proxy hostname no_proxy
    then record { url = none; source = direct; no_proxy = no_proxy }
    else first_proxy parse (candidates_of environment git_url_proxy git_proxy) no_proxy
