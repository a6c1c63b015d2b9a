-- ===== src/GitHubApi/Proxy/Choice.antt =====
-- Which proxy `resolveGitHubProxy` of src/lifecycle/GitHubApiClient.ts chooses.
use run_beacon.Base.{
  ◌≡◌, ◌≢◌, refl, sym, ap, ◌∙◌, List, [], ◌∷◌, ◌++◌, true, false, not, Option, none, some,
  if◌then◌else◌, is_empty, map, filter, reverse, inl, inr, ◌⊎◌, Option-cases, Bool-cases, Any, All,
  arith,
}
use mathlib.Core.List.{reverse-append, reverse-reverse}
use run_beacon.Base.Text.{Text, ascii, text_eq, text_eq_sound, text_eq_refl, trim}
use run_beacon.Audit.{lower}
use run_beacon.GitHubApi.Proxy.{
  Url, ProxySource, runbeacon, https_env, http_env, git_url, git, direct, present, env_value,
  normalize_proxy_url, split_commas, without_port, drop_byte, starts_with, ends_with, matches_entry,
  any_matches, matches_no_proxy, first_proxy, candidates_of, no_proxy_of, resolve_git_hub_proxy,
}

abbrev pub first_of : Option Text → Option Text → Option Text
first_of (some v) other = some v
first_of none other = other

-- A value without the white space around it, if anything is left of it.
abbrev pub filled : Option Text → Option Text
filled none = none
filled (some v) = if is_empty (trim v) then none else some (trim v)

-- A variable of the environment, under its name or under the name in lower case.
abbrev pub variable : (Text → Option Text) → Text → Option Text
variable environment name = filled (first_of (environment name) (environment (lower name)))

present-filled : (v : Text) → present v ≡ (if is_empty v then none else some v)
present-filled [] = refl
present-filled (b ∷ bs) = refl

env_value-variable :
    (environment : Text → Option Text) (name : Text)
    → env_value environment name ≡ variable environment name
unfolding env_value
env_value-variable environment name = elim (Option-cases (environment name)) [
  | inr (v, e) ↦ rw (env_value, e) (present-filled (trim v))
  | inl e ↦ elim (Option-cases (environment (lower name))) [
    | inr (v, e') ↦ rw (env_value, e, e') (present-filled (trim v))
    | inl e' ↦ rw (env_value, e, e') refl
  ]
]

-- The proxies that the environment and Git name, in the order in which they are tried.
abbrev pub named_proxies :
    (Text → Option Text) → Option Text → Option Text → List (ProxySource × Option Text)
named_proxies environment git_url_proxy git_proxy =
    (runbeacon, variable environment (ascii "RUNBEACON_GITHUB_PROXY"))
    ∷ (https_env, variable environment (ascii "HTTPS_PROXY"))
    ∷ (http_env, variable environment (ascii "HTTP_PROXY"))
    ∷ (git_url, git_url_proxy)
    ∷ (git, git_proxy)
    ∷ []

candidates_of-named :
    (environment : Text → Option Text) (git_url_proxy git_proxy : Option Text)
    → candidates_of environment git_url_proxy git_proxy
      ≡ named_proxies environment git_url_proxy git_proxy
unfolding candidates_of
candidates_of-named environment git_url_proxy git_proxy =
    rw
      (
        env_value-variable environment (ascii "RUNBEACON_GITHUB_PROXY"),
        env_value-variable environment (ascii "HTTPS_PROXY"),
        env_value-variable environment (ascii "HTTP_PROXY"),
      )
      refl

-- What a candidate list comes to: every candidate is unusable, or the first usable one is taken.
pub data IsFirst (parse : Text → Option Url)
    : List (ProxySource × Option Text) → ProxySource → Option Text → Type 0 where
  exhausted : IsFirst parse [] direct none
  taken :
      {source : ProxySource} {value : Option Text} {rest : List (ProxySource × Option Text)}
      {url : Text}
      → normalize_proxy_url parse value ≡ some url
      → IsFirst parse ((source, value) ∷ rest) source (some url)
  skipped :
      {source chosen : ProxySource} {value url : Option Text}
      {rest : List (ProxySource × Option Text)}
      → normalize_proxy_url parse value ≡ none
      → IsFirst parse rest chosen url
      → IsFirst parse ((source, value) ∷ rest) chosen url

first_proxy-IsFirst :
    (parse : Text → Option Url) (candidates : List (ProxySource × Option Text)) (no_proxy : Text)
    → let r = first_proxy parse candidates no_proxy in IsFirst parse candidates r.source r.url
unfolding first_proxy
first_proxy-IsFirst parse [] no_proxy = exhausted
first_proxy-IsFirst parse ((source, value) ∷ rest) no_proxy =
    elim (Option-cases (normalize_proxy_url parse value)) [
      | inl n ↦ rw (first_proxy, n) (skipped n (first_proxy-IsFirst parse rest no_proxy))
      | inr (url, s) ↦ rw (first_proxy, s) (taken s)
    ]

starts_with_sound : (p t : Text) → starts_with p t ≡ true → (rest : Text) × (t ≡ p ++ rest)
unfolding starts_with
starts_with_sound [] t h = (t, refl)
starts_with_sound (b ∷ p) [] h = absurd (cc)
starts_with_sound (b ∷ p) (c ∷ t) h =
    let (rest, e) = starts_with_sound p t (ground (arith, h)) in (rest, ground (arith, h, e))

starts_with_own : (p rest : Text) → starts_with p (p ++ rest) ≡ true
unfolding starts_with
starts_with_own [] rest = refl
starts_with_own (b ∷ p) rest = ground (arith, starts_with_own p rest)

ends_with_sound :
    (ending t : Text) → ends_with ending t ≡ true → (front : Text) × (t ≡ front ++ ending)
unfolding ends_with
ends_with_sound ending t h =
    let (rest, e) = starts_with_sound (reverse ending) (reverse t) h in
    (
      reverse rest,
      sym (reverse-reverse t)
          ∙ (ap reverse e
              ∙ (reverse-append (reverse ending) rest
                  ∙ ap (λ (u : Text). reverse rest ++ u) (reverse-reverse ending))),
    )

ends_with_own : (front ending : Text) → ends_with ending (front ++ ending) ≡ true
unfolding ends_with
ends_with_own front ending =
    rw (reverse-append front ending) (starts_with_own (reverse ending) (reverse front))

-- The host as it is compared: in lower case, without white space and brackets around it.
abbrev pub bare_host : Text → Text
bare_host hostname = reverse (drop_byte b']' (reverse (drop_byte b'[' (lower (trim hostname)))))

-- The domain of an entry, without its port and the dot at its start.
abbrev pub domain_of : Text → Text
domain_of entry = drop_byte b'.' (without_port entry)

-- An entry names every host with `*`, and else the host of its domain and the hosts below it.
abbrev pub Covers : Text → Text → Type 0
Covers host entry =
    (entry ≡ ascii "*")
    ⊎ ((host ≡ domain_of entry) ⊎ ((front : Text) × (host ≡ front ++ b'.' ∷ domain_of entry)))

-- An entry of NO_PROXY, as it is written, names the host; an empty one names none.
abbrev pub Names : Text → Text → Type 0
Names host written = (lower (trim written) ≢ []) × Covers host (lower (trim written))

matches_entry_sound : (host entry : Text) → matches_entry host entry ≡ true → Covers host entry
unfolding matches_entry
matches_entry_sound host entry h = elim (Bool-cases (text_eq entry (ascii "*"))) [
  | inl t ↦ inl (text_eq_sound entry (ascii "*") t)
  | inr f ↦ elim (Bool-cases (text_eq host (domain_of entry))) [
    | inl t ↦ inr (inl (text_eq_sound host (domain_of entry) t))
    | inr g ↦
        inr (inr (ends_with_sound (b'.' ∷ domain_of entry) host (rw (matches_entry, f, g) at h)))
  ]
]

matches_entry_complete : (host entry : Text) → Covers host entry → matches_entry host entry ≡ true
unfolding matches_entry
matches_entry_complete host entry covers = elim (Bool-cases (text_eq entry (ascii "*"))) [
  | inl t ↦ rw (matches_entry, t) refl
  | inr f ↦ elim (Bool-cases (text_eq host (domain_of entry))) [
    | inl t ↦ rw (matches_entry, f, t) refl
    | inr g ↦ rw (matches_entry, f, g) (ending covers f g)
  ]
]
  where
    ending :
        Covers host entry
        → text_eq entry (ascii "*") ≡ false
        → text_eq host (domain_of entry) ≡ false
        → ends_with (b'.' ∷ domain_of entry) host ≡ true
    ending (inl e) f g =
        absurd (ground (arith, f, ap (λ u. text_eq u (ascii "*")) e ∙ text_eq_refl (ascii "*")))
    ending (inr (inl e)) f g = absurd (
        ground (arith, g, ap (λ u. text_eq u (domain_of entry)) e ∙ text_eq_refl (domain_of entry)))
    ending (inr (inr (front, e))) f g =
        ap (λ (u : Text). ends_with (b'.' ∷ domain_of entry) u) e
        ∙ ends_with_own front (b'.' ∷ domain_of entry)

empty_cases :
    (t : Text) → ((t ≡ []) × (not (is_empty t) ≡ false)) ⊎ ((t ≢ []) × (not (is_empty t) ≡ true))
empty_cases [] = inl (refl, refl)
empty_cases (b ∷ bs) = inr ((λ e. cc), refl)

any_matches_sound :
    (host : Text) (entries : List Text)
    → any_matches host (filter (λ e. not (is_empty e)) (map (λ e. lower (trim e)) entries)) ≡ true
    → Any (Names host) entries
unfolding any_matches
any_matches_sound host [] h = absurd (cc)
any_matches_sound host (e ∷ entries) h = elim (empty_cases (lower (trim e))) [
  | inl (z, t) ↦ inr (any_matches_sound host entries (rw t at h))
  | inr (n, t) ↦ elim (Bool-cases (matches_entry host (lower (trim e)))) [
    | inl m ↦ inl (n, matches_entry_sound host (lower (trim e)) m)
    | inr m ↦ inr (any_matches_sound host entries (rw (t, any_matches, m) at h))
  ]
]

any_matches_complete :
    (host : Text) (entries : List Text)
    → any_matches host (filter (λ e. not (is_empty e)) (map (λ e. lower (trim e)) entries)) ≡ false
    → All (λ e. ¬ Names host e) entries
unfolding any_matches
any_matches_complete host [] h = tt
any_matches_complete host (e ∷ entries) h = elim (empty_cases (lower (trim e))) [
  | inl (z, t) ↦ ((λ k. k.0 z), any_matches_complete host entries (rw t at h))
  | inr (n, t) ↦ elim (Bool-cases (matches_entry host (lower (trim e)))) [
    | inl m ↦ absurd (ground (arith, rw (t, any_matches, m) at h))
    | inr m ↦ (
      (λ k. ground (arith, m, matches_entry_complete host (lower (trim e)) k.1)),
      any_matches_complete host entries (rw (t, any_matches, m) at h),
    )
  ]
]

-- A host that an entry of NO_PROXY names is reached directly. A host that none of them names is reached by
-- the first of these that is a proxy's URL: RUNBEACON_GITHUB_PROXY, HTTPS_PROXY, HTTP_PROXY, each also
-- under its name in lower case, Git's proxy for the URL, Git's proxy; and directly where none is.
pub resolve_git_hub_proxy_lem :
    (parse : Text → Option Url) (environment : Text → Option Text)
    (git_url_proxy git_proxy : Option Text) (hostname : Text)
    → let r = resolve_git_hub_proxy parse environment git_url_proxy git_proxy hostname in
      let entries = split_commas (no_proxy_of environment) in
      (Any (Names (bare_host hostname)) entries × ((r.source ≡ direct) × (r.url ≡ none)))
      ⊎ (All (λ e. ¬ Names (bare_host hostname) e) entries
          × IsFirst parse (named_proxies environment git_url_proxy git_proxy) r.source r.url)
unfolding resolve_git_hub_proxy matches_no_proxy
resolve_git_hub_proxy_lem parse environment git_url_proxy git_proxy hostname =
    let no_proxy = no_proxy_of environment in
    let entries : List Text = split_commas no_proxy in
    elim (Bool-cases (matches_no_proxy hostname no_proxy)) [
      | inl t ↦
          rw (resolve_git_hub_proxy, t)
            (inl (any_matches_sound (bare_host hostname) entries t, (refl, refl)))
      | inr f ↦
          rw (resolve_git_hub_proxy, f, candidates_of-named environment git_url_proxy git_proxy)
            (inr (
              any_matches_complete (bare_host hostname) entries f,
              first_proxy-IsFirst parse (named_proxies environment git_url_proxy git_proxy)
                  no_proxy,
            ))
    ]
