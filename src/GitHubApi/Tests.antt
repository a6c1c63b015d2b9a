-- ===== src/GitHubApi/Tests.antt =====
-- `getJson` of src/lifecycle/GitHubApiClient.ts over two attempts.
use run_beacon.Base.{
  Any, All, none, some, Option, true, ◌⊎◌, if◌then◌else◌, ℕ, ◌≡◌, ◌≤◌, refl, List, [], ◌∷◌, All,
}
use run_beacon.GitHubApi.{
  Attempt, json, refused, get_json, max_attempts_of, attempt_timeout_of, got, get_json_from, try,
  wait_before_retry, http_error, is_retryable_status, requested_ms,
}
use run_beacon.Base.Text.{Text, ascii, text_eq}
use run_beacon.GitHubApi.Proxy.{Url, direct, no_proxy_of, split_commas, resolve_git_hub_proxy}
use run_beacon.GitHubApi.Proxy.Choice.{
  Names, bare_host, named_proxies, IsFirst, resolve_git_hub_proxy_lem,
}
use run_beacon.GitHubApi.Deadline.{IsInTime, requests, get_json_lem}

-- A server that is busy, and then answers.
abbrev busy : List (Attempt ℕ)
busy =
    record {
      now = 0;
      answer = refused 503 none;
      first_wait = record { now = 20; random = 500 };
      second_wait = record { now = 20; random = 500 };
    }
    ∷ record {
      now = 280;
      answer = json 7;
      first_wait = record { now = 300; random = 0 };
      second_wait = record { now = 300; random = 0 };
    }
    ∷ []

busy_answers : (get_json none none 9000 busy).0 ≡ got 7
unfolding get_json get_json_from try wait_before_retry http_error is_retryable_status requested_ms
busy_answers = refl

get_json_lem_example :
    let effects = (get_json none none 9000 busy).1 in
    All (IsInTime (attempt_timeout_of none) 9000) effects
    × ((requests effects ≤ max_attempts_of none)
        × ((max_attempts_of none ≤ 5) × (attempt_timeout_of none ≤ 15000)))
get_json_lem_example = get_json_lem none none 9000 busy

abbrev any_url : Text → Option Url
any_url text = some (record { is_http = true; text = text })

abbrev https_proxy : Text → Option Text
https_proxy key = if text_eq key (ascii "HTTPS_PROXY") then some (ascii "http://proxy") else none

resolve_git_hub_proxy_lem_example :
    let r = resolve_git_hub_proxy any_url https_proxy none none (ascii "api.github.com") in
    let entries = split_commas (no_proxy_of https_proxy) in
    (Any (Names (bare_host (ascii "api.github.com"))) entries
      × ((r.source ≡ direct) × (r.url ≡ none)))
    ⊎ (All (λ e. ¬ Names (bare_host (ascii "api.github.com")) e) entries
        × IsFirst any_url (named_proxies https_proxy none none) r.source r.url)
resolve_git_hub_proxy_lem_example =
    resolve_git_hub_proxy_lem any_url https_proxy none none (ascii "api.github.com")
