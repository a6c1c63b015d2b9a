-- ===== src/Subscriptions.antt =====
-- The event subscriptions of src/lifecycle/EventSubscriptionStore.ts: save, delete, get, validateIds, load
-- and persist. The form of an id, the order of ids by `localeCompare`, the environment and `new URL` are
-- parameters; an id is a number. `dispatch` is left out.
pub mod Kept
pub mod Sorted
pub mod Tests
use run_beacon.Base.{
  ℕ, ◌+◌, List, [], ◌∷◌, Bool, true, false, not, ◌&&◌, ◌||◌, Option, none, some, leb, ltb, ◌==◌,
  if◌then◌else◌, get_or, is_some, length, all, contains,
}
use run_beacon.Base.Dict.{Dict, lookup, insert, erase, values}
use run_beacon.Base.Text.{Text, is_alphanumeric}

pub data EventSubscriptionKind : Type 0 where
  codex desktop webhook : EventSubscriptionKind

pub record EventSubscription : Type 0 where
  pub id : ℕ
  pub kind : EventSubscriptionKind
  pub enabled : Bool
  pub url_env_var : Option Text
  pub hmac_secret_env_var : Option Text
  pub created_at : ℕ
  pub updated_at : ℕ

-- The kind is `none` where it is no known one.
pub record SaveEventSubscription : Type 0 where
  pub id : ℕ
  pub kind : Option EventSubscriptionKind
  pub enabled : Option Bool
  pub url_env_var : Option Text
  pub hmac_secret_env_var : Option Text

pub record WebhookUrl : Type 0 where
  pub is_https : Bool
  pub has_userinfo : Bool

pub record Surroundings : Type 0 where
  pub is_safe_id : ℕ → Bool
  pub is_after : ℕ → ℕ → Bool
  pub environment : Text → Option Text
  pub parse_url : Text → Option WebhookUrl

pub record SubscriptionStore : Type 0 where
  pub subscriptions : Dict EventSubscription
  pub file : List EventSubscription

pub data SubscriptionError : Type 0 where
  unsafe_id unsupported_kind no_url_reference bad_url no_secret_reference : SubscriptionError
  unknown_subscription too_many : SubscriptionError

pub data Answer {ℓ} (A : Type ℓ) : Type ℓ where
  ok : A → Answer A
  err : SubscriptionError → Answer A

-- `ENVIRONMENT_REFERENCE`, `/^[A-Za-z_][A-Za-z0-9_]{0,127}$/`
is_reference : Option Text → Bool
is_reference none = false
is_reference (some []) = false
is_reference (some (b ∷ bs)) =
    (is_alphanumeric b || b == b'_')
    && not (leb b'0' b && leb b b'9')
    && all (λ c. is_alphanumeric c || c == b'_') bs
    && leb (length bs) 127

-- `validateWebhookUrl` of a value, if it is set: whether it throws.
is_bad_url : Surroundings → Option Text → Bool
is_bad_url env none = false
is_bad_url env (some []) = false
is_bad_url env (some (b ∷ bs)) = elim (env.parse_url (b ∷ bs)) [
  | none ↦ true
  | some url ↦ not url.is_https || url.has_userinfo
]

is_webhook : EventSubscriptionKind → Bool
is_webhook webhook = true
is_webhook _ = false

-- What `save` throws for its input, or `none`.
pub save_error :
    Surroundings → SaveEventSubscription → EventSubscriptionKind → Option SubscriptionError
unfolding is_reference is_bad_url is_webhook
save_error env input kind =
    if not (env.is_safe_id input.id)
    then some unsafe_id
    else if not (is_webhook kind)
    then none
    else if not (is_reference input.url_env_var)
    then some no_url_reference
    else if is_bad_url env (env.environment (get_or input.url_env_var []))
    then some bad_url
    else if not (is_reference input.hmac_secret_env_var)
    then some no_secret_reference
    else none

place : (ℕ → ℕ → Bool) → EventSubscription → List EventSubscription → List EventSubscription
place is_after v [] = v ∷ []
place is_after v (w ∷ ws) = if is_after v.id w.id then w ∷ place is_after v ws else v ∷ w ∷ ws

pub sort_by_id : (ℕ → ℕ → Bool) → List EventSubscription → List EventSubscription
unfolding place
sort_by_id is_after [] = []
sort_by_id is_after (v ∷ vs) = place is_after v (sort_by_id is_after vs)

-- `list`
pub list : Surroundings → SubscriptionStore → List EventSubscription
unfolding sort_by_id
list env s = sort_by_id env.is_after (values s.subscriptions)

-- `persist`
persist : Surroundings → SubscriptionStore → SubscriptionStore
unfolding list
persist env s = record s { file = list env s }

abbrev created_of : ℕ → Option EventSubscription → ℕ
created_of now none = now
created_of now (some existing) = existing.created_at

saved_subscription :
    ℕ → SaveEventSubscription → EventSubscriptionKind → Option EventSubscription → EventSubscription
unfolding is_webhook
saved_subscription now input kind existing = record {
  id = input.id;
  kind = kind;
  enabled = get_or input.enabled true;
  url_env_var = if is_webhook kind then input.url_env_var else none;
  hmac_secret_env_var = if is_webhook kind then input.hmac_secret_env_var else none;
  created_at = created_of now existing;
  updated_at = now;
}

-- `save`
pub save :
    Surroundings
    → ℕ
    → SaveEventSubscription
    → SubscriptionStore
    → Answer EventSubscription × SubscriptionStore
unfolding save_error persist saved_subscription
save env now input s = elim input.kind [
  | none ↦ if env.is_safe_id input.id then (err unsupported_kind, s) else (err unsafe_id, s)
  | some kind ↦ elim (save_error env input kind) [
    | some e ↦ (err e, s)
    | none ↦
        let saved = saved_subscription now input kind (lookup input.id s.subscriptions) in
        (ok saved, persist env (record s { subscriptions = insert input.id saved s.subscriptions }))
  ]
]

-- `delete`
pub delete : Surroundings → ℕ → SubscriptionStore → Answer EventSubscription × SubscriptionStore
unfolding persist
delete env id s = elim (lookup id s.subscriptions) [
  | none ↦ (err unknown_subscription, s)
  | some existing ↦
      (ok existing, persist env (record s { subscriptions = erase id s.subscriptions }))
]

-- `isStoredSubscription`
pub is_stored_subscription : Surroundings → EventSubscription → Bool
unfolding is_reference is_webhook
is_stored_subscription env item =
    env.is_safe_id item.id
    && (not (is_webhook item.kind)
        || (is_reference item.url_env_var && is_reference item.hmac_secret_env_var))

-- The loop of `load`.
pub load_each :
    Surroundings → List EventSubscription → Dict EventSubscription → Dict EventSubscription
unfolding is_stored_subscription
load_each env [] subscriptions = subscriptions
load_each env (item ∷ items) subscriptions =
    load_each env items
      (if is_stored_subscription env item then insert item.id item subscriptions else subscriptions)

-- `load` of a new store
pub load : Surroundings → List EventSubscription → Dict EventSubscription
unfolding load_each
load env file = load_each env file []

unique_ids : List ℕ → List ℕ → List ℕ
unique_ids seen [] = []
unique_ids seen (id ∷ ids) =
    if contains id seen then unique_ids seen ids else id ∷ unique_ids (id ∷ seen) ids

all_known : Dict EventSubscription → List ℕ → Bool
all_known subscriptions [] = true
all_known subscriptions (id ∷ ids) =
    is_some (lookup id subscriptions) && all_known subscriptions ids

-- `validateIds`
pub validate_ids : List ℕ → SubscriptionStore → Answer (List ℕ)
unfolding unique_ids all_known
validate_ids ids s =
    let unique = unique_ids [] ids in
    if ltb 16 (length unique)
    then err too_many
    else if all_known s.subscriptions unique
    then ok unique
    else err unknown_subscription
