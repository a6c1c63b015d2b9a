-- ===== src/Subscriptions/Tests.antt =====
-- The store of src/lifecycle/EventSubscriptionStore.ts with a webhook.
use run_beacon.Base.{ltb, refl, [], true, none, some}
use run_beacon.Base.Text.{ascii}
use run_beacon.Subscriptions.{
  SaveEventSubscription, Surroundings, SubscriptionStore, webhook, save, load, load_each,
}
use run_beacon.Subscriptions.Kept.{Kept, save-Kept}

abbrev surroundings : Surroundings
surroundings = record {
  is_safe_id = λ id. true;
  is_after = λ a b. ltb b a;
  environment = λ key. none;
  parse_url = λ text. none;
}

abbrev hook : SaveEventSubscription
hook = record {
  id = 3;
  kind = some webhook;
  enabled = none;
  url_env_var = some (ascii "HOOK_URL");
  hmac_secret_env_var = some (ascii "HOOK_SECRET");
}

abbrev no_subscriptions : SubscriptionStore
no_subscriptions = record { subscriptions = []; file = [] }

no_subscriptions-Kept : Kept surroundings no_subscriptions
unfolding load load_each
no_subscriptions-Kept = record {
  entries = record { unique = tt; ids = tt; all = tt };
  reloads = λ k. refl;
}

save-Kept_example : Kept surroundings (save surroundings 5 hook no_subscriptions).1
save-Kept_example = save-Kept surroundings 5 hook no_subscriptions no_subscriptions-Kept
