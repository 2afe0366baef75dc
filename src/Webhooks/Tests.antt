-- ===== src/Webhooks/Tests.antt =====
-- Webhooks over a library that knows two URLs, and the theorems at concrete inputs.
use hype_coin_predictive_eng.Prelude.{
  ◌≡◌, refl, String, true, false, none, some, List, [], ◌∷◌, if◌then◌else◌, str_eq, mem, All, map,
}
use hype_coin_predictive_eng.Webhooks.Policy.{
  Library, Settings, Parsed, addresses, invalid, non_public, no_host, validate_webhook_url,
  check_parsed, check_host, check_resolution, check_addresses,
}
use hype_coin_predictive_eng.Webhooks.Dispatch.{
  Wire, status, dispatch_webhook, dispatch_valid, send,
}
use hype_coin_predictive_eng.Webhooks.Pass.{
  Registration, register_webhook, dispatch_each, dispatch_alerts, dispatch_signals,
  dispatch_transitions, dispatch_high_signal_webhooks,
}
use hype_coin_predictive_eng.Webhooks.Post.{IsLawful}
use hype_coin_predictive_eng.Webhooks.Runs.{
  Command, wait, register, alerts, pass, no_hooks, step, run, run_posts-IsLawful,
}

program : Unit {0}
unfolding mem check_addresses check_resolution check_host check_parsed validate_webhook_url send
    dispatch_valid dispatch_webhook register_webhook dispatch_each dispatch_alerts dispatch_signals
    dispatch_transitions dispatch_high_signal_webhooks step run
program = tt

abbrev parsed : String → Parsed
parsed host = record {
  scheme = "https";
  hostname = host;
  username = "";
  password = "";
  netloc = host;
  port = some none;
}

abbrev library : Library
library = record {
  urlparse = λ url. some (
      parsed (
        if str_eq url "https://hooks.example/x"
        then "hooks.example"
        else if str_eq url "https://intranet/x"
        then "intranet"
        else ""));
  strip = λ t. t;
  lower = λ t. t;
  split = λ t. t ∷ [];
  contains = λ a b. false;
  getaddrinfo = λ now host port.
      addresses (
        if str_eq host "intranet" then "93.184.215.14" ∷ "10.0.0.7" ∷ [] else "93.184.215.14" ∷ []);
  is_global = λ ip. str_eq ip "93.184.215.14";
}

abbrev settings : Settings
settings = record { webhook_url_allowlist_csv = ""; webhook_allow_private_hosts = false }

abbrev wire : Wire
wire = record {
  dumps = λ b. "{}";
  hmac_sha256 = λ secret bytes. "digest";
  answer = λ p. status 503;
  checking = λ now. 20;
  sending = λ now. 80;
}

abbrev registration : String → Registration
registration url = record {
  url = url;
  name = "desk";
  event_types = [];
  secret = some "key";
  enabled = true;
  cooldown_seconds = 300;
  chain_filter = some "solana";
  min_signal_score = 90;
}

-- The intranet is refused for its second address.
refused_test :
    (validate_webhook_url library settings 0 "https://intranet/x" ≡ invalid (non_public "10.0.0.7"))
    × (validate_webhook_url library settings 0 "" ≡ invalid no_host)
unfolding program
refused_test = (refl, refl)

abbrev commands : List Command
commands =
    register (registration "https://hooks.example/x")
    ∷ register (registration "https://intranet/x")
    ∷ alerts "lifecycle_transition" none none []
    ∷ wait 10000
    ∷ alerts "lifecycle_transition" none none []
    ∷ wait 300000
    ∷ pass (record { actionable = true; extra = []; asset = none } ∷ []) []
    ∷ []

-- The answer 503 starts the cooldown too, and a webhook for solana with a least score gets a signal
-- that has neither.
commands_test :
    map (λ w. map (λ p. p.sent_at) w.posts) (run library settings wire commands no_hooks).webhooks
    ≡ (310120 ∷ 20 ∷ []) ∷ []
unfolding program
commands_test = refl

run_posts-IsLawful_example :
    All
      (λ w. All (IsLawful library settings wire w.secret) w.posts)
      (run library settings wire commands no_hooks).webhooks
run_posts-IsLawful_example = run_posts-IsLawful library settings wire commands
