-- ===== src/Notifier/Notices.antt =====
-- The operational pushes: `send_rpc_pool_event` and the functions `notify_…`. A number that the source
-- formats is the text of it.
use hype_coin_predictive_eng.Prelude.{
  ℕ, String, Bool, false, List, [], ◌∷◌, ◌++◌, map, Option, none, some, if◌then◌else◌,
}
use hype_coin_predictive_eng.Prelude.Int.{pos}
use hype_coin_predictive_eng.Float.{Float}
use hype_coin_predictive_eng.Notifier.Push.{Piece, text, number, Push, Ntfy, enabled}
use hype_coin_predictive_eng.Pool.Alert.{
  Kind, zero_healthy_endpoints, endpoint_down_cooldown, RpcPoolAlert,
}

abbrev pub notice : Ntfy → List Piece → String → ℕ → String → String → Push
notice n message title priority tags page = record {
  message = message;
  title = text title ∷ [];
  priority = priority;
  tags = tags;
  click = text n.api_base_url ∷ text page ∷ [];
}

abbrev pub rpc_push : Ntfy → RpcPoolAlert → Kind → Push
rpc_push n e zero_healthy_endpoints = record {
  message =
      text (n.upper e.chain_slug)
      ∷ text "RPC pool has zero healthy endpoints"
      ∷ number e.total_endpoints
      ∷ text "down; failover is exhausted."
      ∷ [];
  title = text (n.upper e.chain_slug) ∷ text "RPC Pool Exhausted" ∷ [];
  priority = 5;
  tags = "rotating_light";
  click = text n.api_base_url ∷ text "/health" ∷ [];
}
rpc_push n e (endpoint_down_cooldown url down_for) = record {
  message =
      text (n.upper e.chain_slug)
      ∷ text "RPC endpoint remains down after"
      ∷ number down_for
      ∷ text url
      ∷ text "Healthy endpoints remaining:"
      ∷ number e.healthy_endpoints
      ∷ number e.total_endpoints
      ∷ [];
  title = text (n.upper e.chain_slug) ∷ text "RPC Endpoint Down" ∷ [];
  priority = 4;
  tags = "warning";
  click = text n.api_base_url ∷ text "/health" ∷ [];
}

-- `notify_rpc_pool_event`: false if the notifier is off or the post raises.
abbrev pub notify_rpc_pool_event : Ntfy → (Push → Bool) → RpcPoolAlert → Bool
notify_rpc_pool_event n post e = if enabled n then post (rpc_push n e e.kind) else false

-- What the other functions do with their push.
abbrev pub push_if_enabled : Ntfy → (Push → Bool) → Push → Bool
push_if_enabled n post p = if enabled n then post p else false

abbrev pub notify_lake_backlog : Ntfy → (Push → Bool) → String → String → Bool
notify_lake_backlog n post backlog_rows batch_size = push_if_enabled n post (
    notice n
      (text "Retention backlog is growing:"
        ∷ text backlog_rows
        ∷ text "aged rows remain after a"
        ∷ text batch_size
        ∷ text "row archive batch."
        ∷ [])
      "Serpent Circle - Retention Backlog Warning" 4 "warning" "/retention/growth")

abbrev pub notify_lake_stale : Ntfy → (Push → Bool) → String → String → ℕ → Bool
notify_lake_stale n post stale_hours cadence_hours stale_cycles = push_if_enabled n post (
    notice n
      (text "Lake retention is stale for"
        ∷ text stale_hours
        ∷ number stale_cycles
        ∷ text cadence_hours
        ∷ text "Run the retention pass before relying on archive-backed features."
        ∷ [])
      "Serpent Circle - Stale Lake Warning" 4 "warning" "/health")

module _ (f : Float) where
  -- The days as a number, and as a text with the other amounts.
  abbrev pub notify_lake_budget :
      Ntfy → (Push → Bool) → f.Carrier → String → String → String → String → Bool
  notify_lake_budget n post days_to_full days pct_full growth_rate max_bytes =
      push_if_enabled n post (
        if f.leb days_to_full (f.cents (pos 0))
        then notice n
            (text "Lake is at/over the assumed capacity cap"
              ∷ text pct_full
              ∷ text max_bytes
              ∷ text "prune or move the lake now; compaction cannot keep up with growth."
              ∷ [])
            "Serpent Circle - Lake Full" 5 "rotating_light" "/retention/growth"
        else notice n
            (text "Lake projected to fill in"
              ∷ text days
              ∷ text pct_full
              ∷ text growth_rate
              ∷ text max_bytes
              ∷ text "prune or move the lake before it is full."
              ∷ [])
            "Serpent Circle - Lake Budget Warning" 4 "thermometer" "/retention/growth")

abbrev pub example_lines : List String → List Piece
example_lines [] = []
example_lines (e ∷ l) = text "First mismatches:" ∷ map text (e ∷ l)

abbrev pub notify_parity_mismatch : Ntfy → (Push → Bool) → ℕ → ℕ → String → List String → Bool
notify_parity_mismatch n post mismatch_count compared_assets decision_ts examples =
    push_if_enabled n post (
      notice n
        (text "Lake-vs-SQL parity check failed: the DuckDB lake read path diverges"
          ∷ text "from the live SQL path at decision"
          ∷ text decision_ts
          ∷ number mismatch_count
          ∷ text "mismatches across"
          ∷ number compared_assets
          ∷ text "compared assets."
          ∷ example_lines examples)
        "Serpent Circle - Lake Parity Mismatch" 4 "warning" "/health")

abbrev pub notify_calibration_bias :
    Ntfy → (Push → Bool) → String → String → String → String → String → Bool
notify_calibration_bias n post gap blended_cal real_cal real_test_samples threshold =
    push_if_enabled n post (
      notice n
        (text "Calibration gap widened to"
          ∷ text gap
          ∷ text real_cal
          ∷ text blended_cal
          ∷ text threshold
          ∷ text real_test_samples
          ∷ text "Dense-label interpolation may be masking true model performance."
          ∷ [])
        "Serpent Circle - Calibration Bias Warning" 4 "warning" "/confidence")

abbrev pub driver_lines : List String → List Piece
driver_lines [] = []
driver_lines (r ∷ l) = text "Drivers:" ∷ map text (r ∷ l)

abbrev pub notify_score_drift :
    Ntfy → (Push → Bool) → List String → String → String → String → String → ℕ → Bool
notify_score_drift n post reasons ks_d ks_p distinct_ratio mean_delta compared =
    push_if_enabled n post (
      notice n
        (text "Score-distribution drift: the persisted risk the GUI serves diverges"
          ∷ text "from the current formula over a"
          ∷ number compared
          ∷ text "token sample."
          ∷ text ks_d
          ∷ text ks_p
          ∷ text distinct_ratio
          ∷ text mean_delta
          ∷ (driver_lines reasons
              ++ (text "Run `python scripts/rescore.py` before trusting the served scores." ∷ [])))
        "Serpent Circle - Score Drift Alarm" 4 "warning" "/health")

abbrev pub alert_line : Option ℕ → List Piece
alert_line none = []
alert_line (some id) = text "Alert" ∷ number id ∷ text "is open awaiting your ack." ∷ []

abbrev pub notify_score_drift_partial_rescue : Ntfy → (Push → Bool) → ℕ → ℕ → Option ℕ → Bool
notify_score_drift_partial_rescue n post updated errors alert_id = push_if_enabled n post (
    notice n
      (text "Score-drift AUTO-APPLY PARTIALLY FAILED: the rescue write pass rewrote"
        ∷ number updated
        ∷ text "scores but reported"
        ∷ number errors
        ∷ text "errors: the fleet is only HALF fixed and is NOT resolved."
        ∷ text "The score_drift alert was re-opened pending your ack."
        ∷ text "Fix the write failures, then re-ack and rerun to finish the rescue."
        ∷ alert_line alert_id)
      "Serpent Circle - Score Drift PARTIAL Rescue" 4 "critical" "/health")
