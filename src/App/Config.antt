-- ===== src/App/Config.antt =====
-- src/app/models/config.rs: the configuration and its defaults.
use hive_core_v.Base.{ℕ, String, string_eq, Bool, false, Option, none, []}
use hive_core_v.Base.HashMap
use hive_core_v.Base.HashMap.{HashMap}
use hive_core_v.App.RateLimiter.State.{RateLimitTier, unlimited}

pub record Config : Type 0 where
  pub user_authentication : Bool
  pub proxy_port : ℕ
  pub node_connection_port : ℕ
  pub management_connection_port : ℕ
  pub polling_node_connection_timeout : ℕ
  pub working_node_connection_timeout : ℕ
  pub latency_report_timeout : ℕ
  pub proxy_timeout_ms : ℕ
  pub message_chunk_buffer_size : ℕ
  pub database_url : String
  pub capture_dir : String
  pub telegram_bot_token : Option String
  pub telegram_user_id : Option ℕ
  pub telegram_message_thread_id : Option ℕ
  pub rate_limit_tiers : HashMap String RateLimitTier
  pub default_rate_limit_tier : String

abbrev low : RateLimitTier
low = record {
  requests_per_minute = 20;
  requests_per_hour = 100;
  requests_per_day = 500;
  requests_per_week = 2_000;
  requests_per_month = 8_000;
  max_concurrent = 3;
}

abbrev medium : RateLimitTier
medium = record {
  requests_per_minute = 60;
  requests_per_hour = 300;
  requests_per_day = 1_500;
  requests_per_week = 6_000;
  requests_per_month = 24_000;
  max_concurrent = 8;
}

abbrev high : RateLimitTier
high = record {
  requests_per_minute = 200;
  requests_per_hour = 1_000;
  requests_per_day = 5_000;
  requests_per_week = 20_000;
  requests_per_month = 80_000;
  max_concurrent = 25;
}

unfoldable pub default : Config
default = record {
  user_authentication = false;
  proxy_port = 6666;
  node_connection_port = 7777;
  management_connection_port = 6668;
  polling_node_connection_timeout = 10;
  working_node_connection_timeout = 300;
  latency_report_timeout = 30;
  proxy_timeout_ms = 60_000;
  message_chunk_buffer_size = 16_384;
  database_url = "sqlite.db";
  capture_dir = "data/captures";
  telegram_bot_token = none;
  telegram_user_id = none;
  telegram_message_thread_id = none;
  rate_limit_tiers =
      HashMap.insert "unlimited" unlimited
        (HashMap.insert "high" high (HashMap.insert "medium" medium (HashMap.insert "low" low [])));
  default_rate_limit_tier = "low";
}
