-- ===== src/Health.antt =====
-- src/health: the health checks. Times are in milliseconds; `timestamp` is the time as a text.
pub mod Answers
mod Tests
use stellar_tip_api.Common.{ℕ, ◌-◌, ◌/◌, String, ◌==◌, Option, none, some, if◌then◌else◌, or_text}
use stellar_tip_api.Http.{Result, ok, throws}
use stellar_tip_api.Stellar.Account.{HorizonAccount, AccountInfo, get_account_info}

pub record Health : Type 0 where
  pub status : String
  pub timestamp : String
  pub uptime : ℕ
  pub version : String

pub record Readiness : Type 0 where
  pub status : String
  pub database : String
  pub timestamp : String
  pub message : Option String

pub record RemoteHealth : Type 0 where
  pub status : String
  pub stellar : String
  pub stellar_network : Option String
  pub timestamp : String
  pub message : Option String

unfoldable pub get_health : ℕ → ℕ → Option String → String → Health
get_health start_time now package_version timestamp = record {
  status = "ok";
  timestamp = timestamp;
  uptime = (now - start_time) / 1000;
  version = or_text package_version "0.1.0";
}

-- on what the query `SELECT 1` led to
unfoldable pub get_readiness : Result (Unit {0}) → String → Readiness
get_readiness (ok done) timestamp = record {
  status = "ok";
  database = "connected";
  timestamp = timestamp;
  message = none;
}
get_readiness (throws e) timestamp = record {
  status = "error";
  database = "disconnected";
  timestamp = timestamp;
  message = some "Database connection failed";
}

-- on the account that `getAccountInfo` gave, or what it threw
unfoldable pub remote_health_of : Result AccountInfo → String → RemoteHealth
remote_health_of (ok account) timestamp = record {
  status = "ok";
  stellar = if account.exists then "reachable" else "degraded";
  stellar_network = some account.network;
  timestamp = timestamp;
  message = none;
}
remote_health_of (throws e) timestamp = record {
  status = "error";
  stellar = "unreachable";
  stellar_network = none;
  timestamp = timestamp;
  message = some "Unable to connect to Stellar Horizon";
}

abbrev pub probe : String
probe = "GAAAAAAAAAAAAAAAAAAAAAAAAAAAAAAAAAAAAAAAAAAAAAAAAAAAAWHF"

unfoldable pub get_remote_health : (String → Result HorizonAccount) → String → String → RemoteHealth
unfolding remote_health_of get_account_info
get_remote_health load_account network timestamp =
    remote_health_of (ok (get_account_info load_account network probe)) timestamp

abbrev pub status_code : String → ℕ
status_code status = if status == "ok" then 200 else 503

-- the endpoints, with the code of the response
unfoldable pub get_ready : Result (Unit {0}) → String → ℕ × Readiness
unfolding get_readiness
get_ready query timestamp =
    let result = get_readiness query timestamp in (status_code result.status, result)

unfoldable pub get_remote : (String → Result HorizonAccount) → String → String → ℕ × RemoteHealth
unfolding get_remote_health
get_remote load_account network timestamp =
    let result = get_remote_health load_account network timestamp in
    (status_code result.status, result)
