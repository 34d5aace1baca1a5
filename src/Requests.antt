-- ===== src/Requests.antt =====
-- The pool of HTTP requests (src/utils/req_manager.rs): configuration, permits and metrics, retries,
-- and the keep-alive task. The HTTP client is a parameter: what each attempt answers, and the clock.
pub mod Retry
pub mod Pool
pub mod Pings
mod Tests
use sayna.Prelude.{
  ℕ, zero, suc, ◌+◌, ◌-◌, ◌*◌, ◌/◌, ◌%◌, ◌^◌, min, max, Bool, true, false, not, ◌&&◌, Option, none,
  some, List, [], ◌∷◌, ltb, leb, ◌==◌, if◌then◌else◌, ◌⊎◌, inl, inr,
}

-- All of them are u64 counters, whose `fetch_add` wraps.
pub record RequestMetrics : Type 0 where
  pub total_requests : ℕ
  pub successful_requests : ℕ
  pub failed_requests : ℕ
  pub active_requests : ℕ
  pub peak_concurrent : ℕ
  pub total_retries : ℕ
  pub retry_successes : ℕ

-- Durations are in milliseconds.
pub record ReqManagerConfig : Type 0 where
  pub max_concurrent_requests : ℕ
  pub http2_stream_window_size : ℕ
  pub http2_connection_window_size : ℕ
  pub http2_keep_alive_interval : ℕ
  pub http2_keep_alive_timeout : ℕ
  pub pool_max_idle_per_host : ℕ
  pub tcp_keepalive : ℕ
  pub connect_timeout : ℕ
  pub request_timeout : ℕ
  pub max_retries : ℕ
  pub retry_initial_delay : ℕ
  pub retry_max_delay : ℕ
  pub per_request_timeout : ℕ

abbrev pub default_settings : ReqManagerConfig
default_settings = record {
  max_concurrent_requests = 10;
  http2_stream_window_size = 8388608;
  http2_connection_window_size = 16777216;
  http2_keep_alive_interval = 3000;
  http2_keep_alive_timeout = 10000;
  pool_max_idle_per_host = 512;
  tcp_keepalive = 5000;
  connect_timeout = 500;
  request_timeout = 30000;
  max_retries = 3;
  retry_initial_delay = 100;
  retry_max_delay = 500;
  per_request_timeout = 2000;
}

abbrev pub low_latency : ReqManagerConfig
low_latency = record {
  max_concurrent_requests = 20;
  http2_stream_window_size = 4194304;
  http2_connection_window_size = 8388608;
  http2_keep_alive_interval = 2000;
  http2_keep_alive_timeout = 5000;
  pool_max_idle_per_host = 1024;
  tcp_keepalive = 3000;
  connect_timeout = 250;
  request_timeout = 15000;
  max_retries = 3;
  retry_initial_delay = 50;
  retry_max_delay = 300;
  per_request_timeout = 2000;
}

abbrev pub high_throughput : ReqManagerConfig
high_throughput = record {
  max_concurrent_requests = 50;
  http2_stream_window_size = 16777216;
  http2_connection_window_size = 33554432;
  http2_keep_alive_interval = 5000;
  http2_keep_alive_timeout = 15000;
  pool_max_idle_per_host = 256;
  tcp_keepalive = 10000;
  connect_timeout = 1000;
  request_timeout = 60000;
  max_retries = 3;
  retry_initial_delay = 200;
  retry_max_delay = 1000;
  per_request_timeout = 5000;
}

-- `permits` is what the semaphore has left.
pub record ReqManager : Type 0 where
  pub config : ReqManagerConfig
  pub permits : ℕ
  pub metrics : RequestMetrics

pub data ConfigError : Type 0 where
  no_requests too_many_requests client_not_built : ConfigError

abbrev pub no_metrics : RequestMetrics
no_metrics = record {
  total_requests = 0;
  successful_requests = 0;
  failed_requests = 0;
  active_requests = 0;
  peak_concurrent = 0;
  total_retries = 0;
  retry_successes = 0;
}

unfoldable pub with_config : Bool → ReqManagerConfig → ConfigError ⊎ ReqManager
with_config client_built config =
    if config.max_concurrent_requests == 0
    then inl no_requests
    else if ltb 1000 config.max_concurrent_requests
    then inl too_many_requests
    else if client_built
    then inr
        (record { config = config; permits = config.max_concurrent_requests; metrics = no_metrics })
    else inl client_not_built

unfoldable pub take_permit : ReqManager → ReqManager
take_permit m =
    let active = (m.metrics.active_requests + 1) % 2 ^ 64 in
    record m {
      permits = m.permits - 1;
      metrics = record (m.metrics) {
        active_requests = active;
        peak_concurrent = max m.metrics.peak_concurrent active;
      };
    }

-- `none` is the wait for a permit.
unfoldable pub acquire : ReqManager → Option ReqManager
unfolding take_permit
acquire m = if m.permits == 0 then none else some (take_permit m)

-- The drop of a guard, whose permit goes back. `fetch_sub` wraps.
unfoldable pub drop_guard : ReqManager → ReqManager
drop_guard m = record m {
  permits = m.permits + 1;
  metrics = record (m.metrics) {
    active_requests = (m.metrics.active_requests + (2 ^ 64 - 1)) % 2 ^ 64;
  };
}

unfoldable pub reset_metrics : ReqManager → ReqManager
reset_metrics m = record m { metrics = no_metrics }

-- The delay grows with the attempt, up to the greatest; both steps saturate.
unfoldable pub backoff : ReqManagerConfig → ℕ → ℕ
backoff config attempt =
    let base_delay = config.retry_initial_delay % 2 ^ 64 in
    let max_delay = config.retry_max_delay % 2 ^ 64 in
    let factor = min (2 ^ (attempt - 1)) (2 ^ 64 - 1) in
    min (min (base_delay * factor) (2 ^ 64 - 1)) max_delay

-- `none` is the panic of `% 0`. The casts to `i64` are exact for delays below 2 ^ 63 ms, and the
-- `max(0)` is the subtraction of ℕ.
unfoldable pub calculate_retry_delay : ReqManagerConfig → ℕ → ℕ → Option ℕ
unfolding backoff
calculate_retry_delay config attempt nanos =
    let delay = backoff config attempt in
    let jitter_range = delay / 4 in
    if jitter_range == 0 then none else some (delay + nanos % jitter_range - jitter_range / 2)

-- `panicked` is the unwind out of `calculate_retry_delay` or `last_error.unwrap()`.
pub data Sent : Type 0 where
  response error panicked : Sent

-- `answers i` tells whether attempt `i` gets a response, and `clock i` is the time at which its
-- delay is drawn.
module _ (config : ReqManagerConfig) (answers : ℕ → Bool) (clock : ℕ → ℕ) where
  abbrev pub max_attempts : ℕ
  max_attempts = (config.max_retries + 1) % 2 ^ 32

  -- The loop on fuel, with the attempt, whether there is a last error, and the delays slept.
  unfoldable pub retry_loop : ℕ → ℕ → Bool → RequestMetrics → Sent × RequestMetrics × List ℕ
  unfolding calculate_retry_delay
  retry_loop zero attempt failed m = (panicked, m, [])
  retry_loop (suc fuel) attempt failed m =
      let retried = record m { total_retries = (m.total_retries + 1) % 2 ^ 64 } in
      let again = ltb (attempt + 1) max_attempts in
      let (sent, m', delays) = retry_loop fuel (attempt + 1) true (if again then retried else m) in
      if not (ltb attempt max_attempts)
      then (if failed then error else panicked, m, [])
      else if answers attempt
      then (
        response,
        if ltb 0 attempt
            then record m { retry_successes = (m.retry_successes + 1) % 2 ^ 64 }
            else m,
        [],
      )
      else if again
      then elim (calculate_retry_delay config (attempt + 1) (clock attempt)) [
        | none ↦ (panicked, retried, [])
        | some delay ↦ (sent, m', delay ∷ delays)
      ]
      else (sent, m', delays)

  unfoldable pub execute_with_retry : RequestMetrics → Sent × RequestMetrics × List ℕ
  unfolding retry_loop
  execute_with_retry m = retry_loop (max_attempts + 1) 0 false m

  unfoldable pub update_metrics : Sent → RequestMetrics → RequestMetrics
  update_metrics response m = record m {
    successful_requests = (m.successful_requests + 1) % 2 ^ 64;
  }
  update_metrics error m = record m { failed_requests = (m.failed_requests + 1) % 2 ^ 64 }
  update_metrics panicked m = m

  -- `get` and `post`, which differ in the request alone.
  unfoldable pub send : RequestMetrics → Sent × RequestMetrics × List ℕ
  unfolding execute_with_retry update_metrics
  send m =
      let (sent, m', delays) =
        execute_with_retry (record m { total_requests = (m.total_requests + 1) % 2 ^ 64 }) in
      (sent, update_metrics sent m', delays)

-- What a keep-alive request gives.
pub data Ping : Type 0 where
  answered timed_out broken : Ping

pub record KeepAlive : Type 0 where
  pub consecutive_failures : ℕ
  pub current_interval_secs : ℕ

abbrev pub first_ping : KeepAlive
first_ping = record { consecutive_failures = 0; current_interval_secs = 3 }

-- One round of the keep-alive loop; `none` ends the task.
unfoldable pub ping : Ping → KeepAlive → Option KeepAlive
ping answered k = some (record {
  consecutive_failures = 0;
  current_interval_secs =
      if ltb k.current_interval_secs 10
      then k.current_interval_secs + 1
      else k.current_interval_secs;
})
ping timed_out k = some (record k { consecutive_failures = 0 })
ping broken k =
    let failures = k.consecutive_failures + 1 in
    if ltb 10 failures
    then none
    else some (record {
      consecutive_failures = failures;
      current_interval_secs =
          if ltb 2 failures && ltb 2 k.current_interval_secs then 2 else k.current_interval_secs;
    })

unfoldable pub keepalive : List Ping → KeepAlive → Option KeepAlive
unfolding ping
keepalive [] k = some k
keepalive (p ∷ ps) k = elim (ping p k) [ none ↦ none | some k' ↦ keepalive ps k' ]
