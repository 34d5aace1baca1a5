-- ===== src/Requests/Tests.antt =====
-- Runs of the request pool (src/utils/req_manager.rs).
use sayna.Prelude.{
  ℕ, ◌+◌, ◌≤◌, ◌<◌, ◌≡◌, refl, Bool, true, false, [], ◌∷◌, leb, arith, is_some, length, inr,
}
use sayna.Requests.{
  ReqManager, RequestMetrics, default_settings, no_metrics, response, send, with_config, acquire,
  take_permit,
}
use sayna.Requests.Retry.{send_answered}
use sayna.Requests.Pool.{HasGuards, start, after, acquired, pool_is_bounded}

abbrev third : ℕ → Bool
third i = leb 2 i

abbrev never : ℕ → Bool
never i = false

abbrev nanos : ℕ → ℕ
nanos i = 1000 + i

third_sleeps : (send default_settings third nanos no_metrics).2 ≡ 88 ∷ 176 ∷ []
unfolding send
third_sleeps = refl

abbrev built : ReqManager
built = record { config = default_settings; permits = 10; metrics = no_metrics }

default_is_built : with_config true default_settings ≡ inr built
unfolding with_config
default_is_built = refl

first_permit : is_some (acquire built) ≡ true
unfolding acquire
first_permit = refl

third_misses : (i : ℕ) → i < 2 → third i ≡ false
third_misses i l = ground arith

-- The counter of the retries is about to wrap.
abbrev worn : RequestMetrics
worn = record no_metrics { total_retries = 18446744073709551615 }

send_answered_example :
    let (sent, m', delays) = send default_settings third nanos worn in
    (sent ≡ response)
    × (m'.total_retries ≡ 1)
    × (m'.retry_successes ≡ 1)
    × (m'.total_requests ≡ 1)
    × (m'.successful_requests ≡ 1)
    × (m'.failed_requests ≡ 0)
    × (length delays ≡ 2)
send_answered_example =
    send_answered default_settings third nanos 2 worn
      (omega arith, omega arith, omega arith, omega arith, omega arith)
      (omega arith, omega arith, omega arith, omega arith, omega arith) (omega arith) third_misses
      refl

never_answers : (i : ℕ) → i ≤ 3 → never i ≡ false
never_answers i l = refl

pool_is_bounded_example : HasGuards 1 (take_permit built)
pool_is_bounded_example =
    pool_is_bounded true default_settings built (take_permit built) 1 default_is_built
      (after start (acquired first_permit))
