-- ===== src/Requests/Retry.antt =====
-- Retries of a request (src/utils/req_manager.rs, `execute_with_retry`, `calculate_retry_delay`).
use native.Mathlib.Nat.{le-mul_of_pos_right, one-le-pow, mod-lt}
use sayna.Prelude.{
  ℕ, zero, suc, ◌+◌, ◌-◌, ◌*◌, ◌/◌, ◌%◌, ◌≤◌, ◌<◌, ◌≡◌, ◌^◌, refl, ap, ◌∙◌, Bool, true, false, some,
  ltb, arith, ◌==◌, min, length, if◌then◌else◌,
}
use sayna.Requests.{
  ReqManagerConfig, RequestMetrics, response, error, backoff, calculate_retry_delay, retry_loop,
  send, max_attempts,
}

-- Delays of 4 ms and more that fit their machine words.
abbrev pub IsUsable : ReqManagerConfig → Type 0
IsUsable config =
    (4 ≤ config.retry_initial_delay)
    × (config.retry_initial_delay < 2 ^ 63)
    × (4 ≤ config.retry_max_delay)
    × (config.retry_max_delay < 2 ^ 63)
    × (config.max_retries + 1 < 2 ^ 32)

-- The counters are words of 64 bits.
abbrev pub AreWords : RequestMetrics → Type 0
AreWords m =
    (m.total_requests < 2 ^ 64)
    × (m.successful_requests < 2 ^ 64)
    × (m.failed_requests < 2 ^ 64)
    × (m.total_retries < 2 ^ 64)
    × (m.retry_successes < 2 ^ 64)

backoff-least :
    (config : ReqManagerConfig) (attempt : ℕ) → IsUsable config → 4 ≤ backoff config attempt
unfolding backoff
backoff-least config attempt (low, fits, low_max, fits_max, few) =
    let factor = min (2 ^ (attempt - 1)) (2 ^ 64 - 1) in
    let base = config.retry_initial_delay % 2 ^ 64 in
    let one : 1 ≤ 2 ^ (attempt - 1) = one-le-pow (attempt - 1) 2 (omega arith) in
    let positive : 0 < factor = omega arith in
    let grown : base ≤ base * factor = le-mul_of_pos_right base positive in omega arith

backoff-most :
    (config : ReqManagerConfig) (attempt : ℕ) → backoff config attempt ≤ config.retry_max_delay
unfolding backoff
backoff-most config attempt = omega arith

-- The jitter is at most an eighth: the delay before an attempt is drawn, without a panic, within an
-- eighth of the back-off, and is at most 9/8 of the greatest delay. The configured delays are at
-- least 4 ms and below 2 ^ 63 ms, and the attempts fit u32.
pub calculate_retry_delay-near :
    (config : ReqManagerConfig) (attempt nanos : ℕ)
    → IsUsable config
    → let b = backoff config attempt in
      (d : ℕ) × (calculate_retry_delay config attempt nanos ≡ some d)
      × (b - b / 8 ≤ d)
      × (d ≤ b + b / 8)
      × (d ≤ config.retry_max_delay + config.retry_max_delay / 8)
unfolding calculate_retry_delay
calculate_retry_delay-near config attempt nanos (low, fits, low_max, fits_max, few) =
    let b = backoff config attempt in
    let r = b / 4 in
    let least = backoff-least config attempt (low, fits, low_max, fits_max, few) in
    let e : (r == 0) ≡ false = ground arith in
    let j = mod-lt nanos {m = r} (omega arith) in
    let most = backoff-most config attempt in
    (b + nanos % r - r / 2, rw e refl, omega arith, omega arith, omega arith)

module _ (config : ReqManagerConfig) (answers : ℕ → Bool) (clock : ℕ → ℕ) where
  -- The outcome of a loop from attempt `a` that gets its response after `d` more failures.
  loop_answered :
      (d a fuel : ℕ) (failed : Bool) (m : RequestMetrics)
      → IsUsable config
      → AreWords m
      → a + d ≤ config.max_retries
      → d < fuel
      → ((i : ℕ) → i < d → answers (a + i) ≡ false)
      → answers (a + d) ≡ true
      → let (sent, m', delays) = retry_loop config answers clock fuel a failed m in
        (sent ≡ response)
        × (m'.total_retries ≡ (m.total_retries + d) % 2 ^ 64)
        × (m'.retry_successes ≡ (m.retry_successes + (if ltb 0 (a + d) then 1 else 0)) % 2 ^ 64)
        × (m'.total_requests ≡ m.total_requests)
        × (m'.successful_requests ≡ m.successful_requests)
        × (m'.failed_requests ≡ m.failed_requests)
        × (length delays ≡ d)
  unfolding retry_loop
  loop_answered d a zero failed m u fit h enough misses hit = absurd (omega arith)
  loop_answered zero a (suc fuel) failed m (low, fits, low_max, fits_max, few) fit h enough misses
        hit =
      let more : ltb a (max_attempts config answers clock) ≡ true = ground arith in
      let here : answers a ≡ true = ap answers (omega arith) ∙ hit in rw (more, here) (ground arith)
  loop_answered (suc d) a (suc fuel) failed m u fit h enough misses hit =
      let (low, fits, low_max, fits_max, few) = u in
      let more : ltb a (max_attempts config answers clock) ≡ true = ground arith in
      let again : ltb (a + 1) (max_attempts config answers clock) ≡ true = ground arith in
      let here : answers a ≡ false = ap answers (omega arith) ∙ misses 0 (omega arith) in
      let (delay, drawn, _, _, _) = calculate_retry_delay-near config (a + 1) (clock a) u in
      let retried : RequestMetrics = record m { total_retries = (m.total_retries + 1) % 2 ^ 64 } in
      let rest =
        loop_answered d (a + 1) fuel true retried u (fit.0, fit.1, fit.2, omega arith, fit.4)
          (omega arith) (omega arith)
          (λ i l. ap answers (omega arith) ∙ misses (i + 1) (omega arith))
          (ap answers (omega arith) ∙ hit) in
      let (answered, retries, successes, total, ok, bad, slept) = rest in
      let same : a + 1 + d ≡ a + suc d = omega arith in
      rw (more, here, again, drawn)
        (rw again (
          answered,
          retries ∙ omega arith,
          successes ∙ ap (λ k. (m.retry_successes + (if ltb 0 k then 1 else 0)) % 2 ^ 64) same,
          total,
          ok,
          bad,
          ap suc slept,
        ))

  -- The outcome of a loop from attempt `a` that gets no response in its `d + 1` attempts.
  loop_failed :
      (d a fuel : ℕ) (failed : Bool) (m : RequestMetrics)
      → IsUsable config
      → AreWords m
      → a + d ≡ config.max_retries
      → d + 1 < fuel
      → ((i : ℕ) → i ≤ d → answers (a + i) ≡ false)
      → let (sent, m', delays) = retry_loop config answers clock fuel a failed m in
        (sent ≡ error)
        × (m'.total_retries ≡ (m.total_retries + d) % 2 ^ 64)
        × (m'.retry_successes ≡ m.retry_successes)
        × (m'.total_requests ≡ m.total_requests)
        × (m'.successful_requests ≡ m.successful_requests)
        × (m'.failed_requests ≡ m.failed_requests)
        × (length delays ≡ d)
  unfolding retry_loop
  loop_failed d a zero failed m u fit h enough misses = absurd (omega arith)
  loop_failed zero a (suc zero) failed m u fit h enough misses = absurd (omega arith)
  loop_failed zero a (suc (suc fuel)) failed m u fit h enough misses =
      let (low, fits, low_max, fits_max, few) = u in
      let more : ltb a (max_attempts config answers clock) ≡ true = ground arith in
      let over : ltb (a + 1) (max_attempts config answers clock) ≡ false = ground arith in
      let here : answers a ≡ false = ap answers (omega arith) ∙ misses 0 (omega arith) in
      rw (more, here, over)
        (
          refl {a = error},
          omega arith,
          refl {a = m.retry_successes},
          refl {a = m.total_requests},
          refl {a = m.successful_requests},
          refl {a = m.failed_requests},
          refl {a = 0},
        )
  loop_failed (suc d) a (suc fuel) failed m u fit h enough misses =
      let (low, fits, low_max, fits_max, few) = u in
      let more : ltb a (max_attempts config answers clock) ≡ true = ground arith in
      let again : ltb (a + 1) (max_attempts config answers clock) ≡ true = ground arith in
      let here : answers a ≡ false = ap answers (omega arith) ∙ misses 0 (omega arith) in
      let (delay, drawn, _, _, _) = calculate_retry_delay-near config (a + 1) (clock a) u in
      let retried : RequestMetrics = record m { total_retries = (m.total_retries + 1) % 2 ^ 64 } in
      let rest =
        loop_failed d (a + 1) fuel true retried u (fit.0, fit.1, fit.2, omega arith, fit.4)
          (omega arith) (omega arith)
          (λ i l. ap answers (omega arith) ∙ misses (i + 1) (omega arith)) in
      let (failed', retries, successes, total, ok, bad, slept) = rest in
      rw (more, here, again, drawn)
        (rw again (failed', retries ∙ omega arith, successes, total, ok, bad, ap suc slept))

  -- A request whose attempt `k` is the first to get a response, with `k` at most the configured
  -- retries, gets it: after `k` retries and `k` delays, counted as one request and one success, and
  -- as a success of a retry exactly if `k` is not 0, each counter modulo 2 ^ 64. The configured delays
  -- are at least 4 ms and below 2 ^ 63 ms, the attempts fit u32, and the counters start as 64-bit
  -- words.
  pub send_answered :
      (k : ℕ) (m : RequestMetrics)
      → IsUsable config
      → AreWords m
      → k ≤ config.max_retries
      → ((i : ℕ) → i < k → answers i ≡ false)
      → answers k ≡ true
      → let (sent, m', delays) = send config answers clock m in
        (sent ≡ response)
        × (m'.total_retries ≡ (m.total_retries + k) % 2 ^ 64)
        × (m'.retry_successes ≡ (m.retry_successes + (if ltb 0 k then 1 else 0)) % 2 ^ 64)
        × (m'.total_requests ≡ (m.total_requests + 1) % 2 ^ 64)
        × (m'.successful_requests ≡ (m.successful_requests + 1) % 2 ^ 64)
        × (m'.failed_requests ≡ m.failed_requests)
        × (length delays ≡ k)
  unfolding send
  send_answered k m u fit h misses hit =
      let (low, fits, low_max, fits_max, few) = u in
      let m₁ : RequestMetrics = record m { total_requests = (m.total_requests + 1) % 2 ^ 64 } in
      let words : AreWords m₁ = (omega arith, fit.1, fit.2, fit.3, fit.4) in
      let shift : (i : ℕ) → i < k → answers (0 + i) ≡ false =
        λ i l. ap answers (omega arith) ∙ misses i l in
      let hit' : answers (0 + k) ≡ true = ap answers (omega arith) ∙ hit in
      let (answered, retries, successes, total, ok, bad, slept) =
        loop_answered k 0 (max_attempts config answers clock + 1) false m₁ u words (omega arith)
          (omega arith) shift hit' in
      let same : 0 + k ≡ k = omega arith in
      rw answered (
        refl,
        retries,
        successes ∙ ap (λ j. (m.retry_successes + (if ltb 0 j then 1 else 0)) % 2 ^ 64) same,
        total,
        ap (λ j. (j + 1) % 2 ^ 64) ok,
        bad,
        slept,
      )

  -- A request that gets no response in all its attempts ends in an error after the configured
  -- number of retries and delays, counted as one request and one failure, each counter modulo 2 ^ 64.
  -- The configured delays are at least 4 ms and below 2 ^ 63 ms, the attempts fit u32, and the
  -- counters start as 64-bit words.
  pub send_failed :
      (m : RequestMetrics)
      → IsUsable config
      → AreWords m
      → ((i : ℕ) → i ≤ config.max_retries → answers i ≡ false)
      → let (sent, m', delays) = send config answers clock m in
        (sent ≡ error)
        × (m'.total_retries ≡ (m.total_retries + config.max_retries) % 2 ^ 64)
        × (m'.retry_successes ≡ m.retry_successes)
        × (m'.total_requests ≡ (m.total_requests + 1) % 2 ^ 64)
        × (m'.successful_requests ≡ m.successful_requests)
        × (m'.failed_requests ≡ (m.failed_requests + 1) % 2 ^ 64)
        × (length delays ≡ config.max_retries)
  unfolding send
  send_failed m u fit misses =
      let (low, fits, low_max, fits_max, few) = u in
      let m₁ : RequestMetrics = record m { total_requests = (m.total_requests + 1) % 2 ^ 64 } in
      let words : AreWords m₁ = (omega arith, fit.1, fit.2, fit.3, fit.4) in
      let shift : (i : ℕ) → i ≤ config.max_retries → answers (0 + i) ≡ false =
        λ i l. ap answers (omega arith) ∙ misses i l in
      let (failed, retries, successes, total, ok, bad, slept) =
        loop_failed config.max_retries 0 (max_attempts config answers clock + 1) false m₁ u words
          (omega arith) (omega arith) shift in
      rw failed (refl, retries, successes, total, ok, ap (λ j. (j + 1) % 2 ^ 64) bad, slept)
