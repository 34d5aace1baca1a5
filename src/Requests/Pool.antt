-- ===== src/Requests/Pool.antt =====
-- The permits and the gauge of active requests (src/utils/req_manager.rs).
use mathlib.Core.Path.{subst}
use sayna.Prelude.{
  ℕ, suc, ◌+◌, ◌-◌, ◌≤◌, ◌<◌, ◌≡◌, ◌^◌, refl, Bool, true, ltb, arith, Bool-cases, inl, inr, ◌⊎◌,
  is_some, ◌==◌,
}
use sayna.Requests.{
  ReqManager, ReqManagerConfig, ConfigError, with_config, acquire, take_permit, drop_guard,
  reset_metrics,
}

-- What a number of guards in use means for the manager.
abbrev pub HasGuards : ℕ → ReqManager → Type 0
HasGuards n m =
    (m.permits + n ≡ m.config.max_concurrent_requests)
    × (m.metrics.active_requests ≡ n)
    × (m.metrics.peak_concurrent ≤ m.config.max_concurrent_requests)
    × (n ≤ m.metrics.peak_concurrent)
    × (m.config.max_concurrent_requests ≤ 1000)

-- The steps of the callers, with the number of guards in use before and after. The metrics are reset
-- only while no guard is in use.
pub data Step : ℕ → ReqManager → ℕ → ReqManager → Type 0 where
  acquired :
      {n : ℕ} {m : ReqManager} → is_some (acquire m) ≡ true → Step n m (suc n) (take_permit m)
  dropped : {n : ℕ} {m : ReqManager} → Step (suc n) m n (drop_guard m)
  idle_reset : {m : ReqManager} → Step 0 m 0 (reset_metrics m)

pub data Steps (m₀ : ReqManager) : ℕ → ReqManager → Type 0 where
  start : Steps m₀ 0 m₀
  after : {n n' : ℕ} {m m' : ReqManager} → Steps m₀ n m → Step n m n' m' → Steps m₀ n' m'

acquire-permits : (m : ReqManager) → is_some (acquire m) ≡ true → 0 < m.permits
unfolding acquire
acquire-permits m e = ground arith

Step-HasGuards : {n n' : ℕ} {m m' : ReqManager} → Step n m n' m' → HasGuards n m → HasGuards n' m'
unfolding take_permit drop_guard reset_metrics
Step-HasGuards (acquired {m = m} e) (sum, active, high, low, cap) =
    let free = acquire-permits m e in
    (omega arith, omega arith, omega arith, omega arith, omega arith)
Step-HasGuards dropped (sum, active, high, low, cap) =
    (omega arith, omega arith, omega arith, omega arith, omega arith)
Step-HasGuards idle_reset (sum, active, high, low, cap) =
    (omega arith, omega arith, omega arith, omega arith, omega arith)

abbrev pub IfBuilt : (ReqManager → Type 0) → ConfigError ⊎ ReqManager → Type 0
IfBuilt P (inl e) = Unit {0}
IfBuilt P (inr m) = P m

with_config-HasGuards :
    (built : Bool) (config : ReqManagerConfig) → IfBuilt (HasGuards 0) (with_config built config)
unfolding with_config
with_config-HasGuards built config = elim (Bool-cases (config.max_concurrent_requests == 0)) [
  | inl e ↦ rw e tt
  | inr e ↦ rw e (elim (Bool-cases (ltb 1000 config.max_concurrent_requests)) [
    | inl f ↦ rw f tt
    | inr f ↦ rw f (elim (Bool-cases built) [
      | inl b ↦ rw b (omega arith, refl, omega arith, omega arith, ground arith)
      | inr b ↦ rw b tt
    ])
  ])
]

-- From a manager that was built, after any order of acquired and dropped guards and of resets of the
-- metrics while no guard is in use: the guards in use and the free permits make up the configured
-- maximum, the gauge of active requests counts the guards, and the peak lies between the guards and
-- the maximum, which is at most 1000.
pub pool_is_bounded :
    (built : Bool) (config : ReqManagerConfig) (m₀ m : ReqManager) (n : ℕ)
    → with_config built config ≡ inr m₀
    → Steps m₀ n m
    → HasGuards n m
pool_is_bounded built config m₀ m n e start =
    subst (IfBuilt (HasGuards 0)) e (with_config-HasGuards built config)
pool_is_bounded built config m₀ m n e (after s t) =
    Step-HasGuards t (pool_is_bounded built config m₀ _ _ e s)

-- A reset of the metrics while two guards are in use breaks the gauge. When both guards are then
-- dropped it is 2 ^ 64 - 2, and the next acquired guard sets the peak to 2 ^ 64 - 1.
pub reset_breaks_gauge :
    (m : ReqManager)
    → let m' = drop_guard (drop_guard (reset_metrics m)) in
      (m'.metrics.active_requests ≡ 2 ^ 64 - 2)
      × ((take_permit m').metrics.peak_concurrent ≡ 2 ^ 64 - 1)
unfolding take_permit drop_guard reset_metrics
reset_breaks_gauge m = (omega arith, omega arith)
