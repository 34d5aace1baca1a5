-- ===== src/Requests/Pings.antt =====
-- The keep-alive task (src/utils/req_manager.rs, `start_keepalive_task`).
use sayna.Prelude.{
  ℕ, zero, suc, ◌+◌, ◌≤◌, ◌≡◌, ap, ◌∙◌, Option, none, some, List, [], ◌∷◌, ltb, arith, replicate,
  is_none, Bool-cases, inl, inr,
}
use sayna.Requests.{Ping, broken, answered, timed_out, KeepAlive, ping, keepalive}

-- Between 2 and 10 seconds, and not yet given up.
abbrev pub IsPaced : KeepAlive → Type 0
IsPaced k =
    (2 ≤ k.current_interval_secs) × (k.current_interval_secs ≤ 10) × (k.consecutive_failures ≤ 10)

abbrev pub IfGoing : (KeepAlive → Type 0) → Option KeepAlive → Type 0
IfGoing P none = Unit {0}
IfGoing P (some k) = P k

ping-IsPaced : (p : Ping) (k : KeepAlive) → IsPaced k → IfGoing IsPaced (ping p k)
unfolding ping
ping-IsPaced answered k (low, high, tries) = ground arith
ping-IsPaced timed_out k (low, high, tries) = (low, high, omega arith)
ping-IsPaced broken k (low, high, tries) = elim (Bool-cases (ltb 10 (k.consecutive_failures + 1))) [
  | inl e ↦ rw e tt
  | inr e ↦ rw e (ground arith)
]

next :
    (rest : KeepAlive → Option KeepAlive) (o : Option KeepAlive)
    → IfGoing IsPaced o
    → ((k : KeepAlive) → IsPaced k → IfGoing IsPaced (rest k))
    → IfGoing IsPaced (elim o [ none ↦ none | some k' ↦ rest k' ])
next rest none i f = tt
next rest (some k) i f = f k i

-- From an interval of 2 to 10 seconds and at most 10 failures in a row, whatever the requests give,
-- the task keeps both bounds as long as it runs.
pub keepalive-IsPaced :
    (ps : List Ping) (k : KeepAlive) → IsPaced k → IfGoing IsPaced (keepalive ps k)
unfolding keepalive
keepalive-IsPaced [] k h = h
keepalive-IsPaced (p ∷ ps) k h =
    next (keepalive ps) (ping p k) (ping-IsPaced p k h) (λ k' i. keepalive-IsPaced ps k' i)

-- The task gives up at the 11th failure in a row and not before: from a state with at most 10
-- failures in a row, after `n` more it has ended exactly if they are more than 10 together.
pub gives_up_at_11 :
    (n : ℕ) (k : KeepAlive)
    → k.consecutive_failures ≤ 10
    → is_none (keepalive (replicate n broken) k) ≡ ltb 10 (k.consecutive_failures + n)
unfolding keepalive
gives_up_at_11 zero k h = ground arith
gives_up_at_11 (suc n) k h = elim (Bool-cases (ltb 10 (k.consecutive_failures + 1))) [
  | inl e ↦ rw (is_none, e) (ground arith)
  | inr e ↦ rw (is_none, e) (gives_up_at_11 n _ (ground arith) ∙ ap (ltb 10) (omega arith))
]
