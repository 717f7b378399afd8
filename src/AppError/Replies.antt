-- ===== src/AppError/Replies.antt =====
-- What clients can rely on in an error answer.
use hifi_api_rust.Base.{ℕ, ◌≤◌, ◌<◌, ◌≡◌, refl, ◌⊎◌, inl, inr, Option, none, some, String, arith}
use hifi_api_rust.AppError.{
  AppError, not_found, upstream_error, rate_limited, accounts_busy, internal, status,
  after_failover, into_response,
}

-- Every error is sent as a client or server error, never as a success or a redirect.
pub status_bounds : (e : AppError) → (400 ≤ status e) × (status e < 600)
unfolding status
status_bounds (upstream_error s d) = ground arith
status_bounds _ = omega arith

-- A 429 answer always tells the client when to come back, unless it passes on a 429 of Tidal's as an
-- upstream error.
pub into_response-retry :
    (e : AppError)
    → (into_response e).code ≡ 429
    → ((secs : ℕ) × ((into_response e).retry_after ≡ some secs))
      ⊎ ((d : String) × (e ≡ upstream_error 429 d))
unfolding into_response
into_response-retry (rate_limited secs) h = inl (secs, refl)
into_response-retry (accounts_busy d secs) h = inl (_, refl)
into_response-retry (upstream_error s d) h = inr (d, ground arith)
into_response-retry (not_found d) h = absurd (omega arith)
into_response-retry _ h = absurd (omega arith)

-- A busy pool is reported as such whatever the earlier account's failure was; any other error
-- gives way to that failure, when there was one.
pub after_failover_lem :
    (e : AppError) (previous : Option AppError)
    → ((d : String) × (secs : ℕ) × (e ≡ accounts_busy d secs) × (after_failover e previous ≡ e))
      ⊎ ((previous ≡ none) × (after_failover e previous ≡ e))
      ⊎ ((p : AppError) × (previous ≡ some p) × (after_failover e previous ≡ p))
unfolding after_failover
after_failover_lem (accounts_busy d secs) previous = inl (d, secs, refl, refl)
after_failover_lem (internal d) none = inr (inl (refl, refl))
after_failover_lem (internal d) (some p) = inr (inr (p, refl, refl))
after_failover_lem _ none = inr (inl (refl, refl))
after_failover_lem _ (some p) = inr (inr (p, refl, refl))
