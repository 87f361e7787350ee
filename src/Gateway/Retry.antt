-- ===== src/Gateway/Retry.antt =====
-- services/model_gateway/providers/openrouter.py: the retry loop of `generate`. The server answers
-- the attempt `i` with `server i`; the request, the time spent asleep and the reading of the JSON are
-- left out.
pub mod Bounded
use Prim.Native.String.{String}
use agnostix_ai_quant_fund.Prelude.{
  ℕ, zero, suc, ◌+◌, ◌≤◌, ◌≡◌, refl, ap, sym, ◌⊎◌, inl, inr, Bool, true, false, ◌&&◌, ◌||◌, List,
  [], ◌∷◌, any, All, leb, ltb, ◌==◌, arith, if◌then◌else◌, subst,
}
use agnostix_ai_quant_fund.Prelude.Outcome.{Outcome, returns, raises}

-- a failure of the transport, or a response with its status
pub data Answer (R : Type 0) : Type 0 where
  transport_error : Answer R
  responded : ℕ → R → Answer R

-- what the loop does with a status
pub data Handling : Type 0 where
  rejected transient accepted : Handling

-- `_NON_RETRYABLE_STATUSES`
abbrev non_retryable_statuses : List ℕ
non_retryable_statuses = 400 ∷ 401 ∷ 402 ∷ 403 ∷ 404 ∷ 422 ∷ []

pub handling_of : ℕ → Handling
handling_of status =
    if any (λ s. s == status) non_retryable_statuses
    then rejected
    else if status == 429 || (leb 500 status && ltb status 600)
    then transient
    else accepted

-- the result, and the attempts after which the adapter slept
abbrev pub Tried : Type 0 → Type 0
Tried R = Outcome (ℕ × R) × List ℕ

module _ {R : Type 0} where
  abbrev handled : ℕ → R → Tried R → Handling → Tried R
  handled status r again rejected = (raises "RuntimeError", [])
  handled status r again transient = again
  handled status r again accepted = (returns (status, r), [])

  -- an attempt after which there may be another one, `again`
  abbrev retry_or : Answer R → Tried R → Tried R
  retry_or transport_error again = again
  retry_or (responded status r) again = handled status r again (handling_of status)

  -- the last attempt
  abbrev last_try : Answer R → Tried R
  last_try transport_error = (raises "TransportError", [])
  last_try (responded status r) =
      handled status r (raises "HTTPStatusError", []) (handling_of status)

  abbrev slept : ℕ → Tried R → Tried R
  slept attempt (result, sleeps) = (result, attempt ∷ sleeps)

  -- the loop, with the retries that are left and the number of the attempt
  pub post_loop : (ℕ → Answer R) → ℕ → ℕ → Tried R
  post_loop server zero attempt = last_try (server attempt)
  post_loop server (suc retries) attempt =
      retry_or (server attempt) (slept attempt (post_loop server retries (suc attempt)))
