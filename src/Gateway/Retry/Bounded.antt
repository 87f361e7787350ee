-- ===== src/Gateway/Retry/Bounded.antt =====
-- The retries of `generate` (services/model_gateway/providers/openrouter.py) are bounded.
use agnostix_ai_quant_fund.Prelude.{
  ℕ, zero, suc, ◌+◌, ◌≡◌, refl, ap, sym, ◌⊎◌, inl, inr, List, [], ◌∷◌, All, arith, subst,
}
use agnostix_ai_quant_fund.Prelude.Outcome.{Outcome, returns, raises}
use agnostix_ai_quant_fund.Gateway.Retry.{
  Answer, transport_error, responded, Handling, rejected, transient, accepted, handling_of, Tried,
  handled, retry_or, last_try, slept, post_loop,
}

-- the numbers from `a` on, `n` of them
abbrev pub range : ℕ → ℕ → List ℕ
range a zero = []
range a (suc n) = a ∷ range (suc a) n

at_start : (a : ℕ) → a + 0 ≡ a
at_start a = omega arith

module _ {R : Type 0} where
  -- an answer after which the adapter tries again, if it may
  abbrev pub IsTransient : Answer R → Type 0
  IsTransient transport_error = Unit
  IsTransient (responded status r) = handling_of status ≡ transient

  -- the answer that ends the loop: it was accepted, or rejected, or there was no retry left
  abbrev pub Ends : Outcome (ℕ × R) → Answer R → ℕ → Type 0
  Ends (returns (status, r)) answer left =
      (answer ≡ responded status r) × (handling_of status ≡ accepted)
  Ends (raises e) answer left =
      ((e ≡ "RuntimeError")
        × (status : ℕ) × (r : R) × (answer ≡ responded status r)
        × (handling_of status ≡ rejected))
      ⊎ (IsTransient answer × (left ≡ 0))

  pub record IsBounded (server : ℕ → Answer R) (retries attempt : ℕ) (tried : Tried R)
      : Type 0 where
    pub count : ℕ
    pub left : ℕ
    pub bounded : count + left ≡ retries
    pub sleeps : tried.1 ≡ range attempt count
    pub retried : All (λ i. IsTransient (server i)) (range attempt count)
    pub ends : Ends tried.0 (server (attempt + count)) left

  -- the loop ends at this attempt
  ended :
      (server : ℕ → Answer R) (retries attempt : ℕ) (o : Outcome (ℕ × R)) (answer : Answer R)
      → server attempt ≡ answer
      → Ends o answer retries
      → IsBounded server retries attempt (o, [])
  ended server retries attempt o answer e h = record {
    count = 0;
    left = retries;
    bounded = omega arith;
    sleeps = refl;
    retried = tt;
    ends =
        subst (λ n. Ends o (server n) retries) (sym (at_start attempt))
          (subst (λ a. Ends o a retries) (sym e) h);
  }

  -- the loop goes on after this attempt
  retried_once :
      (server : ℕ → Answer R) (retries attempt : ℕ) (t : Tried R)
      → IsTransient (server attempt)
      → IsBounded server retries (suc attempt) t
      → IsBounded server (suc retries) attempt (slept attempt t)
  retried_once server retries attempt (o, ss) again b =
      let same : suc attempt + b.count ≡ attempt + suc b.count = omega arith in
      record {
        count = suc b.count;
        left = b.left;
        bounded = omega (arith, b.bounded);
        sleeps = ap (λ xs. attempt ∷ xs) b.sleeps;
        retried = (again, b.retried);
        ends = subst (λ n. Ends o (server n) b.left) same b.ends;
      }

  last_try-IsBounded :
      (server : ℕ → Answer R) (attempt : ℕ) (answer : Answer R)
      → server attempt ≡ answer
      → IsBounded server 0 attempt (last_try answer)
  last_try-IsBounded server attempt transport_error e =
      ended server 0 attempt _ transport_error e (inr (tt, refl))
  last_try-IsBounded server attempt (responded status r) e = go (handling_of status) refl
    where
      go :
          (h : Handling)
          → handling_of status ≡ h
          → IsBounded server 0 attempt (handled status r (raises "HTTPStatusError", []) h)
      go rejected k =
          ended server 0 attempt _ (responded status r) e (inl (refl, status, r, refl, k))
      go transient k = ended server 0 attempt _ (responded status r) e (inr (k, refl))
      go accepted k = ended server 0 attempt _ (responded status r) e (refl, k)

  retry_or-IsBounded :
      (server : ℕ → Answer R) (retries attempt : ℕ) (t : Tried R) (answer : Answer R)
      → server attempt ≡ answer
      → IsBounded server retries (suc attempt) t
      → IsBounded server (suc retries) attempt (retry_or answer (slept attempt t))
  retry_or-IsBounded server retries attempt t transport_error e b =
      retried_once server retries attempt t (subst IsTransient (sym e) tt) b
  retry_or-IsBounded server retries attempt t (responded status r) e b =
      go (handling_of status) refl
    where
      go :
          (h : Handling)
          → handling_of status ≡ h
          → IsBounded server (suc retries) attempt (handled status r (slept attempt t) h)
      go rejected k =
          ended server (suc retries) attempt _ (responded status r) e
            (inl (refl, status, r, refl, k))
      go transient k = retried_once server retries attempt t (subst IsTransient (sym e) k) b
      go accepted k = ended server (suc retries) attempt _ (responded status r) e (refl, k)

  -- The retry loop tries again at most `retries` times, after each of the attempts that it sleeps
  -- after and only after a failure of the transport or a transient status; it returns the accepted
  -- response of the last attempt, and raises where that was rejected, or transient with no retry
  -- left.
  pub post_loop-IsBounded :
      (server : ℕ → Answer R) (retries attempt : ℕ)
      → IsBounded server retries attempt (post_loop server retries attempt)
  unfolding post_loop
  post_loop-IsBounded server zero attempt = last_try-IsBounded server attempt (server attempt) refl
  post_loop-IsBounded server (suc retries) attempt =
      retry_or-IsBounded server retries attempt (post_loop server retries (suc attempt))
        (server attempt) refl (post_loop-IsBounded server retries (suc attempt))
