-- ===== src/Gateway/Telemetry.antt =====
-- The telemetry of the gateway (services/model_gateway/schemas.py, services/model_gateway/gateway.py).
use Prim.Native.String.{String}
use agnostix_ai_quant_fund.Prelude.{
  ℕ, zero, suc, ◌+◌, ◌-◌, ◌≤◌, ◌≡◌, refl, sym, ap, ◌∙◌, ◌⊎◌, inl, inr, Bool, true, false, Option,
  none, some, List, [], ◌∷◌, ◌++◌, length, drop, ltb, arith, length-append, append_assoc,
  append-nil, Bool-cases,
}
use agnostix_ai_quant_fund.Prelude.Outcome.{Outcome, returns, raises}
use agnostix_ai_quant_fund.Gateway.{
  ModelRequest, ModelResponse, CallTelemetry, TelemetrySink, ProviderAdapter, ModelGateway, trim,
  record_call, usable, chosen, first_usable, order_for, select_adapter, answered, selected,
  run_model,
}

module _ {ℓ} {A : Type ℓ} where
  -- the last `max` items of a list
  abbrev pub keep_last : ℕ → List A → List A
  keep_last max xs = drop (length xs - max) xs

  drop-append : (n : ℕ) (xs ys : List A) → n ≤ length xs → drop n (xs ++ ys) ≡ drop n xs ++ ys
  drop-append zero xs ys h = refl
  drop-append (suc n) [] ys h = absurd (omega (arith, h))
  drop-append (suc n) (x ∷ xs) ys h = drop-append n xs ys (omega (arith, h))

  drop_nil : (n : ℕ) → ◌≡◌ {A = List A} (drop n []) []
  drop_nil zero = refl
  drop_nil (suc n) = refl

  drop-drop : (m n : ℕ) (xs : List A) → drop m (drop n xs) ≡ drop (n + m) xs
  drop-drop m zero xs = ap (λ k. drop k xs) (omega arith)
  drop-drop m (suc n) [] = drop_nil m ∙ sym (drop_nil (suc n + m))
  drop-drop m (suc n) (x ∷ xs) =
      let shifted : suc (n + m) ≡ suc n + m = omega arith in
      drop-drop m n xs ∙ ap (λ k. drop k (x ∷ xs)) shifted

  length-drop : (n : ℕ) (xs : List A) → length (drop n xs) ≡ length xs - n
  length-drop zero xs = omega arith
  length-drop (suc n) [] = omega arith
  length-drop (suc n) (x ∷ xs) = omega (arith, length-drop n xs)

  trim-keep_last : (max : ℕ) (xs : List A) → trim max xs ≡ keep_last max xs
  unfolding trim
  trim-keep_last max xs = elim (Bool-cases (ltb max (length xs))) [
    | inl t ↦ rw t refl
    | inr t ↦
        rw t
          (let none_over : 0 ≡ length xs - max = ground (arith, t) in ap (λ k. drop k xs) none_over)
  ]

  keep_last-append :
      (max : ℕ) (xs ys : List A) → keep_last max (keep_last max xs ++ ys) ≡ keep_last max (xs ++ ys)
  keep_last-append max xs ys =
      let k = length xs - max in
      let j = length (drop k xs ++ ys) - max in
      let total : k + j ≡ length (xs ++ ys) - max =
        omega (arith, length-append (drop k xs) ys, length-drop k xs, length-append xs ys) in
      ap (drop j) (sym (drop-append k xs ys (omega arith)))
      ∙ drop-drop j k (xs ++ ys)
      ∙ ap (λ n. drop n (xs ++ ys)) total

-- the records of a sequence of calls
pub record_calls : TelemetrySink → List CallTelemetry → TelemetrySink
record_calls sink [] = sink
record_calls sink (t ∷ ts) = record_calls (record_call sink t) ts

length-keep_last : (max : ℕ) (xs : List CallTelemetry) → length (keep_last max xs) ≤ max
length-keep_last max xs = omega (arith, length-drop (length xs - max) xs)

record_call-records :
    (sink : TelemetrySink) (t : CallTelemetry)
    → (record_call sink t).records ≡ keep_last sink.max_records (sink.records ++ (t ∷ []))
unfolding record_call
record_call-records sink t = trim-keep_last sink.max_records (sink.records ++ (t ∷ []))

record_call-max :
    (sink : TelemetrySink) (t : CallTelemetry) → (record_call sink t).max_records ≡ sink.max_records
unfolding record_call
record_call-max sink t = refl

keep_last_short : (max : ℕ) (xs : List CallTelemetry) → length xs ≤ max → keep_last max xs ≡ xs
keep_last_short max xs h =
    let none_dropped : length xs - max ≡ 0 = omega (arith, h) in ap (λ n. drop n xs) none_dropped

-- A sink that holds at most its maximum holds, after any sequence of calls, the last `max_records`
-- of all the records that it was given, in their order: the trimming after each call loses no record
-- that a single trimming at the end would keep.
pub record_calls-keep_last :
    (ts : List CallTelemetry) (sink : TelemetrySink)
    → length sink.records ≤ sink.max_records
    → (record_calls sink ts).records ≡ keep_last sink.max_records (sink.records ++ ts)
unfolding record_calls
record_calls-keep_last [] sink h = sym (
    ap (keep_last sink.max_records) (append-nil sink.records)
    ∙ keep_last_short sink.max_records sink.records h)
record_calls-keep_last (t ∷ ts) sink h =
    let next = record_call sink t in
    let kept = record_call-records sink t in
    let same = record_call-max sink t in
    let room : length next.records ≤ next.max_records =
      rw (same, kept) (length-keep_last sink.max_records (sink.records ++ (t ∷ []))) in
    record_calls-keep_last ts next room
    ∙ ap (λ m. keep_last m (next.records ++ ts)) same
    ∙ ap (λ rs. keep_last sink.max_records (rs ++ ts)) kept
    ∙ keep_last-append sink.max_records (sink.records ++ (t ∷ [])) ts
    ∙ ap (keep_last sink.max_records) (append_assoc sink.records (t ∷ []) ts)

abbrev pub is_returned {ℓ} : {A : Type ℓ} → Outcome A → Bool
is_returned (returns a) = true
is_returned (raises e) = false

module _ {M C : Type 0} where
  -- what a call of `run` records: nothing where no provider is configured, and else one record
  abbrev pub Logged :
      ModelGateway M C → ModelRequest M → ModelGateway M C → Outcome (ModelResponse C) → Type 0
  Logged g request g' o =
      ((g' ≡ g) × (o ≡ raises "NoProviderConfiguredError"))
      ⊎ ((t : CallTelemetry) × (g'.telemetry ≡ record_call g.telemetry t)
          × (g'.adapters ≡ g.adapters)
          × (t.task ≡ request.task)
          × (t.success ≡ is_returned o))

  chosen-eq-raises :
      (o : Option (ProviderAdapter M C)) (m : Outcome (ProviderAdapter M C)) {e : String}
      → chosen o m ≡ raises e
      → m ≡ raises e
  chosen-eq-raises none m h = h
  chosen-eq-raises (some a) m h = cc

  first_usable-raises :
      (adapters : List (ProviderAdapter M C)) (names : List String) {e : String}
      → first_usable adapters names ≡ raises e
      → e ≡ "NoProviderConfiguredError"
  unfolding first_usable
  first_usable-raises adapters [] h = cc
  first_usable-raises adapters (n ∷ ns) h =
      first_usable-raises adapters ns
        (chosen-eq-raises (usable adapters n) (first_usable adapters ns) h)

  answered-Logged :
      (g : ModelGateway M C) (request : ModelRequest M) (a : ProviderAdapter M C)
      (o : Outcome (ModelResponse C))
      → Logged g request (answered g request a o).0 (answered g request a o).1
  unfolding answered
  answered-Logged g request a (raises e) = inr (_, refl, refl, refl, refl)
  answered-Logged g request a (returns r) = inr (_, refl, refl, refl, refl)

  selected-Logged :
      (g : ModelGateway M C) (request : ModelRequest M) (o : Outcome (ProviderAdapter M C))
      → ((e : String) → o ≡ raises e → e ≡ "NoProviderConfiguredError")
      → Logged g request (selected g request o).0 (selected g request o).1
  unfolding selected
  selected-Logged g request (raises e) h = inl (refl, ap raises (h e refl))
  selected-Logged g request (returns a) h = answered-Logged g request a (a.generate request)

  -- A call of `run` records nothing and raises `NoProviderConfiguredError`, or it records exactly one
  -- call of its task, which is a success just where the call returns; the adapters stay the same.
  pub run_model-Logged :
      (g : ModelGateway M C) (request : ModelRequest M)
      → Logged g request (run_model g request).0 (run_model g request).1
  unfolding run_model select_adapter
  run_model-Logged g request =
      selected-Logged g request
        (first_usable g.adapters (order_for request.model_class g.routing_preference))
        (λ e. first_usable-raises g.adapters (order_for request.model_class g.routing_preference))
