-- ===== src/Chunks/Broker/Attempts.antt =====
-- How often withRetry tries, and what it returns.
use mathlib.Core.Path.{subst₂}
use fusey.Base.{
  ℕ, zero, suc, ◌+◌, ◌<◌, ◌≤◌, false, Option, none, some, ◌≡◌, ◌≢◌, refl, arith, ap, sym, ◌∙◌, inl,
  inr, ◌==◌, nat_key, Bool-cases,
}
use fusey.Chunks.Broker.Defs.{
  Http, BrokerStore, Cause, Attempt, done, fail, retryable, last_error, retry, with_retry,
}
use fusey.Chunks.Broker.Retrying.{
  arrive, gives_up, world_at, retry_given_up, retry_done, retry_fail, retry_again, goes_on_or_not,
  Attempt-cases, retry-ne-retryable, retry-recovers, retry-exhausts,
}

-- The same client and attempts, with a count of the attempts.
abbrev pub counting : Http → Http
counting H = record H {
  World = H.World × ℕ;
  send = λ req (w, n). let (w', r) = H.send req w in ((w', n), r);
  wait = λ delay (w, n). let (w', c) = H.wait delay w in ((w', n), c);
}

abbrev pub counted {ℓ} :
    {A : Type ℓ} (H : Http)
    → (H.World → H.World × Attempt A)
    → H.World × ℕ
    → (H.World × ℕ) × Attempt A
counted H fn (w, n) = let (w', r) = fn w in ((w', n + 1), r)

module _ {ℓ} {A : Type ℓ} (H : Http) (blank : A) (base : ℕ)
    (fn : H.World → H.World × Attempt A) where
  abbrev CH : Http
  CH = counting H

  abbrev cfn : CH.World → CH.World × Attempt A
  cfn = counted H fn

  same_arrival :
      (attempt : ℕ) (w : H.World) (n : ℕ)
      → arrive CH blank base cfn attempt (w, n) ≡ (arrive H blank base fn attempt w, n)
  same_arrival attempt w n = elim (Bool-cases (attempt == 0)) [
    | inl start ↦ rw start refl
    | inr later ↦ rw later refl
  ]

  same_patience :
      (attempt : ℕ) (w : H.World) (n : ℕ)
      → gives_up CH blank base cfn attempt (w, n) ≡ gives_up H blank base fn attempt w
  same_patience attempt w n = elim (Bool-cases (attempt == 0)) [
    | inl start ↦ rw start refl
    | inr later ↦ rw later refl
  ]

  -- One run with the count and one without end alike, with no more calls than that.
  abbrev pub Agree : ℕ → CH.World × Attempt A → H.World × Attempt A → Type ℓ
  Agree most x y = (x.0.0 ≡ y.0) × (x.1 ≡ y.1) × (x.0.1 ≤ most)

  retry-calls :
      (left attempt : ℕ) (last : Option Cause) (w : H.World) (n : ℕ)
      → Agree
          (n + left)
          (retry CH blank base cfn left attempt last (w, n))
          (retry H blank base fn left attempt last w)
  unfolding retry
  retry-calls zero attempt last w n = (refl, refl, omega arith)
  retry-calls (suc left) attempt last w n =
      let u = arrive H blank base fn attempt w in
      let there = same_arrival attempt w n in
      let after = λ (r : Attempt A) (got : (fn u).1 ≡ r). ap (λ p. (cfn p).1) there ∙ got in
      elim (goes_on_or_not H blank base fn attempt w) [
        | inl stops ↦
            subst₂ (Agree (n + suc left))
              (sym (
                retry_given_up CH blank base cfn left attempt last (w, n)
                  (same_patience attempt w n ∙ stops)
                ∙ ap (λ p. (p, last_error blank last)) there))
              (sym (retry_given_up H blank base fn left attempt last w stops))
              (refl, refl, omega arith)
        | inr on ↦
            let on' = same_patience attempt w n ∙ on in
            elim (Attempt-cases (fn u).1) [
              | inl (a, got) ↦
                  subst₂ (Agree (n + suc left))
                    (sym (
                      retry_done CH blank base cfn left attempt last (w, n) on' a
                        (after (done a) got)
                      ∙ ap (λ p. ((cfn p).0, done a)) there))
                    (sym (retry_done H blank base fn left attempt last w on a got))
                    (refl, refl, omega arith)
              | inr (inl (e, got)) ↦
                  subst₂ (Agree (n + suc left))
                    (sym (
                      retry_fail CH blank base cfn left attempt last (w, n) on' e
                        (after (fail e) got)
                      ∙ ap (λ p. ((cfn p).0, fail e)) there))
                    (sym (retry_fail H blank base fn left attempt last w on e got))
                    (refl, refl, omega arith)
              | inr (inr (e, got)) ↦
                  subst₂ (Agree (n + suc left))
                    (sym (
                      retry_again CH blank base cfn left attempt last (w, n) on' e
                        (after (retryable e) got)
                      ∙ ap (λ p. retry CH blank base cfn left (attempt + 1) (some e) (cfn p).0)
                          there))
                    (sym (retry_again H blank base fn left attempt last w on e got))
                    (let (world, value, count) =
                        retry-calls left (attempt + 1) (some e) (fn u).0 (n + 1) in
                      (world, value, omega (arith, count)))
            ]
      ]

module _ {ℓ} {A : Type ℓ} (H : Http) (blank : A) (s : BrokerStore)
    (fn : H.World → H.World × Attempt A) (w : H.World) where
  -- withRetry ends after at most as many calls of its function as there are attempts: with a
  -- count of the calls it ends in the same world with the same result, and the count is at most
  -- that.
  pub calls-with_retry :
      Agree H blank s.base_delay fn s.max_attempts
        (with_retry (counting H) s blank (counted H fn) (w, 0))
        (with_retry H s blank fn w)
  unfolding with_retry
  calls-with_retry =
      let (world, value, count) = retry-calls H blank s.base_delay fn s.max_attempts 0 none w 0 in
      (world, value, omega (arith, count))

  pub with_retry-ne-retryable : (e : Cause) → (with_retry H s blank fn w).1 ≢ retryable e
  unfolding with_retry
  with_retry-ne-retryable e = retry-ne-retryable H blank s.base_delay fn s.max_attempts 0 none w e

  module _ (patient : (delay : ℕ) (u : H.World) → (H.wait delay u).1 ≡ false) where
    -- withRetry returns the value of the first attempt that gives one, if every attempt before it
    -- fails with a retryable error, it is among the attempts allowed, and the context does not
    -- end.
    pub with_retry-recovers :
        (k : ℕ) (a : A)
        → k < s.max_attempts
        → ((i : ℕ)
            → i < k
            → (e : Cause) × ((fn (world_at H blank s.base_delay fn i 0 w)).1 ≡ retryable e))
        → (fn (world_at H blank s.base_delay fn k 0 w)).1 ≡ done a
        → (with_retry H s blank fn w).1 ≡ done a
    unfolding with_retry
    with_retry-recovers k a h failing good =
        ap (λ p. p.1)
          (retry-recovers H blank s.base_delay fn patient k s.max_attempts 0 none w a h failing
            good)

    -- withRetry returns the error of the last attempt, unwrapped, if every attempt allowed fails
    -- with a retryable error and the context does not end.
    pub with_retry-exhausts :
        (k : ℕ) (e : Cause)
        → s.max_attempts ≡ suc k
        → ((i : ℕ)
            → i < k
            → (x : Cause) × ((fn (world_at H blank s.base_delay fn i 0 w)).1 ≡ retryable x))
        → (fn (world_at H blank s.base_delay fn k 0 w)).1 ≡ retryable e
        → (with_retry H s blank fn w).1 ≡ fail e
    unfolding with_retry
    with_retry-exhausts k e all failing bad =
        rw all (retry-exhausts H blank s.base_delay fn patient k 0 none w e failing bad)
