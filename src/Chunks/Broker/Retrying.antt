-- ===== src/Chunks/Broker/Retrying.antt =====
-- The retry loop.
use Prim.Native.Nat.{min}
use mathlib.Core.Path.{subst}
use fusey.Base.{
  ℕ, zero, suc, ◌+◌, ◌*◌, ◌^◌, ◌-◌, ◌<◌, Bool, true, false, Option, none, some, ◌≡◌, ◌≢◌, refl,
  arith, ap, sym, ◌∙◌, ◌⊎◌, inl, inr, ◌==◌, nat_key, if◌then◌else◌, Bool-cases,
}
use fusey.Base.Word.{lt64-eq}
use fusey.Chunks.Broker.Defs.{
  Http, Cause, Attempt, done, fail, retryable, retry_delay, max_retry_delay, last_error, retry,
}

-- Without overflow, the delay doubles with each attempt, up to eight seconds.
pub retry_delay_lem :
    (base attempt : ℕ)
    → base * 2 ^ (attempt - 1) < 2 ^ 63
    → retry_delay base attempt ≡ min (base * 2 ^ (attempt - 1)) max_retry_delay
unfolding retry_delay
retry_delay_lem base attempt h = ground (arith, lt64-eq max_retry_delay (base * 2 ^ (attempt - 1)))

pub Attempt-cases {ℓ} :
    {A : Type ℓ} (r : Attempt A)
    → ((a : A) × (r ≡ done a)) ⊎ (((e : Cause) × (r ≡ fail e)) ⊎ ((e : Cause) × (r ≡ retryable e)))
Attempt-cases (done a) = inl (a, refl)
Attempt-cases (fail e) = inr (inl (e, refl))
Attempt-cases (retryable e) = inr (inr (e, refl))

module _ {ℓ} {A : Type ℓ} (H : Http) (blank : A) (base : ℕ)
    (fn : H.World → H.World × Attempt A) where
  -- The world in which an attempt starts.
  abbrev pub arrive : ℕ → H.World → H.World
  arrive attempt w = if attempt == 0 then w else (H.wait (retry_delay base attempt) w).0

  -- Whether the context ends before it starts.
  abbrev pub gives_up : ℕ → H.World → Bool
  gives_up attempt w = if attempt == 0 then false else (H.wait (retry_delay base attempt) w).1

  module _ (left attempt : ℕ) (last : Option Cause) (w : H.World) where
    pub retry_given_up :
        gives_up attempt w ≡ true
        → retry H blank base fn (suc left) attempt last w
          ≡ (arrive attempt w, last_error blank last)
    unfolding retry
    retry_given_up h = ground arith

    module _ (goes_on : gives_up attempt w ≡ false) where
      pub retry_done :
          (a : A)
          → (fn (arrive attempt w)).1 ≡ done a
          → retry H blank base fn (suc left) attempt last w ≡ ((fn (arrive attempt w)).0, done a)
      unfolding retry
      retry_done a h = ground arith

      pub retry_fail :
          (e : Cause)
          → (fn (arrive attempt w)).1 ≡ fail e
          → retry H blank base fn (suc left) attempt last w ≡ ((fn (arrive attempt w)).0, fail e)
      unfolding retry
      retry_fail e h = ground arith

      pub retry_again :
          (e : Cause)
          → (fn (arrive attempt w)).1 ≡ retryable e
          → retry H blank base fn (suc left) attempt last w
            ≡ retry H blank base fn left (attempt + 1) (some e) (fn (arrive attempt w)).0
      unfolding retry
      retry_again e h = ground arith

  pub goes_on_or_not :
      (attempt : ℕ) (w : H.World) → (gives_up attempt w ≡ true) ⊎ (gives_up attempt w ≡ false)
  goes_on_or_not attempt w = Bool-cases (gives_up attempt w)

  last_error-ne-retryable : (last : Option Cause) (e : Cause) → last_error blank last ≢ retryable e
  last_error-ne-retryable none e = λ h. ground arith
  last_error-ne-retryable (some x) e = λ h. ground arith

  pub retry-ne-retryable :
      (left attempt : ℕ) (last : Option Cause) (w : H.World) (e : Cause)
      → (retry H blank base fn left attempt last w).1 ≢ retryable e
  unfolding retry
  retry-ne-retryable zero attempt last w e = last_error-ne-retryable last e
  retry-ne-retryable (suc left) attempt last w e = λ h. elim (goes_on_or_not attempt w) [
    | inl stops ↦
        last_error-ne-retryable last e
          (sym (ap (λ p. p.1) (retry_given_up left attempt last w stops)) ∙ h)
    | inr on ↦ elim (Attempt-cases (fn (arrive attempt w)).1) [
      | inl (a, got) ↦
          absurd (ground (arith, ap (λ p. p.1) (retry_done left attempt last w on a got)))
      | inr (inl (x, got)) ↦
          absurd (ground (arith, ap (λ p. p.1) (retry_fail left attempt last w on x got)))
      | inr (inr (x, got)) ↦
          retry-ne-retryable left (attempt + 1) (some x) (fn (arrive attempt w)).0 e
            (sym (ap (λ p. p.1) (retry_again left attempt last w on x got)) ∙ h)
    ]
  ]

  -- The world in which the attempt `k` after this one starts, if each before it fails.
  abbrev pub world_at : ℕ → ℕ → H.World → H.World
  world_at zero attempt w = arrive attempt w
  world_at (suc k) attempt w = world_at k (attempt + 1) (fn (arrive attempt w)).0

  module _ (patient : (delay : ℕ) (w : H.World) → (H.wait delay w).1 ≡ false) where
    never_gives_up : (attempt : ℕ) (w : H.World) → gives_up attempt w ≡ false
    never_gives_up attempt w = ground (arith, patient (retry_delay base attempt) w)

    pub retry-recovers :
        (k left attempt : ℕ) (last : Option Cause) (w : H.World) (a : A)
        → k < left
        → ((i : ℕ) → i < k → (e : Cause) × ((fn (world_at i attempt w)).1 ≡ retryable e))
        → (fn (world_at k attempt w)).1 ≡ done a
        → retry H blank base fn left attempt last w ≡ ((fn (world_at k attempt w)).0, done a)
    retry-recovers k zero attempt last w a h failing good = elim h [ ]
    retry-recovers zero (suc left) attempt last w a h failing good =
        retry_done left attempt last w (never_gives_up attempt w) a good
    retry-recovers (suc k) (suc left) attempt last w a h failing good =
        let (e, first) = failing 0 (omega arith) in
        retry_again left attempt last w (never_gives_up attempt w) e first
        ∙ retry-recovers k left (attempt + 1) (some e) (fn (arrive attempt w)).0 a
            (omega (arith, h)) (λ i less. failing (suc i) (omega (arith, less))) good

    pub retry-exhausts :
        (k attempt : ℕ) (last : Option Cause) (w : H.World) (e : Cause)
        → ((i : ℕ) → i < k → (x : Cause) × ((fn (world_at i attempt w)).1 ≡ retryable x))
        → (fn (world_at k attempt w)).1 ≡ retryable e
        → (retry H blank base fn (suc k) attempt last w).1 ≡ fail e
    unfolding retry
    retry-exhausts zero attempt last w e failing bad =
        ap (λ p. p.1) (retry_again 0 attempt last w (never_gives_up attempt w) e bad)
    retry-exhausts (suc k) attempt last w e failing bad =
        let (x, first) = failing 0 (omega arith) in
        ap (λ p. p.1) (retry_again (suc k) attempt last w (never_gives_up attempt w) x first)
        ∙ retry-exhausts k (attempt + 1) (some x) (fn (arrive attempt w)).0 e
            (λ i less. failing (suc i) (omega (arith, less))) bad

  -- What every wait and every attempt keeps holds at the end, and what every attempt that is done
  -- has then holds with the value.
  module _ {κ} (P : H.World → Type κ)
      (waits : (delay : ℕ) (w : H.World) → P w → P (H.wait delay w).0)
      (tries : (w : H.World) → P w → P (fn w).0) where
    arrive_keeps : (attempt : ℕ) (w : H.World) → P w → P (arrive attempt w)
    arrive_keeps attempt w p = elim (Bool-cases (attempt == 0)) [
      | inl first ↦ rw first p
      | inr later ↦ rw later (waits (retry_delay base attempt) w p)
    ]

    pub retry-keeps :
        (left attempt : ℕ) (last : Option Cause) (w : H.World)
        → P w
        → P (retry H blank base fn left attempt last w).0
    unfolding retry
    retry-keeps zero attempt last w p = p
    retry-keeps (suc left) attempt last w p =
        let q = arrive_keeps attempt w p in
        elim (goes_on_or_not attempt w) [
          | inl stops ↦ subst P (sym (ap (λ r. r.0) (retry_given_up left attempt last w stops))) q
          | inr on ↦ elim (Attempt-cases (fn (arrive attempt w)).1) [
            | inl (a, got) ↦
                subst P (sym (ap (λ r. r.0) (retry_done left attempt last w on a got)))
                  (tries (arrive attempt w) q)
            | inr (inl (x, got)) ↦
                subst P (sym (ap (λ r. r.0) (retry_fail left attempt last w on x got)))
                  (tries (arrive attempt w) q)
            | inr (inr (x, got)) ↦
                subst P (sym (ap (λ r. r.0) (retry_again left attempt last w on x got))) (
                  retry-keeps left (attempt + 1) (some x) (fn (arrive attempt w)).0
                    (tries (arrive attempt w) q))
          ]
        ]

  module _ {κ} (Q : A → H.World → Type κ)
      (good : (w : H.World) (a : A) → (fn w).1 ≡ done a → Q a (fn w).0) where
    pub retry-gives :
        (left attempt : ℕ) (last : Option Cause) (w : H.World) (a : A)
        → (last ≡ none → (attempt ≡ 0) × (0 < left))
        → (retry H blank base fn left attempt last w).1 ≡ done a
        → Q a (retry H blank base fn left attempt last w).0
    unfolding retry
    retry-gives zero attempt last w a first h = absurd (ground (arith, first))
    retry-gives (suc left) attempt last w a first h = elim (goes_on_or_not attempt w) [
      | inl stops ↦
          absurd (ground (arith, first, ap (λ r. r.1) (retry_given_up left attempt last w stops)))
      | inr on ↦ elim (Attempt-cases (fn (arrive attempt w)).1) [
        | inl (b, got) ↦
            let step = retry_done left attempt last w on b got in
            let same : b ≡ a = ground (arith, ap (λ r. r.1) step) in
            subst (Q a) (sym (ap (λ r. r.0) step)) (good (arrive attempt w) a (got ∙ ap done same))
        | inr (inl (x, got)) ↦
            absurd (ground (arith, ap (λ r. r.1) (retry_fail left attempt last w on x got)))
        | inr (inr (x, got)) ↦
            let step = retry_again left attempt last w on x got in
            subst (Q a) (sym (ap (λ r. r.0) step)) (
              retry-gives left (attempt + 1) (some x) (fn (arrive attempt w)).0 a
                (λ e. absurd (ground arith)) (sym (ap (λ r. r.1) step) ∙ h))
      ]
    ]
