-- ===== src/Flows/Setup/Intervals.antt =====
-- How often the tasks of a setup run: each interval lies between the two of the settings.
use nexusflow_backend.Prelude.{
  Bool, true, false, Option, none, some, ◌≡◌, refl, sym, subst, Number, nan, infinity,
  minus_infinity, finite, ℤ, Bool-cases, Option-cases, inl, inr, IsBetween, clamp, clamp-IsBetween,
  least-IsBetween, less_eq, is_finite, whole, trunc,
}
use nexusflow_backend.Value.{Value, number}
use nexusflow_backend.Platform.{Platform}
use nexusflow_backend.Flows.Values.{
  BuilderConfig, to_optional_number, positive_whole, fitted, resolve_interval,
}
use nexusflow_backend.Flows.Setup.Gpio.{merge_interval}

-- Settings that make sense: the least interval is no longer than the longest, and the defaults lie
-- between them.
pub record IsSensible (config : BuilderConfig) : Type 0 where
  pub lo : ℤ
  pub hi : ℤ
  pub least_is : config.min_interval_ms ≡ finite lo
  pub most_is : config.max_interval_ms ≡ finite hi
  pub ordered : less_eq (finite lo) (finite hi) ≡ true
  pub inputs : IsBetween (finite lo) (finite hi) config.default_gpio_interval_ms
  pub outputs : IsBetween (finite lo) (finite hi) config.default_gpio_output_interval_ms
  pub sensor : IsBetween (finite lo) (finite hi) config.default_sensor_interval_ms
  pub motion : IsBetween (finite lo) (finite hi) config.default_pir_interval_ms

finite_of : (x : Number) → is_finite x ≡ true → (z : ℤ) × (x ≡ finite z)
unfolding is_finite
finite_of (finite z) h = (z, refl)
finite_of nan h = absurd (cc)
finite_of infinity h = absurd (cc)
finite_of minus_infinity h = absurd (cc)

abbrev pub Paced : BuilderConfig → Number → Type 0
Paced config = IsBetween config.min_interval_ms config.max_interval_ms

module _ ⦃p : Platform⦄ (config : BuilderConfig) (sensible : IsSensible config) where
  clamped : (z : ℤ) → Paced config (clamp config.min_interval_ms config.max_interval_ms (finite z))
  clamped z =
      rw (sensible.least_is, sensible.most_is)
        (clamp-IsBetween sensible.lo sensible.hi z sensible.ordered)

  fitted-Paced :
      (n fallback : Number)
      → Paced config fallback
      → Paced config (fitted config fallback (positive_whole n))
  fitted-Paced n fallback h = elim (Bool-cases (is_finite (trunc n))) [
    | inr strange ↦ rw strange h
    | inl fine ↦ elim (Bool-cases (less_eq (trunc n) (whole 0))) [
      | inl low ↦ rw (fine, low) h
      | inr high ↦
          let (z, e) = finite_of (trunc n) fine in
          rw (fine, high)
            (subst (λ x. Paced config (clamp config.min_interval_ms config.max_interval_ms x))
              (sym e) (clamped z))
    ]
  ]

  pub resolve_interval-Paced :
      (value : Value) (fallback : Number)
      → Paced config fallback
      → Paced config (resolve_interval config value fallback)
  unfolding resolve_interval
  resolve_interval-Paced value fallback h = elim (Option-cases (to_optional_number value)) [
    | inl missing ↦ rw (resolve_interval, missing) h
    | inr (n, given) ↦ rw (resolve_interval, given) (fitted-Paced n fallback h)
  ]

  pub merge_interval-Paced :
      (fallback : Number) (overridden : Bool) (given : Option Number) (kept : Number × Bool)
      → Paced config fallback
      → Paced config kept.0
      → Paced config (merge_interval config fallback overridden given kept).0
  unfolding merge_interval
  merge_interval-Paced fallback overridden none kept h k = k
  merge_interval-Paced fallback false (some n) kept h k =
      resolve_interval-Paced (number n) fallback h
  merge_interval-Paced fallback true (some n) kept h k =
      least-IsBetween config.min_interval_ms config.max_interval_ms kept.0 _ k
        (resolve_interval-Paced (number n) fallback h)
