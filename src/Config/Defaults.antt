-- ===== src/Config/Defaults.antt =====
-- What `InitDefault` of config.go does not overwrite.
use roadrunner_temporal.Base.{str_eq, ◌≡◌, refl, Bool-cases, inl, inr}
use roadrunner_temporal.Config.{Metrics, driver_prometheus, driver_statsd, driver_defaults}

pub driver_kept : (m : Metrics) → (driver_defaults m).driver ≡ m.driver
driver_kept m = elim (Bool-cases (str_eq m.driver driver_prometheus)) [
  | inl e ↦ rw e refl
  | inr e ↦ elim (Bool-cases (str_eq m.driver driver_statsd)) [
    | inl d ↦ rw (e, d) refl
    | inr d ↦ rw (e, d) refl
  ]
]
