-- ===== src/Logger/Threshold.antt =====
-- The thresholds of include/sub0log/instance.hpp over several settings, as
-- `detail::enabled` of include/sub0log/detail/emit.hpp sees them.
use sub0log.Common.{
  true, ℕ, ◌≡◌, refl, ap, ◌∙◌, ◌&&◌, some, List, [], ◌∷◌, ltb, ◌==◌, if◌then◌else◌, Bool-cases, inl,
  inr, ==_iff, ==_refl, ◌↔◌, ◌≤◌, leb→le, le→leb, arith, sym,
}
use sub0log.Severity.{
  Severity, trace, debug, info, warning, error, unclassified, fatal, severity_code, at_least,
}
use sub0log.Logger.{
  Platform, Logger, threshold, set_threshold, set_subsystem_threshold, enabled, subsystem_levels,
}

-- One call of `setThreshold`, for all subsystems or for one.
pub data Setting : Type 0 where
  for_all : Severity → Setting
  for_one : ℕ → Severity → Setting

abbrev pub set_one : Setting → Logger → Logger
set_one (for_all severity) l = set_threshold l severity
set_one (for_one subsystem severity) l = set_subsystem_threshold l subsystem severity

-- The calls in order.
unfoldable pub set_each : List Setting → Logger → Logger
set_each [] l = l
set_each (setting ∷ more) l = set_each more (set_one setting l)

-- What a setting makes of a subsystem's threshold: one for a subsystem has no effect on another, nor
-- from 64 on.
abbrev pub steered : Setting → ℕ → Severity → Severity
steered (for_all severity) subsystem before = severity
steered (for_one steers severity) subsystem before =
    if (subsystem == steers) && ltb subsystem 64 then severity else before

-- The threshold that the latest setting for the subsystem leaves.
unfoldable pub latest : List Setting → ℕ → Severity → Severity
latest [] subsystem before = before
latest (setting ∷ more) subsystem before = latest more subsystem (steered setting subsystem before)

threshold-set_one :
    (setting : Setting) (l : Logger) (subsystem : ℕ)
    → threshold (set_one setting l) subsystem ≡ steered setting subsystem (threshold l subsystem)
unfolding threshold set_threshold set_subsystem_threshold
threshold-set_one (for_all severity) l subsystem =
    elim (Bool-cases (ltb subsystem subsystem_levels)) [ inl h ↦ rw h refl | inr h ↦ rw h refl ]
threshold-set_one (for_one steers severity) l subsystem = elim (Bool-cases (subsystem == steers)) [
  | inl own ↦
      let e : subsystem ≡ steers = (==_iff subsystem steers).0 own in
      elim (Bool-cases (ltb steers subsystem_levels)) [
        | inl h ↦ rw (e, h, ==_refl steers) refl
        | inr h ↦ rw (e, h, ==_refl steers) refl
      ]
  | inr other ↦ elim (Bool-cases (ltb steers subsystem_levels)) [
    | inl h ↦ elim (Bool-cases (ltb subsystem subsystem_levels)) [
      | inl g ↦ rw (h, g, other) refl
      | inr g ↦ rw (h, g, other) refl
    ]
    | inr h ↦ rw (h, other) refl
  ]
]

threshold-set_each :
    (settings : List Setting) (l : Logger) (subsystem : ℕ)
    → threshold (set_each settings l) subsystem ≡ latest settings subsystem (threshold l subsystem)
unfolding set_each latest
threshold-set_each [] l subsystem = refl
threshold-set_each (setting ∷ more) l subsystem =
    threshold-set_each more (set_one setting l) subsystem
    ∙ ap (latest more subsystem) (threshold-set_one setting l subsystem)

-- The ladder of severities, from the least to the most severe.
abbrev pub rank : Severity → ℕ
rank trace = 0
rank debug = 1
rank info = 2
rank warning = 3
rank error = 4
rank unclassified = 5
rank fatal = 6

pub severity_code-rank : (severity : Severity) → severity_code severity ≡ rank severity
severity_code-rank trace = refl
severity_code-rank debug = refl
severity_code-rank info = refl
severity_code-rank warning = refl
severity_code-rank error = refl
severity_code-rank unclassified = refl
severity_code-rank fatal = refl

at_least-rank : (value bound : Severity) → (at_least value bound ≡ true) ↔ (rank bound ≤ rank value)
unfolding at_least
at_least-rank value bound =
    let a = severity_code-rank value in
    let b = severity_code-rank bound in
    (
      λ h. omega (arith, leb→le (severity_code bound) (severity_code value) h, a, b),
      λ h. le→leb (severity_code bound) (severity_code value) (omega (arith, h, a, b)),
    )

-- After any calls of `setThreshold`, a call site of a bound Logger is enabled exactly if its severity
-- stands no lower in the ladder, from `trace` to `fatal`, than what the latest call for its subsystem
-- set, or, where there was none, the threshold before. A call for all subsystems counts for each of
-- them, also for those that were set alone; a call for one counts for that subsystem below 64 only.
-- No unbound emit is counted.
pub enabled-set_each :
    (settings : List Setting) (p : Platform) (l : Logger) (unbound : ℕ) (severity : Severity)
    (subsystem : ℕ)
    → let (on, unbound') = enabled p (some (set_each settings l)) unbound severity subsystem in
      ((on ≡ true) ↔ (rank (latest settings subsystem (threshold l subsystem)) ≤ rank severity))
      × (unbound' ≡ unbound)
unfolding enabled
enabled-set_each settings p l unbound severity subsystem =
    let same = threshold-set_each settings l subsystem in
    let (down, up) = at_least-rank severity (latest settings subsystem (threshold l subsystem)) in
    (
      (λ h. down (ap (at_least severity) (sym same) ∙ h), λ h. ap (at_least severity) same ∙ up h),
      refl,
    )
