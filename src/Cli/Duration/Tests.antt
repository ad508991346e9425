-- ===== src/Cli/Duration/Tests.antt =====
-- The tests of `parse_duration` in src/cli.rs, each as the test that its assertions make.
use condrun.Prelude.{
  ℕ, ◌*◌, ◌≡◌, refl, String, Bool, true, false, ◌&&◌, [], ◌∷◌, ◌==◌, codes, every,
}
use condrun.Cli.Duration
use condrun.Cli.Duration.{parse_duration, split_number, parse_u64, in_unit, checked_mul}

-- `parse_duration(s).unwrap() == expected`
abbrev parses_as : String → ℕ → Bool
parses_as s expected = elim (parse_duration (codes s)) [
  | Duration.ok nanos ↦ nanos == expected
  | Duration.err e ↦ false
]

-- `parse_duration(s).is_err()`
abbrev is_err : String → Bool
is_err s = elim (parse_duration (codes s)) [ Duration.ok nanos ↦ false | Duration.err e ↦ true ]

abbrev from_secs : ℕ → ℕ
from_secs n = n * 1_000_000_000

abbrev parse_duration_seconds_default : Bool
parse_duration_seconds_default = parses_as "30" (from_secs 30)

abbrev parse_duration_seconds_suffix : Bool
parse_duration_seconds_suffix = parses_as "45s" (from_secs 45)

abbrev parse_duration_minutes : Bool
parse_duration_minutes = parses_as "2m" (from_secs 120)

abbrev parse_duration_hours : Bool
parse_duration_hours = parses_as "1h" (from_secs 3600)

abbrev parse_duration_zero : Bool
parse_duration_zero = parses_as "0s" 0 && parses_as "0" 0

abbrev parse_duration_rejects_empty : Bool
parse_duration_rejects_empty = is_err ""

abbrev parse_duration_rejects_bad_unit : Bool
parse_duration_rejects_bad_unit = is_err "10d" && is_err "10ms"

abbrev parse_duration_rejects_no_number : Bool
parse_duration_rejects_no_number = is_err "s"

-- The tests of the source pass.
parse_duration_tests_pass :
    every (
      parse_duration_seconds_default ∷ parse_duration_seconds_suffix ∷ parse_duration_minutes
      ∷ parse_duration_hours ∷ parse_duration_zero ∷ parse_duration_rejects_empty
      ∷ parse_duration_rejects_bad_unit ∷ parse_duration_rejects_no_number ∷ [])
    ≡ true
unfolding parse_duration split_number parse_u64 in_unit checked_mul
parse_duration_tests_pass = refl
