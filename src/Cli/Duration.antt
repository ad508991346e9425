-- ===== src/Cli/Duration.antt =====
-- `parse_duration` of src/cli.rs, over the bytes of its argument.
mod Tests
use condrun.Prelude.{
  ℕ, ◌+◌, ◌-◌, ◌*◌, ◌^◌, ◌<◌, ◌≡◌, ◌≢◌, refl, sym, Bool, true, ◌&&◌, Option, none, some, inl, inr,
  List, [], ◌∷◌, ◌++◌, ltb, leb, ◌==◌, if◌then◌else◌, Bool-cases, arith,
}

pub data DurationError : Type 0 where
  empty_duration missing_number invalid_number overflow : DurationError
  invalid_unit : List ℕ → DurationError

pub data Parsed : Type 0 where
  ok : ℕ → Parsed
  err : DurationError → Parsed

abbrev pub is_ascii_digit : ℕ → Bool
is_ascii_digit b = leb b'0' b && leb b b'9'

-- The two parts of `s.split_at(split)`, where `split` is the position of the first other byte.
unfoldable pub split_number : List ℕ → List ℕ × List ℕ
split_number [] = ([], [])
split_number (b ∷ bs) =
    let rest = split_number bs in if is_ascii_digit b then (b ∷ rest.0, rest.1) else ([], b ∷ bs)

abbrev pub number_from : ℕ → List ℕ → ℕ
number_from n [] = n
number_from n (b ∷ bs) = number_from (n * 10 + (b - b'0')) bs

-- `str::parse::<u64>` of a run of digits.
unfoldable pub parse_u64 : List ℕ → Option ℕ
parse_u64 ds = let n = number_from 0 ds in if ltb n (2 ^ 64) then some n else none

unfoldable pub checked_mul : ℕ → ℕ → Option ℕ
checked_mul n k = if ltb (n * k) (2 ^ 64) then some (n * k) else none

abbrev pub or_overflow : Option ℕ → Parsed
or_overflow none = err overflow
or_overflow (some secs) = ok secs

-- `match unit { … }`
unfoldable pub in_unit : ℕ → List ℕ → Parsed
unfolding checked_mul
in_unit n [] = ok n
in_unit n (u ∷ []) =
    if u == b's'
    then ok n
    else if u == b'm'
    then or_overflow (checked_mul n 60)
    else if u == b'h'
    then or_overflow (checked_mul n 3600)
    else err (invalid_unit (u ∷ []))
in_unit n (u ∷ v ∷ vs) = err (invalid_unit (u ∷ v ∷ vs))

-- `Duration::from_secs`
abbrev pub from_secs : Parsed → Parsed
from_secs (ok secs) = ok (secs * 1_000_000_000)
from_secs (err e) = err e

abbrev parse_parts : Option ℕ → List ℕ → Parsed
parse_parts none unit = err invalid_number
parse_parts (some n) unit = from_secs (in_unit n unit)

abbrev parse_split : List ℕ → List ℕ → Parsed
parse_split [] unit = err missing_number
parse_split (d ∷ ds) unit = parse_parts (parse_u64 (d ∷ ds)) unit

unfoldable pub parse_duration : List ℕ → Parsed
parse_duration [] = err empty_duration
parse_duration (b ∷ bs) = parse_split (split_number (b ∷ bs)).0 (split_number (b ∷ bs)).1

-- The factor of a unit, `none` for what is no unit.
abbrev pub factor : List ℕ → Option ℕ
factor [] = some 1
factor (u ∷ []) =
    if u == b's'
    then some 1
    else if u == b'm'
    then some 60
    else if u == b'h'
    then some 3600
    else none
factor (u ∷ v ∷ vs) = none

abbrev pub all_digits : List ℕ → Bool
all_digits [] = true
all_digits (b ∷ bs) = is_ascii_digit b && all_digits bs

abbrev pub value : List ℕ → ℕ
value = number_from 0

split-append : (s : List ℕ) → (split_number s).0 ++ (split_number s).1 ≡ s
unfolding split_number
split-append [] = refl
split-append (b ∷ bs) = ground (arith, split-append bs)

split_digits : (s : List ℕ) → all_digits (split_number s).0 ≡ true
unfolding split_number
split_digits [] = refl
split_digits (b ∷ bs) = ground (arith, split_digits bs)

split_unit : (unit : List ℕ) (k : ℕ) → factor unit ≡ some k → split_number unit ≡ ([], unit)
unfolding split_number
split_unit [] k h = refl
split_unit (u ∷ []) k h = ground arith
split_unit (u ∷ v ∷ vs) k h = cc

split_at_unit :
    (ds unit : List ℕ) (k : ℕ)
    → all_digits ds ≡ true
    → factor unit ≡ some k
    → split_number (ds ++ unit) ≡ (ds, unit)
unfolding split_number
split_at_unit [] unit k h f = split_unit unit k f
split_at_unit (b ∷ bs) unit k h f = ground (arith, split_at_unit bs unit k)

in_unit_fits :
    (n k : ℕ) (unit : List ℕ) → factor unit ≡ some k → n * k < 2 ^ 64 → in_unit n unit ≡ ok (n * k)
unfolding in_unit
in_unit_fits n k [] f h = ground arith
in_unit_fits n k (u ∷ []) f h = ground arith
in_unit_fits n k (u ∷ v ∷ vs) f h = cc

in_unit_sound :
    (n secs : ℕ) (unit : List ℕ)
    → n < 2 ^ 64
    → in_unit n unit ≡ ok secs
    → (k : ℕ) × (factor unit ≡ some k) × (secs ≡ n * k) × (n * k < 2 ^ 64)
unfolding in_unit
in_unit_sound n secs [] fits h = (1, refl, ground arith, omega arith)
in_unit_sound n secs (u ∷ []) fits h = elim (Bool-cases (u == b's')) [
  | inl s ↦ (1, ground (arith, s), ground (arith, s), omega arith)
  | inr not_s ↦ elim (Bool-cases (u == b'm')) [
    | inl m ↦ (60, ground (arith, not_s, m), ground (arith, not_s, m), ground (arith, not_s, m))
    | inr not_m ↦ (
      3600,
      ground (arith, not_s, not_m),
      ground (arith, not_s, not_m),
      ground (arith, not_s, not_m),
    )
  ]
]
in_unit_sound n secs (u ∷ v ∷ vs) fits h = cc

parse_u64_fits : (ds : List ℕ) → value ds < 2 ^ 64 → parse_u64 ds ≡ some (value ds)
unfolding parse_u64
parse_u64_fits ds h = ground arith

parse_u64_sound : (ds : List ℕ) (n : ℕ) → parse_u64 ds ≡ some n → (n ≡ value ds) × (n < 2 ^ 64)
unfolding parse_u64
parse_u64_sound ds n h = ground arith

-- Digits with a unit, of a number of seconds that fits in 64 bits as the digits do, are read as that
-- time.
pub parse_complete :
    (ds unit : List ℕ) (k : ℕ)
    → ds ≢ []
    → all_digits ds ≡ true
    → factor unit ≡ some k
    → value ds < 2 ^ 64
    → value ds * k < 2 ^ 64
    → parse_duration (ds ++ unit) ≡ ok (value ds * k * 1_000_000_000)
unfolding parse_duration
parse_complete [] unit k ne digits f fits h = absurd (ne refl)
parse_complete (d ∷ ds) unit k ne digits f fits h =
    rw (split_at_unit (d ∷ ds) unit k digits f)
      (rw (parse_u64_fits (d ∷ ds) fits) (rw (in_unit_fits (value (d ∷ ds)) k unit f h)))

-- What the parts of an accepted text are.
abbrev pub Denotes : List ℕ → List ℕ → ℕ → Type 0
Denotes ds unit nanos =
    (k : ℕ) × (factor unit ≡ some k)
    × (value ds * k < 2 ^ 64)
    × (nanos ≡ value ds * k * 1_000_000_000)

unit_sound :
    (ds unit : List ℕ) (n nanos : ℕ) (p : Parsed)
    → in_unit n unit ≡ p
    → n ≡ value ds
    → n < 2 ^ 64
    → from_secs p ≡ ok nanos
    → Denotes ds unit nanos
unit_sound ds unit n nanos (err e) q same fits h = cc
unit_sound ds unit n nanos (ok secs) q same fits h =
    let (k, f, exact, small) = in_unit_sound n secs unit fits q in
    (k, f, ground (arith, small, same), ground (arith, exact, same))

parts_sound :
    (ds unit : List ℕ) (nanos : ℕ) (o : Option ℕ)
    → parse_u64 ds ≡ o
    → parse_parts o unit ≡ ok nanos
    → Denotes ds unit nanos
parts_sound ds unit nanos none q h = cc
parts_sound ds unit nanos (some n) q h =
    let (same, fits) = parse_u64_sound ds n q in
    unit_sound ds unit n nanos (in_unit n unit) refl same fits h

split_sound :
    (ds unit : List ℕ) (nanos : ℕ)
    → parse_split ds unit ≡ ok nanos
    → (ds ≢ []) × Denotes ds unit nanos
split_sound [] unit nanos h = cc
split_sound (d ∷ ds) unit nanos h =
    (λ e. cc, parts_sound (d ∷ ds) unit nanos (parse_u64 (d ∷ ds)) refl h)

-- An accepted text is one or more digits and a unit (`s`, `m`, `h`, or none for seconds), and the
-- result is the time that they denote: nothing wrapped around.
pub parse_sound :
    (s : List ℕ) {nanos : ℕ}
    → parse_duration s ≡ ok nanos
    → (ds : List ℕ) × (unit : List ℕ) × (s ≡ ds ++ unit)
      × (ds ≢ [])
      × (all_digits ds ≡ true)
      × Denotes ds unit nanos
unfolding parse_duration
parse_sound [] h = cc
parse_sound (b ∷ bs) {nanos} h =
    let (ds, unit) = split_number (b ∷ bs) in
    let (ne, denotes) = split_sound ds unit nanos h in
    (ds, unit, sym (split-append (b ∷ bs)), ne, split_digits (b ∷ bs), denotes)
