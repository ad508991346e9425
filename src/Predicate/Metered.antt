-- ===== src/Predicate/Metered.antt =====
-- src/predicate/metered.rs: the two predicates on metered connections.
use condrun.Prelude.{some, if◌then◌else◌}
use condrun.Predicate.{Predicate, pass, fail}

abbrev pub reject_expensive : Predicate
reject_expensive = record {
  name = "reject-expensive";
  evaluate = λ state now. some (
    now,
    if state.is_expensive now
        then fail "current connection is expensive (Personal Hotspot or cellular)"
        else pass,
  );
}

abbrev pub reject_low_data : Predicate
reject_low_data = record {
  name = "reject-low-data";
  evaluate = λ state now. some (
    now,
    if state.is_low_data_mode now
        then fail "current connection has Low Data Mode enabled"
        else pass,
  );
}
