-- ===== src/Runtime/Samples.antt =====
-- A host for the examples about eyeflow-server/src/runtime.
use eyeflow.Common.{ℕ, true, none, some, [], ◌∷◌, ◌+◌, leb, ltb, nat_eq}
use eyeflow.Runtime.Host.{Host}
use eyeflow.Runtime.PhysicalControl.{Calendar, PhysicalContext}

-- Values are numbers here; zero stands for null and undefined.
abbrev pub host : Host
host = record {
  values = record {
    Value = ℕ;
    gt = λ a b. ltb b a;
    ge = λ a b. leb b a;
    lt = ltb;
    le = leb;
    same = nat_eq;
  };
  null = 0;
  undefined = 0;
  is_nullish = λ v. nat_eq v 0;
  is_truthy = λ v. ltb 0 v;
  as_array = λ v. none;
  array = λ vs. 1;
  object = λ fields. 1;
  text = λ t. 1;
  number = λ n. n;
  boolean = λ b. 1;
  as_text = λ v. none;
}

-- Half an hour after midnight on a Monday, whatever the instant.
abbrev pub calendar : Calendar
calendar = record {
  day_in = λ tz now. 1;
  minutes_in = λ tz now. 30;
  split_numbers = λ t. some 22 ∷ some 0 ∷ [];
}

abbrev pub outside : PhysicalContext host
outside = record {
  calendar = calendar;
  checks = record {
    evaluate = λ e value output registers. some 1;
    is_number = λ v. true;
    within = λ value expected tolerance. leb value (expected + tolerance);
    same_json = λ value expected. some (nat_eq value expected);
  };
}
