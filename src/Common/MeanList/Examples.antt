-- ===== src/Common/MeanList/Examples.antt =====
-- The theorems on `MeanList`, with numbers in the place of floats.
use substrate_telemetry.Prelude.{◌+◌, ◌/◌, ◌≡◌, refl, ◌↔◌, inl, true, arith, replicate, Returns}
use substrate_telemetry.Common.MeanList.{Float, MeanList, push}
use substrate_telemetry.Common.MeanList.Bounds.{IsValid, period_length, push-IsValid}

abbrev numbers : Float
numbers = record {
  zero = 0;
  plus = λ a b. a + b;
  divided = λ a b. a / b;
  from_u8 = λ n. n;
  from_u64 = λ n. n;
}

-- A list that has twenty means, so that the next push squashes them.
abbrev full : MeanList
full = record {
  period_sum = 0;
  period_count = 0;
  mean_index = 20;
  means = replicate 20 6;
  ticks_per_mean = 1;
}

full-IsValid : IsValid full
full-IsValid = record { slots = refl; index = omega arith; ticks = inl refl; period = omega arith }

push-IsValid_example :
    Returns
      (push numbers full 8)
      (λ r. IsValid r.0 × ((r.1 ≡ true) ↔ (full.period_count + 1 ≡ period_length numbers full)))
push-IsValid_example = push-IsValid numbers full 8 full-IsValid
