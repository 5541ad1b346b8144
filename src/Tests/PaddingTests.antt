-- ===== src/Tests/PaddingTests.antt =====
-- Tests and witnesses for the padding, the keys of a call and the percentiles of tools/sink-perf/main.go.
use sink_production_suite.Prelude.{
  ℕ, zero, suc, nat_eq, ◌<◌, ◌≤◌, true, some, List, [], ◌∷◌, ◌≡◌, refl, arith, length, All,
}
use sink_production_suite.Reference.Unique.{IsDistinct}
use mathlib.Core.Option.{some_inj}
use sink_production_suite.Perf.Partition.{call_keys}
use sink_production_suite.Perf.RunKeys.{call_keys_lem}
use sink_production_suite.Perf.Padding.{
  Text, random_padding, PaddingCache, PaddingSettings, find, record_padding,
}
use sink_production_suite.Perf.PaddingLaws.{
  IsLetter, IsCache, random_padding_lem, record_padding-IsCache,
}
use sink_production_suite.Perf.Percentile.{IsAscending, percentile, percentile_lem}

call_keys_lem_example : IsDistinct (call_keys 3 4 5) × All (λ k. k < 5) (call_keys 3 4 5)
call_keys_lem_example = call_keys_lem 3 4 5 (omega arith) (omega arith)

random_padding_lem_example :
    (text : Text) × (random_padding 3 6 ≡ some text) × (length text ≡ 3) × All IsLetter text
random_padding_lem_example = random_padding_lem 3 6

abbrev settings : PaddingSettings
settings = record { is_random = true; size = 3; concurrency = 4; fixed = []; keys = 5 ∷ 6 ∷ [] }

abbrev empty_cache : PaddingCache
empty_cache = record { entries = []; bytes = 0 }

empty_cache-IsCache : IsCache settings empty_cache
unfolding find
empty_cache-IsCache = record {
  texts = λ key text h. absurd (cc h);
  bytes = refl;
  limit = omega arith;
}

record_padding-IsCache_example :
    (text : Text) × (c' : PaddingCache) × (record_padding settings 1 empty_cache ≡ some (text, c'))
    × (random_padding 3 6 ≡ some text)
    × IsCache settings c'
record_padding-IsCache_example =
    record_padding-IsCache settings 1 6 empty_cache refl refl empty_cache-IsCache

abbrev times : List ℕ
times = 2 ∷ 5 ∷ []

times-IsAscending : IsAscending times
times-IsAscending zero zero x y h a b = omega (arith, some_inj.0 a, some_inj.0 b)
times-IsAscending zero (suc zero) x y h a b = omega (arith, some_inj.0 a, some_inj.0 b)
times-IsAscending zero (suc (suc j)) x y h a b = absurd (cc b)
times-IsAscending (suc zero) zero x y h a b = absurd (omega arith)
times-IsAscending (suc zero) (suc zero) x y h a b = omega (arith, some_inj.0 a, some_inj.0 b)
times-IsAscending (suc zero) (suc (suc j)) x y h a b = absurd (cc b)
times-IsAscending (suc (suc i)) j x y h a b = absurd (cc a)

percentile_lem_example :
    (x : ℕ) × (y : ℕ) × (percentile times 50 ≡ some x) × (percentile times 95 ≡ some y) × (x ≤ y)
percentile_lem_example = percentile_lem times 50 95 times-IsAscending (omega arith) (omega arith)
