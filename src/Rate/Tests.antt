-- ===== src/Rate/Tests.antt =====
-- Runs of the rates.
use aeron_fast.Base.{◌^◌, ◌<◌, ◌≡◌, refl, arith}
use aeron_fast.Rate.{per_second, mebibytes_per_second}
use aeron_fast.Rate.Exact.{true_mebibyte_rate, mebibytes_per_second-lt}

-- A million messages in ten seconds.
per_second_run : per_second 1000000 (10 ^ 10) ≡ 100000
unfolding per_second
per_second_run = refl

-- The default run of the subscriber, if it takes ten seconds.
mebibytes_per_second-lt_example :
    mebibytes_per_second 20480000000 (10 ^ 10) < true_mebibyte_rate 20480000000 (10 ^ 10)
mebibytes_per_second-lt_example =
    mebibytes_per_second-lt 20480000000 (10 ^ 10) (omega arith) (omega arith) (omega arith)
