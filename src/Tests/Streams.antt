-- ===== src/Tests/Streams.antt =====
-- Tests of include/dbsp_stream.hpp.
use mathlib.Core.List.{map}
use duck_dbsp.Prelude.{ℕ, ◌≡◌, List, [], ◌∷◌, ◌%◌}
use duck_dbsp.Prelude.Int.{ℤ, pos}
use duck_dbsp.Prelude.Equality.{nat_eq, int_eq, pair_eq}
use duck_dbsp.Zset.{ZSet, get, distinct}
use duck_dbsp.Zset.Same.{◌≈◌}
use duck_dbsp.Indexed.{equi_join}
use duck_dbsp.Stream.{incremental, distinct_delta, new_distinct}
use duck_dbsp.Stream.Run.{outputs, sum_all}
use duck_dbsp.Stream.Join.{join_delta, new_join, join_delta_sum}
use duck_dbsp.Stream.Incremental.{new_incremental, incremental_sum}
use duck_dbsp.Stream.Distinct.{distinct_delta_sum}
use duck_dbsp.Zset.Weights.{distinct-IsReduced}
use duck_dbsp.Stream.Aggregate.{new_aggregate, process_sum, process_count}
use duck_dbsp.Stream.Aggregate.Sums.{sum_shape, count_shape, process_sum_sum, process_count_sum}
use duck_dbsp.Stream.Aggregate.Groups.{group_total}
use duck_dbsp.Tests.Zsets.{three, two}

abbrev deltas : List (ZSet ℕ)
deltas = three ∷ two ∷ []

abbrev parity : ℕ → ℕ
parity n = n % 2

abbrev amount : ℕ → ℤ
amount n = pos n

abbrev pairs : List (ZSet ℕ × ZSet ℕ)
pairs = (three, two) ∷ (two, three) ∷ []

join_delta_sum_example :
    sum_all (outputs (join_delta parity parity) (new_join parity parity) pairs)
    ≈ equi_join (sum_all (map (λ d. d.0) pairs)) (sum_all (map (λ d. d.1) pairs)) parity parity
join_delta_sum_example = join_delta_sum parity parity pairs

distinct_delta_sum_example :
    sum_all (outputs distinct_delta new_distinct deltas) ≈ distinct (sum_all deltas)
distinct_delta_sum_example = distinct_delta_sum deltas

process_sum_sum_example :
    get (sum_all (outputs (process_sum parity amount) new_aggregate deltas)) (1, pos 3)
    ≡ sum_shape (group_total parity amount 1 (sum_all deltas)) (pos 3)
process_sum_sum_example = process_sum_sum parity amount deltas 1 (pos 3)

process_count_sum_example :
    get (sum_all (outputs (process_count parity amount) new_aggregate deltas)) (1, pos 0)
    ≡ count_shape (group_total parity (λ _. pos 1) 1 (sum_all deltas)) (pos 0)
process_count_sum_example = process_count_sum parity amount deltas 1 (pos 0)

incremental_sum_example :
    sum_all (outputs (incremental distinct) new_incremental deltas) ≈ distinct (sum_all deltas)
incremental_sum_example = incremental_sum distinct distinct-IsReduced three (two ∷ [])

abbrev join_fn : ZSet ℕ → ZSet ℕ → ZSet (ℕ × ℕ)
join_fn a b = equi_join a b parity parity
