-- ===== src/Tests/Zsets.antt =====
-- Tests of include/dbsp_zset.hpp.
use duck_dbsp.Prelude.{ℕ, ◌≡◌, refl, [], ◌∷◌, ◌%◌}
use duck_dbsp.Prelude.Int.{pos, negsuc, ◌+ℤ◌, ◌*ℤ◌, negate}
use duck_dbsp.Prelude.Equality.{nat_eq, pair_eq}
use duck_dbsp.Flat
use duck_dbsp.Zset.{ZSet, empty, insert, get, neg, distinct}
use duck_dbsp.Zset.Reduced.{IsReduced, empty-IsReduced, insert-IsReduced}
use duck_dbsp.Zset.Weights.{get-insert, get-neg}
use duck_dbsp.Indexed.{equi_join}
use duck_dbsp.Indexed.Join.{get-equi_join}

abbrev pub three : ZSet ℕ
three = insert 1 (pos 2) (insert 5 (negsuc 0) (insert 7 (pos 1) empty))

pub three-IsReduced : IsReduced three
three-IsReduced =
    insert-IsReduced 1 (pos 2) _
      (insert-IsReduced 5 (negsuc 0) _ (insert-IsReduced 7 (pos 1) empty empty-IsReduced))

abbrev pub two : ZSet ℕ
two = insert 3 (pos 4) (insert 7 (negsuc 2) empty)

pub two-IsReduced : IsReduced two
two-IsReduced = insert-IsReduced 3 (pos 4) _ (insert-IsReduced 7 (negsuc 2) empty empty-IsReduced)

three_slots : three ≡ (7, pos 1) ∷ (5, negsuc 0) ∷ (1, pos 2) ∷ []
unfolding insert ◌+ℤ◌ Flat.find Flat.write Flat.slot_for
three_slots = refl

-- The last slot moves into the place of the erased one.
insert_cancels : insert 7 (negsuc 0) three ≡ (1, pos 2) ∷ (5, negsuc 0) ∷ []
unfolding insert ◌+ℤ◌ Flat.find Flat.write Flat.slot_for Flat.erase
insert_cancels = refl

distinct_three : distinct three ≡ (7, pos 1) ∷ (1, pos 1) ∷ []
unfolding distinct insert ◌+ℤ◌ Flat.find Flat.write Flat.slot_for
distinct_three = refl

get-insert_example : get (insert 7 (negsuc 0) three) 7 ≡ get three 7 +ℤ negsuc 0
get-insert_example = get-insert 7 (negsuc 0) three 7 three-IsReduced

get-neg_example : get (neg three) 5 ≡ negate (get three 5)
get-neg_example = get-neg three three-IsReduced 5

get-equi_join_example :
    get (equi_join three two (λ n. n % 2) (λ n. n % 2)) (5, 7) ≡ get three 5 *ℤ get two 7
get-equi_join_example =
    get-equi_join three two (λ n. n % 2) (λ n. n % 2) 5 7 three-IsReduced two-IsReduced
