-- ===== src/Tests/Names.antt =====
-- Tests of include/dbsp_qualified_name.hpp and include/dbsp_instance_registry.hpp.
use duck_dbsp.Umap
use duck_dbsp.Umap.Sums.{UniqueKeys, occurs}
use duck_dbsp.Instances.{
  InstanceRegistry, register_internal, unregister_internal, is_internal, internal_count,
}
use duck_dbsp.Instances.Counts.{belongs, internal_count-register_internal}
use duck_dbsp.Prelude.{arith, ◌+◌, ℕ, ◌≡◌, refl, Bool, true, false, [], ◌∷◌, ◌++◌, some, leb, ◌&&◌}
use duck_dbsp.Prelude.Equality.{nat_eq}
use duck_dbsp.Names.{
  Str, quote, split, quote_table_key, escape_sql_literal, is_valid_table_reference,
  qualified_part_ok, qualify,
}
use duck_dbsp.Names.Quoted.{
  read_literal, read_literal-escape_sql_literal, join, all_quoted, EachDotFree,
  quote_table_key-join,
}

-- m.t
abbrev key : Str
key = 109 ∷ 46 ∷ 116 ∷ []

quoted_key : quote_table_key key ≡ 34 ∷ 109 ∷ 34 ∷ 46 ∷ 34 ∷ 116 ∷ 34 ∷ []
unfolding quote_table_key
quoted_key = refl

-- Lower case only.
abbrev is_lower : ℕ → Bool
is_lower c = leb 97 c && leb c 122

valid_key : is_valid_table_reference is_lower is_lower key ≡ true
unfolding is_valid_table_reference qualified_part_ok
valid_key = refl

-- A part is empty.
invalid_key : is_valid_table_reference is_lower is_lower (46 ∷ key) ≡ false
unfolding is_valid_table_reference qualified_part_ok
invalid_key = refl

qualified_key : qualify (109 ∷ []) (116 ∷ []) ≡ quote_table_key key
unfolding qualify quote_table_key
qualified_key = refl

quote_table_key-join_example :
    (quote_table_key key ≡ join (all_quoted (split key)))
    × (join (split key) ≡ key)
    × EachDotFree (split key)
quote_table_key-join_example = quote_table_key-join key

read_literal-escape_sql_literal_example :
    read_literal false (escape_sql_literal (97 ∷ 39 ∷ 98 ∷ []) ++ (quote ∷ 59 ∷ []))
    ≡ some (97 ∷ 39 ∷ 98 ∷ [], 59 ∷ [])
read_literal-escape_sql_literal_example =
    read_literal-escape_sql_literal (97 ∷ 39 ∷ 98 ∷ []) (59 ∷ []) refl

-- Contexts 1 and 2 of database 8.
abbrev registry : InstanceRegistry ℕ ℕ
registry = (1, 8) ∷ (2, 8) ∷ []

registry-UniqueKeys : UniqueKeys registry
unfolding occurs
registry-UniqueKeys k = ground arith

internal_count-register_internal_example :
    let added = register_internal 1 9 registry in
    let removed = unregister_internal 1 registry in
    (is_internal 2 added ≡ true)
    × (is_internal 2 removed ≡ true)
    × (internal_count 8 added + belongs {D = ℕ} 8 (some 8)
        ≡ internal_count 8 registry + belongs {D = ℕ} 8 (some 9))
    × (internal_count 8 removed + belongs {D = ℕ} 8 (some 8) ≡ internal_count 8 registry)
    × UniqueKeys added
    × UniqueKeys removed
unfolding is_internal Umap.find
internal_count-register_internal_example =
    internal_count-register_internal 1 2 9 8 registry registry-UniqueKeys
