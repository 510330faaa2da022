-- ===== src/Names.antt =====
-- include/dbsp_qualified_name.hpp: table references, and the SQL text that is made of names. A string
-- is the list of its character codes; `isalpha` and `isalnum` of the C library are parameters.
pub mod Quoted
use duck_dbsp.Prelude.{
  ℕ, ◌+◌, Bool, true, false, List, [], ◌∷◌, ◌++◌, Option, none, some, if◌then◌else◌, ltb, leb, not,
  ◌==◌, ◌&&◌, length,
}

abbrev pub Str : Type 0
Str = List ℕ

-- The characters `"`, `'`, `.` and `_`.
abbrev pub double_quote : ℕ
double_quote = 34

abbrev pub quote : ℕ
quote = 39

abbrev pub dot : ℕ
dot = 46

abbrev pub underscore : ℕ
underscore = 95

module _ (isalpha isalnum : ℕ → Bool) where
  -- The loop over the characters.
  unfoldable pub all_plain : Str → Bool
  all_plain [] = true
  all_plain (c ∷ part) =
      let rest = all_plain part in if not (isalnum c) && not (c == underscore) then false else rest

  unfoldable pub qualified_part_ok : Str → Bool
  unfolding all_plain
  qualified_part_ok [] = false
  qualified_part_ok (c ∷ part) =
      if ltb 255 (length (c ∷ part))
      then false
      else if not (isalpha c) && not (c == underscore)
      then false
      else all_plain (c ∷ part)

-- The parts that a loop over `find('.', start)` cuts off, in order.
abbrev pub add_first : ℕ → List Str → List Str
add_first c [] = (c ∷ []) ∷ []
add_first c (part ∷ parts) = (c ∷ part) ∷ parts

unfoldable pub split : Str → List Str
split [] = [] ∷ []
split (c ∷ name) = let parts = split name in if c == dot then [] ∷ parts else add_first c parts

module _ (isalpha isalnum : ℕ → Bool) where
  -- The count of the parts, unless one of them is not plain.
  unfoldable pub count_parts : ℕ → List Str → Option ℕ
  unfolding qualified_part_ok
  count_parts parts [] = some parts
  count_parts parts (part ∷ rest) =
      let counted = count_parts (parts + 1) rest in
      if not (qualified_part_ok isalpha isalnum part) then none else counted

  unfoldable pub is_valid_table_reference : Str → Bool
  unfolding count_parts split
  is_valid_table_reference name = elim (count_parts 0 (split name)) [
    | none ↦ false
    | some parts ↦ leb 1 parts && leb parts 3
  ]

abbrev pub quoted : Str → Str
quoted part = (double_quote ∷ part) ++ (double_quote ∷ [])

-- A dot goes before a part unless nothing has been put out.
abbrev pub with_dot : Str → Str
with_dot [] = []
with_dot (c ∷ out) = (c ∷ out) ++ (dot ∷ [])

unfoldable pub quote_parts : Str → List Str → Str
quote_parts out [] = out
quote_parts out (part ∷ parts) = quote_parts (with_dot out ++ quoted part) parts

unfoldable pub quote_table_key : Str → Str
unfolding quote_parts split
quote_table_key key = quote_parts [] (split key)

unfoldable pub qualify : Str → Str → Str
qualify [] tbl = quoted tbl
qualify (c ∷ cat) tbl = quoted (c ∷ cat) ++ ((dot ∷ []) ++ quoted tbl)

unfoldable pub escape_sql_literal : Str → Str
escape_sql_literal [] = []
escape_sql_literal (c ∷ s) =
    let rest = escape_sql_literal s in if c == quote then quote ∷ (quote ∷ rest) else c ∷ rest
