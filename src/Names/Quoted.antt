-- ===== src/Names/Quoted.antt =====
-- What the SQL text reads as.
use mathlib.Core.List.{append_assoc}
use duck_dbsp.Prelude.{
  ℕ, ◌≡◌, refl, ap, ap₂, sym, ◌∙◌, Bool, true, false, List, [], ◌∷◌, ◌++◌, Option, none, some,
  if◌then◌else◌, ◌==◌, inl, inr, Bool-cases, ==_iff,
}
use duck_dbsp.Names.{
  Str, double_quote, quote, dot, add_first, split, quoted, with_dot, quote_parts, quote_table_key,
  escape_sql_literal,
}

abbrev put_first : ℕ → Option (Str × Str) → Option (Str × Str)
put_first c none = none
put_first c (some (s, rest)) = some (c ∷ s, rest)

-- A single-quoted SQL literal, read from behind its first quote: a doubled quote stands for one, and a
-- single one ends it. The flag says that the character before was a quote that is not yet paired.
unfoldable pub read_literal : Bool → Str → Option (Str × Str)
read_literal false [] = none
read_literal true [] = some ([], [])
read_literal false (c ∷ text) =
    let paired = read_literal true text in
    let plain = read_literal false text in if c == quote then paired else put_first c plain
read_literal true (c ∷ text) =
    let plain = read_literal false text in
    if c == quote then put_first quote plain else some ([], c ∷ text)

abbrev pub starts_with_quote : Str → Bool
starts_with_quote [] = false
starts_with_quote (c ∷ text) = c == quote

ended : (rest : Str) → starts_with_quote rest ≡ false → read_literal true rest ≡ some ([], rest)
unfolding read_literal
ended [] e = refl
ended (c ∷ rest) e = rw e refl

-- Behind a quote, the escaped body of any string and a closing quote read as that literal, and
-- nothing of what follows belongs to it, as long as that does not begin with a quote.
pub read_literal-escape_sql_literal :
    (s rest : Str)
    → starts_with_quote rest ≡ false
    → read_literal false (escape_sql_literal s ++ (quote ∷ rest)) ≡ some (s, rest)
unfolding read_literal escape_sql_literal
read_literal-escape_sql_literal [] rest e = ended rest e
read_literal-escape_sql_literal (c ∷ s) rest e =
    let tail = read_literal-escape_sql_literal s rest e in
    elim (Bool-cases (c == quote)) [
      | inl hit ↦ rw (hit, tail, (==_iff c quote).0 hit) refl
      | inr miss ↦ rw miss (rw (read_literal, miss, tail) refl)
    ]

-- Strings with a dot between them.
abbrev pub join : List Str → Str
join [] = []
join (part ∷ []) = part
join (part ∷ next ∷ parts) = part ++ (dot ∷ join (next ∷ parts))

abbrev pub all_quoted : List Str → List Str
all_quoted [] = []
all_quoted (part ∷ parts) = quoted part ∷ all_quoted parts

abbrev after_dot : Str → List Str → Str
after_dot out [] = out
after_dot out (part ∷ parts) = with_dot out ++ join (all_quoted (part ∷ parts))

with_dot-append :
    (out : Str) (c : ℕ) (text : Str)
    → with_dot (out ++ (c ∷ text)) ≡ (out ++ (c ∷ text)) ++ (dot ∷ [])
with_dot-append [] c text = refl
with_dot-append (x ∷ out) c text = refl

quote_parts-after_dot : (out : Str) (parts : List Str) → quote_parts out parts ≡ after_dot out parts
unfolding quote_parts
quote_parts-after_dot out [] = refl
quote_parts-after_dot out (part ∷ []) = refl
quote_parts-after_dot out (part ∷ next ∷ parts) =
    quote_parts-after_dot (with_dot out ++ quoted part) (next ∷ parts)
    ∙ ap (λ (s : Str). s ++ join (all_quoted (next ∷ parts)))
        (with_dot-append (with_dot out) double_quote (part ++ (double_quote ∷ [])))
    ∙ append_assoc (with_dot out ++ quoted part) (dot ∷ []) (join (all_quoted (next ∷ parts)))
    ∙ append_assoc (with_dot out) (quoted part) (dot ∷ join (all_quoted (next ∷ parts)))

join-add_first : (c : ℕ) (parts : List Str) → join (add_first c parts) ≡ c ∷ join parts
join-add_first c [] = refl
join-add_first c (part ∷ []) = refl
join-add_first c (part ∷ next ∷ parts) = refl

some_part : (key : Str) → (part : Str) × (parts : List Str) × (split key ≡ part ∷ parts)
unfolding split
some_part [] = ([], [], refl)
some_part (c ∷ key) =
    let (part, parts, e) = some_part key in
    elim (Bool-cases (c == dot)) [
      | inl hit ↦ ([], split key, rw hit refl)
      | inr miss ↦ (c ∷ part, parts, rw (miss, e) refl)
    ]

join-split : (key : Str) → join (split key) ≡ key
unfolding split
join-split [] = refl
join-split (c ∷ key) =
    let (part, parts, e) = some_part key in
    elim (Bool-cases (c == dot)) [
      | inl hit ↦ rw hit (
          ap (λ (l : List Str). join ([] ∷ l)) e
          ∙ ap (λ (l : List Str). dot ∷ join l) (sym e)
          ∙ ap₂ (λ (d : ℕ) (l : Str). d ∷ l) (sym ((==_iff c dot).0 hit)) (join-split key))
      | inr miss ↦ rw miss (join-add_first c (split key) ∙ ap (λ (s : Str). c ∷ s) (join-split key))
    ]

abbrev pub dot_free : Str → Bool
dot_free [] = true
dot_free (c ∷ part) = let rest = dot_free part in if c == dot then false else rest

abbrev pub EachDotFree : List Str → Type 0
EachDotFree [] = Unit
EachDotFree (part ∷ parts) = (dot_free part ≡ true) × EachDotFree parts

add_first-EachDotFree :
    (c : ℕ) (parts : List Str)
    → (c == dot) ≡ false
    → EachDotFree parts
    → EachDotFree (add_first c parts)
add_first-EachDotFree c [] miss free = (rw miss refl, tt)
add_first-EachDotFree c (part ∷ parts) miss free = (rw miss free.0, free.1)

split-EachDotFree : (key : Str) → EachDotFree (split key)
unfolding split
split-EachDotFree [] = (refl, tt)
split-EachDotFree (c ∷ key) = elim (Bool-cases (c == dot)) [
  | inl hit ↦ rw hit (refl, split-EachDotFree key)
  | inr miss ↦ rw miss (add_first-EachDotFree c (split key) miss (split-EachDotFree key))
]

-- A table key is quoted part by part, the quoted parts with dots between them; no part has a dot in
-- it, and with dots between them the parts give the key back.
pub quote_table_key-join :
    (key : Str)
    → (quote_table_key key ≡ join (all_quoted (split key)))
      × (join (split key) ≡ key)
      × EachDotFree (split key)
unfolding quote_table_key
quote_table_key-join key =
    let (part, parts, e) = some_part key in
    (quote_parts-after_dot [] (split key) ∙ rw e refl, join-split key, split-EachDotFree key)
