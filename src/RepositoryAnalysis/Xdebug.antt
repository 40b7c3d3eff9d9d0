-- ===== src/RepositoryAnalysis/Xdebug.antt =====
-- src/repository_analysis/workload_profile/parse_xdebug_trace.py. The lines of the trace are given, and
-- `json.dumps` is a parameter.
use refactor_tradeoffs.Base.{
  ℕ, zero, suc, ◌+◌, ◌≡◌, refl, Bool, true, false, ◌&&◌, ◌||◌, not, Option, none, some, List, [],
  ◌∷◌, ◌++◌, Str, codes, is_empty, strip, starts_with, length, keep, leb, ltb, ◌==◌, list_eq,
  nat_eq, if◌then◌else◌, arith,
}
use refactor_tradeoffs.Base.Dict.{Dict, lookup, lookup_or, has, insert, lookup-insert, has-insert}
use refactor_tradeoffs.Base.Names.{split_on}

-- `parts[i]`, for an index that is in range.
abbrev pub column : ℕ → List Str → Str
column i [] = []
column zero (part ∷ parts) = part
column (suc i) (part ∷ parts) = column i parts

any_prefix : List Str → Str → Bool
any_prefix [] name = false
any_prefix (prefix ∷ prefixes) name = starts_with name prefix || any_prefix prefixes name

-- No list, or an empty one, keeps every name.
unfoldable pub is_kept : Option (List Str) → Str → Bool
unfolding any_prefix is_empty
is_kept none name = true
is_kept (some prefixes) name = is_empty prefixes || any_prefix prefixes name

-- The function that a line counts for, if it counts.
unfoldable pub called : Option (List Str) → Str → Option Str
unfolding split_on is_kept is_empty
called prefixes_to_keep line =
    let parts = split_on b'\t' line in
    let name = strip (column 5 parts) in
    if leb (length parts) 6
    then none
    else if not (strip (column 2 parts) == codes "0") || not (strip (column 6 parts) == codes "1")
    then none
    else if is_empty name || not (is_kept prefixes_to_keep name)
    then none
    else some name

-- `counts[name] = counts.get(name, 0) + 1`, where the line counts.
unfoldable pub count_call : Option Str → Dict Str ℕ → Dict Str ℕ
unfolding insert lookup_or
count_call none counts = counts
count_call (some name) counts = insert name (lookup_or 0 name counts + 1) counts

unfoldable pub count_calls : Option (List Str) → List Str → Dict Str ℕ → Dict Str ℕ
unfolding called count_call
count_calls prefixes_to_keep [] counts = counts
count_calls prefixes_to_keep (line ∷ lines) counts =
    count_calls prefixes_to_keep lines (count_call (called prefixes_to_keep line) counts)

-- What is written to the output file.
unfoldable pub json_lines : (ℕ → Str → Str) → Dict Str ℕ → Str
json_lines dumps [] = []
json_lines dumps ((name, count) ∷ counts) =
    dumps count name ++ ((b'\n' ∷ []) ++ json_lines dumps counts)

unfoldable pub parse_xdebug_trace : (ℕ → Str → Str) → Option (List Str) → List Str → Str
unfolding json_lines count_calls
parse_xdebug_trace dumps prefixes_to_keep lines =
    json_lines dumps (count_calls prefixes_to_keep lines [])

-- Whether a call counts for a name, as 1 or 0.
abbrev one_if : Option Str → Str → ℕ
one_if none name = 0
one_if (some called_name) name = if name == called_name then 1 else 0

-- The line has the column, and there the text, but for the white space around it.
has_column : ℕ → Str → List Str → Bool
has_column i text [] = false
has_column zero text (part ∷ parts) = strip part == text
has_column (suc i) text (part ∷ parts) = has_column i text parts

-- The name begins with one of the prefixes, if there are any.
begins_with_any : Option (List Str) → Str → Bool
begins_with_any none name = true
begins_with_any (some []) name = true
begins_with_any (some (prefix ∷ prefixes)) name =
    not (is_empty (keep (λ p. starts_with name p) (prefix ∷ prefixes)))

-- The line enters a function of the user, of that name, which is to be kept.
unfoldable pub is_call_of : Option (List Str) → Str → Str → Bool
unfolding has_column begins_with_any
is_call_of prefixes_to_keep name line =
    let parts = split_on b'\t' line in
    has_column 2 (codes "0") parts
    && (has_column 6 (codes "1") parts
        && (has_column 5 name parts
            && (not (is_empty name) && begins_with_any prefixes_to_keep name)))

-- How many of the lines are calls of that name.
abbrev pub calls_of : Option (List Str) → Str → List Str → ℕ
calls_of prefixes_to_keep name lines =
    length (keep (λ line. is_call_of prefixes_to_keep name line) lines)

has_column-column :
    (i : ℕ) (text : Str) (parts : List Str)
    → has_column i text parts ≡ (ltb i (length parts) && (strip (column i parts) == text))
unfolding has_column
has_column-column i text [] = ground arith
has_column-column zero text (part ∷ parts) = ground arith
has_column-column (suc i) text (part ∷ parts) = ground (arith, has_column-column i text parts)

any_prefix-keep :
    (prefixes : List Str) (name : Str)
    → any_prefix prefixes name ≡ not (is_empty (keep (λ p. starts_with name p) prefixes))
unfolding any_prefix is_empty
any_prefix-keep [] name = refl
any_prefix-keep (prefix ∷ prefixes) name = ground (arith, any_prefix-keep prefixes name)

is_kept-begins_with_any :
    (prefixes : Option (List Str)) (name : Str)
    → is_kept prefixes name ≡ begins_with_any prefixes name
unfolding is_kept begins_with_any is_empty
is_kept-begins_with_any none name = refl
is_kept-begins_with_any (some []) name = refl
is_kept-begins_with_any (some (prefix ∷ prefixes)) name = any_prefix-keep (prefix ∷ prefixes) name

called-is_call_of :
    (prefixes : Option (List Str)) (name line : Str)
    → one_if (called prefixes line) name ≡ (if is_call_of prefixes name line then 1 else 0)
unfolding called is_call_of
called-is_call_of prefixes name line =
    let parts = split_on b'\t' line in
    ground (
      arith,
      has_column-column 2 (codes "0") parts,
      has_column-column 5 name parts,
      has_column-column 6 (codes "1") parts,
      is_kept-begins_with_any prefixes name,
      is_kept-begins_with_any prefixes (strip (column 5 parts)),
    )

calls_of-cons :
    (prefixes : Option (List Str)) (name line : Str) (lines : List Str)
    → calls_of prefixes name (line ∷ lines)
      ≡ one_if (called prefixes line) name + calls_of prefixes name lines
calls_of-cons prefixes name line lines = ground (arith, called-is_call_of prefixes name line)

count_call-lookup :
    (o : Option Str) (name : Str) (counts : Dict Str ℕ)
    → lookup_or 0 name (count_call o counts) ≡ lookup_or 0 name counts + one_if o name
unfolding count_call lookup_or
count_call-lookup none name counts = omega arith
count_call-lookup (some c) name counts =
    ground (arith, lookup-insert name c (lookup_or 0 c counts + 1) counts)

count_calls-lookup :
    (prefixes : Option (List Str)) (name : Str) (lines : List Str) (counts : Dict Str ℕ)
    → lookup_or 0 name (count_calls prefixes lines counts)
      ≡ lookup_or 0 name counts + calls_of prefixes name lines
unfolding count_calls
count_calls-lookup prefixes name [] counts = omega arith
count_calls-lookup prefixes name (line ∷ lines) counts = omega (
  arith,
  count_calls-lookup prefixes name lines (count_call (called prefixes line) counts),
  count_call-lookup (called prefixes line) name counts,
  calls_of-cons prefixes name line lines,
)

count_call-has :
    (o : Option Str) (name : Str) (counts : Dict Str ℕ)
    → has name (count_call o counts) ≡ (has name counts || ltb 0 (one_if o name))
unfolding count_call
count_call-has none name counts = ground arith
count_call-has (some c) name counts =
    ground (arith, has-insert name c (lookup_or 0 c counts + 1) counts)

count_calls-has :
    (prefixes : Option (List Str)) (name : Str) (lines : List Str) (counts : Dict Str ℕ)
    → has name (count_calls prefixes lines counts)
      ≡ (has name counts || ltb 0 (calls_of prefixes name lines))
unfolding count_calls
count_calls-has prefixes name [] counts = ground arith
count_calls-has prefixes name (line ∷ lines) counts = ground (
  arith,
  count_calls-has prefixes name lines (count_call (called prefixes line) counts),
  count_call-has (called prefixes line) name counts,
  calls_of-cons prefixes name line lines,
)

empty_counts : (name : Str) → (lookup_or {V = ℕ} 0 name [] ≡ 0) × (has {V = ℕ} name [] ≡ false)
unfolding lookup_or has lookup
empty_counts name = (refl, refl)

-- The count of a name is the number of lines that are calls of it: with "0" in column 2, "1" in column 6 and
-- the name, which is not empty and begins with one of the prefixes, if there are any, in column 5. Exactly
-- the names with such a line are in the dict that is written.
pub count_calls-lem :
    (prefixes : Option (List Str)) (name : Str) (lines : List Str)
    → (lookup_or 0 name (count_calls prefixes lines []) ≡ calls_of prefixes name lines)
      × (has name (count_calls prefixes lines []) ≡ ltb 0 (calls_of prefixes name lines))
count_calls-lem prefixes name lines = (
  omega (arith, count_calls-lookup prefixes name lines [], (empty_counts name).0),
  ground (arith, count_calls-has prefixes name lines [], (empty_counts name).1),
)
