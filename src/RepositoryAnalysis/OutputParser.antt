-- ===== src/RepositoryAnalysis/OutputParser.antt =====
-- src/repository_analysis/static_analysis/analyze_php/output_parser.py. The roots of the XML files and
-- the rows of the CSV file are given; `float` and `html.unescape` are parameters.
pub mod Violations
use refactor_tradeoffs.Base.{
  or_value_error, flatten, ℕ, ◌+◌, Bool, true, false, ◌&&◌, Option, none, some, List, [], ◌∷◌, ◌++◌,
  map, Str, codes, is_empty, strip, starts_with, ends_with, leb, ◌==◌, list_eq, nat_eq,
  if◌then◌else◌, Result, ok, raised, value_error, attribute_error,
}
use mathlib.Core.List.{reverse}
use refactor_tradeoffs.Base.Dict.{Dict, lookup, lookup_or, insert}
use refactor_tradeoffs.Base.Xml.{Element, get, text_of, findall, find, iter}
use refactor_tradeoffs.Base.Names.{int}

pub record PDependOutput (Float : Type 0) : Type 0 where
  pub file_path : Str
  pub method_name : Str
  pub start_line : ℕ
  pub end_line : ℕ
  pub cc : Float
  pub mi : Float
  pub halstead_difficulty : Float

pub data Severity : Type 0 where
  style_error style_warning : Severity

pub record PhpcsOutput : Type 0 where
  pub line : ℕ
  pub type : Severity

pub record PhpmdOutput : Type 0 where
  pub line : ℕ
  pub rule : Str
  pub message : Str

pub record PhpMetricsOutput (Float : Type 0) : Type 0 where
  pub halstead_difficulty : Float
  pub mi : Float
  pub cc : Float

pub record PDependWithPhpmd (Float : Type 0) : Type 0 where
  pub base : PDependOutput Float
  pub phpmd_violations : List PhpmdOutput

infixl 5 ◌>>=◌
abbrev ◌>>=◌ {ℓ κ} : {A : Type ℓ} {B : Type κ} → Result A → (A → Result B) → Result B
ok a >>= f = f a
raised e >>= f = raised e

-- A loop that appends what its body returns; an exception ends it.
unfoldable pub map_result {ℓ κ} :
    {A : Type ℓ} {B : Type κ} → (A → Result B) → List A → Result (List B)
map_result f [] = ok []
map_result f (a ∷ rest) = f a >>= λ b. map_result f rest >>= λ bs. ok (b ∷ bs)

abbrev unknown : Str
unknown = codes "Unknown"

-- `int(e.get(name, '0'))`
int_of : Str → Element → Result ℕ
unfolding int get
int_of name e = or_value_error (int (get name (codes "0") e))

module _ {Float : Type 0} (float : Str → Option Float) where
  float_of : Str → Element → Result Float
  unfolding get
  float_of name e = or_value_error (float (get name (codes "0") e))

  unfoldable pub method_output : Str → Element → Result (PDependOutput Float)
  unfolding get int_of float_of
  method_output file_path method = int_of (codes "start") method >>= λ start_line.
      int_of (codes "end") method >>= λ end_line. float_of (codes "ccn") method >>= λ cc.
      float_of (codes "mi") method >>= λ mi. float_of (codes "hd") method >>= λ hd. ok (record {
        file_path = file_path;
        method_name = get (codes "name") unknown method;
        start_line = start_line;
        end_line = end_line;
        cc = cc;
        mi = mi;
        halstead_difficulty = hd;
      })

  unfoldable pub class_file : Element → Str
  unfolding get find
  class_file class = elim (find (codes "file") class) [
    | none ↦ unknown
    | some file ↦ get (codes "name") unknown file
  ]

  unfoldable pub class_outputs : Element → Result (List (PDependOutput Float))
  unfolding map_result method_output class_file findall
  class_outputs class =
      map_result (method_output (class_file class)) (findall (codes "method") class)

  unfoldable pub parse_pdepend : Element → Result (List (PDependOutput Float))
  unfolding map_result class_outputs iter flatten
  parse_pdepend root =
      map_result (λ element. map_result class_outputs (iter (codes "class") element))
        (iter (codes "package") root)
      >>= λ outputs. ok (flatten (flatten outputs))

  -- `float(row.get(name, 0) or 0)`, by the caller's `zero_float` for 0.
  unfoldable pub metric : Float → Str → Dict Str (Option Str) → Result Float
  unfolding lookup is_empty
  metric zero_float name row = elim (lookup name row) [
    | none ↦ ok zero_float
    | some none ↦ ok zero_float
    | some (some text) ↦ if is_empty text then ok zero_float else or_value_error (float text)
  ]

  quote_free : Str → Str
  quote_free [] = []
  quote_free (c ∷ s) = let rest = quote_free s in if c == b'"' then rest else c ∷ s

  -- `row.get('name', '').strip('"')`; a row that ends before the column has `None` there.
  unfoldable pub row_name : Dict Str (Option Str) → Result Str
  unfolding lookup quote_free
  row_name row = elim (lookup (codes "name") row) [
    | none ↦ ok []
    | some none ↦ raised attribute_error
    | some (some name) ↦ ok (reverse (quote_free (reverse (quote_free name))))
  ]

  unfoldable pub metrics_of : Float → Dict Str (Option Str) → Result (PhpMetricsOutput Float)
  unfolding metric
  metrics_of zero_float row = metric zero_float (codes "difficulty") row >>= λ difficulty.
      metric zero_float (codes "mi") row >>= λ mi. metric zero_float (codes "ccn") row >>= λ cc.
      ok (record { halstead_difficulty = difficulty; mi = mi; cc = cc })

  -- A row whose numbers cannot be read is passed over.
  unfoldable pub parse_phpmetrics :
      Float
      → List (Dict Str (Option Str))
      → Dict Str (PhpMetricsOutput Float)
      → Result (Dict Str (PhpMetricsOutput Float))
  unfolding row_name metrics_of insert
  parse_phpmetrics zero_float [] result = ok result
  parse_phpmetrics zero_float (row ∷ rows) result = row_name row >>= λ name.
      parse_phpmetrics zero_float rows (elim (metrics_of zero_float row) [
        | ok metrics ↦ insert name metrics result
        | raised e ↦ result
      ])

unfoldable pub style_output : Severity → Element → Result PhpcsOutput
unfolding int_of
style_output type e = int_of (codes "line") e >>= λ line. ok (record { line = line; type = type })

-- The loop over the files of a report, where `rows` reads one of them: a later file of the same name
-- replaces an earlier one.
unfoldable pub by_file {ℓ} :
    {Row : Type ℓ}
    → (Element → Result (List Row))
    → List Element
    → Dict Str (List Row)
    → Result (Dict Str (List Row))
unfolding get insert
by_file rows [] result = ok result
by_file rows (file ∷ files) result = rows file >>= λ found.
    by_file rows files (insert (get (codes "name") unknown file) found result)

unfoldable pub style_rows : Element → Result (List PhpcsOutput)
unfolding map_result style_output findall
style_rows file = map_result (style_output style_error) (findall (codes "error") file) >>= λ errors.
    map_result (style_output style_warning) (findall (codes "warning") file) >>= λ warnings.
    ok (errors ++ warnings)

unfoldable pub parse_phpcs : Element → Result (Dict Str (List PhpcsOutput))
unfolding by_file style_rows findall
parse_phpcs root = by_file style_rows (findall (codes "file") root) []

module _ (html_unescape : Str → Str) where
  unfoldable pub violation_output : Element → Result PhpmdOutput
  unfolding int_of get strip is_empty
  violation_output violation = int_of (codes "beginline") violation >>= λ line. ok (record {
    line = line;
    rule = get (codes "rule") unknown violation;
    message = elim (text_of violation) [
      | none ↦ []
      | some text ↦ if is_empty text then [] else html_unescape (strip text)
    ];
  })

  unfoldable pub violation_rows : Element → Result (List PhpmdOutput)
  unfolding map_result violation_output findall
  violation_rows file = map_result violation_output (findall (codes "violation") file)

  unfoldable pub parse_phpmd : Element → Result (Dict Str (List PhpmdOutput))
  unfolding by_file violation_rows findall
  parse_phpmd root = by_file violation_rows (findall (codes "file") root) []

module _ {Float : Type 0} where
  -- The inner loop: the violations with a line of the method.
  unfoldable pub violations_within : PDependOutput Float → List PhpmdOutput → List PhpmdOutput
  violations_within output [] = []
  violations_within output (v ∷ vs) =
      let rest = violations_within output vs in
      if leb output.start_line v.line && leb v.line output.end_line then v ∷ rest else rest

  unfoldable pub append_side_phpmd_to_base :
      List (PDependOutput Float) → Dict Str (List PhpmdOutput) → List (PDependWithPhpmd Float)
  unfolding violations_within lookup_or
  append_side_phpmd_to_base [] side_phpmd = []
  append_side_phpmd_to_base (output ∷ outputs) side_phpmd =
      record {
        base = output;
        phpmd_violations = violations_within output (lookup_or [] output.file_path side_phpmd);
      }
      ∷ append_side_phpmd_to_base outputs side_phpmd
