-- ===== src/Sonarqube/Paging.antt =====
-- What the paging loop and the conversion of the issues return.
use mathlib.Core.List.{append_assoc, append-nil}
use refactor_tradeoffs.Base.{
  flatten, ℕ, zero, suc, ◌+◌, ◌≤◌, ◌<◌, ◌≡◌, ◌≢◌, refl, ap, ◌∙◌, inl, inr, Bool, true, false, not,
  Bool-cases, some, List, [], ◌∷◌, ◌++◌, is_empty, length, keep, All, In, Result-cases, ◌==◌,
  nat_eq, Result, ok, raised, arith,
}
use refactor_tradeoffs.Pipeline.Units.{SonarQubeIssue}
use refactor_tradeoffs.Sonarqube.{
  RawIssue, fetch_from, fetch_all_pages, line_number, convert_issues, parse_sonarqube_debt_string,
}

-- The server has these pages from a number on, none of them empty, and then an empty one.
abbrev pub Serves : (ℕ → Result (List RawIssue)) → ℕ → List (List RawIssue) → Type 0
Serves requests_get page [] = requests_get page ≡ ok []
Serves requests_get page (found ∷ pages) =
    (requests_get page ≡ ok found) × (found ≢ []) × Serves requests_get (page + 1) pages

is_empty-ne {ℓ} : {A : Type ℓ} (xs : List A) → xs ≢ [] → is_empty xs ≡ false
unfolding is_empty
is_empty-ne [] h = absurd (h refl)
is_empty-ne (x ∷ xs) h = refl

fetch_from-Serves :
    (requests_get : ℕ → Result (List RawIssue)) (pages : List (List RawIssue)) (fuel page : ℕ)
    (issues : List RawIssue)
    → length pages ≤ fuel
    → Serves requests_get page pages
    → fetch_from (suc fuel) requests_get page issues ≡ some (ok (issues ++ flatten pages))
unfolding fetch_from flatten is_empty
fetch_from-Serves requests_get [] fuel page issues b h = rw (h, append-nil issues, fetch_from) refl
fetch_from-Serves requests_get (found ∷ pages) zero page issues b h = absurd (omega arith)
fetch_from-Serves requests_get (found ∷ pages) (suc fuel) page issues b (h, some_found, later) =
    rw (h, is_empty-ne found some_found, fetch_from)
      (fetch_from-Serves requests_get pages fuel (page + 1) (issues ++ found) (omega arith) later
        ∙ ap (λ all. some (ok all)) (append_assoc issues found (flatten pages)))

-- Against a server with finitely many pages the loop ends, with the issues of all pages in their order:
-- one request more than there are pages is enough.
pub fetch_all_pages-Serves :
    (requests_get : ℕ → Result (List RawIssue)) (pages : List (List RawIssue)) (fuel : ℕ)
    → length pages < fuel
    → Serves requests_get 1 pages
    → fetch_all_pages fuel requests_get ≡ some (ok (flatten pages))
unfolding fetch_all_pages
fetch_all_pages-Serves requests_get pages zero b h = absurd (omega arith)
fetch_all_pages-Serves requests_get pages (suc fuel) b h =
    fetch_from-Serves requests_get pages fuel 1 [] (omega arith) h

abbrev pub has_line : RawIssue → Bool
has_line raw = not (line_number raw == 0)

-- What the conversion may return, or raise.
abbrev pub Converted : List RawIssue → Result (List SonarQubeIssue) → Type 0
Converted raws (ok issues) =
    (length issues ≡ length (keep has_line raws)) × All (λ issue. issue.line ≢ 0) issues
Converted raws (raised e) =
    (raw : RawIssue) × In raw raws
    × (line_number raw ≢ 0)
    × (parse_sonarqube_debt_string raw.debt ≡ raised e)

Converted-skip :
    (raw : RawIssue) (raws : List RawIssue)
    → (line_number raw == 0) ≡ true
    → (r : Result (List SonarQubeIssue)) → Converted raws r
    → Converted (raw ∷ raws) r
Converted-skip raw raws skipped (ok issues) (lengths, all) = (ground arith, all)
Converted-skip raw raws skipped (raised e) (other, member, lined, failed) =
    (other, inr member, lined, failed)

-- The conversion of the server's issues returns as many issues as have a line there, each with a line
-- that is not 0; or it raises what the debt of an issue of them with a line raises when it is read.
convert_issues-Converted : (raws : List RawIssue) → Converted raws (convert_issues raws)
unfolding convert_issues
convert_issues-Converted [] = (refl, tt)
convert_issues-Converted (raw ∷ raws) =
    let ih = convert_issues-Converted raws in
    elim (Bool-cases (line_number raw == 0)) [
      | inl skipped ↦ rw skipped (Converted-skip raw raws skipped (convert_issues raws) ih)
      | inr lined ↦ elim (Result-cases (parse_sonarqube_debt_string raw.debt)) [
        | inr (e, failed) ↦ rw (lined, failed) (raw, inl refl, ground arith, failed)
        | inl (debt, read) ↦ elim (Result-cases (convert_issues raws)) [
          | inr (e, failed) ↦
              let (other, member, is_lined, unread) = rw failed at ih in
              rw (lined, read, failed) (other, inr member, is_lined, unread)
          | inl (issues, rest) ↦
              let (lengths, all) = rw rest at ih in
              rw (lined, read, rest) (ground arith, (ground arith, all))
        ]
      ]
    ]
