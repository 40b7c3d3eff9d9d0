-- ===== src/Pipeline/TreeParser/Splice.antt =====
-- Splicing replaces a function's lines and nothing else.
use mathlib.Core.List.{append_assoc, append_cancel_left}
use native.Mathlib.Nat.{sub-zero, suc-sub-suc}
use refactor_tradeoffs.Base.{
  ℕ, zero, suc, ◌+◌, ◌-◌, ◌≤◌, ◌≡◌, ap, sym, ◌∙◌, ◌⊎◌, inl, inr, true, Nat-cases, List, [], ◌∷◌,
  ◌++◌, Str, concat, concat-append, splitlines_keepends, concat-splitlines_keepends, ends_with,
  take, drop, take-append-drop, nat_eq, arith,
}
use refactor_tradeoffs.Pipeline.TreeParser.FullLines.{
  splitlines_keepends-IsFull, splitlines_keepends-append, replacement-newline, lines_unique,
  take-IsFull,
}
use refactor_tradeoffs.Pipeline.TreeParser.{
  FunctionInfo, slice, newline, replacement, splice_function,
}

take-drop-drop {ℓ} :
    {A : Type ℓ} (m n : ℕ) (xs : List A) → m ≤ n → take (n - m) (drop m xs) ++ drop n xs ≡ drop m xs
take-drop-drop zero n xs h = rw sub-zero (take-append-drop n xs)
take-drop-drop (suc m) zero xs h = elim h [ ]
take-drop-drop (suc m) (suc n) [] h = elim (Nat-cases (suc n - suc m)) [
  | inl e ↦ rw e
  | inr (k, e) ↦ rw e
]
take-drop-drop (suc m) (suc n) (x ∷ xs) h = rw suc-sub-suc (take-drop-drop m n xs (omega arith))

-- The text of a function's lines, with their ends.
unfoldable pub own_text : Str → FunctionInfo → Str
own_text source fn = concat (slice fn.start_line (fn.end_line + 1) (splitlines_keepends source))

-- If a function's rows are in order and the text of its lines ends in a newline, splicing in that
-- text gives the file as it was.
splice_function-own_text :
    (source : Str) (fn : FunctionInfo)
    → fn.start_line ≤ fn.end_line + 1
    → ends_with (own_text source fn) newline ≡ true
    → splice_function source fn (own_text source fn) ≡ source
unfolding splice_function replacement own_text
splice_function-own_text source fn h e =
    let lines = splitlines_keepends source in
    rw (e, append_assoc)
      (ap (λ t. concat (take fn.start_line lines) ++ t)
          (sym (concat-append (slice fn.start_line (fn.end_line + 1) lines) _)
            ∙ ap concat (take-drop-drop fn.start_line (fn.end_line + 1) lines h))
        ∙ sym (concat-append (take fn.start_line lines) (drop fn.start_line lines))
        ∙ ap concat (take-append-drop fn.start_line lines)
        ∙ concat-splitlines_keepends source)

-- The first `n` lines of the text end in a newline.
abbrev pub EndsAt : ℕ → Str → Type 0
EndsAt n s = (w : Str) × (concat (take n (splitlines_keepends s)) ≡ w ++ newline)

module _ (s : Str) (n : ℕ) where
  abbrev lines : List Str
  lines = splitlines_keepends s

  split-at :
      (w : Str)
      → concat (take n lines) ≡ w ++ newline
      → take n lines ++ drop n lines
        ≡ splitlines_keepends (w ++ newline) ++ splitlines_keepends (concat (drop n lines))
  split-at w e =
      take-append-drop n lines
      ∙ ap splitlines_keepends (
          sym (concat-splitlines_keepends s)
          ∙ ap concat (sym (take-append-drop n lines))
          ∙ concat-append (take n lines) (drop n lines)
          ∙ ap (λ t. t ++ concat (drop n lines)) e
          ∙ append_assoc w newline (concat (drop n lines)))
      ∙ splitlines_keepends-append w (concat (drop n lines))

  take-split :
      (w : Str)
      → concat (take n lines) ≡ w ++ newline
      → take n lines ≡ splitlines_keepends (w ++ newline)
  take-split w e =
      lines_unique (take n lines) (drop n lines) (splitlines_keepends (w ++ newline)) _
        (take-IsFull n lines (splitlines_keepends-IsFull s))
        (splitlines_keepends-IsFull (w ++ newline)) (split-at w e)
        (e ∙ sym (concat-splitlines_keepends (w ++ newline)))

  drop-split : EndsAt n s → splitlines_keepends (concat (drop n lines)) ≡ drop n lines
  drop-split (w, e) =
      sym (
        append_cancel_left (take n lines) (drop n lines) _
          (rw (← take-split w e) at (split-at w e)))

  drop-split_or_end :
      EndsAt n s ⊎ (drop n lines ≡ []) → splitlines_keepends (concat (drop n lines)) ≡ drop n lines
  unfolding splitlines_keepends concat
  drop-split_or_end (inl b) = drop-split b
  drop-split_or_end (inr e) = rw e

split-behind :
    (w v : Str)
    → splitlines_keepends ((w ++ newline) ++ v)
      ≡ splitlines_keepends (w ++ newline) ++ splitlines_keepends v
split-behind w v = rw append_assoc (splitlines_keepends-append w v)

-- Where the function's lines begin and end at newlines (or at the ends of the file), the lines of
-- the spliced file are the lines before, those of the new text, and the lines behind, unchanged.
pub splitlines_keepends-splice_function :
    (source : Str) (fn : FunctionInfo) (new_function : Str)
    → EndsAt fn.start_line source ⊎ (take fn.start_line (splitlines_keepends source) ≡ [])
    → EndsAt (fn.end_line + 1) source ⊎ (drop (fn.end_line + 1) (splitlines_keepends source) ≡ [])
    → splitlines_keepends (splice_function source fn new_function)
      ≡ take fn.start_line (splitlines_keepends source)
        ++ (splitlines_keepends (replacement new_function)
            ++ drop (fn.end_line + 1) (splitlines_keepends source))
unfolding splice_function concat
splitlines_keepends-splice_function source fn new_function starts stops = go starts
  where
    tail : Str
    tail = concat (drop (fn.end_line + 1) (splitlines_keepends source))

    rest :
        splitlines_keepends (replacement new_function ++ tail)
        ≡ splitlines_keepends (replacement new_function)
          ++ drop (fn.end_line + 1) (splitlines_keepends source)
    rest =
        let (w, e) = replacement-newline new_function in
        rw (e, split-behind w tail, drop-split_or_end source (fn.end_line + 1) stops)

    go :
        EndsAt fn.start_line source ⊎ (take fn.start_line (splitlines_keepends source) ≡ [])
        → splitlines_keepends (
            concat (take fn.start_line (splitlines_keepends source))
            ++ replacement new_function
            ++ tail)
          ≡ take fn.start_line (splitlines_keepends source)
            ++ (splitlines_keepends (replacement new_function)
                ++ drop (fn.end_line + 1) (splitlines_keepends source))
    go (inr e) = rw e rest
    go (inl (w, e)) =
        rw (append_assoc, e, split-behind w (replacement new_function ++ tail), rest)
          (ap
            (λ l.
              l
              ++ (splitlines_keepends (replacement new_function)
                  ++ drop (fn.end_line + 1) (splitlines_keepends source)))
            (sym (take-split source fn.start_line w e)))
