-- ===== src/Pipeline/Utils/Fences.antt =====
-- Code that a model puts into a fenced block is what `parse_refactored_code` takes out.
use refactor_tradeoffs.Base.{
  ℕ, ◌+◌, ◌≡◌, ◌≢◌, refl, true, false, none, some, [], ◌∷◌, ◌++◌, Str, is_empty, starts_with, All,
  nat_eq, arith,
}
use refactor_tradeoffs.Pipeline.Utils.{
  tick, fence, ticks, behind_tag, behind_opening, behind_closing, at_end, until_closing,
  skip_newline, search_fenced, search_trailing, before_trailing, parse_refactored_code,
}

abbrev pub HasNoTick : Str → Type 0
HasNoTick = All (λ c. c ≢ tick)

-- What may stand behind the opening backticks: no backtick and no newline.
abbrev pub IsTag : Str → Type 0
IsTag = All (λ c. (c ≢ tick) × (c ≢ b'\n'))

abbrev closing : Str
closing = b'\n' ∷ fence

starts_with-code : (code : Str) → HasNoTick code → starts_with (code ++ closing) fence ≡ false
unfolding starts_with
starts_with-code [] h = ground arith
starts_with-code (c ∷ code) h = ground arith

behind_closing-code :
    (c : ℕ) (code : Str)
    → c ≢ tick
    → HasNoTick code
    → behind_closing fence (c ∷ (code ++ closing)) ≡ none
unfolding behind_closing starts_with
behind_closing-code c code h k = ground (arith, starts_with-code code k)

at_end-code : (c : ℕ) (code : Str) → at_end (c ∷ (code ++ closing)) ≡ false
unfolding at_end is_empty
at_end-code c [] = ground arith
at_end-code c (d ∷ code) = ground arith

until_closing-code :
    (code : Str) → HasNoTick code → until_closing fence (code ++ closing) ≡ (code, [])
unfolding until_closing behind_closing starts_with nat_eq
until_closing-code [] h = refl
until_closing-code (c ∷ code) h =
    rw
      (
        until_closing,
        behind_closing-code c code h.0 h.1,
        at_end-code c code,
        until_closing-code code h.1,
      )
      refl

behind_tag-tag : (tag rest : Str) → IsTag tag → behind_tag true (tag ++ (b'\n' ∷ rest)) ≡ some rest
unfolding behind_tag
behind_tag-tag [] rest h = ground arith
behind_tag-tag (c ∷ tag) rest h = ground (arith, behind_tag-tag tag rest h.1)

behind_opening-tag :
    (c : ℕ) (tag code : Str)
    → IsTag (c ∷ tag)
    → HasNoTick code
    → behind_opening fence (c ∷ (tag ++ (b'\n' ∷ (code ++ closing)))) ≡ code ++ closing
unfolding behind_opening behind_tag
behind_opening-tag c tag code h k =
    ground (arith, behind_tag-tag tag (code ++ closing) h.1, starts_with-code code k)

ticks-tag : (c : ℕ) (s : Str) → c ≢ tick → ticks (fence ++ (c ∷ s)) ≡ fence
unfolding ticks
ticks-tag c s h = ground arith

-- A reply that is a fenced block with a language tag, of code without backticks, gives that code.
pub parse_refactored_code-tagged :
    (c : ℕ) (tag code : Str)
    → IsTag (c ∷ tag)
    → HasNoTick code
    → parse_refactored_code (fence ++ ((c ∷ tag) ++ (b'\n' ∷ (code ++ closing)))) ≡ code
unfolding parse_refactored_code search_fenced
parse_refactored_code-tagged c tag code h k =
    rw
      (
        parse_refactored_code,
        search_fenced,
        ticks-tag c (tag ++ (b'\n' ∷ (code ++ closing))) h.0.0,
        behind_opening-tag c tag code h k,
        until_closing-code code k,
      )
      (ground arith)

behind_opening-newline : (rest : Str) → behind_opening fence (b'\n' ∷ rest) ≡ rest
unfolding behind_opening behind_tag skip_newline nat_eq
behind_opening-newline rest = refl

-- A reply that is a fenced block without a language tag, of code without backticks, gives that code.
parse_refactored_code-untagged :
    (code : Str)
    → HasNoTick code
    → parse_refactored_code (fence ++ (b'\n' ∷ (code ++ closing))) ≡ code
unfolding parse_refactored_code search_fenced
parse_refactored_code-untagged code k =
    rw
      (
        parse_refactored_code,
        search_fenced,
        ticks-tag b'\n' (code ++ closing) (λ e. omega arith),
        behind_opening-newline (code ++ closing),
        until_closing-code code k,
      )
      (ground arith)

starts_with-plain : (s : Str) → HasNoTick s → starts_with s fence ≡ false
unfolding starts_with
starts_with-plain [] h = ground arith
starts_with-plain (c ∷ s) h = ground arith

behind_closing-plain : (s : Str) → HasNoTick s → behind_closing fence s ≡ none
unfolding behind_closing starts_with is_empty
behind_closing-plain [] h = ground arith
behind_closing-plain (c ∷ s) h = ground (arith, starts_with-plain s h.1)

search_trailing-plain : (s : Str) → HasNoTick s → search_trailing s ≡ none
unfolding search_trailing
search_trailing-plain [] h = refl
search_trailing-plain (c ∷ s) h =
    ground (arith, behind_closing-plain (c ∷ s) h, search_trailing-plain s h.1)

search_fenced-plain : (start : ℕ) (s : Str) → HasNoTick s → search_fenced start s ≡ none
unfolding search_fenced ticks
search_fenced-plain start [] h = refl
search_fenced-plain start (c ∷ s) h = ground (arith, search_fenced-plain (start + 1) s h.1)

-- A reply without backticks is code as it stands.
parse_refactored_code-plain :
    (raw_output : Str) → HasNoTick raw_output → parse_refactored_code raw_output ≡ raw_output
unfolding parse_refactored_code before_trailing
parse_refactored_code-plain raw_output h =
    ground (arith, search_fenced-plain 0 raw_output h, search_trailing-plain raw_output h)
