-- ===== src/Pipeline/Checks/Engineblock/Failures.antt =====
-- How `format_failures` groups the failures, and when it has nothing to say.
use mathlib.Core.List.{append_assoc, append-nil}
use refactor_tradeoffs.Base.{
  ℕ, zero, suc, ◌-◌, ◌≡◌, ◌≢◌, ◌↔◌, refl, sym, ap, ◌∙◌, inl, inr, Bool, false, ◌||◌, Bool-cases,
  List, [], ◌∷◌, ◌++◌, map, Str, keep, is_empty, length, take, contains, ◌==◌, list_eq, nat_eq,
  if◌then◌else◌, arith, join,
}
use refactor_tradeoffs.Base.Dict.{
  lookup, lookup_or, has, lookup-insert, lookup_or-append_to, insert, has-append_to, has-insert,
}
use refactor_tradeoffs.Pipeline.Checks.Engineblock.{
  EbTestFailure, ByMessage, no_messages, add_failure, by_message, blocks, block, format_failures,
  omitted_block,
}

abbrev pub tests_of : Str → ByMessage → List Str
tests_of m b = lookup_or [] m b.tests_by_message

abbrev pub with_message : Str → List EbTestFailure → List EbTestFailure
with_message m = keep (λ failure. m == failure.message)

abbrev pub test_name : EbTestFailure → Str
test_name failure = failure.test

-- The messages in the order of their first failures.
abbrev pub Distinct : List Str → Type 0
Distinct [] = Unit
Distinct (m ∷ ms) = (contains ms m ≡ false) × Distinct ms

-- The list and the dict have the same messages.
abbrev IsTracked : ByMessage → Type 0
IsTracked b = (m : Str) → has m b.tests_by_message ≡ contains b.message_order m

add_failure-tests :
    (m : Str) (failure : EbTestFailure) (b : ByMessage)
    → tests_of m (add_failure failure b)
      ≡ (if m == failure.message then tests_of m b ++ (failure.test ∷ []) else tests_of m b)
unfolding add_failure has lookup_or
add_failure-tests m failure b = ground (
  arith,
  lookup_or-append_to m failure.message failure.test b.tests_by_message,
  lookup_or-append_to m failure.message failure.test (insert failure.message [] b.tests_by_message),
  lookup-insert m failure.message [] b.tests_by_message,
)

by_message-tests :
    (m : Str) (failures : List EbTestFailure) (b : ByMessage)
    → tests_of m (by_message failures b) ≡ tests_of m b ++ map test_name (with_message m failures)
unfolding by_message
by_message-tests m [] b = sym (append-nil (tests_of m b))
by_message-tests m (failure ∷ failures) b =
    by_message-tests m failures (add_failure failure b) ∙ elim (list_eq.dec m failure.message) [
      | yes same ↦ ground (
        arith,
        add_failure-tests m failure b,
        append_assoc (tests_of m b) (failure.test ∷ []) (map test_name (with_message m failures)),
      )
      | no other ↦ ground (arith, add_failure-tests m failure b)
    ]

contains-snoc :
    (xs : List Str) (x m : Str) → contains (xs ++ (x ∷ [])) m ≡ (contains xs m || m == x)
contains-snoc [] x m = ground arith
contains-snoc (y ∷ xs) x m = ground (arith, contains-snoc xs x m)

Distinct-snoc :
    (xs : List Str) (x : Str) → Distinct xs → contains xs x ≡ false → Distinct (xs ++ (x ∷ []))
Distinct-snoc [] x h k = (refl, tt)
Distinct-snoc (y ∷ xs) x h k =
    (ground (arith, contains-snoc xs x y), Distinct-snoc xs x h.1 (ground arith))

add_failure-IsTracked :
    (failure : EbTestFailure) (b : ByMessage) → IsTracked b → IsTracked (add_failure failure b)
unfolding add_failure
add_failure-IsTracked failure b h m = ground (
  arith,
  h m,
  h failure.message,
  has-append_to m failure.message failure.test b.tests_by_message,
  has-append_to m failure.message failure.test (insert failure.message [] b.tests_by_message),
  has-insert m failure.message [] b.tests_by_message,
  contains-snoc b.message_order failure.message m,
)

add_failure-Distinct :
    (failure : EbTestFailure) (b : ByMessage)
    → IsTracked b
    → Distinct b.message_order
    → Distinct (add_failure failure b).message_order
unfolding add_failure
add_failure-Distinct failure b h d = elim (Bool-cases (has failure.message b.tests_by_message)) [
  | inl known ↦ rw known d
  | inr fresh ↦
      rw fresh (Distinct-snoc b.message_order failure.message d (sym (h failure.message) ∙ fresh))
]

abbrev pub mentions : Str → List EbTestFailure → Bool
mentions m [] = false
mentions m (failure ∷ failures) = m == failure.message || mentions m failures

add_failure-order :
    (m : Str) (failure : EbTestFailure) (b : ByMessage)
    → IsTracked b
    → contains (add_failure failure b).message_order m
      ≡ (contains b.message_order m || m == failure.message)
unfolding add_failure
add_failure-order m failure b h =
    ground (arith, h m, h failure.message, contains-snoc b.message_order failure.message m)

by_message-order :
    (m : Str) (failures : List EbTestFailure) (b : ByMessage)
    → IsTracked b
    → contains (by_message failures b).message_order m
      ≡ (contains b.message_order m || mentions m failures)
unfolding by_message
by_message-order m [] b h = ground arith
by_message-order m (failure ∷ failures) b h = ground (
  arith,
  add_failure-order m failure b h,
  by_message-order m failures (add_failure failure b) (add_failure-IsTracked failure b h),
)

by_message-Distinct :
    (failures : List EbTestFailure) (b : ByMessage)
    → IsTracked b
    → Distinct b.message_order
    → Distinct (by_message failures b).message_order
unfolding by_message
by_message-Distinct [] b h d = d
by_message-Distinct (failure ∷ failures) b h d =
    by_message-Distinct failures (add_failure failure b) (add_failure-IsTracked failure b h)
      (add_failure-Distinct failure b h d)

no_messages-IsTracked : IsTracked no_messages
unfolding has lookup
no_messages-IsTracked m = refl

tests_of-nothing : (m : Str) → tests_of m no_messages ≡ []
unfolding lookup_or lookup
tests_of-nothing m = refl

pub record IsGrouped (failures : List EbTestFailure) (b : ByMessage) : Type 0 where
  pub tests : (m : Str) → tests_of m b ≡ map test_name (with_message m failures)
  pub listed : (m : Str) → contains b.message_order m ≡ mentions m failures
  pub distinct : Distinct b.message_order

-- Under each message the dict holds the tests of the failures with that message, in their order; the
-- list holds the messages that some failure has, each of them once.
pub by_message-IsGrouped :
    (failures : List EbTestFailure) → IsGrouped failures (by_message failures no_messages)
by_message-IsGrouped failures = record {
  tests = λ m.
      by_message-tests m failures no_messages
      ∙ ap (λ ts. ts ++ map test_name (with_message m failures)) (tests_of-nothing m);
  listed = λ m. by_message-order m failures no_messages no_messages-IsTracked;
  distinct = by_message-Distinct failures no_messages no_messages-IsTracked tt;
}

order-ne-nil :
    (failure : EbTestFailure) (failures : List EbTestFailure)
    → (by_message (failure ∷ failures) no_messages).message_order ≢ []
order-ne-nil failure failures e =
    let grouped = by_message-IsGrouped (failure ∷ failures) in
    ground (arith, grouped.listed failure.message)

blocks-ne-nil :
    (max_reported : ℕ) (b : ByMessage)
    → b.message_order ≢ []
    → is_empty (blocks max_reported b) ≡ false
unfolding blocks omitted_block is_empty
blocks-ne-nil max_reported b h = go max_reported b.message_order h
  where
    go :
        (n : ℕ) (order : List Str)
        → order ≢ []
        → is_empty
            (map (block b) (take n order) ++ omitted_block (length order - length (take n order)))
          ≡ false
    go n [] h = absurd (h refl)
    go zero (m ∷ ms) h = ground arith
    go (suc n) (m ∷ ms) h = refl

append-ne-nil : (s : Str) (c : ℕ) → s ++ (c ∷ []) ≢ []
append-ne-nil [] c e = cc
append-ne-nil (d ∷ s) c e = cc

format_failures-nil : (max_reported : ℕ) → format_failures max_reported [] ≡ []
unfolding format_failures by_message blocks omitted_block is_empty
format_failures-nil zero = refl
format_failures-nil (suc max_reported) = refl

-- Whatever the bound on the messages: the report is empty exactly when there are no failures.
pub format_failures-empty :
    (max_reported : ℕ) (failures : List EbTestFailure)
    → (format_failures max_reported failures ≡ []) ↔ (failures ≡ [])
unfolding format_failures by_message blocks omitted_block is_empty
format_failures-empty max_reported [] = ((λ e. refl), (λ e. format_failures-nil max_reported))
format_failures-empty max_reported (failure ∷ failures) =
    ((λ e. absurd (append-ne-nil _ b'\n' (sym nonempty ∙ e))), (λ e. cc))
  where
    nonempty :
        format_failures max_reported (failure ∷ failures)
        ≡ join (b'\n' ∷ []) (blocks max_reported (by_message (failure ∷ failures) no_messages))
          ++ (b'\n' ∷ [])
    nonempty =
        rw
          (blocks-ne-nil max_reported (by_message (failure ∷ failures) no_messages)
            (order-ne-nil failure failures))
          refl
