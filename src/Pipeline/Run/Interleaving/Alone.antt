-- ===== src/Pipeline/Run/Interleaving/Alone.antt =====
-- A thread of the pool that works alone does what `process_claimed` does.
use mathlib.Core.List.{append_assoc, append-nil}
use mathlib.Core.Path.{subst, fun_ext}
use refactor_tradeoffs.Base.{
  ℕ, ◌≡◌, refl, ap, ◌∙◌, inl, inr, Option, List, [], ◌∷◌, ◌++◌, FilePath, nat_eq, arith, Result, ok,
  raised, Result-cases, Exn, Exec, pure, continue, ◌>>=◌,
}
use refactor_tradeoffs.Globals.{UnitResult}
use refactor_tradeoffs.Pipeline.State.{State}
use refactor_tradeoffs.Pipeline.WorkerContext.Pool.{hold}
use refactor_tradeoffs.Pipeline.Refactor.{RefactorUnit, Setup}
use refactor_tradeoffs.Pipeline.Units.{for_each, process_rebased, merge_back}
use refactor_tradeoffs.Pipeline.Run.{FileUnits}
use refactor_tradeoffs.Pipeline.Run.Interleaving.{
  Doing, idle, working, System, view, goes_on, ends, after_unit, after_merge, Step, processes,
  merges, Reach, next,
}

module _ {ℓ} {A : Type ℓ} (t : ℕ) where
  hold_self : (a : A) (f : ℕ → A) → hold t a f t ≡ a
  hold_self a f = ground arith

  hold-hold : (a b : A) (f : ℕ → A) → hold t a (hold t b f) ≡ hold t a f
  hold-hold a b f = fun_ext λ u. ground arith

-- The rest of a loop, when one result is there.
for_each-ok {ℓ κ μ} :
    {S : Type ℓ} {A : Type κ} {B : Type μ} {C : Type μ} (f : A → Exec S B) (a : A) (rest : List A)
    (b : B) (s : S) (acc : List B) (m : Exec S C)
    → (f a s).0 ≡ ok b
    → (for_each f (a ∷ rest) >>= λ bs. m >>= λ _. pure (acc ++ bs)) s
      ≡ (for_each f rest >>= λ bs. m >>= λ _. pure ((acc ++ (b ∷ [])) ++ bs)) (f a s).1
unfolding for_each
for_each-ok f a rest b s acc m e = rw e (elim (Result-cases (for_each f rest (f a s).1).0) [
  | inl (bs, g) ↦ rw (g, append_assoc acc (b ∷ []) bs) refl
  | inr (x, g) ↦ rw g refl
])

for_each-raised {ℓ κ μ} :
    {S : Type ℓ} {A : Type κ} {B : Type μ} {D : Type μ} (f : A → Exec S B) (a : A) (rest : List A)
    (s : S) (k : List B → Exec S D) {x : _}
    → (f a s).0 ≡ raised x
    → (for_each f (a ∷ rest) >>= k) s ≡ (raised x, (f a s).1)
unfolding for_each
for_each-raised f a rest s k e = rw e refl

module _ {World : Type 0} (setup : Setup World) (run_repo : FilePath) (May : ℕ → Type 0) where
  module _ (t : ℕ) (may : May t) (task : FileUnits) (index : ℕ) (before : System World) where
    -- The thread `t` is at `doing` with `v`, and all else is as before the task.
    abbrev at : Doing → State World → System World
    at doing v = goes_on t doing v before

    view-at : (doing : Doing) (v : State World) → view (at doing v) t ≡ v
    view-at doing v =
        ap (λ (i : Option ℕ). record { files = v.files; worker_index = i; world = v.world })
          (hold_self t v.worker_index before.held)

    at-at : (d e : Doing) (v w : State World) → goes_on t e w (at d v) ≡ at e w
    at-at d e v w =
        rw (hold-hold t w.worker_index v.worker_index before.held, hold-hold t e d before.doing)
          refl

    abbrev ended_with : Result (List UnitResult) × State World → System World
    ended_with r = ends t task.0 r.0 r.1 before

    -- What is left of the task.
    unfoldable pub remaining :
        List RefactorUnit → List UnitResult → Exec (State World) (List UnitResult)
    remaining left acc = for_each (process_rebased setup run_repo index) left >>= λ results.
        merge_back setup run_repo index task.1 >>= λ _. pure (acc ++ results)

    unit-Step :
        (unit : RefactorUnit) (left : List RefactorUnit) (acc : List UnitResult) (v : State World)
        → let d = working task index (unit ∷ left) acc in
          Step setup run_repo t (at d v) (
            after_unit t task index left acc (process_rebased setup run_repo index unit v) (at d v))
    unit-Step unit left acc v =
        let d = working task index (unit ∷ left) acc in
        subst
          (λ w. Step setup run_repo t (at d v) (
            after_unit t task index left acc (process_rebased setup run_repo index unit w)
              (at d v)))
          (view-at d v) (processes task index unit left acc (hold_self t d before.doing))

    merge-Step :
        (acc : List UnitResult) (v : State World)
        → let d = working task index [] acc in
          Step setup run_repo t
            (at d v)
            (after_merge t task acc (merge_back setup run_repo index task.1 v) (at d v))
    merge-Step acc v =
        let d = working task index [] acc in
        subst
          (λ w.
            Step setup run_repo t (at d v)
              (after_merge t task acc (merge_back setup run_repo index task.1 w) (at d v)))
          (view-at d v) (merges task index acc (hold_self t d before.doing))

    ends-at :
        (d : Doing) (v : State World) (r : Result (List UnitResult) × State World)
        → ends t task.0 r.0 r.1 (at d v) ≡ ended_with r
    ends-at d v r =
        ap (λ (s : System World). record s { completed = s.completed ++ ((task.0, r.0) ∷ []) })
          (at-at d idle v r.1)

    after_merge-at :
        (acc : List UnitResult) (v : State World) (r : Result (Unit {0}) × State World)
        → after_merge t task acc r (at (working task index [] acc) v)
          ≡ ended_with (continue r.0 (λ _. pure acc) r.1)
    unfolding after_merge
    after_merge-at acc v (ok _, u) = ends-at _ v (ok acc, u)
    after_merge-at acc v (raised x, u) = ends-at _ v (raised x, u)

    after_unit-ok :
        (unit : RefactorUnit) (left : List RefactorUnit) (acc : List UnitResult) (v : State World)
        (r : Result UnitResult × State World) {b : UnitResult}
        → r.0 ≡ ok b
        → after_unit t task index left acc r (at (working task index (unit ∷ left) acc) v)
          ≡ at (working task index left (acc ++ (b ∷ []))) r.1
    unfolding after_unit
    after_unit-ok unit left acc v (ok c, u) {b} e =
        let same : c ≡ b = cc in
        at-at _ (working task index left (acc ++ (c ∷ []))) v u
        ∙ ap (λ x. at (working task index left (acc ++ (x ∷ []))) u) same
    after_unit-ok unit left acc v (raised x, u) e = cc

    after_unit-raised :
        (unit : RefactorUnit) (left : List RefactorUnit) (acc : List UnitResult) (v : State World)
        (r : Result UnitResult × State World) {x : Exn}
        → r.0 ≡ raised x
        → after_unit t task index left acc r (at (working task index (unit ∷ left) acc) v)
          ≡ ended_with (raised x, r.1)
    unfolding after_unit
    after_unit-raised unit left acc v (ok c, u) e = cc
    after_unit-raised unit left acc v (raised y, u) {x} e =
        let same : y ≡ x = cc in ends-at _ v (raised y, u) ∙ ap (λ z. ended_with (raised z, u)) same

    pub Reach-remaining :
        {s : System World} (left : List RefactorUnit) (acc : List UnitResult) (v : State World)
        → Reach setup run_repo May s (at (working task index left acc) v)
        → Reach setup run_repo May s (ended_with (remaining left acc v))
    unfolding remaining for_each
    Reach-remaining {s} [] acc v r = rw (append-nil acc) (
        subst (Reach setup run_repo May s)
          (after_merge-at acc v (merge_back setup run_repo index task.1 v))
          (next r may (merge-Step acc v)))
    Reach-remaining {s} (unit ∷ left) acc v r =
        let f : RefactorUnit → Exec (State World) UnitResult =
          process_rebased setup run_repo index in
        let later = next r may (unit-Step unit left acc v) in
        elim (Result-cases (f unit v).0) [
          | inl (b, e) ↦
              rw (for_each-ok f unit left b v acc (merge_back setup run_repo index task.1) e) (
                Reach-remaining left (acc ++ (b ∷ [])) (f unit v).1 (
                  subst (Reach setup run_repo May s) (after_unit-ok unit left acc v (f unit v) e)
                    later))
          | inr (x, e) ↦ rw (for_each-raised f unit left v _ e) (
              subst (Reach setup run_repo May s) (after_unit-raised unit left acc v (f unit v) e)
                later)
        ]
