-- ===== src/Pipeline/Registry/Coherence.antt =====
-- The registry never replaces a profile, so the parser cache never goes stale.
use refactor_tradeoffs.Base.{
  ◌≡◌, inl, inr, Option-cases, some, List, [], ◌∷◌, Str, list_eq, nat_eq, Result, ok, raised, arith,
}
use refactor_tradeoffs.Base.Dict.{Dict, lookup, lookup-insert}
use refactor_tradeoffs.Pipeline.Registry.{
  Profile, Parsing, register_repository, get_repository_profile, parsing_of, get_parser,
}

-- The module-level state of the two files.
pub record Modules (World : Type 0) : Type 0 where
  pub registry : Dict Str (Profile World)
  pub cache : Dict Str Parsing

-- What other code does to it.
pub data Event (World : Type 0) : Type 0 where
  registers : Str → Profile World → Event World
  parses : Str → Event World

module _ {World : Type 0} where
  pub step : Event World → Modules World → Modules World
  step (registers key profile) m = record m {
    registry = register_repository key profile m.registry;
  }
  step (parses key) m = record m { cache = (get_parser key m.registry m.cache).1 }

  pub run : List (Event World) → Modules World → Modules World
  run [] m = m
  run (e ∷ es) m = run es (step e m)

  abbrev pub initial : Modules World
  initial = record { registry = []; cache = [] }

  -- A cached parser is that of the profile under its key.
  abbrev IsCoherent : Modules World → Type 0
  IsCoherent m =
      (k : Str) (p : Parsing)
      → lookup k m.cache ≡ some p
      → (profile : Profile World) × (lookup k m.registry ≡ some profile) × (p ≡ parsing_of profile)

  registers-IsCoherent :
      (key : Str) (profile : Profile World) (m : Modules World)
      → IsCoherent m
      → IsCoherent (step (registers key profile) m)
  unfolding step register_repository
  registers-IsCoherent key profile m c k p h =
      let (found, e, same) = c k p h in
      (found, ground (arith, lookup-insert k key profile m.registry), same)

  parses-IsCoherent :
      (key : Str) (m : Modules World) → IsCoherent m → IsCoherent (step (parses key) m)
  unfolding step get_parser
  parses-IsCoherent key m c k p h = elim (Option-cases (lookup key m.cache)) [
    | inr (_, hit) ↦ c k p (ground arith)
    | inl miss ↦ elim (Option-cases (lookup key m.registry)) [
      | inl absent ↦ c k p (ground arith)
      | inr (profile, found) ↦ elim (list_eq.dec k key) [
        | yes same ↦ (
          profile,
          ground arith,
          ground (arith, lookup-insert k key (parsing_of profile) m.cache),
        )
        | no other ↦ c k p (ground (arith, lookup-insert k key (parsing_of profile) m.cache))
      ]
    ]
  ]

  step-IsCoherent : (e : Event World) (m : Modules World) → IsCoherent m → IsCoherent (step e m)
  step-IsCoherent (registers key profile) m c = registers-IsCoherent key profile m c
  step-IsCoherent (parses key) m c = parses-IsCoherent key m c

  run-IsCoherent :
      (es : List (Event World)) (m : Modules World) → IsCoherent m → IsCoherent (run es m)
  unfolding run
  run-IsCoherent [] m c = c
  run-IsCoherent (e ∷ es) m c = run-IsCoherent es (step e m) (step-IsCoherent e m c)

  initial-IsCoherent : IsCoherent initial
  unfolding lookup
  initial-IsCoherent k p h = cc

  abbrev pub fresh_parser : Result (Profile World) → Result Parsing
  fresh_parser (ok profile) = ok (parsing_of profile)
  fresh_parser (raised e) = raised e

  get_parser_coherent :
      (key : Str) (m : Modules World)
      → IsCoherent m
      → (get_parser key m.registry m.cache).0 ≡ fresh_parser (get_repository_profile key m.registry)
  unfolding get_parser
  get_parser_coherent key m c = elim (Option-cases (lookup key m.cache)) [
    | inl miss ↦ ground arith
    | inr (p, hit) ↦ let (profile, found, same) = c key p hit in ground arith
  ]

  -- After any registrations and any earlier parses, the cached parser of a key is the one that its
  -- registered profile would give now, and an unregistered key is a `KeyError`.
  pub get_parser-run :
      (es : List (Event World)) (key : Str)
      → let m = run es initial in
        (get_parser key m.registry m.cache).0 ≡ fresh_parser (get_repository_profile key m.registry)
  get_parser-run es key =
      get_parser_coherent key (run es initial) (run-IsCoherent es initial initial-IsCoherent)

  registers-keeps :
      (key : Str) (p q : Profile World) (registry : Dict Str (Profile World)) (k : Str)
      → get_repository_profile k registry ≡ ok p
      → get_repository_profile k (register_repository key q registry) ≡ ok p
  unfolding register_repository get_repository_profile
  registers-keeps key p q registry k h = ground (arith, lookup-insert k key q registry)

  -- Once a key has a profile, later registrations and parses leave it that profile.
  pub get_repository_profile-run :
      (es : List (Event World)) (m : Modules World) (k : Str) (p : Profile World)
      → get_repository_profile k m.registry ≡ ok p
      → get_repository_profile k (run es m).registry ≡ ok p
  unfolding run step
  get_repository_profile-run [] m k p h = h
  get_repository_profile-run (registers key q ∷ es) m k p h =
      get_repository_profile-run es _ k p (registers-keeps key p q m.registry k h)
  get_repository_profile-run (parses key ∷ es) m k p h = get_repository_profile-run es _ k p h
