-- ===== src/Pipeline/Registry.antt =====
-- src/pipeline/repository_registry/registry.py, and the parser cache that
-- src/pipeline/llm_context/tree_parser.py fills from it.
pub mod Coherence
use refactor_tradeoffs.Base.{
  ℕ, ◌≡◌, refl, Bool, true, false, Option, none, some, List, [], ◌∷◌, Str, ◌==◌, list_eq, nat_eq,
  if◌then◌else◌, Result, ok, raised, key_error, Exec, arith,
}
use refactor_tradeoffs.Base.Dict.{Dict, lookup, insert}
use refactor_tradeoffs.Pipeline.State.{State}

-- What the code reads of a tree-sitter node. The `name` is the text of the field of that name.
mutual
  pub data Node : Type 0 where
    node : (kind : Str) (name : Option Str) (start_row end_row : ℕ) → Nodes → Node

  pub data Nodes : Type 0 where
    nil : Nodes
    cons : Node → Nodes → Nodes

-- A parser, as the function from a text to the root of its tree, with the node types of functions.
pub record Parsing : Type 0 where
  pub parse : Str → Node
  pub function_node_types : List Str

pub record Profile (World : Type 0) : Type 0 where
  pub language_name : Str
  pub language_extension : Str
  pub syntax_check : Str → Exec (State World) (Bool × Str)
  pub correctness_check : Option ℕ → Exec (State World) (Bool × Str)
  pub tree_sitter_language : Str → Node
  pub function_node_types : List Str

module _ {World : Type 0} where
  -- A key that is taken keeps its profile.
  unfoldable pub register_repository :
      Str → Profile World → Dict Str (Profile World) → Dict Str (Profile World)
  register_repository key profile registry = elim (lookup key registry) [
    | some _ ↦ registry
    | none ↦ insert key profile registry
  ]

  unfoldable pub get_repository_profile : Str → Dict Str (Profile World) → Result (Profile World)
  get_repository_profile key registry = elim (lookup key registry) [
    | some profile ↦ ok profile
    | none ↦ raised key_error
  ]

  -- `Parser(Language(profile.tree_sitter_language))` with the profile's node types.
  abbrev pub parsing_of : Profile World → Parsing
  parsing_of profile = record {
    parse = profile.tree_sitter_language;
    function_node_types = profile.function_node_types;
  }

  -- `_get_parser`, over the registry, with the module's cache as the state.
  unfoldable pub get_parser : Str → Dict Str (Profile World) → Exec (Dict Str Parsing) Parsing
  unfolding get_repository_profile
  get_parser key registry cache = elim (lookup key cache) [
    | some cached ↦ (ok cached, cache)
    | none ↦ elim (get_repository_profile key registry) [
      | ok profile ↦ (ok (parsing_of profile), insert key (parsing_of profile) cache)
      | raised e ↦ (raised e, cache)
    ]
  ]
