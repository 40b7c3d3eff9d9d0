-- ===== src/Globals/Sources.antt =====
-- The sources of the settings in src/settings.py: `YamlSettingsSource`, and the order of the sources. The YAML
-- library is a parameter; the names of fields are texts of ASCII characters.
use refactor_tradeoffs.Base.{
  ◌+◌, Bool, false, ◌&&◌, leb, Option, none, some, List, [], ◌∷◌, ◌++◌, map, Str, codes, FilePath,
  list_eq, nat_eq, if◌then◌else◌, Result, ok, raised,
}
use refactor_tradeoffs.Base.Dict.{Dict, lookup, insert}

-- `str.lower`
unfoldable pub lower : Str → Str
lower = map (λ c. if leb 65 c && leb c 90 then c + 32 else c)

module _ {Value : Type 0} where
  -- `{k.lower(): v for k, v in data.items()}`
  unfoldable pub lowered : Dict Str Value → Dict Str Value → Dict Str Value
  unfolding lower insert
  lowered [] d = d
  lowered ((k, v) ∷ entries) d = lowered entries (insert (lower k) v d)

  module _ (safe_load : Str → Result (Option (Dict Str Value))) (parent_dir : FilePath)
      (files : FilePath → Option Str) where
    -- The file, or nothing where there is none.
    yaml_text : Option Str
    yaml_text = files (parent_dir ++ (codes "config" ∷ codes "experiment.yaml" ∷ []))

    -- `safe_load(f) or {}`
    or_empty : Result (Option (Dict Str Value)) → Result (Dict Str Value)
    or_empty (raised e) = raised e
    or_empty (ok none) = ok []
    or_empty (ok (some entries)) = ok entries

    lowered_or_raised : Result (Dict Str Value) → Result (Dict Str Value)
    unfolding lowered
    lowered_or_raised (raised e) = raised e
    lowered_or_raised (ok entries) = ok (lowered entries [])

    -- `YamlSettingsSource.__call__`
    unfoldable pub yaml_settings : Result (Dict Str Value)
    unfolding yaml_text or_empty lowered_or_raised
    yaml_settings = elim yaml_text [
      | none ↦ ok []
      | some text ↦ lowered_or_raised (or_empty (safe_load text))
    ]

    field_of : Str → Result (Dict Str Value) → Result (Option Value × Str × Bool)
    unfolding lookup
    field_of field_name (raised e) = raised e
    field_of field_name (ok entries) = ok (lookup field_name entries, field_name, false)

    -- `YamlSettingsSource.get_field_value`
    unfoldable pub get_field_value : Str → Result (Option Value × Str × Bool)
    unfolding yaml_text or_empty lowered_or_raised field_of
    get_field_value field_name = elim yaml_text [
      | none ↦ ok (none, field_name, false)
      | some text ↦ field_of field_name (lowered_or_raised (or_empty (safe_load text)))
    ]

-- What comes first has precedence; `yaml_source` is `YamlSettingsSource(settings_cls)`.
unfoldable pub settings_customise_sources {ℓ} :
    {Source : Type ℓ} → Source → Source → Source → Source → Source → List Source
settings_customise_sources init_settings env_settings dotenv_settings file_secret_settings
      yaml_source =
    init_settings ∷ env_settings ∷ dotenv_settings ∷ yaml_source ∷ []
