-- ===== src/Orchestration/Versions.antt =====
-- The versions of the unified schema: exchange/orchestration-engine/database/schema_db.go and the
-- service on it, services/schema.go. An argument that is an error is what a statement fails with,
-- `none` where it succeeds; a statement that fails, and a transaction that is not committed, change
-- nothing. A version stands in one row (UNIQUE), and so does an id.
use Prim.Native.String.{◌++◌ as concat, len}
use text.Mathlib.Text.{find?}
use opendif_core.Base.{
  Bool, List, Option, Result, String, [], elem, err, false, if◌then◌else◌, is_nil, ltb, map, none,
  not, ok, some, true, ℕ, ◌&&◌, ◌==◌, ◌||◌, ◌∷◌,
}

pub record UnifiedSchema : Type 0 where
  pub id : String
  pub version : String
  pub sdl : String
  pub status : String
  pub description : String
  pub created_at : ℕ
  pub updated_at : ℕ
  pub created_by : String
  pub checksum : String
  pub is_active : Bool

-- the service's view of a row
pub record ServiceSchema : Type 0 where
  pub id : String
  pub version : String
  pub sdl : String
  pub is_active : Bool
  pub created_at : ℕ
  pub created_by : String
  pub checksum : String

abbrev pub service_schema : UnifiedSchema → ServiceSchema
service_schema s = record {
  id = s.id;
  version = s.version;
  sdl = s.sdl;
  is_active = s.is_active;
  created_at = s.created_at;
  created_by = s.created_by;
  checksum = s.checksum;
}

abbrev pub versions : List UnifiedSchema → List String
versions rows = map (λ s. s.version) rows

abbrev pub ids : List UnifiedSchema → List String
ids rows = map (λ s. s.id) rows

-- SchemaDB.CreateSchema; the database puts its own time into the row
unfoldable pub insert_schema :
    Option String → ℕ → UnifiedSchema → List UnifiedSchema → Option String × List UnifiedSchema
insert_schema (some e) now s rows = (some (concat "failed to create schema: " e), rows)
insert_schema none now s rows =
    if elem s.version (versions rows) || elem s.id (ids rows)
    then (some "failed to create schema: duplicate key value violates unique constraint", rows)
    else (
      none,
      record {
        id = s.id;
        version = s.version;
        sdl = s.sdl;
        status = s.status;
        description = s.description;
        created_at = now;
        updated_at = now;
        created_by = s.created_by;
        checksum = s.checksum;
        is_active = s.is_active;
      }
          ∷ rows,
    )

abbrev pub set_active : Bool → UnifiedSchema → UnifiedSchema
set_active active s = record {
  id = s.id;
  version = s.version;
  sdl = s.sdl;
  status = s.status;
  description = s.description;
  created_at = s.created_at;
  updated_at = s.updated_at;
  created_by = s.created_by;
  checksum = s.checksum;
  is_active = active;
}

-- UPDATE unified_schemas SET is_active = TRUE WHERE version = $1
unfoldable pub activate_version : String → List UnifiedSchema → List UnifiedSchema
activate_version version [] = []
activate_version version (s ∷ rows) =
    let rest = activate_version version rows in
    if s.version == version then set_active true s ∷ rest else s ∷ rest

-- what the statements of a transaction fail with
pub record ActivateReplies : Type 0 where
  pub begins : Option String
  pub deactivates : Option String
  pub activates : Option String
  pub affected : Option String
  pub commits : Option String

-- SchemaDB.ActivateSchema
unfoldable pub activate_schema :
    ActivateReplies → String → List UnifiedSchema → Option String × List UnifiedSchema
activate_schema r version rows = elim r.begins [
  | some e ↦ (some (concat "failed to begin transaction: " e), rows)
  | none ↦ elim r.deactivates [
    | some e ↦ (some (concat "failed to deactivate schemas: " e), rows)
    | none ↦ elim r.activates [
      | some e ↦ (some (concat "failed to activate schema: " e), rows)
      | none ↦ elim r.affected [
        | some e ↦ (some (concat "failed to get rows affected: " e), rows)
        | none ↦ elim (elem version (versions rows)) [
          | false ↦ (some (concat "schema version " (concat version " not found")), rows)
          | true ↦ elim r.commits [
            | some e ↦ (some (concat "failed to commit transaction: " e), rows)
            | none ↦ (none, activate_version version (map (set_active false) rows))
          ]
        ]
      ]
    ]
  ]
]

-- SchemaDB.GetActiveSchema
unfoldable pub first_active : List UnifiedSchema → Option UnifiedSchema
first_active [] = none
first_active (s ∷ rows) = if s.is_active then some s else first_active rows

-- SchemaDB.GetSchemaByVersion
unfoldable pub get_schema_by_version :
    Option String → String → List UnifiedSchema → Result String UnifiedSchema
get_schema_by_version (some e) version rows = err (concat "failed to get schema: " e)
get_schema_by_version none version [] = err (concat "schema version " (concat version " not found"))
get_schema_by_version none version (s ∷ rows) =
    if s.version == version then ok s else get_schema_by_version none version rows

-- isValidSDL
abbrev pub is_valid_sdl : String → Bool
is_valid_sdl sdl = ltb 0 (len sdl) && not (is_nil (find? sdl "type"))

-- `checksum` is the hexadecimal SHA-256 of a text.
module _ (checksum : String → String) where
  -- SchemaService.CreateSchema, of the id that generateID makes
  unfoldable pub create_version :
      Option String
      → (id : String) → (now db_now : ℕ) → (version sdl created_by : String) → List UnifiedSchema
      → Result String ServiceSchema × List UnifiedSchema
  create_version fails id now db_now version sdl created_by rows =
      if not (is_valid_sdl sdl)
      then (err "invalid SDL syntax", rows)
      else (let s : UnifiedSchema = record {
        id = id;
        version = version;
        sdl = sdl;
        status = "inactive";
        description = "";
        created_at = now;
        updated_at = 0;
        created_by = created_by;
        checksum = checksum sdl;
        is_active = false;
      } in
          let (failure, after) = insert_schema fails db_now s rows in
          elim failure [
            | some e ↦ (err (concat "failed to save schema to database: " e), after)
            | none ↦ (ok (service_schema s), after)
          ])

-- SchemaService.GetActiveSchema
unfoldable pub get_active_schema :
    Option String → List UnifiedSchema → Result String (Option ServiceSchema)
get_active_schema (some e) rows =
    err (concat "failed to get active schema: failed to get active schema: " e)
get_active_schema none rows = elim (first_active rows) [
  | none ↦ ok none
  | some s ↦ ok (some (service_schema s))
]

-- SchemaService.GetAllSchemas; `newest_first` is ORDER BY created_at DESC
unfoldable pub get_all_schemas :
    Option String
    → (List UnifiedSchema → List UnifiedSchema)
    → List UnifiedSchema
    → Result String (List ServiceSchema)
get_all_schemas (some e) newest_first rows =
    err (concat "failed to get schemas: failed to get schemas: " e)
get_all_schemas none newest_first rows = ok (map service_schema (newest_first rows))
