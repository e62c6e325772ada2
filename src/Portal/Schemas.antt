-- ===== src/Portal/Schemas.antt =====
-- Schemas: portal-backend/v1/services/schema_service.go. What the policy decision point and the
-- database reply is a record of the call's replies, `none` where a call succeeds.
use Prim.Native.String.{◌++◌ as concat}
use opendif_core.Base.{
  List, Option, Result, String, err, if◌then◌else◌, map, none, ok, opt_eq, some, ℕ, ◌==◌, ◌∷◌,
}
use opendif_core.Portal.ApplicationRecords.{active_version}
use opendif_core.Portal.Rows.{
  all_where, drop_where, is_blank, or_else, or_keep, read_first, save_where,
}
use opendif_core.Portal.SchemaRecords.{
  CreateSchemaRequest, SchemaReplies, SchemaResponse, SchemaRow, SchemaWorld, UpdateSchemaRequest,
  non_blank,
}

module _ (format : ℕ → String) where
  abbrev pub schema_response : SchemaRow → SchemaResponse
  schema_response s = record {
    schema_id = s.schema_id;
    member_id = s.member_id;
    schema_name = s.schema_name;
    sdl = s.sdl;
    endpoint = s.endpoint;
    version = s.version;
    schema_description = non_blank s.schema_description;
    created_at = format s.created_at;
    updated_at = format s.updated_at;
  }

  module _ (r : SchemaReplies) (new_id : String) (now : ℕ) (req : CreateSchemaRequest) where
    abbrev pub new_schema : SchemaRow
    new_schema = record {
      schema_id = concat "sch_" new_id;
      member_id = req.member_id;
      schema_name = req.schema_name;
      sdl = req.sdl;
      endpoint = req.endpoint;
      version = active_version;
      schema_description = req.schema_description;
      created_at = now;
      updated_at = now;
    }

    -- CreateSchema
    unfoldable pub create_schema : SchemaWorld → Result String SchemaResponse × SchemaWorld
    create_schema w = elim r.db_create [
      | some e ↦ (err (concat "failed to create schema: " e), w)
      | none ↦
          let inserted : SchemaWorld = record {
            schemas = new_schema ∷ w.schemas;
            submissions = w.submissions;
            metadata = w.metadata;
          } in
          elim r.create_metadata [
            | none ↦ (
              ok (schema_response new_schema),
              record {
                schemas = inserted.schemas;
                submissions = w.submissions;
                metadata = (new_schema.schema_id, new_schema.sdl) ∷ w.metadata;
              },
            )
            | some e ↦ elim r.db_delete [
              | some d ↦ (
                err (
                    concat "failed to create policy metadata in PDP: "
                      (concat e (concat ", and failed to compensate: " d))),
                inserted,
              )
              | none ↦ (
                err (concat "failed to create policy metadata in PDP: " e),
                record {
                  schemas = drop_where (λ s. s.schema_id == new_schema.schema_id) inserted.schemas;
                  submissions = w.submissions;
                  metadata = w.metadata;
                },
              )
            ]
          ]
    ]

  abbrev pub updated_schema : ℕ → UpdateSchemaRequest → SchemaRow → SchemaRow
  updated_schema now req s = record {
    schema_id = s.schema_id;
    member_id = s.member_id;
    schema_name = or_else req.schema_name s.schema_name;
    sdl = or_else req.sdl s.sdl;
    endpoint = or_else req.endpoint s.endpoint;
    version = or_else req.version s.version;
    schema_description = or_keep req.schema_description s.schema_description;
    created_at = s.created_at;
    updated_at = now;
  }

  -- UpdateSchema
  unfoldable pub update_schema :
      (read_error save_error : Option String)
      → ℕ
      → String
      → UpdateSchemaRequest
      → List SchemaRow
      → Result String SchemaResponse × List SchemaRow
  update_schema read_error save_error now id req rows =
      elim (read_first read_error (λ s. s.schema_id == id) rows) [
        | err e ↦ (err (concat "schema not found: " e), rows)
        | ok s ↦ elim save_error [
          | some e ↦ (err (concat "failed to update schema: " e), rows)
          | none ↦
              let s' = updated_schema now req s in
              (ok (schema_response s'), save_where (λ t. t.schema_id == s.schema_id) s' rows)
        ]
      ]

  -- GetSchema
  unfoldable pub get_schema : Option String → String → List SchemaRow → Result String SchemaResponse
  get_schema read_error id rows = elim (read_first read_error (λ s. s.schema_id == id) rows) [
    | err e ↦ err (concat "schema not found: " e)
    | ok s ↦ ok (schema_response s)
  ]

  -- GetSchemas; `newest_first` is ORDER BY created_at DESC
  unfoldable pub get_schemas :
      Option String
      → (List SchemaRow → List SchemaRow)
      → Option String
      → List SchemaRow
      → Result String (List SchemaResponse)
  get_schemas (some e) newest_first member_id rows = err (concat "failed to retrieve schemas: " e)
  get_schemas none newest_first member_id rows = ok (
      map schema_response (
        newest_first (
          if is_blank member_id
          then rows
          else all_where (λ s. opt_eq (some s.member_id) member_id) rows)))
