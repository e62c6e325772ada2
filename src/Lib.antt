-- ===== src/Lib.antt =====
-- OpenDIF core: the exchange of a citizen's data between applications and providers.
--
-- The program is several Go services that call each other over HTTP:
--   * the orchestration engine (exchange/orchestration-engine) validates the consumer's token,
--     asks the policy decision point about every field of a query, asks the consent engine where
--     the owner must agree, and only then sends the parts of the query to the providers;
--   * the policy decision point (exchange/policy-decision-point) keeps metadata and an allow list
--     for each field of a schema, and decides;
--   * the consent engine (exchange/consent-engine) keeps the consents and their states;
--   * the portal backend (portal-backend) serves the administration of members, applications and
--     schemas, behind roles.
--
-- Files, with the code they model:
--   * Base: shared names, Boolean tests, lists over native numbers, Go's value-and-error results
--     (Base/Outcome), maps with text keys (Base/Assoc) and texts joined by a colon (Base/Colon).
--   * Consent: exchange/consent-engine/v1/models, v1/services/consent_service.go and
--     v1/handlers/{portal_handler, internal_handler}.go. Handlers has the handlers as functions
--     from what they read of a request to a reply, over the service, and Owned what the reply of
--     UpdateConsent means for the table. Models has the structs and constants; Database the
--     interface ConsentDb to GORM and the laws IsTable of its table; Rules the duration parsers
--     and small tests; Comparison areConsentFieldsEqual; Views, Updates and Create the operations
--     GetConsentInternalView, GetConsentPortalView, UpdateConsentStatusByPortalAction,
--     RevokeConsent and CreateConsentRecord; Validation the check of a request; the rest what
--     they establish: Lifecycle the steps between the states of a row, Traces the runs of any
--     sequence of calls, Memory a table in memory.
--   * Policy: exchange/policy-decision-point/v1/models, v1/handler.go and
--     v1/services/policy_metadata_service.go. Handler has the routes and their guards, Handled
--     what a decision that they send means. Decision is GetPolicyDecision, Sync
--     CreatePolicyMetadata, AllowLists UpdateAllowList; Index, Verdicts, Decided, Answered,
--     Synced, Deleted and Granted are about what they compute.
--   * Orchestration: exchange/orchestration-engine/federator/federator.go and provider/handler.go.
--     Checks and Federate are FederateQuery from the collected fields to the requests it sends;
--     Passed, Permitted, Authorized, Served and Answered are about the calls it makes.
--   * Orchestration/Query: exchange/orchestration-engine/federator/mapper.go, builder.go and
--     arghandler.go. Collect is ProviderSchemaCollector, Trees has the selection sets and
--     BuildProviderLevelQuery, Arguments the argument mappings, the walk that attaches arguments
--     and QueryBuilder, Variables the values of variables, Request puts them before
--     FederateQuery. Defined has what a schema defines as relations, Directives the directives
--     read; Paths, Segments, Built, Asked, Required, Attached, Selected, Sources and Least are
--     about which fields and arguments they ask for.
--   * Orchestration, the schema service: exchange/orchestration-engine/database/schema_db.go and
--     services/schema.go. Versions has the table and the operations, Compatibility
--     CheckCompatibility; Activated is about the table over any sequence of calls, Notation and
--     Declared about the field types read from a document, Preserved about what a compatible schema
--     keeps.
--   * Token: exchange/orchestration-engine/auth/token.go. Claims reads single claims, Validate is
--     GetConsumerJwtFromTokenWithValidator, Jwks is fetchAndFilterJWKS; Checked, Accepted, Secured
--     and Fetched are about what they let through.
--   * Portal: portal-backend/v1/models/authorization.go and authentication.go,
--     v1/utils/auth_utils.go and v1/middleware/authorization.go. Roles has the roles, permissions
--     and endpoints, Access the tests and the middleware; Granting, Endpoints and Hierarchy are
--     about them.
--   * Portal, the services: portal-backend/v1/services/application_service.go, member_service.go
--     and schema_service.go, with the structs of v1/models in ApplicationRecords,
--     SubmissionRecords, MemberRecords and SchemaRecords. Rows has the reads and writes of a table;
--     Applications is CreateApplication, ApplicationReads UpdateApplication and the reads,
--     Submissions the submissions of applications; Members is CreateMember, MemberUpdates
--     UpdateMember and the reads; Schemas and SchemaSubmissions are the schema service. Sagas,
--     Approvals, Joined and Offered are about what they leave at the identity provider, in the
--     tables and at the policy decision point.
--
-- State and time. The services keep their state in a database: an operation takes the state of a
-- ConsentDb or a PolicyDb and gives the new one, and a transaction that fails gives the old one.
-- What time.Now, uuid.New and the fields' own clock reads give are arguments. Times are natural
-- numbers of nanoseconds, except the seconds of a token, which are integers. A pointer that may
-- be nil is an Option; a pointer into a slice that the code updates through is the key under
-- which a map holds its target. In the consent table a Save stores its own reading of the clock
-- as the time of the last update, as GORM does whatever the record holds. No loop needs fuel:
-- each is recursion on the list that it ranges over.
--
-- Parameters: the database (GORM), the parser of UUIDs, the JWT library's parsers, float64, the
-- parser of URLs and addresses, the HTTP client and the JSON decoder of the JWKS, the answers of
-- the other services, the printer of queries, the walk over a syntax tree (a Visitor, with the
-- laws of a depth-first walk), and in Federate what QueryBuilder gives for the collected fields,
-- of which nothing is assumed and for which Request puts the model of QueryBuilder. In the
-- services of the portal backend the replies of the identity provider, the policy decision point
-- and the database are records of arguments; a call that reports an error is taken to have
-- changed nothing, and new ids are taken to be new. The laws of the consent table are those of a
-- table with one row for each id; Memory is an instance.
--
-- Not modelled: logging, metrics, tracing and audit calls, which change no state that the code
-- reads; HTTP decoding and routing, and the texts of error replies; configuration and bootstrap;
-- the parsers of GraphQL; in builder.go and arghandler.go the functions for array queries, which
-- nothing calls; the accumulator and the merge of the providers' answers; the identity provider's
-- client; the HTTP handlers of the portal backend and the orchestration engine; the web portals.
pub mod Base
pub mod Consent
pub mod Policy
pub mod Orchestration
pub mod Token
pub mod Portal
