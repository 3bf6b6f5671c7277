-- ===== src/Lib.antt =====
-- The Music Assistant provider that offers the server's commands to MCP clients: what decides
-- whether a command may run for a client, whether it needs a prompt, and what the prompt names;
-- and the bounded stores and cursors beside it.
--
-- Policies. A capability (provider/capabilities.py, Capability.antt) is a right such as
-- `edit:library`. A policy (provider/policy.py, Policy.antt) gives each capability a mode: deny,
-- confirm or allow. Policy/Mode.antt has `combine_policy_modes`, Policy/Snapshot.antt
-- `PolicySnapshot` and `policy_snapshot`, Policy/Resolver.antt `PolicySelection` and
-- `PolicyResolver`, which resolves a token to its snapshot; Policy/Profiles.antt and
-- Policy/Resolution.antt hold the proofs. A mapping is an association list in the order of
-- insertion. A snapshot that has passed its completeness test is a total function from
-- capabilities to modes.
--
-- Stored policies. Of provider/policy_config.py, PolicyConfig/Stored.antt has the stored values
-- with their keys and `_parse_selection`, and PolicyConfig/Build.antt `manual_token_ids` and
-- `build_policy_resolver`, and PolicyConfig/Suffixes.antt `policy_event_buffer_enabled`;
-- PolicyConfig/Closed.antt, Ids.antt and Resolved.antt hold the proofs. SHA-256 and `str.strip`
-- are parameters.
--
-- Commands. provider/command_policy.py is CommandPolicy.antt. `resolve_command_policy`
-- (CommandPolicy/Resolve.antt) gives each command a decision (CommandPolicy/Decision.antt): the
-- capabilities that it requires, an any-of group, a preflight, or a hard denial. It reads the
-- tables of CommandPolicy/Exact.antt and CommandPolicy/Families.antt, which list the same entries
-- as the source, and the declared scope, whose words CommandPolicy/Scope.antt reads.
-- CommandPolicy/Preflights.antt has the preflights that read only the arguments.
-- CommandPolicy/Modes.antt, Guards.antt, Longest.antt, Columns.antt and Deletions.antt hold the
-- proofs. A scope is unset, a text, or a tuple of scopes. `str.casefold` belongs to Python and is
-- a parameter.
--
-- Invocations. Of provider/execution.py, Execution/Evidence.antt has the static methods that give
-- an authorized invocation (Execution/Invocation.antt) its mode, `_invocation_mode`, the evidence
-- that a prompt must name, `_confirmation_evidence`, and the mode that the catalog shows,
-- `_catalog_mode`. Execution/Confirming.antt, Reasons.antt, Shown.antt and Favorites.antt hold the
-- proofs. A frozenset of capability texts is a list of capabilities, sorted by its text where the
-- source sorts it; the code orders none otherwise. Access tokens, users and parsed arguments are
-- type parameters. Execution/Live.antt has `_reauthorize_entry` and the record `World` of what an
-- authorization asks of Music Assistant and of the request, each answer at a time that counts the
-- awaits; Execution/Authorize.antt has `_authorize_call` and `_finalize_invocation`, whose errors
-- are values, and Execution/Kept.antt and Sealed.antt the proofs. The preflight of a call gets the
-- decision that the entry had when it was authorized at the start, as in the source, although time
-- passes with the resolution of an impersonated user. What a call does is an action on the state
-- of the session (Execution/Actions.antt), which ends with a value or an error and in both cases
-- with the state that it leaves; Execution/Session.antt has that state, the audit records
-- (provider/audit.py) and the record `Client` of what a call asks of the client and of the
-- handler; Execution/Pipeline.antt has `_confirm`, `_authorize_call_audited` and `_reauthorize`,
-- and Execution/Run.antt `_execute_authorized` and `_call` from its first authorization to its
-- result. The session keeps, beside what the source keeps, the reasons that accepted prompts have
-- named and the runs. Execution/Checks.antt, Targets.antt, Finalized.antt, HardDenied.antt,
-- Quiet.antt, Stages.antt, Among.antt, Ready.antt, Runs.antt and Safety.antt hold the proofs.
-- Execution/Denied.antt has the capability that a refusal or an audit record names. The time of
-- `finish` counts every await that `_finalize_invocation` may make; since the answers are
-- arbitrary in time, a smaller count would be an instance.
--
-- Bearers. provider/token_identity.py is TokenIdentity.antt: TokenIdentity/Registry.antt has the
-- least-recently-used registry of identities, whose ordered dictionary is a list with the oldest
-- entry first, and `AuthenticatedPolicyResolver`, which resolves the policy of a bearer, with the
-- snapshot of safe queries that its constructor expands for the bearers of no known identity; the
-- registry that it refers to is passed beside it. The SHA-256 fingerprint is a parameter, of which
-- nothing is assumed. TokenIdentity/Recency.antt, Closed.antt and Uses.antt hold the proofs;
-- Uses.antt goes by the history of the fingerprints that were bound or looked up.
--
-- Events. provider/debug/event_buffer.py is EventBuffer.antt: EventBuffer/Buffer.antt has the ring
-- with its subscription, its snapshots and its counters, over records that are made already; the
-- age of a record is asked of a parameter. EventBuffer/History.antt and Snapshots.antt hold the
-- proofs; a run is a data type of the operations with the events that they saw.
--
-- Pages. provider/catalog_pagination.py is Pagination.antt: Pagination/Cursor.antt has queries,
-- limits and cursors, with `normalize_query`, the payload of a cursor, its keys and its padding. A
-- cursor and the bytes of its JSON text are lists of numbers. Parameters are
-- `unicodedata.normalize`, `str.casefold`, `str.split`, and the printing and parsing of json and
-- of base64; a round trip takes of them, for the payload of its state, what they document: each
-- reads back what it wrote, and base64 has a multiple of four characters with at most two signs of
-- padding. The fields of a state hold any JSON values, since the source makes a state of a decoded
-- cursor before it checks their types. Pagination/Padding.antt, States.antt and Continuation.antt
-- hold the proofs.
--
-- Secrets. provider/config_io/secret_handler.py is Secrets.antt; Secrets/Gate.antt has the gate
-- and its proofs.
--
-- Serialization. Of provider/dynamic_serialization.py, Serialization/Whole.antt has `json_value`,
-- Serialization/Bounded.antt `_bounded_json_value` with `_bounded_mapping`, and
-- Serialization/Redact.antt `redact_media_previews` and `bounded_json_value`.
-- Serialization/Json.antt has the JSON values; a text is a list of code points and the numbers of
-- Python are a type parameter. Serialization/Native.antt has the native values: an object is known
-- by its id, and a heap gives its shape, so that objects may share and form cycles. `json.dumps`,
-- `math.isfinite` and `str` of a count are parameters. Serialization/Seen.antt, Ends.antt,
-- Within.antt, Sizes.antt, Redacted.antt, Kept.antt, Lossless.antt and Keys.antt hold the proofs.
--
-- Targets. Of provider/target_filters.py, TargetFilters/Rules.antt has the kinds and the tables of
-- rules, with `fnmatchcase` for patterns whose only special character is the star,
-- TargetFilters/Targets.antt the identifiers that arguments name and `enforce_target_filters`, and
-- TargetFilters/Rows.antt `collection_row_allowed` and `filter_collection_result`;
-- TargetFilters/Enforced.antt and Visible.antt hold the proofs. A set is a list, and an object is
-- its attributes by their `str`. The parsing of share URLs, the builtin URL schemes, the media
-- types and the lookup of a provider belong to Music Assistant and are parameters. The pipeline of
-- Execution takes these checks as parameters of its world and client.
--
-- Recursion is structural, but in Serialization, where it runs on fuel: a conversion has one call
-- for each object of the heap and one more, which is enough since an object is active once at
-- most, and the loop for a free suffix has one round for each key of the mapping and one more.
--
-- Not modelled: the calls of Music Assistant, the parsing of the arguments of a call and the
-- envelope of its result, the transport (provider/http_bridge.py, provider/server.py),
-- configuration, resources, the pages under provider/connect, logs, and of the conversion of
-- results the envelope that is fitted into a byte budget.
mod Prelude
pub mod Capability
pub mod Policy
pub mod CommandPolicy
pub mod Execution
pub mod TokenIdentity
pub mod EventBuffer
pub mod Pagination
pub mod Secrets
pub mod PolicyConfig
pub mod Serialization
pub mod TargetFilters
