-- ===== src/Lib.antt =====
-- A model of the core of openwebui-gjc-adapter, which shows the sessions of a coding agent (GJC) as
-- chats in OpenWebUI.
--
-- The parts and how they interact. A change that is to be shown in OpenWebUI is a row of the outbox
-- (src/state/outbox.ts); a pass of the reconciler (src/state/reconciler.ts) hands each open row to an
-- applier, which calls OpenWebUI. What is shown of a session is a tree of messages
-- (src/projection/chat-tree.ts), computed from the entries of the session's file. When a message is
-- regenerated, src/branches/regenerate.ts decides from the chat's session mapping and from the
-- metadata of the message whether a branch may be replayed. The session authority
-- (src/gjc/session-authority-journal.ts) is the record, for each chat, of the project and the session
-- that it belongs to and of the operations on it: one that is begun is pending, then complete,
-- uncertain or in conflict, and a chat moves to another project by a reassignment that is committed
-- when an operation for the new project is published.
--
-- The files:
--   Prelude    lists, strings, maps and results, the same for all parts. A string is the list of its
--              UTF-16 code units, a Map is an association list in the order of its first insertions,
--              and a method that throws returns an error in place of its result.
--   Json       JSON.stringify on arrays of strings and nulls, which identity keys are made of;
--              Json/Stream is streamEscapedJsonString of src/state/outbox-json.ts, which escapes a string
--              in chunks, and Json/Spool its hashCanonicalStream, which hashes a text that comes in
--              chunks and spills it to a file. UTF-8 and SHA-256 are parameters there, and so is how many
--              bytes each call moves.
--   Metadata   createOperationId and buildLineageHash of src/state/metadata.ts. The hash function,
--              the clock, and random UUIDs are parameters.
--   Outbox     src/state/outbox-types.ts; Outbox/Memory is InMemoryOutboxStore of src/state/outbox.ts
--              (enqueue, mark_applying for markApplying, and so on), Outbox/Memory/Calls the histories
--              of its calls; Outbox/Document is parsePersistedOutboxDocument, with JSON.parse and
--              the reading of dates as parameters; Outbox/File is FileBackedOutboxStore of
--              src/state/file-outbox.ts, over a file system each of whose calls may throw;
--              Outbox/Reconciler is src/state/reconciler.ts, where an arbitrary list of
--              calls of other tasks runs while the applier is awaited.
--   ChatTree   ChatTree/Graph is src/projection/chat-tree-graph.ts (validate_session_entry_graph for
--              validateSessionEntryGraph), ChatTree/Projection is src/projection/chat-tree.ts
--              (project_session for projectGjcSessionToOpenWebUIChat).
--   Branch     src/branches/regenerate.ts. Values of type unknown are data of the model; the session
--              mappings are a function from chat IDs.
--   Authority  src/gjc/session-authority-types.ts; Authority/Identity is
--              src/gjc/session-authority-operation-identity.ts, Authority/Codec is
--              src/gjc/session-operation-codec.ts, and Authority/Journal is the class
--              SessionAuthorityJournal: the lookups and the restart (reconcile, with
--              src/gjc/session-authority-reconciliation.ts), Journal/Operations (store and begin),
--              Journal/Transitions (acknowledge, transition, transitionProvisional, attach),
--              Journal/Reassign (reserve, and the begin and the rollback of a reassignment) and
--              Journal/Publish. A tombstone with its priors is a list. JSON texts of whole records,
--              which are only compared, are parameters, and so is what the clock reads at each place
--              of a call.
--   Models     src/live/models.ts: the canonical IDs of model selections (format_canonical_model_id
--              and, in Models/Parse, parse_canonical_model_id, classify_gjc_model_id and
--              normalize_open_web_ui_model_id), and the list that OpenWebUI shows (Models/Picker,
--              build_model_list). Models/Catalog is decodeStrictModelCatalog, and Models/Policy
--              (resolve, and list_models in Models/Policy/Listing) is
--              src/live/model-selection-policy.ts, with what each call of the reader gives as a
--              parameter; Models/Current reads the agent's current model. Which code points are controls, format characters
--              or white space is a parameter.
--   Uri        encodeURIComponent and decodeURIComponent, as the language defines them: UTF-8
--              octets behind percent signs.
--
-- Fuel. A loop of writes or reads has as much fuel as there are bytes. `visit`, and the two walks up
-- the chain of parents, run on fuel of one more than the number of entries: a chain that ends is at
-- most as long as there are entries, and a visit that is deeper has met an entry twice. The loop
-- that looks for an unused name of a model has one more than there are names in use. The error
-- `out_of_fuel` is the model's own.
--
-- Not modelled: object identity, since the code copies what it hands out; an entry whose ID is
-- `__proto__`, which is set as the prototype of a chat's messages; the stack that a deep recursion of `visit`
-- takes; and everything that is input and output. The session authority's files, and
-- the journal's bulk replacement are not modelled.
pub mod Prelude
pub mod Json
pub mod Uri
pub mod Models
pub mod Metadata
pub mod Outbox
pub mod ChatTree
pub mod Branch
pub mod Authority
