-- ===== src/Lib.antt =====
-- Hoofy is a server of development tools: it leads a project through a fixed sequence of specification
-- stages, leads changes of a project through shorter sequences, and keeps a memory of observations in
-- SQLite. This library models that core: its data, its state machines, its stores and its handlers, as
-- functions that return the new state beside the result.
--
-- Parts, and where they stand:
--
-- * Changes (internal/changes, and the handlers in internal/tools/change.go, change_advance.go and adr.go).
--   Changes/Types has the records of types.go, Changes/Flow the validation and the registry of flows.go,
--   Changes/Slug the function Slugify on runes, Changes/Machine the functions of state.go,
--   Changes/Store the methods of FileStore in store.go over two directory listings, and Changes/Tools
--   the two handlers on top of them, and Changes/Decisions the handler of sdd_adr. The child modules hold
--   the proofs.
-- * Pipeline (internal/config, internal/pipeline, internal/tools/clarify.go). Pipeline/Config has the
--   project's state and NewProjectConfig, Pipeline/Machine the transitions of state.go, Pipeline/Clarity
--   the clarity score and the parser of its input, Pipeline/Clarify the handler of sdd_clarify.
-- * Stages (internal/tools: init.go, principles.go, charter.go, specify.go, business_rules.go, clarify.go,
--   design.go, tasks.go, validate.go, bootstrap.go, artifacts.go; the methods of FileStore in
--   internal/config; the data of internal/templates). Stages/Files has the files of a project,
--   Stages/Documents the data of its documents, Stages/Requests the parameters and their checks,
--   Stages/Steps what the handlers share, Stages/Tools and Stages/Gate the handlers, and
--   Stages/Bootstrap the one of sdd_bootstrap. Stages/Position has the abstract view of a project;
--   Stages/Moves, Stages/Run, Stages/Finish and Stages/Ending relate the handlers to it.
-- * Updater (internal/updater/updater.go). Updater/Version has the comparison of versions and the names of
--   archives, Updater/Install CheckVersion and SelfUpdate over the executable and the two files beside it.
-- * Memory (internal/memory/store.go). Memory/Types has the rows and the configuration, Memory/Text the
--   text helpers at the end of the file, Memory/Observations the sessions and AddObservation,
--   Memory/Observations/Edits updates, deletions and compaction, Memory/Relations the relations, and
--   Memory/Graph the walk of BuildContext. Memory/Detail has internal/memory/detail_level.go, Memory/Recent
--   the reads of the newest rows, and Memory/Format the answers of FormatContextDetailed;
--   Memory/Transfer has Export and Import, Memory/Timeline and Memory/Search the reads of their names,
--   Memory/Suggest the suggestions of topic keys, Memory/Passive the capture of learnings, and
--   Memory/Prompts the prompts and the counts.
-- * Bridge (internal/tools/bridge.go), which records completed stages in the memory.
-- * Memtools (internal/memtools: save.go, progress.go, manage.go, relate.go, session.go, compact.go), the
--   handlers of the memory's tools: Memtools/Save, Memtools/Progress and Memtools/Handlers. Memory/Steps has
--   the statements of the store as a step relation, and Memtools/Calls runs sequences of requests.
-- * Common holds lists, tests, texts and results; Examples runs the theorems on concrete inputs.
--
-- How the code is read. A method that changes a struct returns the new struct; a method that changes a
-- store returns the store beside a Result. Go's string types stay strings, because values come from
-- files and requests; texts that the code takes apart are lists of bytes or runes. A map is an
-- association list. Times are arguments. The two directories of changes are lists of named entries,
-- and which calls to the file system fail, reads among them, is an argument (Faults);
-- a check whether a file exists is taken to answer. Each SQL statement is a function on
-- lists of rows; a violated constraint is an error, and a failed statement of a transaction undoes all
-- of it. What SQLite and SHA-256 decide beyond the statements, the row that LIMIT 1 takes among
-- equals, the order of equal keys and the digest, are parameters (Engine, and the order of relations),
-- with the hypotheses IsEngine and IsOrder that the rows returned are among those given. So are the
-- rows that FTS5 matches and the order of its ranks (Index, with the hypothesis IsIndex that orders
-- only move rows), and the decoding of JSON. The templates are a parameter too (Renderer), with the
-- hypothesis IsRenderer that no document is empty. A write that fails may have changed nothing, left
-- some other text, or written all of it.
--
-- Loops on fuel. Create tries candidate identifiers for length + 2 rounds, one more than the directory
-- has entries that can be in the way. BuildContext gets one turn for each observation and one for the
-- start.
--
-- Not modelled: the MCP server, prompts and resources, the texts of the templates, the Markdown of the
-- answers other than those of FormatContextDetailed, the agent instruction files of sdd_init_project,
-- the other handlers, the regular expressions of ExtractLearnings, and the opening and migration of
-- the database. White space and case in internal/memory/store.go, and white space in the scores
-- that sdd_clarify reads, are those of ASCII.
pub mod Common
pub mod Changes
pub mod Pipeline
pub mod Memory
pub mod Bridge
pub mod Memtools
pub mod Stages
pub mod Updater
pub mod Examples
