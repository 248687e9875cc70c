-- ===== src/Lib.antt =====
-- A verification of Patching_Agentic, the part of the repository that patches Oracle databases under
-- the control of an allow-list, an audit log and a human gate.
--
-- The program scans a database host, asks a language model for a patch plan, and runs the plan:
-- `run_patch_workflow` looks the plan's procedure up in the registry of vetted procedures, checks the
-- target version against its range, runs the playbook of the procedure as a dry run, makes a
-- guaranteed restore point, shows a report and asks for the target version to be typed, and only then
-- runs the playbook that patches; after a failure it prints the rollback procedure. Each step is
-- written to an audit log, whose entries are chained by their hashes.
--
-- Which file models what:
--   Executor    Patching_Agentic/executor/executor.py: run_patch_workflow, one definition for each of
--               its numbered parts (look_up, check_version, dry_run, take_snapshot, approve, apply).
--               Executor/Stages is the same run as an abstract machine.
--   Runner      Patching_Agentic/executor/ansible_runner.py: run, run_precheck, run_apply,
--               run_rollback_info.
--   Snapshot    Patching_Agentic/executor/rollback/snapshot.py: restore_point_name and
--               create_guaranteed_restore_point.
--   Approval    Patching_Agentic/approval/report_builder.py: build_report, render_text,
--               request_confirmation.
--   Audit       Patching_Agentic/audit/logger.py: append and verify_chain, over the entries of the
--               file; Audit/Read is the same over its text, with read_all and from_json_line, and
--               Audit/Refines relates the two. Audit/Tamper is the copy that demo.py rewrites.
--   Registry    Patching_Agentic/registry/procedures/registry.py: load, get, contains.
--   Procedure   Patching_Agentic/registry/procedures/schema.py: the definition of a procedure.
--   Plan        Patching_Agentic/schemas/patch_plan.schema.json: the plan.
--   Version     _parse_version and _version_in_range of executor.py, and _version_tuple of
--               Patching_Agentic/rag/retrieval/retrieve.py.
--   Agent       Patching_Agentic/agents/patch/patch_agent.py: propose_plan, its prompt and its loop.
--   Scanner     Patching_Agentic/agents/scanner/scanner.py: extract_db_version, and in Scanner/Scan the
--               call of the playbook; a value read from JSON that is no object or list does what it
--               does in Python.
--   Item        subscripts and keyword arguments of values read from JSON, which audit/logger.py,
--               dmz_transfer.py and demo.py use.
--   Retrieval   Patching_Agentic/rag/retrieval/retrieve.py: _applies_to_version and retrieve.
--   Main        Patching_Agentic/run_patch.py: main from the plan on, with the recorded outcome;
--               Main/Pipeline is the whole of main, one definition for each point at which it branches.
--   Store       Patching_Agentic/rag/ingestion/operational_store.py: its operations, as functions of
--               the two tables of postgres_schema.sql.
--   Dmz         Patching_Agentic/rag/ingestion/dmz_transfer.py: transfer, over folders as dicts;
--               Dmz/Read has read_manifest and what the file does when it is run.
--   Ingest      Patching_Agentic/rag/ingestion/ingest.py and schema.py: the knowledge objects of the
--               inbox and the points that they become.
--   Monitor     Patching_Agentic/rag/ingestion/patch_release_monitor.py: the filter of the feed,
--               check_for_new_release, and Monitor/Script, what the file does when it is run.
--   Settings    Patching_Agentic/config/settings.py: load_settings, from the mapping of the file on, over
--               values of YAML, in which a float is its numeral.
--   Preflight   Patching_Agentic/demo.py: run_preflight and its checks.
--   Demo        Patching_Agentic/demo.py: main after its arguments; Demo/Lines is what it prints of the
--               values, Demo/Steps and Demo/Walk are its steps.
--   World       what these parts do outside the program, as a monad over a history of events.
--   Text, Json, Errors, Prelude: Python's str, json.dumps and json.loads, exceptions, and shared
--               notions. Json/Read is the reader, over lists of characters.
--   Samples     the inputs that the tests share.
--
-- Demo walks through the parts that Main uses, with Dmz, Ingest and Preflight in front. Main uses all
-- of Registry, Scanner, Store, Retrieval, Agent and Executor; Ingest reads the folder
-- that Dmz writes; Preflight and Main share the scanner's reading of lines.
--
-- Parameters: the digest, the answers of processes and what the person at the terminal types (which
-- may depend on all that happened before, and of which input() takes the first line), the clock,
-- the reading of YAML files with pydantic's reading of their fields, the presence of files, the XML
-- reader, the model server, the vector store and the embedder, UUID5, the paths and the environment
-- of the operating system, the time of the database, and what the services answer to the checks.
-- What Qdrant documents of three calls, where they return, is a record of laws on ids and payloads
-- that one theorem assumes; it leaves out the vectors, which Qdrant keeps in normal form for the
-- cosine distance. Time-outs are whole seconds, as in the settings file. JSON values hold no
-- floats: what json.loads makes of a numeral with a fraction, of NaN and of a lone surrogate is a
-- parameter of its model. Scanner, Main, Agent and Monitor take json.loads as a parameter, with the
-- message of its error.
-- int() is modelled for ASCII digits, with the space, signs and underscores that it accepts, and
-- without its limit on their number.
--
-- All loops are structural recursions over a list or a text, so that none needs fuel; only the print
-- of a number and json.loads run on fuel: one more than the number, which is more than its digits, and
-- the length of the text, each value and each member of which takes a character at least. The loop of
-- propose_plan recurses on the attempts that are left, as its range does.
--
-- Not modelled: the transcript's file of the demonstration, the embedders, the download of the feed,
-- the lock on the audit file, the connections to PostgreSQL and Qdrant, and the Ansible roles, which no
-- part of the program reads.
pub mod Prelude
pub mod Text
pub mod Errors
pub mod Json
pub mod Audit
pub mod Version
pub mod Procedure
pub mod Registry
pub mod World
pub mod Runner
pub mod Snapshot
pub mod Plan
pub mod Approval
pub mod Executor
pub mod Scanner
pub mod Agent
pub mod Retrieval
pub mod Main
pub mod Samples
pub mod Dmz
pub mod Store
pub mod Ingest
pub mod Monitor
pub mod Preflight
pub mod Settings
pub mod Item
pub mod Demo
