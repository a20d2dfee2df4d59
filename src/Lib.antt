-- ===== src/Lib.antt =====
-- Verification library of the adaptive learning system.
--
-- The program is a tutor: conversations in which an agent runs and may ask for approval of a tool
-- call, assessments that are graded and turned into a plan change, and retrieval of study material.
-- This library models its core in these parts:
--
-- * Session, the database tables that the services share (backend/app/models.py): ConversationThread,
--   AgentRun and UserToolApproval as records, a table as the list of its rows. Session.Writes is the
--   contract of the services: the only ways in which rows change. Session.Consistency, Session.Once
--   and Session.Final show what every such write keeps.
-- * Conversation, backend/app/infrastructure/persistence/repositories/conversation_repository.py:
--   Threads is SQLAlchemyConversationRepository, Runs is SQLAlchemyAgentRunRepository, one function
--   for a method, under its name without the leading underscore. Operations shows that they keep
--   the contract.
-- * Approval, backend/app/application/tool_approval_service.py: the requests, decisions, calls and
--   the recovery after a crash; Sanitize is `_sanitize`, Resolve is `resolve_after_interrupt`.
-- * History, every method of the two that writes as a step, and any sequence of steps.
-- * Assessment, backend/app/domain/assessment/: Contracts is contracts.py, Grading is
--   grading_policy.py, Generation is the check in generation_policy.py, Observer is
--   observer_policy.py and plan_policy.py.
-- * Retrieval, backend/app/domain/rag/retrieval/: Candidates is the part of domain.py and of
--   selection.py that compares two candidates, Selection is ContextSelector; Order, Limits and
--   Greedy are about the order, the result and what is left out.
-- * Memory, backend/app/domain/memory/ with the shapes of src/adaptive_tutor/tutor/memory.py:
--   Validation is validation.py (`_normalize_tree` and the checks of a command), Gate is gate.py.
-- * Chunking, backend/app/domain/rag/chunking/: Policy is domain.py and normalization.py, Text is the
--   splitter of texts and Table that of table rows (chunkers.py), Metadata is metadata.py,
--   Code is the chunker of fenced code (chunkers.py), Persistence is persistence.py.
-- * Auth, the tables of accounts and sessions: Repository is
--   backend/app/infrastructure/persistence/repositories/auth_repository.py, Cookies is
--   backend/app/infrastructure/auth/refresh_tokens.py, Service and Refresh are
--   backend/app/application/auth_service.py, Access is the check of an access token in
--   backend/app/api/deps.py. Writes is the contract of the service with the tables, Steps any sequence
--   of its methods, and the modules below Steps are about what such a sequence keeps.
-- * Tools, src/adaptive_tutor/tutor/tool_router.py: Execution is ToolRouter, whose `_execute` is
--   `execute_checked`, and Filter is what is done with the texts of a result.
--
-- Conventions. A method that raises returns an error and has written nothing; only a refresh that finds
-- a reused token writes and raises, and the tool router counts a call that fails. The current time and
-- a new random identifier are arguments. `hash` (the digest of a request), `secrets` (the values in the
-- secret store), `fold` (Unicode case folding of a character) and the outcome of a call of the MCP
-- service are parameters, and so are, for a memory, the printing of an instant, the validation of a
-- content by its pydantic model, and the canonical JSON; `nfc` is the normalisation of Unicode, and
-- `digest`, `lower`, `verify` and `hash_password` are SHA-256, str.lower and the library for passwords.
-- `invoked` of an approval and `log` of the router are no state of the program: they record the calls
-- that the outside has seen.
-- A metadata mapping and a JSON value hold floats in ten-thousandths and instants in microseconds.
-- Identifiers are native strings; texts that the code searches or cuts are lists of code points.
-- Scores and grading confidence are in hundredths, rates and mastery confidence in ten-thousandths.
-- For tools `dumps` and `dumps_arguments` are json.dumps as the router calls it, and a handler does not
-- itself raise TimeoutError, nor does a completion handler raise.
-- An instant is a number, so that the store of accounts says apart whether its database keeps time
-- zones (`keeps_zones`; each method reads the rows in a session of its own): where a refresh subtracts an instant that has lost its zone, it raises.
-- Every loop is structural recursion, but for Chunking.Text.split_from, whose fuel of one more than
-- the length of the text is enough since each round moves on, and Chunking.Metadata.digits, whose
-- rounds are more than the digits of the number.
--
-- Not modelled: queries that only read lists of rows, the scores rounded as floats, the HTTP
-- interface, the clients of language models and storage, migrations, and the frontend.
pub mod Prelude
pub mod Assessment
pub mod Session
pub mod Conversation
pub mod Approval
pub mod Auth
pub mod History
pub mod Retrieval
pub mod Memory
pub mod Chunking
pub mod Tools
