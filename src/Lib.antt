-- ===== src/Lib.antt =====
-- The server side of dockb: sign-in and accounts, and the path of an edited document into the
-- database.
--
-- The program's parts and how they interact. A caller signs in through the auth service, which asks
-- the login throttle whether a wait is owed, checks the password against the accounts store, and
-- starts a session. An edit changes the state of a model of the document hierarchy; the unit of work
-- collects the models and saves them through the repositories, and the job queue runs the slow
-- reconstructions and the commits on one worker thread. A chapter file that changed on disk is
-- parsed, its front matter first, and compared with the blocks that the graph holds; the comparison
-- decides which blocks are rebuilt. The mentions of characters in a paragraph are matched by name,
-- and what stays ambiguous is asked of a model. A prompt for another program carries a token that
-- names the account it acts for. Services that save one document take its save lock, a chapter is
-- moved inside its category, and the files of a book are renamed when its chapters are renumbered,
-- by a plan that reads the number in each title, as the import of a directory does to order its
-- files. A search is a tree of criteria, which is compiled to a query or evaluated in memory.
--
-- Which file models which part, with paths from the repository's root:
--   Throttle.antt    src/dockb/infrastructure/session/login_throttle.py: `LoginThrottle` with its dict of
--                    failures; `delay_for`, `record_failure`, `record_success` and `attempts` by name.
--   Accounts.antt    src/dockb/infrastructure/accounts/store.py: the tables as lists of rows, with the
--                    constraints of the schema. Accounts/Links.antt has the provider accounts and the
--                    app state, Accounts/Calls.antt the sequences of calls.
--   Passwords.antt   src/dockb/passwords.py: the policy, `hash_password` and `verify_password`.
--   Sessions.antt    src/dockb/services/session_context.py, src/dockb/infrastructure/session/session_manager.py
--                    and src/dockb/infrastructure/oauth/pending_login.py.
--   Auth.antt        src/dockb/services/auth_service.py: every operation as a function of the state of
--                    the service to the state after it and an answer or the exception raised.
--   Models.antt      src/dockb/models/base.py and src/dockb/infrastructure/neo4j/base.py: `DataState`,
--                    the hooks, and the query that a save runs.
--   UnitOfWork.antt  src/dockb/infrastructure/neo4j/unit_of_work.py: `register`, `commit` and
--                    `flush_pending` over a heap of shared models.
--   JobQueue.antt    src/dockb/services/semantics/job_queue.py and job.py: the callers and the workers
--                    as steps, `run` being a sequence of them interleaved in any way.
--   Collections.antt src/dockb/models/utils/dockb_collection.py, with `delete_child` of the models: the
--                    children of a model and `set_parent`, over a heap of shared models. `depth` is the
--                    number of levels below the children of a model, 2 for a document.
--   Uploads.antt     src/dockb/uploads.py: part paths, the document directory and the byte budget.
--   Assignments.antt src/dockb/services/assignment_service.py and src/dockb/titles.py, with what they call of
--                    src/dockb/repositories/document_repository.py and src/dockb/infrastructure/document_store/.
--                    Git and the removal of a directory are arguments.
--   FrontMatter.antt src/dockb/infrastructure/markdown/front_matter.py: `parse`, `render` and `merge`, with the
--                    YAML package as the arguments `load` and `dump`.
--   Renumber.antt    src/dockb/infrastructure/document_store/store.py: `renumber_chapters`, its two passes of
--                    moves, its recovery and its commit, over a tree of files that git knows or not; the
--                    git commands are arguments.
--   Mentions.antt    src/dockb/services/mentions.py: `name_set`, `_ambiguity`, `_name_entries` and
--                    `_judge_paragraph`. Mentions/Tiers.antt has tier 1, and
--                    Mentions/Answers.antt `judge_ambiguous` and tier 2.
--   PromptTokens.antt src/dockb/infrastructure/mcp/prompt_tokens.py: `PromptTokenIssuer` with its dict of
--                    live entries; every operation by name.
--   ChapterDiff.antt src/dockb/infrastructure/changes/detect_changes.py, `_classify_blocks`, and
--                    src/dockb/services/markdown_import.py, `_apply_changed` and `_place_new_paragraphs`: a
--                    file's blocks against the paragraphs of a chapter.
--   SaveLocks.antt   src/dockb/services/crud_services.py: `_save_lock`, `_save_release` and `_save_scope` as the
--                    steps of threads, interleaved in any way.
--   ChapterMove.antt src/dockb/services/crud_services.py: `_crosses_category` and `ChapterService.move`, over
--                    the rows of a document's chapters in display order.
--   ChapterNumbers.antt src/dockb/chapter_numbers.py, `find_chapter_number` and `renumber_title`;
--                    ChapterNumbers/Plan.antt has src/dockb/services/chapter_renumber.py and
--                    `ChapterService.renumber` of src/dockb/services/crud_services.py.
--   Roman.antt       src/dockb/services/markdown_import.py: `_roman_to_int`, with its pattern as functions
--                    from a text to what each match leaves of it.
--   ImportOrder.antt src/dockb/services/markdown_import.py: `_parse_act_directory`, `_chapter_sort_key` and
--                    `_discover_chapter_files`, which is what it yields and the error that ends it.
--   Criteria.antt    src/dockb/services/criteria_cypher.py, every function, and `evaluate_criteria` of
--                    src/dockb/services/mcp_queries.py. Criteria/Cypher.antt has the meaning of the text,
--                    Criteria/Marks.antt the marked sentences, Criteria/Resolve.antt `resolve`.
--   ChapterText.antt src/dockb/infrastructure/markdown/writer.py, the body of a chapter, and
--                    `_paragraph_blocks`, `_parse_block` and `_span_attr` of
--                    src/dockb/infrastructure/changes/detect_changes.py. `html.unescape` is an argument.
--   Dict.antt        Python's dict, in insertion order. Prelude.antt holds the shared helpers.
--
-- Choices. Times are whole microseconds, and an operation reads the clock once: the reading is an
-- argument, as are the random ids and salts, the cipher of stored tokens, `str.lower` and `str.upper`,
-- the table of the decimal digits and the search for a whole word in a text. The password hash is a
-- record of a function and its two documented laws. Where two unique constraints fail at once
-- SQLite may report either, so that choice is an argument too. A float power overflows at exponent 1024. Two loops
-- run on fuel: the rounds of `flush_deleted` are the length of the list it starts on, since the list
-- never grows under it, and those of `judge_words` the number of words, of which a round drops one
-- at least. Where a whole file tree is moved about it is a function from paths to contents.
--
-- Not modelled: the Cypher text of the repositories, spaCy and the hydrators, the HTTP controllers
-- and schemas, the command line, the network calls to sign-in providers and to the chat service,
-- the migrations of the accounts schema, and the front matter of a chapter with the table of names
-- by which `html.unescape` goes.
pub mod Prelude
pub mod Dict
pub mod Throttle
pub mod Accounts
pub mod Passwords
pub mod Sessions
pub mod Auth
pub mod Models
pub mod UnitOfWork
pub mod JobQueue
pub mod Collections
pub mod Uploads
pub mod Assignments
pub mod ChapterNumbers
pub mod Criteria
pub mod FrontMatter
pub mod Renumber
pub mod Roman
pub mod ImportOrder
pub mod Mentions
pub mod PromptTokens
pub mod ChapterDiff
pub mod ChapterText
pub mod SaveLocks
pub mod ChapterMove
