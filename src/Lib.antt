-- ===== src/Lib.antt =====
-- Mes collections (myrag/app): the verification of its core logic.
--
-- The service lets people build document collections, decides who may read and write each one, moves
-- a collection through its states of publication, cuts texts into passages, and answers an
-- assistant's question by a plan of searches over several sources.
--
-- Base            shared names, tests, lists, equality, texts as lists of code points
-- Access          myrag/app/services/access.py: rights from the groups of a token. Its settings are a
--                 record; a set of names is a list, read through membership.
-- Collectif.Etats myrag/app/services/etats.py: the states of a collection, and the rules on requests
-- Collectif.Demandes  the part of myrag/app/services/collectif_store.py on requests: Registre holds the
--                 tables and their small writes, Demandes the operations, Gestes a history of calls,
--                 Suivi the replay of the journal. A transaction is a function of the tables
-- Collectif.Circuit  the part of collectif_store.py on grids, proposals and reports, with the calls of
--                 myrag/app/routers/collectif.py: Registre holds the tables, Circuit the operations,
--                 Appels the calls with their rights, which ask Access; Operations says what a history
--                 keeps, Cas the forms that an operation gives the tables
-- Collectif.Journal  myrag/app/services/journal.py: the thread of an object, page by page
-- Debit           myrag/app/services/fenetre_par_minute.py: the calls that a person may make in a minute,
--                 a dictionary being an association list with each key once
-- Nommage         myrag/app/services/nommage.py: the identifier of a collection; a regular expression is
--                 a function on the characters
-- Chunker         myrag/app/services/chunker.py: chunk_by_length, with its `while` loop on fuel; the
--                 fuel is one more than the length of the text, since each round goes on by a place
-- Sensibilite     class Sensitivity of myrag/app/services/chunker.py and
--                 myrag/app/services/sensibilite.py: levels, floors and ceilings
-- Harnais         myrag/app/harnais: the plan of a search (contrat.py) and its restriction to what the
--                 person may read (perimetre.py), which asks Access; Plan holds the planners of
--                 myrag/app/harnais/plan, over a matcher of texts that is a parameter; Fusion holds the
--                 quota of fusion.py, a passage being its key; Execution holds the run of a plan
--                 (execution.py) over connectors that are parameters and may fall
-- Questions       myrag/app/services/questions_store.py: the set of reference questions, one row each in
--                 the order of insertion. Registre holds the rows and the small rules, Entrees the
--                 entries of an import, Gestes the changes, Histoire a history of calls
-- Resana.Perimetre  myrag/app/services/resana_perimetre.py: the folders that a collection indexes. Both
--                 walks are loops on a stack, on fuel that exceeds the folders; each round that does
--                 not skip meets a folder for the first time
-- Resana.Ecarts   myrag/app/services/resana_ecarts.py: why documents are left out, and their CSV, with
--                 the rules of Python's csv writer; Table holds the texts, Lecteur a reference reader
--
-- The other HTTP routes, the database session, the other services (Keycloak, OpenRAG, Open WebUI, models)
-- and the web front are not modelled: the functions here are the decisions that they call.
pub mod Access
pub mod Base
pub mod Chunker
pub mod Collectif
pub mod Debit
pub mod Harnais
pub mod Nommage
pub mod Questions
pub mod Resana
pub mod Sensibilite
