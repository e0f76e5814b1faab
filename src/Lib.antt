-- ===== src/Lib.antt =====
-- repolayer, an index over several repositories: it parses the sources, keeps a graph of modules,
-- symbols, interface methods and imports, and answers queries over that graph.
--
-- The parts modelled, and how they meet:
--
-- src/deps/graph.rs is Deps/Graph.antt: the import graph of one repository. `HashMap` is the
-- association list `Dict` of Prelude/Dict.antt; what does not depend on the order of a map is stated by
-- membership. A path is the list of its components, which is how `Path` compares.
-- src/deps/traverse.rs is Deps/Traverse.antt: the breadth-first search. The queue, the visited set and
-- the output are the fields of `Search`; one popped item is `expand`, one edge is `offer`. The loop runs
-- on fuel, one more than the number of edges of the graph: a file enters the queue at most once.
-- src/deps/mod.rs is Deps/Build.antt: the full build of a graph and the incremental one, over parameters
-- for what the suffix index (`by_file`), `extract` and `resolve` give; rayon's iterators are maps.
-- src/deps/resolver is Deps/Resolver.antt and its children: Build is the suffix index, over the list of
-- files that the directory walk gives and the package and types that are read in a file; Resolve is
-- `resolve` with one function per language and per kind of import; Closest is `pick_closest`; Keys and
-- Paths are the operations of `str` and `Path` in use. `Path::is_file`, `Path::new`, the text of a path
-- and `str::trim` are parameters. Its loops over a text run on the length of the text, and each round
-- takes a byte at least.
-- src/deps/store.rs is Deps/Store.antt: the two tables as lists of rows, with the primary key, and the
-- conversions between paths and texts as parameters.
--
-- src/graph/model.rs is Graph/Model.antt. The digest of a node id (SHA-256, 16 bytes of it in hexadecimal) is a
-- parameter, and a confidence is a number of hundredths, which the code modelled copies, compares and
-- halves (0.7 and 0.4). src/graph/store.rs is Graph/Store.antt: the node and the edge table of the SQLite database are
-- the two lists of `Store`, each method is a function on them, and `INSERT ... ON CONFLICT`, `INSERT OR
-- REPLACE` and the WHERE clauses are written out. SQLite's LIKE is a parameter.
--
-- src/query/callers.rs is Query/Callers.antt, which reads the store by `incoming_edges` and `get_node`
-- as the source does: `visit` is one inbound edge, `hop` one round of the frontier.
-- src/query/dependencies.rs is Query/Dependencies.antt, the same over outgoing import edges.
-- src/query/find_idl_impl.rs is Query/FindIdlImpl.antt; src/query/symbol.rs and
-- src/query/list_repos.rs are Query/Symbol.antt.
--
-- src/linker/imports_to_repo.rs is Linker/ImportsToRepo.antt, which reads the external imports of the
-- dependency store and writes edges to the graph store; the aliases and roots that the configuration
-- and the go.mod files give are parameters. src/linker/manual.rs is Linker/Manual.antt.
-- src/linker/calls.rs is Linker/Calls.antt and src/linker/idl_links.rs is Linker/IdlLinks.antt: both
-- index the names of the store (Linker/Names.antt), scan each file, and put the edges in the store
-- (Linker/Upserts.antt). The walk gives the files with their content; the Aho-Corasick automaton, the
-- language of a path and the callees that its syntax tree has are parameters.
--
-- src/indexer/incremental.rs is Indexer/Incremental.antt: the part of `update` that brings the
-- dependency store up to date, over the results of `build_for_files`.
--
-- src/search/chunker.rs is Search/Chunker.antt. What the parsers return (the ends of the top-level
-- children) and `str::trim` are parameters; a text is its bytes. src/search/tokens.rs is
-- Search/Tokens.antt: identifiers and their parts. Its loops run on the length of the text as fuel, and
-- each round takes a byte at least. src/search/cache.rs is Search/Cache.antt: what the walker, the file
-- system and the hash say of a file are parameters.
--
-- src/deps/dsm.rs is Deps/Dsm.antt: `build`, over the levels that `compute_levels` gives the files.
--
-- src/file_filter.rs is FileFilter.antt: `should_skip_path` on UTF-8 paths.
--
-- src/cli/repo_filter.rs is Cli/RepoFilter.antt: the check of a repository name and the edit distance
-- behind its suggestions; `str::to_lowercase` is a parameter.
--
-- Prelude.antt and its children hold what the parts share: Boolean tests and equality, lists,
-- dictionaries, texts, tables of rows and stable sorting.
--
-- Numbers are natural numbers; where the source narrows to 32 bits the remainder is written out.
--
-- Not modelled: errors of the database, the parsers, the embedding services and the file system, which
-- are third-party code or I/O; the extraction of imports and declarations, the package index, cycle
-- detection and the levels of the dependency matrix, rendering, the search and summary stages; floating-point scores.
pub mod Prelude
pub mod Deps
pub mod Graph
pub mod Query
pub mod Search
pub mod Cli
pub mod Linker
pub mod Indexer
pub mod FileFilter
