-- ===== src/Lib.antt =====
-- TerseContext, its Python services: how source code and execution traces become one graph.
--
-- repo-watcher polls a repository and reports the files and nodes that changed. Parsed and embedded
-- nodes reach graph-writer, which puts nodes and static CALLS edges into Neo4j; symbol-resolver adds
-- IMPORTS edges, and keeps imports that do not resolve in a queue. Traces of entrypoints reach
-- trace-normalizer, which makes an execution path of each, and graph-enricher, which merges the paths
-- into the graph; spec-generator writes a text for each path. The services are processes that meet only
-- in Redis streams and in Neo4j; most of those that read a stream share one consumer loop.
--
-- Prelude          shared names, tests, lists; Dict: Python's dict; Float: the operations on floats and the
--                  laws that lemmas ask for; Effects: statements that change a state and may raise;
--                  Sort: Python's sorted; Text: the searches of `re`; Whole: ℕ as a model of the floats
-- Consumer         services/shared/consumer.py, `RedisConsumerBase.run`, over any subclass
-- Normalizer       services/trace-normalizer/app: Models (models.py), CallTree, Frequencies (normalizer.py),
--                  Effects (classifier.py), Reconcile (reconciler.py), Handler (consumer.py,
--                  emitter.py); the handler is an instance of the subclass of Consumer
-- Graph            Store: the state of Neo4j; Write: the statements of services/graph-writer/app/writer.py;
--                  Enrich: services/graph-enricher/app/enricher.py and its consumer, a second instance of
--                  the subclass; Ingest: the consumers of services/graph-writer/app/consumer.py, message by
--                  message; Provenance: the statements of both services as one step relation
-- Pending          services/symbol-resolver/app/pending.py: references, and the retry pass as the specification
--                  of Resolver, where every push works
-- Resolver         services/symbol-resolver/app: resolver.py and consumer.py on the state of Graph, and
--                  pending.py again, on commands that may fail; Queues proves it to be the pass of Pending
-- Parser           services/parser/app: Tree is tree_sitter.Node, Models models.py and py_stable_id.py, Python
--                  py_nodes.py, Go go_nodes.py, Edges the inference of edges and the filter of extractor.py,
--                  Consumer consumer.py and parser.py; Named is what an extraction keeps for the edges
-- Embedder         services/embedder/app: embedder.py and consumer.py
-- VectorWriter     services/vector-writer/app: writer.py and consumer.py
-- SpecGenerator    services/spec-generator/app: Models (models.py), Touched and Renderer (renderer.py), Store
--                  (store.py, consumer.py), a third instance of the subclass; Versions, Tables, Impact: theorems
-- Watcher          services/repo-watcher/app: Models, Differ (differ.py), Polling (watcher.py, emitter.py)
-- Discoverer       services/entrypoint-discoverer/app: scorer.py, queue.py, discoverer.py
-- Instrumenter     services/instrumenter/app/main.py: the pool of trace sessions under threads; Trace:
--                  trace.py, what the trace function and the hooks for tasks record
-- TraceRunner      services/trace-runner/app: runner.py, cache.py, coverage.py and the polls of go_client.py
-- Perf             services/perf-tracker/app/aggregator.py: the metrics of a raw trace
--
-- A function has the name of the Python function it models; the body of a loop or of a `try` has a
-- name of its own. State that the code changes is a record that each operation takes and returns;
-- a Python exception is a value (Prelude.Effects), and what was changed before it stays changed.
-- Loops over data are structural. The endless loops of the services are cut off after any number of
-- rounds n (`run`, `rounds`), or given as the body of one round (`poll`), and the theorems hold for
-- every n, so no fuel bounds what they say. The batches of the embedder run on fuel for each text,
-- which is enough since a batch has at least one; a Go trace is polled 120 times, as in the source.
--
-- Parameters stand for what is not in the repository: the answers of Redis and Neo4j, git,
-- pydantic's parsers, the syntax trees of tree-sitter and `ast`, SHA-256, uuid5, the embedding
-- provider, methods of texts (`str.lower`, `split`), formats of numbers, and floats. A Redis or
-- Neo4j command may fail at any point, told by a function of the number of commands sent. The
-- laws of floats that a theorem needs are a hypothesis (FloatLaws), which ℕ fulfils. Closing the
-- Redis client at the end of Consumer does not raise. The watcher's own copy of the extraction
-- of nodes is a parameter of Watcher.
--
-- Not modelled: the Go services, the HTTP shells, the watcher's copy of the extraction of nodes,
-- loading and running the traced program, the query understander, the analyzer and the store of
-- metrics, and logging.
pub mod Prelude
pub mod Consumer
pub mod Normalizer
pub mod Graph
pub mod Pending
pub mod Watcher
pub mod Discoverer
pub mod Instrumenter
pub mod Perf
pub mod Parser
pub mod Resolver
pub mod Embedder
pub mod VectorWriter
pub mod TraceRunner
pub mod SpecGenerator
