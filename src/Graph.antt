-- ===== src/Graph.antt =====
-- The knowledge graph in Neo4j, as the Cypher statements of services/graph-writer/app/writer.py,
-- services/graph-enricher/app/enricher.py and services/symbol-resolver/app/resolver.py change it.
-- The statements are read by the semantics that Cypher documents: a clause sees the graph that the
-- clause before it left, SET and MERGE run row by row, and a comparison with null selects no row.
-- The children are the writers' statements (`Write`), the enricher's (`Enrich`), and the invariants.
pub mod Store
pub use Store.*
pub mod Write
pub mod Enrich
pub mod Ingest
pub mod Provenance
mod Examples
