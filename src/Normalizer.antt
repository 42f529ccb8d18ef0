-- ===== src/Normalizer.antt =====
-- services/trace-normalizer/app: raw traces become execution paths. The children model the data
-- (models.py), the call tree and the frequencies (normalizer.py), the side effects (classifier.py),
-- the comparison with the static graph (reconciler.py) and the message handler (consumer.py).
pub mod Models
pub mod CallTree
pub mod Frequencies
pub mod Effects
pub mod Reconcile
pub mod Handler
mod Examples
