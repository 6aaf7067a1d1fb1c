-- ===== src/Routing/Budget.antt =====
-- `Budget` of harness/routing.py. A budget's parent is fixed when `child` makes it, so an object is
-- named by the way to it from the run's budget: `[]` is the run's, `k ∷ p` the k-th child of `p`.
-- The store says what the fields of each object hold; a charge walks up the way.
-- The lock serialises the additions of one object, so the charge of one object is one step.
mod Defs
pub mod Charges
pub mod Headroom
unfoldable pub use Defs.*
