-- ===== src/Core.antt =====
-- lib/core and include/sivra/core: results with diagnostics, the state of an analysis, budgets.
pub mod Result
pub mod Budget
