-- ===== src/Dashboard.antt =====
-- src/lib/dashboard/: the orders and requests that ask for work, as the page after the login shows
-- them.
pub mod Helpers
pub mod WorkItems
pub mod Reads
pub mod Board
pub mod Pending
pub mod WorkerSummary
