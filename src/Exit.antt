-- ===== src/Exit.antt =====
-- The exits of app/live_exit.py, on the tables of app/database.py.
pub mod Rows
pub mod Store
pub mod Trigger
pub mod Check
pub mod Reconcile
pub mod Preview
pub mod Submit
pub mod Cancel
pub mod Rewrites
pub mod Cleared
pub mod Sending
pub mod Single
pub mod Sent
pub mod Kept
pub mod Held
pub mod Trailing
pub mod Active
mod Tests
