-- ===== src/Models.antt =====
-- The rows that the gateway and the scheduler keep (core/models.py), as far as a job's life needs
-- them, and the queries on them (core/model_managers).
mod Names
mod Messages
mod Rows
mod Tables
pub mod Laws
pub use Names.*
pub use Messages.*
unfoldable pub use Rows.*
unfoldable pub use Tables.*
