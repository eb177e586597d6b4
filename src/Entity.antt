-- ===== src/Entity.antt =====
-- internal/entity: the rows of the database and the two enumerations, roles and task statuses.
pub mod Role
pub mod TaskStatus
pub mod Rows
