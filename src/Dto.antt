-- ===== src/Dto.antt =====
-- internal/dto: what the handlers decode from requests and encode into responses, the checks of
-- the requests, and the filter of the task list.
pub mod Requests
pub mod Responses
pub mod Validation
pub mod Filter
pub mod Stats
