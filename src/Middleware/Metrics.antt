-- ===== src/Middleware/Metrics.antt =====
-- internal/middleware/metrics.go: what each request reports to Prometheus, whose vectors of counters
-- are kept here as the lists of the reports.
use secunda_homework.Base.{ℕ, List, [], ◌∷◌, ◌++◌, if◌then◌else◌, leb}
use secunda_homework.Text.{Bytes, codes, is_empty, format_uint}

-- The labels of a counter: `method`, `path` and `status`.
pub record Labels : Type 0 where
  pub method : Bytes
  pub path : Bytes
  pub status : Bytes

pub record Metrics : Type 0 where
  pub requests_total : List Labels
  pub request_duration : List (Bytes × Bytes)
  pub errors_total : List Labels

-- The path label: that of the route, if there is one.
abbrev pub path_label : Bytes → Bytes
path_label full_path = if is_empty full_path then codes "unknown" else full_path

abbrev pub labels_of : (method full_path : Bytes) → ℕ → Labels
labels_of method full_path status = record {
  method = method;
  path = path_label full_path;
  status = format_uint status;
}

-- What `Prometheus` does after `c.Next()`.
unfoldable pub report : (method full_path : Bytes) → ℕ → Metrics → Metrics
report method full_path status m =
    let l = labels_of method full_path status in
    record {
      requests_total = m.requests_total ++ l ∷ [];
      request_duration = m.request_duration ++ (l.method, l.path) ∷ [];
      errors_total = if leb 400 status then m.errors_total ++ l ∷ [] else m.errors_total;
    }
