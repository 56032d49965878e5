-- ===== src/Tests/Rows.antt =====
-- A row of query_log for the tests.
use click_dog.Common.{[], ◌∷◌}
use click_dog.Common.Int.{pos}
use click_dog.Model.{QueryLog}

abbrev pub row : QueryLog
row = record {
  query_id = "q";
  query_kind = "QueryFinish";
  query_operation = "Select";
  event_time = pos 0;
  query_duration_ms = 12;
  elapsed_ms = 0;
  query = "SELECT 1";
  normalized_query_hash = 99;
  normalized_query = "SELECT ?";
  user = "u";
  client_name = "client";
  client_hostname = "laptop";
  client_address = "::1";
  initial_address = "";
  databases_visited = "default" ∷ [];
  tables_visited = "default.events" ∷ [];
  exception_code = pos 0;
  read_rows = 3;
  read_bytes = 24;
  written_rows = 0;
  written_bytes = 0;
  result_rows = 1;
  result_bytes = 8;
  memory_usage = 4096;
}
