-- ===== src/Examples/Storing.antt =====
-- The round trip of an invocation through its table.
use nimbus_run_a_self_hosted.Prelude.{◌≡◌, refl, false, [], ◌∷◌, lookup}
use nimbus_run_a_self_hosted.Prelude.Exec.{ok}
use nimbus_run_a_self_hosted.Prelude.Int.{pos}
use nimbus_run_a_self_hosted.Models.{Invocation}
use nimbus_run_a_self_hosted.Platform.Postgres.{text, int, uuid, bool, time}
use nimbus_run_a_self_hosted.Repository.Invocations
use nimbus_run_a_self_hosted.Repository.RoundTrip.{get_by_id-create_invocation}
use nimbus_run_a_self_hosted.Examples.Tables.{Tables, tables, tables-IsPostgres}

abbrev bare : Tables
bare table = []

abbrev inv : Invocation
inv = record {
  id = 1;
  function_id = 3;
  version_id = 4;
  worker_id = 0;
  status = "PENDING";
  duration_ms = pos 0;
  cold_start = false;
  retry_count = pos 0;
  error_msg = "";
  idemp_key = "order-1";
  created_at = pos 0;
}

get_by_id-create_invocation_example :
    (Invocations.get_by_id tables 1 (Invocations.create tables inv bare).1).0
    ≡ ok (record inv { created_at = pos 5 })
unfolding Invocations.create lookup
get_by_id-create_invocation_example =
    get_by_id-create_invocation tables tables-IsPostgres bare inv (pos 5)
      ((uuid 1
          ∷ uuid 3
          ∷ uuid 4
          ∷ uuid 0
          ∷ text "PENDING"
          ∷ int (pos 0)
          ∷ bool false
          ∷ int (pos 0)
          ∷ text ""
          ∷ text "order-1"
          ∷ time (pos 5)
          ∷ [])
        ∷ [])
      refl refl refl refl
