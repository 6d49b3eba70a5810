-- ===== src/Examples/Accepting.antt =====
-- The gateway's `Invoke` at one request to the shop.
use nimbus_run_a_self_hosted.Prelude.{refl, ◌⊎◌, some, [], ◌∷◌, str_eq, if◌then◌else◌, lookup}
use nimbus_run_a_self_hosted.Platform.Gin.{Context, object, identifier, string}
use nimbus_run_a_self_hosted.Repository.Rows.{scan_first}
use nimbus_run_a_self_hosted.Repository.Functions
use nimbus_run_a_self_hosted.Repository.Versions
use nimbus_run_a_self_hosted.Repository.Invocations
use nimbus_run_a_self_hosted.Http.Invocations.{
  invoke, invoke_function, invoke_version, answer_existing, record_invocation,
}
use nimbus_run_a_self_hosted.Http.Recording.{Recorded, Repeated, invoke_lem}
use nimbus_run_a_self_hosted.Examples.Samples.{env, env-IsEnv, shop}

-- `POST /f/iii` with the key "order-1".
abbrev context : Context
context = record {
  request = record {
    method = "POST";
    path = "f" ∷ "iii" ∷ [];
    header = λ name. if str_eq name "Idempotency-Key" then "order-1" else "";
    query = λ name. "";
    body = "";
  };
  param = λ name. "iii";
  user_id = some "i";
}

invoke_lem_example :
    Recorded env env-IsEnv 3 "order-1" shop (invoke env context shop).1
    ⊎ Repeated env env-IsEnv "order-1"
        (record {
          status = 202;
          body = object (
              ("id", identifier 1)
              ∷ ("status", string "PENDING")
              ∷ ("message", string "Invocation accepted and queued")
              ∷ []);
        })
        shop
        (invoke env context shop).1
unfolding invoke invoke_function invoke_version answer_existing record_invocation
    Functions.get_by_id Versions.get_by_id Invocations.get_by_idempotency_key Invocations.create
    scan_first lookup
invoke_lem_example =
    invoke_lem env env-IsEnv context shop
      (record {
        status = 202;
        body = object (
            ("id", identifier 1)
            ∷ ("status", string "PENDING")
            ∷ ("message", string "Invocation accepted and queued")
            ∷ []);
      })
      3 refl refl refl
