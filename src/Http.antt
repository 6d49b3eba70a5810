-- ===== src/Http.antt =====
-- internal/http: the gateway, with its middleware, its handlers and its routes.
pub mod Middleware
pub mod Functions
pub mod Invocations
pub mod Accounts
pub mod Routes
pub mod Access
pub mod Ownership
pub mod Switching
pub mod Deploying
pub mod Offline
pub mod Sessions
pub mod Recording
pub mod Logging
use nimbus_run_a_self_hosted.Prelude.{ℕ, String, ◌≡◌, Option, none, some}
use nimbus_run_a_self_hosted.Prelude.Exec.{errorf, panicked, Result, err, Exec, pure, raise}
use nimbus_run_a_self_hosted.Platform.Gin.{Body, Response, Context, Object, object}

-- `c.JSON(status, body)`, or `c.Status(status)`.
abbrev pub reply : {S : Type 0} → ℕ → Body → Exec S Response
reply status body = pure (record { status = status; body = body })

-- `userID.(string)` of the value that `c.Get("user_id")` found.
abbrev pub user_id_text : {S : Type 0} → Option String → Exec S String
user_id_text none = raise (panicked "interface conversion: interface {} is nil, not string")
user_id_text (some s) = pure s
