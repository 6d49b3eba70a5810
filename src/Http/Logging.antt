-- ===== src/Http/Logging.antt =====
-- internal/http/server.go: the line that the server logs of each request.
use Prim.Native.String.{◌++◌ as str_append}
use nimbus_run_a_self_hosted.Prelude.{ℕ, String}
use nimbus_run_a_self_hosted.Prelude.Int.{ℤ}
use nimbus_run_a_self_hosted.Platform.Data.{Time}

-- `gin.LogFormatterParams`: what is known of an answered request.
pub record Answered : Type 0 where
  pub time_stamp : Time
  pub method : String
  pub path : String
  pub status_code : ℕ
  pub latency : ℤ

-- How the libraries print each part. `rune` is the one character with a code.
pub record Printing : Type 0 where
  pub format_time : Time → String
  pub status_code_color : ℕ → String
  pub reset_color : String
  pub rune : ℕ → String
  pub format_duration : ℤ → String

unfoldable pub request_logger : Printing → Answered → String
request_logger p a = str_append (p.format_time a.time_stamp) (
    str_append " | " (
      str_append a.method (
        str_append " " (
          str_append a.path (
            str_append " | " (
              str_append (p.status_code_color a.status_code) (
                str_append " " (
                  str_append (p.rune a.status_code) (
                    str_append p.reset_color
                      (str_append " | " (str_append (p.format_duration a.latency) "\n")))))))))))
