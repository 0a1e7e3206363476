-- ===== src/Types/TaskMethod.antt =====
-- internal/types/task_method.go: a method is its text.
use formicary.Common.{String, Bool, str_eq, List, [], ◌∷◌, any}

abbrev pub TaskMethod : Type 0
TaskMethod = String

abbrev expire_artifacts : TaskMethod
expire_artifacts = "EXPIRE_ARTIFACTS"

abbrev fork_job : TaskMethod
fork_job = "FORK_JOB"

abbrev await_forked_job : TaskMethod
await_forked_job = "AWAIT_FORKED_JOB"

abbrev messaging : TaskMethod
messaging = "MESSAGING"

abbrev http_get : TaskMethod
http_get = "HTTP_GET"

abbrev http_post_form : TaskMethod
http_post_form = "HTTP_POST_FORM"

abbrev http_post_json : TaskMethod
http_post_json = "HTTP_POST_JSON"

abbrev http_put_form : TaskMethod
http_put_form = "HTTP_PUT_FORM"

abbrev http_put_json : TaskMethod
http_put_json = "HTTP_PUT_JSON"

abbrev http_delete : TaskMethod
http_delete = "HTTP_DELETE"

abbrev websocket : TaskMethod
websocket = "WEBSOCKET"

abbrev shell : TaskMethod
shell = "SHELL"

abbrev docker : TaskMethod
docker = "DOCKER"

abbrev pub kubernetes : TaskMethod
kubernetes = "KUBERNETES"

abbrev pub manual : TaskMethod
manual = "MANUAL"

abbrev pub fan_out_job : TaskMethod
fan_out_job = "FAN_OUT_JOB"

abbrev one_of : List TaskMethod → TaskMethod → Bool
one_of ms m = any (λ n. str_eq m n) ms

unfoldable pub supports_capture_stdout : TaskMethod → Bool
supports_capture_stdout = one_of (
    http_get ∷ http_delete ∷ http_post_form ∷ http_post_json ∷ http_put_form ∷ http_put_json ∷ shell
    ∷ [])

unfoldable pub requires_script : TaskMethod → Bool
requires_script = one_of (
    http_get ∷ http_delete ∷ http_post_form ∷ http_post_json ∷ http_put_form ∷ http_put_json ∷ shell
    ∷ docker ∷ kubernetes ∷ [])

-- `IsValid`.
unfoldable pub is_valid : TaskMethod → Bool
is_valid = one_of (
    http_get ∷ http_delete ∷ http_post_form ∷ http_post_json ∷ http_put_form ∷ http_put_json
    ∷ websocket ∷ shell ∷ docker ∷ kubernetes ∷ fork_job ∷ await_forked_job ∷ messaging ∷ manual
    ∷ expire_artifacts ∷ fan_out_job ∷ [])

unfoldable pub supports_dependent_artifacts : TaskMethod → Bool
supports_dependent_artifacts = one_of (shell ∷ docker ∷ kubernetes ∷ [])

unfoldable pub supports_cache : TaskMethod → Bool
supports_cache = one_of (docker ∷ kubernetes ∷ [])

unfoldable pub is_http : TaskMethod → Bool
is_http = one_of (http_get ∷ http_delete ∷ http_post_form ∷ http_post_json ∷ http_put_json ∷ [])
