-- ===== src/Node/Http.antt =====
-- net/http as far as the handlers use it: methods are texts, statuses are numbers.
use minidist.Base.{ℕ}
use minidist.Base.Text.{Text, codes}

abbrev pub method_get : Text
method_get = codes "GET"

abbrev pub method_put : Text
method_put = codes "PUT"

abbrev pub method_post : Text
method_post = codes "POST"

abbrev pub method_delete : Text
method_delete = codes "DELETE"

abbrev pub status_ok : ℕ
status_ok = 200

abbrev pub status_no_content : ℕ
status_no_content = 204

abbrev pub status_bad_request : ℕ
status_bad_request = 400

abbrev pub status_not_found : ℕ
status_not_found = 404

abbrev pub status_method_not_allowed : ℕ
status_method_not_allowed = 405

abbrev pub status_conflict : ℕ
status_conflict = 409

abbrev pub status_internal_server_error : ℕ
status_internal_server_error = 500

abbrev pub status_bad_gateway : ℕ
status_bad_gateway = 502

abbrev pub status_service_unavailable : ℕ
status_service_unavailable = 503
