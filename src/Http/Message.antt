-- ===== src/Http/Message.antt =====
-- Core/Protocol/Http/HttpTypes.h.
use obsto_cpp.Base.{ℕ, List, []}
use obsto_cpp.Text.{Bytes, codes}

pub data Method : Type 0 where
  unknown get put delete : Method

unfoldable pub method_text : Method → Bytes
method_text Method.get = codes "GET"
method_text Method.put = codes "PUT"
method_text Method.delete = codes "DELETE"
method_text Method.unknown = codes "UNKNOWN"

pub record HttpRequest : Type 0 where
  pub method : Bytes
  pub path : Bytes
  pub version : Bytes
  pub headers : List (Bytes × Bytes)
  pub body : Bytes

abbrev pub no_request : HttpRequest
no_request = record { method = []; path = []; version = []; headers = []; body = [] }

pub data StatusCode : Type 0 where
  ok created bad_request not_found method_not_allowed internal_server_error : StatusCode
  insufficient_storage : StatusCode

-- `static_cast<int>(code)`
unfoldable pub status_number : StatusCode → ℕ
status_number StatusCode.ok = 200
status_number StatusCode.created = 201
status_number StatusCode.bad_request = 400
status_number StatusCode.not_found = 404
status_number StatusCode.method_not_allowed = 405
status_number StatusCode.internal_server_error = 500
status_number StatusCode.insufficient_storage = 507

unfoldable pub get_status_code_str : StatusCode → Bytes
get_status_code_str StatusCode.ok = codes "OK"
get_status_code_str StatusCode.created = codes "Created"
get_status_code_str StatusCode.bad_request = codes "Bad Request"
get_status_code_str StatusCode.not_found = codes "Not Found"
get_status_code_str StatusCode.method_not_allowed = codes "Method Not Allowed"
get_status_code_str StatusCode.internal_server_error = codes "Internal Server Error"
get_status_code_str StatusCode.insufficient_storage = codes "Insufficient Storage"
