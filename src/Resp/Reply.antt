-- ===== src/Resp/Reply.antt =====
-- Core/Protocol/Resp/RespReply.h: the bytes of each kind of reply.
use obsto_cpp.Base.{ℕ, ℤ, pos, ◌∷◌, ◌++◌, length}
use obsto_cpp.Text.{Bytes, crlf, codes}
use obsto_cpp.Text.Decimal.{to_string, int_to_string}
use obsto_cpp.Storage.{PutResult, SetNxResult}

unfoldable pub ok : Bytes
ok = codes "+OK" ++ crlf

unfoldable pub pong : Bytes
pong = codes "+PONG" ++ crlf

unfoldable pub simple_string : Bytes → Bytes
simple_string value = b'+' ∷ (value ++ crlf)

unfoldable pub error : Bytes → Bytes
error message = codes "-ERR " ++ (message ++ crlf)

unfoldable pub integer : ℤ → Bytes
integer value = b':' ∷ (int_to_string value ++ crlf)

unfoldable pub bulk_string : Bytes → Bytes
bulk_string value = b'$' ∷ (to_string (length value) ++ (crlf ++ (value ++ crlf)))

unfoldable pub nil : Bytes
nil = codes "$-1" ++ crlf

unfoldable pub array_header : ℕ → Bytes
array_header count = b'*' ∷ (to_string count ++ crlf)

-- The switch has no case for `FailedToWrite`, which falls through to the last line.
unfoldable pub put_result_to_reply : PutResult → Bytes
unfolding ok error
put_result_to_reply PutResult.ok = ok
put_result_to_reply PutResult.capacity_exceeded = error (codes "capacity exceeded")
put_result_to_reply PutResult.invalid_path = error (codes "invalid path")
put_result_to_reply PutResult.failed_to_write = error (codes "unknown error")

unfoldable pub set_nx_result_to_reply : SetNxResult → Bytes
unfolding error integer
set_nx_result_to_reply SetNxResult.inserted = integer (pos 1)
set_nx_result_to_reply SetNxResult.already_exists = integer (pos 0)
set_nx_result_to_reply SetNxResult.capacity_exceeded = error (codes "capacity exceeded")
set_nx_result_to_reply SetNxResult.invalid_path = error (codes "invalid path")
