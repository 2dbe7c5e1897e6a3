-- ===== src/Resp/Handler/Listing.antt =====
-- The reply to KEYS.
use obsto_cpp.Base.{◌≤◌, List, [], ◌∷◌, ◌++◌, length, append-nil, append_assoc, ◌≡◌, sym, ◌∙◌}
use obsto_cpp.Text.{Bytes}
use obsto_cpp.Storage.{ObjectStore, StreamingStore}
use obsto_cpp.Resp.Reply
use obsto_cpp.Resp.Parser.{complete, parse, k_max_array_elements}
use obsto_cpp.Resp.Parser.RoundTrip.{bulk_strings, AllFit, parse-array_reply}
use obsto_cpp.Resp.Handler.Commands.{Handler, keys_reply, handle_keys}

keys_reply_lem :
    (names : List Bytes) (before : Bytes) → keys_reply names before ≡ before ++ bulk_strings names
unfolding keys_reply
keys_reply_lem [] before = sym (append-nil before)
keys_reply_lem (name ∷ names) before =
    keys_reply_lem names (before ++ Reply.bulk_string name)
    ∙ append_assoc before (Reply.bulk_string name) (bulk_strings names)

-- Where the storage has at most `kMaxArrayElements` keys, whose lengths fit an `int`, the reply to KEYS
-- is read back by the parser as these keys, whatever stands behind it.
pub parse-handle_keys :
    {S W R : Type 0} (store : ObjectStore S) (st : StreamingStore S W R) (h : Handler S W R)
    (args : List Bytes) (rest : Bytes)
    → AllFit (store.keys h.storage)
    → length (store.keys h.storage) ≤ k_max_array_elements
    → parse ((handle_keys store st args h).0 ++ rest) []
      ≡ (complete, store.keys h.storage, length (handle_keys store st args h).0)
parse-handle_keys store st h args rest fits few =
    rw (keys_reply_lem (store.keys h.storage) (Reply.array_header (length (store.keys h.storage))))
      (parse-array_reply (store.keys h.storage) rest [] fits few)
