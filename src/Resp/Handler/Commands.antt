-- ===== src/Resp/Handler/Commands.antt =====
-- The state of the handler, and the commands.
use obsto_cpp.Base.{
  ℕ, Bool, true, false, List, [], ◌∷◌, ◌++◌, if◌then◌else◌, Option, none, some, pos, length,
}
use obsto_cpp.Text.{Bytes, codes, crlf, empty, equals, to_upper}
use obsto_cpp.Text.Decimal.{to_string}
use obsto_cpp.Storage.{ObjectStore, StreamingStore, BeginGetResult}
use obsto_cpp.Resp.Reply

pub data State : Type 0 where
  parsing_commands streaming_value discarding_rejected_value : State

pub record Handler (S W R : Type 0) : Type 0 where
  pub storage : S
  pub has_streaming : Bool
  pub incoming : Bytes
  pub outgoing : Bytes
  pub streaming_read : Bool
  pub read_session : Option R
  pub state : State
  pub session : Option W
  pub value_remaining : ℕ
  pub trailing_remaining : ℕ
  pub discard_remaining : ℕ
  pub is_set_nx : Bool
  pub pending_key : Bytes

-- A command gives its reply, and the handler behind it.
abbrev pub Reaction : Type 0 → Type 0 → Type 0 → Type 0
Reaction S W R = Bytes × Handler S W R

-- the entries of `m_commands`
pub data Command : Type 0 where
  ping get set del keys setnx : Command

-- `m_commands.find(name)`
unfoldable pub find_command : Bytes → Option Command
find_command name =
    if equals name (codes "PING")
    then some ping
    else if equals name (codes "GET")
    then some get
    else if equals name (codes "SET")
    then some set
    else if equals name (codes "DEL")
    then some del
    else if equals name (codes "KEYS")
    then some keys
    else if equals name (codes "SETNX")
    then some setnx
    else none

unfoldable pub keys_reply : List Bytes → Bytes → Bytes
keys_reply [] response = response
keys_reply (key ∷ rest) response = keys_reply rest (response ++ Reply.bulk_string key)

unfoldable pub wrong_number : Bytes → Bytes
wrong_number name =
    Reply.error (codes "wrong number of arguments for '" ++ (name ++ codes "' command"))

module _ {S W R : Type 0} where
  abbrev pub queue_response : Handler S W R → Bytes → Handler S W R
  queue_response h response = record h { outgoing = h.outgoing ++ response }

  -- the constructor
  unfoldable pub new_handler : S → Bool → Handler S W R
  new_handler s has_streaming = record {
    storage = s;
    has_streaming = has_streaming;
    incoming = [];
    outgoing = [];
    streaming_read = false;
    read_session = none;
    state = parsing_commands;
    session = none;
    value_remaining = 0;
    trailing_remaining = 0;
    discard_remaining = 0;
    is_set_nx = false;
    pending_key = [];
  }

module _ {S W R : Type 0} (store : ObjectStore S) (st : StreamingStore S W R) where
  abbrev pub handle_ping : List Bytes → Handler S W R → Reaction S W R
  handle_ping [] h = (Reply.pong, h)
  handle_ping (value ∷ args) h = (Reply.simple_string value, h)

  abbrev pub got_streaming : Handler S W R → BeginGetResult R × S → Reaction S W R
  got_streaming h (r, s) =
      if r.found
      then (
        [],
        record (queue_response h (b'$' ∷ (to_string r.size ++ crlf))) {
          storage = s;
          read_session = r.session;
          streaming_read = true;
        },
      )
      else (Reply.nil, record h { storage = s })

  abbrev pub got_value : Handler S W R → Option Bytes → Reaction S W R
  got_value h none = (Reply.nil, h)
  got_value h (some value) = (Reply.bulk_string value, h)

  abbrev pub handle_get : List Bytes → Handler S W R → Reaction S W R
  handle_get (key ∷ []) h =
      if h.has_streaming
      then got_streaming h (st.begin_get key h.storage)
      else got_value h (store.get key h.storage)
  handle_get _ h = (wrong_number (codes "get"), h)

  abbrev pub handle_set : List Bytes → Handler S W R → Reaction S W R
  handle_set (key ∷ value ∷ []) h =
      let (r, s) = store.put key value h.storage in
      (Reply.put_result_to_reply r, record h { storage = s })
  handle_set _ h = (wrong_number (codes "set"), h)

  abbrev pub handle_del : List Bytes → Handler S W R → Reaction S W R
  handle_del (key ∷ []) h =
      let (deleted, s) = store.del key h.storage in
      (Reply.integer (if deleted then pos 1 else pos 0), record h { storage = s })
  handle_del _ h = (wrong_number (codes "del"), h)

  abbrev pub handle_keys : List Bytes → Handler S W R → Reaction S W R
  handle_keys args h =
      let names = store.keys h.storage in (keys_reply names (Reply.array_header (length names)), h)

  abbrev pub handle_set_nx : List Bytes → Handler S W R → Reaction S W R
  handle_set_nx (key ∷ value ∷ []) h =
      let (r, s) = store.setnx key value h.storage in
      (Reply.set_nx_result_to_reply r, record h { storage = s })
  handle_set_nx _ h = (wrong_number (codes "setnx"), h)

  abbrev pub call : Command → List Bytes → Handler S W R → Reaction S W R
  call ping = handle_ping
  call get = handle_get
  call set = handle_set
  call del = handle_del
  call keys = handle_keys
  call setnx = handle_set_nx

  abbrev pub dispatch : Bytes → Option Command → List Bytes → Handler S W R → Reaction S W R
  dispatch name none args h = (Reply.error (codes "unknown command '" ++ (name ++ codes "'")), h)
  dispatch name (some c) args h = call c args h

  unfoldable pub handle_command : Bytes → List Bytes → Handler S W R → Reaction S W R
  handle_command name args h = dispatch name (find_command (to_upper name)) args h

  unfoldable pub process_commands : List Bytes → Handler S W R → Handler S W R
  process_commands [] h = h
  process_commands (name ∷ args) h =
      let (response, h') = handle_command name args h in
      if empty response then h' else queue_response h' response
