-- ===== src/Http/Handler/Objects.antt =====
-- What a client sees of its objects, over a storage with no streaming interface.
use obsto_cpp.Base.{Bool, true, false, ◌≡◌, refl}
use obsto_cpp.Text.{Bytes, codes, equals_refl}
use obsto_cpp.Storage.{PutResult, ObjectStore, StreamingStore}
use obsto_cpp.Storage.Laws.{StoreLaws}
use obsto_cpp.Http.Message.{StatusCode}
use obsto_cpp.Http.Handler.Requests.{
  Handler, build_response, key_of, handle_put_path, handle_get_path, handle_delete_path, no_object,
  deleted,
}

module _ {S W R : Type 0} (store : ObjectStore S) (st : StreamingStore S W R)
    (laws : StoreLaws store) (h : Handler S W R) (buffered : h.has_streaming ≡ false) where
  -- Over a storage that keeps the laws of a storage and has no streaming interface: behind a PUT that
  -- the storage accepts, a GET of the same path answers 200 with the body of the PUT.
  pub handle_get_path-handle_put_path :
      (path body : Bytes)
      → (store.put (key_of path) body h.storage).0 ≡ PutResult.ok
      → (handle_get_path store st path (handle_put_path store st path body h).1).0
        ≡ build_response StatusCode.ok body (codes "application/octet-stream")
  unfolding handle_get_path handle_put_path
  handle_get_path-handle_put_path path body done =
      rw
        (
          buffered,
          laws.put_ok (key_of path) body (key_of path) h.storage done,
          equals_refl (key_of path),
        )
        refl

  deleted_storage : (r : Bool × S) → (deleted store st h r).1 ≡ record h { storage = r.1 }
  deleted_storage (true, s) = refl
  deleted_storage (false, s) = refl

  delete_storage :
      (path : Bytes)
      → store.exists (key_of path) h.storage ≡ true
      → (handle_delete_path store st path h).1
        ≡ record h { storage = (store.del (key_of path) h.storage).1 }
  unfolding handle_delete_path
  delete_storage path there = rw there (deleted_storage (store.del (key_of path) h.storage))

  -- Over a storage that keeps the laws of a storage and has no streaming interface: behind a DELETE
  -- of an object that exists and that the storage removes, a GET of the same path answers 404.
  pub handle_get_path-handle_delete_path :
      (path : Bytes)
      → store.exists (key_of path) h.storage ≡ true
      → (store.del (key_of path) h.storage).0 ≡ true
      → (handle_get_path store st path (handle_delete_path store st path h).1).0 ≡ no_object
  unfolding handle_get_path
  handle_get_path-handle_delete_path path there done =
      rw
        (
          delete_storage path there,
          buffered,
          laws.del_done (key_of path) (key_of path) h.storage done,
          equals_refl (key_of path),
        )
        refl
