-- ===== src/App/Serving.antt =====
-- The server that `main` starts.
use obsto_cpp.Base.{
  ℕ, Bool, true, false, List, ◌∷◌, ◌++◌, Option, none, some, ◌≡◌, refl, subst, if_elim,
}
use obsto_cpp.Text.{Bytes}
use obsto_cpp.Outcome.{Returns}
use obsto_cpp.Storage.{PutResult, StreamingStore, BeginPutResult, BeginGetResult}
use obsto_cpp.Storage.Bounded.{
  Bounded, BoundedWriteSession, begin_put, begin_get, would_fit, begun, bounded_streaming,
}
use obsto_cpp.Storage.Disk.Sessions as Disk
use obsto_cpp.Storage.Disk.{open_root}
use obsto_cpp.Storage.Disk.Sessions.{
  DiskWriteSession, DiskReadSession, begun_at, got_sized, got_regular, got_at, disk_streaming,
}
use obsto_cpp.Storage.Disk.Paths.{FilePath, path_from, map_path}
use obsto_cpp.Storage.Disk.Files.{
  FileSystem, Node, directory, file, parent_path, create_directories, has_trouble, status,
}
use obsto_cpp.Resp.Handler.Ready.{HasSession, SessionLaws}
use obsto_cpp.Detector.Connection.{detector_sharing, DetectorIsReady, server_never_fails}
use obsto_cpp.Net.{Session, Event, handle}
use obsto_cpp.Net.Server.{Server, new_server, at_storage, ServerReach}
use obsto_cpp.App.{ServerConfig, Parsed, parsed, exited, parse}
use obsto_cpp.App.Start.{
  Storage, Handler, Main, ended, serving, handler, storage, streaming, opened, after_parse, main,
}

abbrev PutLaw : {W : Type 0} → BeginPutResult W → Type 0
PutLaw r = r.status ≡ PutResult.ok → HasSession r.session

abbrev GetLaw : {R : Type 0} → BeginGetResult R → Type 0
GetLaw r = r.found ≡ true → HasSession r.session

abbrev HasPutSession : BeginPutResult DiskWriteSession × FileSystem → Type 0
HasPutSession r = PutLaw r.0

abbrev HasGetSession : BeginGetResult DiskReadSession × FileSystem → Type 0
HasGetSession r = GetLaw r.0

module _ {S W R : Type 0} (st : StreamingStore S W R) (laws : SessionLaws st) where
  opened-HasSession :
      (path : Bytes) (size : ℕ) (b : Bounded S) (status : PutResult) (session : Option W) (s : S)
      → (status ≡ PutResult.ok → HasSession session)
      → PutLaw (begun path size b status session s).0
  opened-HasSession path size b PutResult.ok none s h = h
  opened-HasSession path size b PutResult.ok (some w) s h = λ e. tt
  opened-HasSession path size b PutResult.capacity_exceeded session s h = λ e. cc
  opened-HasSession path size b PutResult.invalid_path session s h = λ e. cc
  opened-HasSession path size b PutResult.failed_to_write session s h = λ e. cc

  -- The bounded storage gives a session where the inner one does.
  bounded_sessions : SessionLaws (bounded_streaming st)
  unfolding begin_put begin_get
  bounded_sessions = record {
    begin_put_session = λ path size b.
        let Law : BeginPutResult (BoundedWriteSession W) × Bounded S → Type 0 = λ r. PutLaw r.0 in
        if_elim Law (would_fit path size b)
          (λ _.
            let (r, s) = st.begin_put path size b.inner in
            opened-HasSession path size b r.status r.session s
              (laws.begin_put_session path size b.inner))
          (λ _ e. cc);
    begin_get_session = λ path b. laws.begin_get_session path b.inner;
  }

begun_at-HasSession : (target : FilePath) (r : Bool × FileSystem) → PutLaw (begun_at target r).0
begun_at-HasSession target (false, fs) e = cc
begun_at-HasSession target (true, fs) e = tt

got_sized-HasSession :
    (target : FilePath) (i : ℕ) (fs : FileSystem) → HasGetSession (got_sized target i fs)
got_sized-HasSession target i fs = if_elim HasGetSession (has_trouble fs) (λ _ e. cc) (λ _ e. tt)

got_regular-HasSession :
    (target : FilePath) (r : Option Node × FileSystem) → HasGetSession (got_regular target r)
got_regular-HasSession target (some (file i), fs) = got_sized-HasSession target i fs
got_regular-HasSession target (some directory, fs) = λ e. cc
got_regular-HasSession target (none, fs) = λ e. cc

got_at-HasSession :
    (target : FilePath) (r : Option Node × FileSystem) → HasGetSession (got_at target r)
got_at-HasSession target (some node, fs) = got_regular-HasSession target (status target fs)
got_at-HasSession target (none, fs) = λ e. cc

mapped_put :
    (target : Option FilePath) (fs : FileSystem)
    → HasPutSession (elim target [
      | none ↦ (Disk.no_write PutResult.invalid_path, fs)
      | some target ↦ begun_at target (create_directories (parent_path target) fs)
    ])
mapped_put none fs = λ e. cc
mapped_put (some target) fs =
    begun_at-HasSession target (create_directories (parent_path target) fs)

mapped_get :
    (target : Option FilePath) (fs : FileSystem)
    → HasGetSession (elim target [
      | none ↦ (Disk.nothing_found, fs)
      | some target ↦ got_at target (status target fs)
    ])
mapped_get none fs = λ e. cc
mapped_get (some target) fs = got_at-HasSession target (status target fs)

disk_sessions : (root : FilePath) → SessionLaws (disk_streaming root)
unfolding Disk.begin_put Disk.begin_get
disk_sessions root = record {
  begin_put_session = λ path size fs. mapped_put (map_path root path) fs;
  begin_get_session = λ path fs. mapped_get (map_path root path) fs;
}

-- The server has no session yet.
abbrev Serves : Main → Type 0
Serves (ended code) = Unit
Serves (serving root v) = (s : Storage) × (v ≡ new_server (handler root) (detector_sharing true) s)

opened-Serves :
    (binds : Bool) (config : ServerConfig) (root : FilePath) (fs : Option FileSystem)
    → Serves (opened binds config root fs)
opened-Serves binds config root none = tt
opened-Serves true config root (some fs) = (_, refl)
opened-Serves false config root (some fs) = tt

after_parse-Serves : (binds : Bool) (fs : FileSystem) (p : Parsed) → Serves (after_parse binds fs p)
after_parse-Serves binds fs exited = tt
after_parse-Serves binds fs (parsed config) =
    if_elim Serves config.show_help (λ _. tt)
      (λ _.
        let root = path_from config.storage_path in
        opened-Serves binds config root (open_root root fs))

-- Where `main` has come to serve, whatever the arguments, the files and their troubles: in every state
-- that the server comes to, with any connections, any bytes, any failures and any order of
-- completions, the next completion of any session returns, with a handler that is ready. No call of a
-- handler runs without end or uses a null session.
pub main_never_fails :
    (binds : Bool) (args : List Bytes) (fs : FileSystem) (root : FilePath)
    (first v : Server Storage Handler) (before after : List (Session Handler)) (s : Session Handler)
    (e : Event)
    → main binds args fs ≡ serving root first
    → ServerReach (handler root) (detector_sharing true) first v
    → v.sessions ≡ before ++ (s ∷ after)
    → Returns
        (λ (t : Session Handler). DetectorIsReady t.handler)
        (handle (handler root) e (at_storage (handler root) (detector_sharing true) v.storage s))
unfolding main
main_never_fails binds args fs root first v before after s e started r at =
    let (storage_first, new) = subst Serves started (after_parse-Serves binds fs (parse args)) in
    server_never_fails (storage root) (streaming root)
      (bounded_sessions (disk_streaming root) (disk_sessions root)) true storage_first v before
      after s e (subst (λ w. ServerReach (handler root) (detector_sharing true) w v) new r) at
