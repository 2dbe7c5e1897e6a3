-- ===== src/Tests/Start.antt =====
-- The whole program on concrete input.
use obsto_cpp.Base.{List, [], ◌∷◌, ◌++◌, true, false, ◌≡◌, refl}
use obsto_cpp.Text.{Bytes, codes, equals}
use obsto_cpp.Storage.Table
use obsto_cpp.Storage.Disk.Paths.{path_of, split_names, drop_empty}
use obsto_cpp.Storage.Disk.Files.{native, make_directories, create_directories}
use obsto_cpp.Outcome.{Returns}
use obsto_cpp.Storage.Bounded.{bounded_over}
use obsto_cpp.Storage.Index.Rebuild.{new_index}
use obsto_cpp.Storage.Disk.{open_root}
use obsto_cpp.Storage.Disk.Paths.{path_from, rooted_path}
use obsto_cpp.Detector.Connection.{detector_sharing, DetectorIsReady}
use obsto_cpp.Net.{Session, read_done, handle, start}
use obsto_cpp.Net.Server.{Server, new_server, accept, accepts, at_storage, here, next}
use obsto_cpp.App.{flag_of, parse_loop, parse}
use obsto_cpp.App.Start.{Storage, Handler, serving, handler, capacity_bytes, main}
use obsto_cpp.App.Serving.{main_never_fails}
use obsto_cpp.Tests.Disk.{root, disk}

abbrev command_line : List Bytes
command_line = codes "obsto" ∷ codes "-P" ∷ codes "/data" ∷ []

abbrev first_storage : Storage
first_storage = bounded_over (new_index root disk).1 (new_index root disk).0 (capacity_bytes 200)

abbrev first_server : Server Storage Handler
first_server = new_server (handler root) (detector_sharing true) first_storage

starts : main true command_line disk ≡ serving root first_server
unfolding main parse parse_loop flag_of path_from rooted_path path_of split_names drop_empty
    open_root create_directories make_directories native Table.find equals
starts = refl

abbrev connected : Server Storage Handler
connected = accept (handler root) (detector_sharing true) first_server

one_session :
    connected.sessions ≡ [] ++ (start ((detector_sharing true).make_handler first_storage) ∷ [])
unfolding accept
one_session = refl

main_never_fails_example :
    Returns
      (λ (t : Session Handler). DetectorIsReady t.handler)
      (handle (handler root) (read_done (codes "GET /a HTTP/1.1\r\n\r\n") false) (
        at_storage
          (handler root)
          (detector_sharing true)
          connected.storage
          (start ((detector_sharing true).make_handler first_storage))))
main_never_fails_example =
    main_never_fails true command_line disk root first_server connected [] []
      (start ((detector_sharing true).make_handler first_storage))
      (read_done (codes "GET /a HTTP/1.1\r\n\r\n") false) starts (next here (accepts refl))
      one_session
