-- ===== src/Tests/App.antt =====
-- The command line on concrete input.
use obsto_cpp.Base.{true, false, [], ◌∷◌, ◌≡◌, refl, arith}
use obsto_cpp.Text.{codes, equals}
use obsto_cpp.Text.Decimal.{stoi, stoul}
use obsto_cpp.App.{
  ServerConfig, default_config, parsed, exited, flag_of, port_of, size_of, parse_loop, parse,
}
use obsto_cpp.App.Options.{args_of, parse-args_of}

command_lines :
    (parse (codes "obsto" ∷ []) ≡ parsed default_config)
    × (parse (codes "obsto" ∷ codes "-p" ∷ []) ≡ exited)
    × (parse (codes "obsto" ∷ codes "-p" ∷ codes "65536" ∷ []) ≡ exited)
    × (parse (codes "obsto" ∷ codes "x" ∷ codes "-h" ∷ []) ≡ exited)
    × (parse (codes "obsto" ∷ codes "-h" ∷ codes "-p" ∷ codes "80" ∷ [])
        ≡ parsed (record default_config { show_help = true; port = 80 }))
unfolding parse parse_loop flag_of equals port_of size_of stoi stoul
command_lines = (refl, refl, refl, refl, refl)

abbrev small : ServerConfig
small = record { storage_path = codes "-h"; port = 80; capacity_mb = 7; show_help = false }

parse-args_of_example : parse (codes "obsto" ∷ args_of small) ≡ parsed small
parse-args_of_example =
    parse-args_of (codes "obsto") small
      (record { port_fits = omega arith; capacity_fits = omega arith }) refl
