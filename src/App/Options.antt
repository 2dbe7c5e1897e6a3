-- ===== src/App/Options.antt =====
-- What the options set.
use obsto_cpp.Base.{ℕ, ◌≤◌, ◌<◌, ◌^◌, false, List, [], ◌∷◌, some, ◌≡◌, refl, arith}
use obsto_cpp.Text.{Bytes, codes, equals}
use obsto_cpp.Text.Decimal.{to_string, stoi-to_string, stoul-to_string}
use obsto_cpp.App.{ServerConfig, parsed, port_of, size_of, flag_of, parse_loop, parse}

-- The port and the capacity fit their types.
pub record InRange (config : ServerConfig) : Type 0 where
  pub port_fits : config.port ≤ 65535
  pub capacity_fits : config.capacity_mb < 2 ^ 64

port_of-to_string : (n : ℕ) → n ≤ 65535 → port_of (to_string n) ≡ some n
unfolding port_of
port_of-to_string n h = rw (stoi-to_string n (omega arith)) (ground arith)

size_of-to_string : (n : ℕ) → n < 2 ^ 64 → size_of (to_string n) ≡ some n
unfolding size_of
size_of-to_string n h = stoul-to_string n h

-- the arguments that set a configuration
abbrev pub args_of : ServerConfig → List Bytes
args_of config =
    codes "--port"
    ∷ to_string config.port
    ∷ codes "-c"
    ∷ to_string config.capacity_mb
    ∷ codes "--path"
    ∷ config.storage_path
    ∷ []

-- A configuration in range that shows no help is read back from the arguments that set its port, its
-- capacity and its path, whatever the path is, an option included.
pub parse-args_of :
    (program : Bytes) (config : ServerConfig)
    → InRange config
    → config.show_help ≡ false
    → parse (program ∷ args_of config) ≡ parsed config
unfolding parse parse_loop flag_of equals
parse-args_of program config v no_help =
    rw
      (
        port_of-to_string config.port v.port_fits,
        size_of-to_string config.capacity_mb v.capacity_fits,
        no_help,
      )
      refl
