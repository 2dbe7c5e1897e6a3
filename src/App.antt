-- ===== src/App.antt =====
-- App/ArgumentParser.{h,cpp} and App/ServerConfig.h: the command line. What is printed is left out.
pub mod Options
pub mod Start
pub mod Serving
use obsto_cpp.Base.{
  ℕ, ◌||◌, Bool, true, false, List, [], ◌∷◌, ltb, if◌then◌else◌, Option, none, some, ℤ, pos, negsuc,
}
use obsto_cpp.Text.{Bytes, codes, equals}
use obsto_cpp.Text.Decimal.{stoi, stoul}

pub record ServerConfig : Type 0 where
  pub storage_path : Bytes
  pub port : ℕ
  pub capacity_mb : ℕ
  pub show_help : Bool

abbrev pub default_config : ServerConfig
default_config = record {
  storage_path = codes "C:\\develop\\obsto";
  port = 8000;
  capacity_mb = 200;
  show_help = false;
}

-- `exited` is `exit(1)`
pub data Parsed : Type 0 where
  parsed : ServerConfig → Parsed
  exited : Parsed

abbrev is_flag : Bytes → Bytes → Bytes → Bool
is_flag long short arg = equals arg long || equals arg short

-- the text of a port: `none` for an exception
abbrev port_in_range : Option ℤ → Option ℕ
port_in_range none = none
port_in_range (some (negsuc n)) = none
port_in_range (some (pos n)) = if ltb 65535 n then none else some n

unfoldable pub port_of : Bytes → Option ℕ
port_of value = port_in_range (stoi value)

-- `std::stoull`, which is `std::stoul` where a long has 64 bits
unfoldable pub size_of : Bytes → Option ℕ
size_of value = stoul value

-- what the loop does with an argument
pub data Flag : Type 0 where
  port capacity path help unknown : Flag

unfoldable pub flag_of : Bytes → Flag
flag_of arg =
    if is_flag (codes "--port") (codes "-p") arg
    then port
    else if is_flag (codes "--capacity") (codes "-c") arg
    then capacity
    else if is_flag (codes "--path") (codes "-P") arg
    then path
    else if is_flag (codes "--help") (codes "-h") arg
    then help
    else unknown

abbrev pub set_port : ServerConfig → Option ℕ → Option ServerConfig
set_port config none = none
set_port config (some n) = some (record config { port = n })

abbrev pub set_capacity : ServerConfig → Option ℕ → Option ServerConfig
set_capacity config none = none
set_capacity config (some n) = some (record config { capacity_mb = n })

-- one flag with the value behind it; `none` where the program exits
abbrev pub set_value : Flag → Bytes → ServerConfig → Option ServerConfig
set_value port value config = set_port config (port_of value)
set_value capacity value config = set_capacity config (size_of value)
set_value path value config = some (record config { storage_path = value })
set_value help value config = some config
set_value unknown value config = none

abbrev pub with_help : ServerConfig → ServerConfig
with_help config = record config { show_help = true }

-- the last argument, with no value behind it
abbrev pub last_step : Flag → ServerConfig → Parsed
last_step help config = parsed (with_help config)
last_step port config = exited
last_step capacity config = exited
last_step path config = exited
last_step unknown config = exited

abbrev pub value_taken : Option ServerConfig → (ServerConfig → Parsed) → Parsed
value_taken none go_on = exited
value_taken (some config) go_on = go_on config

-- An argument with another one behind it: `next` is the loop at that one, `skip` behind it.
abbrev pub step :
    Flag → Bytes → ServerConfig → (ServerConfig → Parsed) → (ServerConfig → Parsed) → Parsed
step help value config next skip = next (with_help config)
step port value config next skip = value_taken (set_value port value config) skip
step capacity value config next skip = value_taken (set_value capacity value config) skip
step path value config next skip = value_taken (set_value path value config) skip
step unknown value config next skip = exited

-- the loop of `parse`, over the arguments that are left
unfoldable pub parse_loop : List Bytes → ServerConfig → Parsed
parse_loop [] config = parsed config
parse_loop (arg ∷ []) config = last_step (flag_of arg) config
parse_loop (arg ∷ value ∷ rest) config =
    step (flag_of arg) value config (λ c. parse_loop (value ∷ rest) c) (λ c. parse_loop rest c)

-- `m_argv[0]` is the program.
unfoldable pub parse : List Bytes → Parsed
parse [] = parsed default_config
parse (program ∷ args) = parse_loop args default_config
