-- ===== src/Shard/RealIp.antt =====
-- backend/telemetry_shard/src/real_ip.rs: the address of a node, by the headers that proxies set. The
-- map of headers and the reading of addresses are arguments.
mod Headers
mod Examples
use substrate_telemetry.Prelude.{
  ℕ, ◌-◌, Bool, false, ◌&&◌, ◌||◌, Option, none, some, List, [], ◌∷◌, Text, ◌==◌, length, and_then,
  map_option, unwrap_or, if◌then◌else◌, Run, ok, ◌>>=◌,
}
use substrate_telemetry.Common.Strings.{split, split_once, starts_with, ends_with, slice, trim}

pub data Source : Type 0 where
  forwarded_header : Source
  x_forwarded_for_header : Source
  x_real_ip_header : Source
  socket_addr : Source

-- What is used of `std::net`: the addresses of sockets with their IP addresses, and the reading of both.
pub record Net (SocketAddr IpAddr : Type 0) : Type 0 where
  pub ip : SocketAddr → IpAddr
  pub parse_socket_addr : Text → Option SocketAddr
  pub parse_ip_addr : Text → Option IpAddr

abbrev pub comma : ℕ
comma = 44

abbrev pub semicolon : ℕ
semicolon = 59

abbrev pub equals : ℕ
equals = 61

abbrev pub quote : ℕ
quote = 34

-- `key.to_lowercase() == "for"`
abbrev pub is_for : Text → Bool
is_for (f ∷ o ∷ r ∷ []) =
    (f == b'f' || f == b'F') && (o == b'o' || o == b'O') && (r == b'r' || r == b'R')
is_for _ = false

-- A value without the quotes around it; a quote that stands alone is a slice that does not exist.
pub unquoted : Text → Run Text
unfolding slice
unquoted value =
    if starts_with quote value && ends_with quote value
    then slice 1 (length value - 1) value
    else ok value

-- One pair, if it is one, with what the other pairs give.
pub for_value : Option (Text × Text) → Run (Option Text) → Run (Option Text)
unfolding unquoted
for_value none rest = ok none
for_value (some (key, value)) rest =
    let found = unquoted value >>= (λ addr. ok (some addr)) in if is_for key then found else rest

pub first_for : List Text → Run (Option Text)
unfolding for_value trim
first_for [] = ok none
first_for (pair ∷ pairs) = for_value (split_once equals (trim pair)) (first_for pairs)

-- The first part of a text that is split.
abbrev pub first : List Text → Option Text
first [] = none
first (part ∷ parts) = some part

abbrev pub or_else {ℓ} : {A : Type ℓ} → Option A → Option A → Option A
or_else none b = b
or_else (some a) b = some a

abbrev first_for_of : Option Text → Run (Option Text)
first_for_of none = ok none
first_for_of (some values) = first_for (split semicolon values)

pub get_first_addr_from_forwarded_header : Text → Run (Option Text)
unfolding first_for
get_first_addr_from_forwarded_header value = first_for_of (first (split comma value))

pub get_first_addr_from_x_forwarded_for_header : Text → Option Text
get_first_addr_from_x_forwarded_for_header value = map_option trim (first (split comma value))

-- What the `Forwarded` header gives.
from_forwarded : Option Text → Run (Option Text)
unfolding get_first_addr_from_forwarded_header
from_forwarded none = ok none
from_forwarded (some value) = get_first_addr_from_forwarded_header value

-- The first header that gives a text, with what the `Forwarded` header gave.
pub choose : Option Text → (forwarded_for real_ip : Option Text) → Option (Text × Source)
unfolding get_first_addr_from_x_forwarded_for_header
choose (some addr) forwarded_for real_ip = some (addr, forwarded_header)
choose none forwarded_for real_ip =
    or_else
      (map_option (λ addr. (addr, x_forwarded_for_header))
        (and_then forwarded_for get_first_addr_from_x_forwarded_for_header))
      (map_option (λ val. (trim val, x_real_ip_header)) real_ip)

-- "forwarded"
abbrev pub forwarded_name : Text
forwarded_name = b'f' ∷ b'o' ∷ b'r' ∷ b'w' ∷ b'a' ∷ b'r' ∷ b'd' ∷ b'e' ∷ b'd' ∷ []

-- "x-forwarded-for"
abbrev pub x_forwarded_for_name : Text
x_forwarded_for_name =
    b'x' ∷ 45 ∷ b'f' ∷ b'o' ∷ b'r' ∷ b'w' ∷ b'a' ∷ b'r' ∷ b'd' ∷ b'e' ∷ b'd' ∷ 45 ∷ b'f' ∷ b'o'
    ∷ b'r' ∷ []

-- "x-real-ip"
abbrev pub x_real_ip_name : Text
x_real_ip_name = b'x' ∷ 45 ∷ b'r' ∷ b'e' ∷ b'a' ∷ b'l' ∷ 45 ∷ b'i' ∷ b'p' ∷ []

module _ {SocketAddr IpAddr : Type 0} (net : Net SocketAddr IpAddr) where
  -- An address that may have a port.
  pub parse : Text → Option IpAddr
  parse text = or_else (map_option net.ip (net.parse_socket_addr text)) (net.parse_ip_addr text)

  -- The address that was chosen, if it can be read.
  pub read : SocketAddr → Option (Text × Source) → IpAddr × Source
  unfolding parse
  read addr none = (net.ip addr, socket_addr)
  read addr (some (text, source)) =
      unwrap_or (map_option (λ ip. (ip, source)) (parse text)) (net.ip addr, socket_addr)

  pub pick_best_ip_from_options :
      (forwarded forwarded_for real_ip : Option Text) → SocketAddr → Run (IpAddr × Source)
  unfolding from_forwarded choose read
  pick_best_ip_from_options forwarded forwarded_for real_ip addr = do
    first_for ← from_forwarded forwarded
    ok (read addr (choose first_for forwarded_for real_ip))

  -- The headers are read by their names, where they are texts.
  pub real_ip : SocketAddr → (get : Text → Option Text) → Run (IpAddr × Source)
  unfolding pick_best_ip_from_options
  real_ip addr get =
      pick_best_ip_from_options (get forwarded_name) (get x_forwarded_for_name) (get x_real_ip_name)
        addr
