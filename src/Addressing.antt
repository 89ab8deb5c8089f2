-- ===== src/Addressing.antt =====
-- `Address` (neo4j/addressing.py). A text is the list of its code points. Python's `int` of a text,
-- `str` of a number, its white space and the names of services are parameters.
pub mod RoundTrip
mod Tests
use neo4j_python_driver.Base.{
  ℕ, List, [], ◌∷◌, ◌++◌, Bool, true, false, not, Option, none, some, ◌==◌, if◌then◌else◌, Result,
  ok, err, map,
}
use neo4j_python_driver.Base.Int.{ℤ, pos, negsuc}

abbrev pub CodePoints : Type 0
CodePoints = List ℕ

-- A port is a number, or a text that is no number.
pub data Port : Type 0 where
  number : ℤ → Port
  service : CodePoints → Port

-- An IPv6 address has 0 as its flow info and scope id.
pub data Address : Type 0 where
  ipv4 ipv6 : CodePoints → Port → Address

pub data AddressError : Type 0 where
  value_error : AddressError

-- `s.partition(":")` without the separator.
abbrev pub in_front : ℕ → CodePoints × CodePoints → CodePoints × CodePoints
in_front c (a, b) = (c ∷ a, b)

unfoldable pub partition : ℕ → CodePoints → CodePoints × CodePoints
partition sep [] = ([], [])
partition sep (c ∷ cs) =
    let rest = partition sep cs in if c == sep then ([], cs) else in_front c rest

-- `s.rpartition("]")`, which has the whole text at the end if there is no separator.
abbrev pub last_or :
    ℕ → ℕ → CodePoints → Option (CodePoints × CodePoints) → Option (CodePoints × CodePoints)
last_or sep c cs (some (a, b)) = some (c ∷ a, b)
last_or sep c cs none = if c == sep then some ([], cs) else none

unfoldable pub split_last : ℕ → CodePoints → Option (CodePoints × CodePoints)
split_last sep [] = none
split_last sep (c ∷ cs) = last_or sep c cs (split_last sep cs)

abbrev pub or_all : CodePoints → Option (CodePoints × CodePoints) → CodePoints × CodePoints
or_all s none = ([], s)
or_all s (some ab) = ab

unfoldable pub rpartition : ℕ → CodePoints → CodePoints × CodePoints
rpartition sep s = or_all s (split_last sep s)

-- `port.lstrip(":")`
unfoldable pub lstrip : ℕ → CodePoints → CodePoints
lstrip c [] = []
lstrip c (d ∷ ds) = let rest = lstrip c ds in if d == c then rest else d ∷ ds

abbrev pub localhost : CodePoints
localhost = b'l' ∷ b'o' ∷ b'c' ∷ b'a' ∷ b'l' ∷ b'h' ∷ b'o' ∷ b's' ∷ b't' ∷ []

-- `host or default_host or "localhost"`
unfoldable pub host_or : CodePoints → Option CodePoints → CodePoints
host_or (c ∷ cs) default_host = c ∷ cs
host_or [] (some (c ∷ cs)) = c ∷ cs
host_or [] (some []) = localhost
host_or [] none = localhost

-- `port or default_port or 0`
abbrev pub default_or_zero : Option ℤ → Port
default_or_zero none = number (pos 0)
default_or_zero (some z) = number z

unfoldable pub port_or : Port → Option ℤ → Port
port_or (number (pos n)) default_port =
    if n == 0 then default_or_zero default_port else number (pos n)
port_or (number (negsuc n)) default_port = number (negsuc n)
port_or (service []) default_port = default_or_zero default_port
port_or (service (c ∷ cs)) default_port = service (c ∷ cs)

-- A port whose text is a number, or not.
abbrev pub port_as : CodePoints → Option ℤ → Port
port_as s none = service s
port_as s (some z) = number z

-- `" ".join_texts(s)`
unfoldable pub join_texts : List CodePoints → CodePoints
join_texts [] = []
join_texts (s ∷ []) = s
join_texts (s ∷ t ∷ ss) = s ++ (b' ' ∷ join_texts (t ∷ ss))

-- `split()`: the words between white space.
abbrev pub and_word : CodePoints → List CodePoints → List CodePoints
and_word [] ws = ws
and_word (c ∷ cs) ws = (c ∷ cs) ∷ ws

module _ (is_space : ℕ → Bool) where
  -- The characters of the word that ends, and the words after it.
  unfoldable pub words_from : CodePoints → CodePoints × List CodePoints
  words_from [] = ([], [])
  words_from (c ∷ cs) =
      let (w, ws) = words_from cs in if is_space c then ([], and_word w ws) else (c ∷ w, ws)

  unfoldable pub split : CodePoints → List CodePoints
  split s = let (w, ws) = words_from s in and_word w ws

module _ (int_of : CodePoints → Option ℤ) where
  -- `parse` of a text that begins with `[`, or does not.
  unfoldable pub parse_ipv6 : CodePoints → Option CodePoints → Option ℤ → Address
  parse_ipv6 s default_host default_port =
      let (host, rest) = rpartition b']' s in
      let port = lstrip b':' rest in
      ipv6 (host_or host default_host) (port_or (port_as port (int_of port)) default_port)

  unfoldable pub parse_ipv4 : CodePoints → Option CodePoints → Option ℤ → Address
  parse_ipv4 s default_host default_port =
      let (host, port) = partition b':' s in
      ipv4 (host_or host default_host) (port_or (port_as port (int_of port)) default_port)

  unfoldable pub parse : CodePoints → Option CodePoints → Option ℤ → Address
  parse [] default_host default_port = parse_ipv4 [] default_host default_port
  parse (c ∷ cs) default_host default_port =
      if c == b'['
      then parse_ipv6 cs default_host default_port
      else parse_ipv4 (c ∷ cs) default_host default_port

  unfoldable pub parse_list :
      (ℕ → Bool) → List CodePoints → Option CodePoints → Option ℤ → List Address
  parse_list is_space ss default_host default_port =
      map (λ s. parse s default_host default_port) (split is_space (join_texts ss))

  -- `port_number`: `getservbyname` raises an `OSError` for a name that it does not know, and a
  -- `TypeError` for a number.
  abbrev pub named_port : (CodePoints → Option ℤ) → CodePoints → Option ℤ → Result AddressError ℤ
  named_port number_of s (some z) = ok z
  named_port number_of s none = elim (number_of s) [ some z ↦ ok z | none ↦ err value_error ]

  unfoldable pub port_number : (CodePoints → Option ℤ) → Port → Result AddressError ℤ
  port_number getservbyname (number z) = ok z
  port_number getservbyname (service s) = named_port int_of s (getservbyname s)

-- `str` of an address.
abbrev pub port_text : (ℤ → CodePoints) → Port → CodePoints
port_text str_of (number z) = str_of z
port_text str_of (service s) = s

unfoldable pub to_text : (ℤ → CodePoints) → Address → CodePoints
to_text str_of (ipv4 host port) = host ++ (b':' ∷ port_text str_of port)
to_text str_of (ipv6 host port) = b'[' ∷ (host ++ (b']' ∷ b':' ∷ port_text str_of port))
