-- ===== src/Session.antt =====
-- internal/connectip/session/manager.go: the session object and its constructors. What closing a
-- session does is in Manager.antt, where the registry is.
pub mod Construction
pub mod Tests
use jiejie_masque_unified.Base.{
  ℕ, Bool, true, false, not, ◌&&◌, ◌||◌, Option, none, some, List, [], ◌∷◌, String, Go, ret, panics,
  ◌>>=◌, ◌==◌, string_eq, if◌then◌else◌,
}
use jiejie_masque_unified.Net.{Addr, addr_eq, zero_addr, is_valid, is4, is6, is4in6, zone}

-- A connection and a callback are known by whether they are there. What happens to them is counted:
-- the calls of Cancel, of Conn.Close and of onClose. `manager` says that the session points to the
-- registry, `closed` that closeOnce has run, `removed` is the atomic flag.
pub record Session : Type 0 where
  pub generation : ℕ
  pub client_ip : Addr
  pub client_ips : List Addr
  pub client_ipv4 : Addr
  pub client_ipv6 : Addr
  pub identity : String
  pub conn : Bool
  pub on_close : Bool
  pub manager : Bool
  pub closed : Bool
  pub removed : Bool
  pub cancels : ℕ
  pub conn_closes : ℕ
  pub callbacks : ℕ

-- The loop of OwnsAddress.
unfoldable pub among : List Addr → Addr → Bool
among [] ip = false
among (candidate ∷ ips) ip = if candidate == ip then true else among ips ip

unfoldable pub owns_address : Session → Addr → Bool
owns_address s ip = among s.client_ips ip

-- One round of the loop of NewWithAddresses.
unfoldable pub place_address : Addr → Session → Go Session
place_address address s =
    if not (is_valid address) || is4in6 address || not (zone address == "")
    then panics
    else if is4 address
    then (if is_valid s.client_ipv4 then panics else ret (record s { client_ipv4 = address }))
    else if is6 address
    then (if is_valid s.client_ipv6 then panics else ret (record s { client_ipv6 = address }))
    else panics

unfoldable pub place_addresses : List Addr → Session → Go Session
place_addresses [] s = ret s
place_addresses (address ∷ ips) s = do t ← place_address address s; place_addresses ips t

-- The composite literal of NewWithAddresses.
unfoldable pub initial : Addr → List Addr → String → Bool → Bool → Session
initial ip ips identity conn on_close = record {
  generation = 0;
  client_ip = ip;
  client_ips = ip ∷ ips;
  client_ipv4 = zero_addr;
  client_ipv6 = zero_addr;
  identity = identity;
  conn = conn;
  on_close = on_close;
  manager = false;
  closed = false;
  removed = false;
  cancels = 0;
  conn_closes = 0;
  callbacks = 0;
}

unfoldable pub new_with_addresses : List Addr → String → Bool → Bool → Go Session
new_with_addresses [] identity conn on_close = panics
new_with_addresses (ip ∷ ips) identity conn on_close =
    place_addresses (ip ∷ ips) (initial ip ips identity conn on_close)

-- NewWithContext, and New.
unfoldable pub new_session : Addr → String → Bool → Bool → Go Session
new_session ip = new_with_addresses (ip ∷ [])
