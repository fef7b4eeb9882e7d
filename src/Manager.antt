-- ===== src/Manager.antt =====
-- internal/connectip/session/manager.go: the registry of sessions, and closing a session. A session
-- is named by a number, its pointer, and lives in a heap. The code under the lock is one function.
pub mod Tables
pub mod Snapshot
pub mod Invariant
pub mod Takeover
pub mod Install
pub mod Replacement
pub mod Closing
pub mod Effects
pub mod Reach
pub mod Shutdown
pub mod Tests
use jiejie_masque_unified.Base.{
  ℕ, suc, ◌+◌, ◌%◌, ◌^◌, Bool, true, false, not, ◌&&◌, ◌||◌, Option, none, some, List, [], ◌∷◌,
  String, length, ◌==◌, nat_eq, string_eq, ltb, leb, if◌then◌else◌,
}
pub use jiejie_masque_unified.Base.Fallible.{Result, ok, err, ◌>>=◌}
use jiejie_masque_unified.Net.{Addr, addr_eq, is4, is6}
use jiejie_masque_unified.Dict.{Dict, get, put, delete}
use jiejie_masque_unified.Session.{Session}

pub record Manager : Type 0 where
  pub sessions4 : Dict Addr ℕ
  pub sessions6 : Dict Addr ℕ
  pub max_sessions : ℕ
  pub next_generation : ℕ

abbrev pub Heap : Type 0
Heap = ℕ → Session

pub record World : Type 0 where
  pub heap : Heap
  pub registry : Manager

abbrev pub update : Heap → ℕ → Session → Heap
update h p s q = if p == q then s else h q

unfoldable pub new_manager : Option ℕ → Manager
new_manager limit = record {
  sessions4 = [];
  sessions6 = [];
  max_sessions = elim limit [ none ↦ 0 | some n ↦ n ];
  next_generation = 0;
}

unfoldable pub lookup_locked : Addr → Manager → Option ℕ
lookup_locked ip m =
    if is4 ip then get ip m.sessions4 else if is6 ip then get ip m.sessions6 else none

unfoldable pub map_address_locked : Addr → ℕ → Manager → Manager
map_address_locked ip s m =
    if is4 ip
    then record m { sessions4 = put ip s m.sessions4 }
    else record m { sessions6 = put ip s m.sessions6 }

-- `delete` in the table of the address's family.
unfoldable pub unmap_address : Addr → Manager → Manager
unmap_address ip m =
    if is4 ip
    then record m { sessions4 = delete ip m.sessions4 }
    else record m { sessions6 = delete ip m.sessions6 }

abbrev pub member : ℕ → List ℕ → Bool
member s [] = false
member s (x ∷ xs) = if x == s then true else member s xs

-- Insertion into a set, in order of first insertion.
unfoldable pub add_unseen : ℕ → List ℕ → List ℕ
add_unseen s [] = s ∷ []
add_unseen s (x ∷ xs) = if x == s then x ∷ xs else x ∷ add_unseen s xs

-- The sessions of a table that are not in the set are added to it.
unfoldable pub collect : List ℕ → Dict Addr ℕ → List ℕ
collect seen [] = seen
collect seen ((ip, s) ∷ table) = collect (add_unseen s seen) table

unfoldable pub snapshot_locked : Manager → List ℕ
snapshot_locked m = collect (collect [] m.sessions4) m.sessions6

unfoldable pub count_locked : Manager → ℕ
unfolding snapshot_locked
count_locked m = length (collect (collect [] m.sessions4) m.sessions6)

unfoldable pub lookup : Addr → World → Option ℕ
lookup ip w = lookup_locked ip w.registry

unfoldable pub len : World → ℕ
len w = count_locked w.registry

unfoldable pub snapshot : World → List ℕ
snapshot w = collect (collect [] w.registry.sessions4) w.registry.sessions6

-- The loop that takes a session's own entries out of the tables, in Replace and RemoveIfCurrent;
-- the flag says that one was there.
unfoldable pub evict_addresses : ℕ → List Addr → Bool → Manager → Manager × Bool
evict_addresses s [] removed m = (m, removed)
evict_addresses s (ip ∷ ips) removed m = elim (lookup_locked ip m) [
  | none ↦ evict_addresses s ips removed m
  | some t ↦ elim (t == s) [
    | true ↦ evict_addresses s ips true (unmap_address ip m)
    | false ↦ evict_addresses s ips removed m
  ]
]

unfoldable pub evict_all : Heap → List ℕ → Manager → Manager
evict_all h [] m = m
evict_all h (old ∷ olds) m = evict_all h olds (evict_addresses old (h old).client_ips false m).0

unfoldable pub map_all : ℕ → List Addr → Manager → Manager
map_all s [] m = m
map_all s (ip ∷ ips) m = map_all s ips (map_address_locked ip s m)

pub data ReplaceError : Type 0 where
  missing : ReplaceError
  owned : Addr → ReplaceError
  exhausted : ReplaceError

-- The first loop of Replace: the other sessions of the same identity.
unfoldable pub same_identity : Heap → ℕ → List ℕ → List ℕ → List ℕ
same_identity h s [] old = old
same_identity h s (current ∷ rest) old = same_identity h s rest (
    if not (current == s) && (h current).identity == (h s).identity
    then add_unseen current old
    else old)

-- One round of the second loop: a present owner is taken over, if the identity is its own.
unfoldable pub claim_address : Heap → Manager → ℕ → Addr → List ℕ → Result ReplaceError (List ℕ)
claim_address h m s ip old = elim (lookup_locked ip m) [
  | none ↦ ok old
  | some current ↦
      if current == s
      then ok old
      else if not ((h current).identity == (h s).identity)
      then err (owned ip)
      else ok (add_unseen current old)
]

unfoldable pub claim_addresses :
    Heap → Manager → ℕ → List Addr → List ℕ → Result ReplaceError (List ℕ)
claim_addresses h m s [] old = ok old
claim_addresses h m s (ip ∷ ips) old = do
  old' ← claim_address h m s ip old
  claim_addresses h m s ips old'

-- The capacity test, with the subtraction of the replaced sessions on the other side.
unfoldable pub at_capacity : Manager → List ℕ → Bool
at_capacity m old = ltb 0 m.max_sessions && leb (m.max_sessions + length old) (count_locked m)

-- The writes of Replace.
unfoldable pub install : ℕ → List ℕ → World → World
install s old w =
    let m = evict_all w.heap old w.registry in
    let generation = (m.next_generation + 1) % 2 ^ 64 in
    record {
      heap = update w.heap s (record (w.heap s) { generation = generation; manager = true });
      registry = map_all s (w.heap s).client_ips (record m { next_generation = generation });
    }

-- The part of Replace under the lock: the replaced sessions, and the new world.
unfoldable pub register : ℕ → World → Result ReplaceError (List ℕ × World)
register s w = do
  old ←
      claim_addresses w.heap w.registry s (w.heap s).client_ips
        (same_identity w.heap s (snapshot_locked w.registry) [])
  if at_capacity w.registry old then err exhausted else ok (old, install s old w)

-- RemoveIfCurrent under the lock.
unfoldable pub evict_session : ℕ → World → World × Bool
evict_session s w =
    let (m, removed) = evict_addresses s (w.heap s).client_ips false w.registry in
    (record w { registry = m }, removed)

unfoldable pub remove_if_current : Option ℕ → World → World × Bool
remove_if_current none w = (w, false)
remove_if_current (some s) w =
    if (w.heap s).removed
    then (w, false)
    else evict_session s
        (record w { heap = update w.heap s (record (w.heap s) { removed = true }) })

-- The parts of Close: Cancel and Conn.Close, and the callback.
unfoldable pub shut_connection : ℕ → World → World
shut_connection s w = record w {
  heap = update w.heap s (record (w.heap s) {
    closed = true;
    cancels = (w.heap s).cancels + 1;
    conn_closes = (w.heap s).conn_closes + 1;
  });
}

unfoldable pub notify : ℕ → World → World
notify s w =
    if (w.heap s).on_close
    then record w {
      heap = update w.heap s (record (w.heap s) { callbacks = (w.heap s).callbacks + 1 });
    }
    else w

-- Close of a session that has a connection.
unfoldable pub close : ℕ → World → World
close s w =
    if (w.heap s).closed
    then w
    else (let shut = shut_connection s w in
        notify s (if (shut.heap s).manager then (remove_if_current (some s) shut).0 else shut))

unfoldable pub close_all : List ℕ → World → World
close_all [] w = w
close_all (s ∷ rest) w = close_all rest (close s w)

-- Replace: the result, and the world after it. A failure changes nothing.
unfoldable pub replace : Option ℕ → World → Result ReplaceError (List ℕ) × World
replace none w = (err missing, w)
replace (some s) w =
    if not (w.heap s).conn
    then (err missing, w)
    else elim (register s w) [ err e ↦ (err e, w) | ok (old, v) ↦ (ok old, close_all old v) ]
