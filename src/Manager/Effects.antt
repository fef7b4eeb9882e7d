-- ===== src/Manager/Effects.antt =====
-- internal/connectip/session/manager.go, Close: its effects on the sessions, each once.
use jiejie_masque_unified.Base.{
  ℕ, ◌+◌, ◌≡◌, true, false, not, ◌&&◌, ◌==◌, nat_eq, nat_beq_iff, beq_refl, if◌then◌else◌, arith,
}
use jiejie_masque_unified.Net.{Addr}
use jiejie_masque_unified.Session.{Session}
use jiejie_masque_unified.Manager.{
  World, lookup_locked, evict_session, remove_if_current, shut_connection, notify, close,
}
use jiejie_masque_unified.Manager.Tables.{without, evict_lookup_owned}
use jiejie_masque_unified.Manager.Install.{IsOwned, evict_addresses-max}

-- A session after its first Close.
abbrev pub closed_session : Session → Session
closed_session x = record x {
  closed = true;
  cancels = x.cancels + 1;
  conn_closes = x.conn_closes + 1;
  removed = if x.manager then true else x.removed;
  callbacks = if x.on_close then x.callbacks + 1 else x.callbacks;
}

-- A session after any Close.
abbrev pub shut_session : Session → Session
shut_session x = if x.closed then x else closed_session x

module _ (s : ℕ) (w : World) where
  -- Close of an open session cancels its context and closes its connection once, calls back once if
  -- it has a callback, and marks it removed if it has been registered. Close of a closed session
  -- changes no session, and no other session is touched.
  pub close_heap :
      (t : ℕ) → (close s w).heap t ≡ (if s == t then shut_session (w.heap s) else w.heap t)
  unfolding close notify remove_if_current evict_session shut_connection
  close_heap t = ground (arith, nat_beq_iff s t)

  close-closed : ((close s w).heap s).closed ≡ true
  close-closed = rw (close_heap s) (ground (arith, beq_refl s))

  -- If every entry of the tables is an address of its session, then Close of an open session that has
  -- been registered and is not marked removed takes all of its entries out and changes no other
  -- lookup; every other Close changes no lookup.
  pub close_lookup :
      (j : Addr)
      → IsOwned w.heap w.registry
      → lookup_locked j (close s w).registry ≡ (
          if not (w.heap s).closed && (w.heap s).manager && not (w.heap s).removed
          then without s (lookup_locked j w.registry)
          else lookup_locked j w.registry)
  unfolding close notify remove_if_current evict_session shut_connection
  close_lookup j o =
      ground
        (arith, beq_refl s, evict_lookup_owned s (w.heap s).client_ips false w.registry j (o j s))

pub close-max : (s : ℕ) (w : World) → (close s w).registry.max_sessions ≡ w.registry.max_sessions
unfolding close notify remove_if_current evict_session shut_connection
close-max s w =
    ground (arith, beq_refl s, evict_addresses-max s (w.heap s).client_ips false w.registry)

-- A second Close changes nothing.
pub close-close : (s : ℕ) (w : World) → close s (close s w) ≡ close s w
close-close s w = again (close s w) (close-closed s w)
  where
    again : (v : World) → (v.heap s).closed ≡ true → close s v ≡ v
    again v e = unfold close in rw e
