-- ===== src/Manager/Tests.antt =====
-- A registry with the sessions of internal/connectip/session/manager_test.go, and the theorems at it.
use jiejie_masque_unified.Base.{
  inl, inr, ℕ, ◌≡◌, refl, ◌⊎◌, ◌↔◌, true, false, none, some, List, [], ◌∷◌, In, String, nat_eq,
  nat_beq_iff, arith,
}
use jiejie_masque_unified.Net.{Addr, ip4, ip6}
use jiejie_masque_unified.Dict.{get, put, delete}
use jiejie_masque_unified.Session.{Session, among}
use jiejie_masque_unified.Manager.{
  Heap, World, update, new_manager, lookup_locked, map_address_locked, unmap_address, add_unseen,
  collect, snapshot_locked, count_locked, lookup, len, snapshot, evict_addresses, evict_all,
  map_all, same_identity, claim_address, claim_addresses, at_capacity, install, register,
  evict_session, remove_if_current, shut_connection, notify, close, close_all, replace, ok, err,
  ReplaceError, owned, exhausted,
}
use jiejie_masque_unified.Manager.Snapshot.{IsRegistered, snapshot_locked_iff}
use jiejie_masque_unified.Manager.Invariant.{
  IsConsistent, new_manager-IsConsistent, register-IsConsistent,
}
use jiejie_masque_unified.Manager.Closing.{close-IsConsistent}
use jiejie_masque_unified.Manager.Effects.{shut_session, close_heap, close_lookup, close-close}
use jiejie_masque_unified.Manager.Shutdown.{shut_down, IsLive, shut_down-empty}
use jiejie_masque_unified.Manager.Reach.{
  Phase, running, shut, marked, evicted, State, registers, shuts, marks, evicts, Reach, here, next,
  start, enter, mark_removed, IsCounted, IsSound, Reach-IsSound, Reach-close,
}
use jiejie_masque_unified.Manager.Replacement.{Refused, TakesOver, replace_cases}

program : Unit {0}
unfolding get put delete among new_manager lookup_locked map_address_locked unmap_address add_unseen
    collect snapshot_locked count_locked lookup len snapshot evict_addresses evict_all map_all
    same_identity claim_address claim_addresses at_capacity install register evict_session
    remove_if_current shut_connection notify close close_all replace
program = tt

abbrev v4 : Addr
v4 = ip4 0x0a140002

abbrev v6 : Addr
v6 = ip6 0x20010db8000100000000000000000002 ""

abbrev session_of : List Addr → String → Session
session_of ips identity = record {
  generation = 0;
  client_ip = v4;
  client_ips = ips;
  client_ipv4 = v4;
  client_ipv6 = v6;
  identity = identity;
  conn = true;
  on_close = true;
  manager = false;
  closed = false;
  removed = false;
  cancels = 0;
  conn_closes = 0;
  callbacks = 0;
}

-- Session 1 and 2 are of client-a, 3 and 4 of two others.
abbrev sessions : Heap
sessions =
    update
      (update
        (update (λ _. session_of (ip4 9 ∷ []) "client-c") 1 (session_of (v4 ∷ v6 ∷ []) "client-a"))
        2 (session_of (v4 ∷ v6 ∷ []) "client-a"))
      3 (session_of (v4 ∷ []) "client-b")

abbrev empty : World
unfolding new_manager
empty = record { heap = sessions; registry = new_manager (some 1) }

abbrev pub first : World
unfolding program
first = install 1 [] empty

abbrev second : World
unfolding program
second = (replace (some 2) first).1

found_first : (lookup v4 first ≡ some 1) × (lookup v6 first ≡ some 1)
unfolding program
found_first = (refl, refl)

takeover :
    ((replace (some 2) first).0 ≡ ok (1 ∷ []))
    × (lookup v4 second ≡ some 2)
    × (lookup v6 second ≡ some 2)
    × (len second ≡ 1)
    × ((second.heap 1).conn_closes ≡ 1)
unfolding program
takeover = (refl, refl, refl, refl, refl)

foreign : replace (some 3) first ≡ (err (owned v4), first)
unfolding program
foreign = refl

full : replace (some 4) first ≡ (err exhausted, first)
unfolding program
full = refl

empty-IsConsistent : IsConsistent empty
unfolding new_manager
empty-IsConsistent = new_manager-IsConsistent sessions (some 1)

register-IsConsistent_example : IsConsistent first
unfolding program
register-IsConsistent_example =
    register-IsConsistent empty 1 empty-IsConsistent (refl, (refl, tt)) [] first refl

replace_cases_example :
    ((old : List ℕ) × (w' : World) × (replace (some 2) first ≡ (ok old, w'))
      × TakesOver first 2 old w')
    ⊎ ((e : ReplaceError) × (replace (some 2) first ≡ (err e, first)) × Refused first 2 e)
unfolding program
replace_cases_example =
    replace_cases first 2
      (register-IsConsistent empty 1 empty-IsConsistent (refl, (refl, tt)) [] first refl)
      (refl, (refl, tt)) refl

pub first-IsConsistent : IsConsistent first
unfolding program
first-IsConsistent =
    register-IsConsistent empty 1 empty-IsConsistent (refl, (refl, tt)) [] first refl

close_heap_example : (close 1 first).heap 1 ≡ shut_session (first.heap 1)
close_heap_example = close_heap 1 first 1

close_lookup_example : lookup_locked v6 (close 1 first).registry ≡ none
unfolding program
close_lookup_example = close_lookup 1 first v6 first-IsConsistent.owned_by

closing_twice : close 1 (close 1 first) ≡ close 1 first
closing_twice = close-close 1 first

kept_by_close : IsConsistent (close 1 first)
kept_by_close = close-IsConsistent 1 first first-IsConsistent

snapshot_locked_iff_example : In 1 (snapshot_locked first.registry) ↔ IsRegistered first.registry 1
snapshot_locked_iff_example = snapshot_locked_iff first.registry 1 first-IsConsistent.tables

-- Session 1 is registered, then session 2 while session 1 is being closed.
registered_1 : State
registered_1 = record { world = first; phase = λ t. running }

shut_1 : State
shut_1 = record { world = shut_connection 1 first; phase = enter 1 shut (λ t. running) }

registered_2 : State
unfolding shut_1
registered_2 = record shut_1 { world = install 2 (1 ∷ []) shut_1.world }

marked_1 : State
unfolding registered_2
marked_1 = record {
  world = mark_removed 1 registered_2.world;
  phase = enter 1 marked registered_2.phase;
}

evicted_1 : State
unfolding marked_1
evicted_1 = record {
  world = (evict_session 1 marked_1.world).0;
  phase = enter 1 evicted marked_1.phase;
}

interleaved : Reach (start sessions (some 1)) evicted_1
unfolding program registered_1 shut_1 registered_2 marked_1 evicted_1
interleaved =
    next
      (next
        (next
          (next (next here (registers _ 1 [] first (refl, (refl, tt)) refl))
            (shuts registered_1 1 refl))
          (registers shut_1 2 (1 ∷ []) registered_2.world (refl, (refl, tt)) refl))
        (marks registered_2 1 refl refl))
      (evicts marked_1 1 refl)

not_begun : (t : ℕ) → IsCounted running (sessions t)
not_begun t = ground (arith, nat_beq_iff 1 t, nat_beq_iff 2 t, nat_beq_iff 3 t)

Reach-IsSound_example : IsSound evicted_1
Reach-IsSound_example = Reach-IsSound sessions (some 1) evicted_1 not_begun interleaved

-- The one that came second keeps the addresses.
kept_by_2 : lookup v4 evicted_1.world ≡ some 2
unfolding program evicted_1 marked_1 registered_2 shut_1
kept_by_2 = refl

close_as_steps :
    (phase : ℕ → Phase) × Reach
      (record { world = first; phase = λ t. running })
      (record { world = close 1 first; phase = phase })
unfolding program
close_as_steps = Reach-close (record { world = first; phase = λ t. running }) 1 refl refl

first-IsLive : (t : ℕ) → IsRegistered first.registry t → IsLive (first.heap t)
unfolding program
first-IsLive t p = among_one ((snapshot_locked_iff first.registry t first-IsConsistent.tables).1 p)
  where
    among_one : In t (snapshot_locked first.registry) → IsLive (first.heap t)
    among_one (inl e) = rw e (refl, refl, refl)
    among_one (inr q) = elim q [ ]

shut_down-empty_example :
    ((j : Addr) → lookup j (shut_down first) ≡ none)
    × ((t : ℕ)
        → IsRegistered first.registry t
        → (shut_down first).heap t ≡ shut_session (first.heap t))
    × ((t : ℕ) → (¬ IsRegistered first.registry t) → (shut_down first).heap t ≡ first.heap t)
shut_down-empty_example = shut_down-empty first first-IsConsistent first-IsLive
