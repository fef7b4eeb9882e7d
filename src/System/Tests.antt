-- ===== src/System/Tests.antt =====
-- A server with the two clients of Config/Tests.antt, and the theorems at it.
use jiejie_masque_unified.Base.{
  ℕ, ◌*◌, ◌+◌, ◌^◌, ◌≡◌, refl, inl, nat_eq, string_eq, true, false, some, List, [], ◌∷◌,
}
use jiejie_masque_unified.Net.{ip4, ip6, zero_addr}
use jiejie_masque_unified.Dict.{get}
use jiejie_masque_unified.Manager.{Heap, World, new_manager, lookup_locked, replace, ok}
use jiejie_masque_unified.Manager.Snapshot.{IsRegistered}
use jiejie_masque_unified.Manager.Invariant.{new_manager-IsConsistent}
use jiejie_masque_unified.Manager.Replacement.{TakesOver}
use jiejie_masque_unified.Config.{ResolvedClient, prefixes, addresses}
use jiejie_masque_unified.Config.Distinctness.{resolved_clients-IsResolution}
use jiejie_masque_unified.Config.Tests.{library, config, resolved_a, resolved_b, resolves}
use jiejie_masque_unified.System.{IsServing, BelongsTo, client_admitted, takeover-IsServing}

abbrev pub clients : List ResolvedClient
clients = resolved_a ∷ resolved_b ∷ []

-- Every session of this heap belongs to the first client.
abbrev sessions : Heap
sessions s = record {
  generation = 0;
  client_ip = ip4 0x0ac80002;
  client_ips = ip4 0x0ac80002 ∷ ip6 (0x2602fb91 * 2 ^ 96 + 2) "" ∷ [];
  client_ipv4 = ip4 0x0ac80002;
  client_ipv6 = ip6 (0x2602fb91 * 2 ^ 96 + 2) "";
  identity = "a";
  conn = true;
  on_close = true;
  manager = false;
  closed = false;
  removed = false;
  cancels = 0;
  conn_closes = 0;
  callbacks = 0;
}

unfoldable pub started : World
unfolding new_manager
started = record { heap = sessions; registry = new_manager (some 2) }

pub nobody : (s : ℕ) → ¬ IsRegistered started.registry s
unfolding started new_manager lookup_locked get
nobody s (ip4 x, h) = cc
nobody s (ip6 x z, h) = cc
nobody s (zero_addr, h) = cc

pub serving : IsServing started clients
unfolding started new_manager
serving = record {
  consistent = new_manager-IsConsistent sessions (some 2);
  serves = λ t p. absurd (nobody t p);
  addresses_distinct =
      (resolved_clients-IsResolution library config clients resolves).addresses_distinct;
  keys_distinct = (resolved_clients-IsResolution library config clients resolves).keys_distinct;
  limit = refl;
}

first_client : BelongsTo started 7 resolved_a
unfolding addresses prefixes started
first_client = record { named = refl; addressed = refl }

client_admitted_example :
    (old : List ℕ) × (w' : World) × (replace (some 7) started ≡ (ok old, w'))
    × TakesOver started 7 old w'
unfolding started
client_admitted_example =
    client_admitted started clients serving 7 resolved_a (inl refl) first_client (nobody 7)
      (refl, (refl, tt)) refl

took_over :
    (old : List ℕ) × (w' : World) × (replace (some 7) started ≡ (ok old, w'))
    × TakesOver started 7 old w'
unfolding started
took_over =
    client_admitted started clients serving 7 resolved_a (inl refl) first_client (nobody 7)
      (refl, (refl, tt)) refl

after : World
after = let (old, w', e, t) = took_over in w'

serving_after : IsServing after clients
unfolding after
serving_after =
    takeover-IsServing started clients serving 7 resolved_a (inl refl) first_client (nobody 7)
      took_over.0 after took_over.3
