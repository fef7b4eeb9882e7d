-- ===== src/Serve/Startup.antt =====
-- cmd/jiejie-masque: main.go with check_config.go. A configuration that check-config accepts is one that
-- serve starts with.
use mathlib.Core.Option.{none-ne-some}
use jiejie_masque_unified.Base.{
  ◌≡◌, ◌≢◌, inl, inr, Option-cases, refl, ap, sym, subst, ◌∙◌, true, none, some, List, String,
  length,
}
use jiejie_masque_unified.Base.Fallible.{>>=-eq-ok, ok-injective, need, need-eq-ok}
use jiejie_masque_unified.Config.{
  Config, ConfigError, ResolvedClient, TunnelAddresses, Library, server_addresses, resolved_clients,
  Result, ok, err,
}
use jiejie_masque_unified.Config.Load.{Reader, load}
use jiejie_masque_unified.Config.Distinctness.{resolved_clients-IsResolution}
use jiejie_masque_unified.Config.Validation.{load-IsValid}
use jiejie_masque_unified.Manager.{new_manager}
use jiejie_masque_unified.Manager.Shutdown.{shut_down}
use jiejie_masque_unified.Tunnel.{Event, Kernel, Device}
use jiejie_masque_unified.Tunnel.Server.{IsWilling, open_tun-succeeds, configure_addresses-succeeds}
use jiejie_masque_unified.Serve.{
  Network, Run, Plan, plan, run_error, serve_quic, serve_packets, after_configure, after_open,
  serve_plan, serve, as_check, check_config, bad_key_pair,
}

-- The run has served, and has closed the sessions that there were.
pub record HasServed (n : Network) (clients : List ResolvedClient) (run : Run) : Type 0 where
  pub result : run.result ≡ run_error n.stop
  pub sessions : run.world ≡ some (shut_down (n.requests (new_manager (some (length clients)))))

serve_packets-HasServed :
    (n : Network) (p : Plan) (t : List Event)
    → n.listen_packet p.config.listen ≡ true
    → n.listen_quic ≡ true
    → HasServed n p.clients (serve_packets n p t)
unfolding serve_packets serve_quic
serve_packets-HasServed n p t h q = rw (h, q) (record { result = refl; sessions = refl })

module _ (l : Library) (r : Reader) (n : Network) (path : String) where
  as_check-ok : {A : Type 0} (x : Result ConfigError A) {a : A} → as_check x ≡ ok a → x ≡ ok a
  as_check-ok (ok y) h = ap ok (ok-injective y _ h)
  as_check-ok (err e) h = cc

  check_config-load :
      check_config l r n path ≡ ok tt
      → (c : Config) × (load l r path ≡ ok c) × (n.load_key_pair c.tls.cert c.tls.key ≢ none)
  unfolding check_config
  check_config-load h =
      let (c, e, h1) = >>=-eq-ok (as_check (load l r path)) _ h in
      let (chain, f, h2) =
        >>=-eq-ok (need (n.load_key_pair c.tls.cert c.tls.key) bad_key_pair) _ h1 in
      (c, as_check-ok _ e, λ missing. none-ne-some chain (sym missing ∙ need-eq-ok _ _ f))

  -- What check-config accepts, serve can plan with.
  plan-ok :
      (c : Config)
      → load l r path ≡ ok c
      → (a : TunnelAddresses) × (clients : List ResolvedClient) × (server_addresses l c ≡ ok a)
        × (resolved_clients l c ≡ ok clients)
        × (plan l r path ≡ ok (record { config = c; server = a; clients = clients }))
  unfolding plan
  plan-ok c e =
      let valid = (load-IsValid l r path c e).0 in
      let (clients, f) = valid.resolves in
      let resolution = resolved_clients-IsResolution l c clients f in
      (resolution.server, clients, resolution.serves, f, rw e (rw resolution.serves (rw f refl)))

module _ (l : Library) (r : Reader) (k : Kernel) (n : Network) (p : Plan) where
  -- The device is opened and configured.
  after_open-HasServed :
      (d : Device) (t : List Event)
      → d.name ≡ "masque0"
      → IsWilling k "masque0"
      → server_addresses l p.config ≡ ok p.server
      → n.listen_packet p.config.listen ≡ true
      → n.listen_quic ≡ true
      → HasServed n p.clients (after_open k n p (ok d, t))
  after_open-HasServed d t named w served h q =
      let (t', e) =
        configure_addresses-succeeds l p.config p.server k d t served
          (subst (IsWilling k) (sym named) w) in
      let after = serve_packets-HasServed n p t' h q in
      record {
        result = ap (λ x. (after_configure k n p x).result) e ∙ after.result;
        sessions = ap (λ x. (after_configure k n p x).world) e ∙ after.sessions;
      }

-- If check-config accepts a file, then serve with that file starts, on a kernel that refuses nothing
-- and gives the device its name, and with the two listeners; its result is the one for the way in
-- which the server stopped, and the sessions are then closed.
pub check_config-serve :
    (l : Library) (r : Reader) (k : Kernel) (n : Network) (path : String) (t : List Event)
    → check_config l r n path ≡ ok tt
    → IsWilling k "masque0"
    → k.name_given "masque0" ≡ "masque0"
    → ((address : String) → n.listen_packet address ≡ true)
    → n.listen_quic ≡ true
    → (c : Config) × (clients : List ResolvedClient) × (load l r path ≡ ok c)
      × (resolved_clients l c ≡ ok clients)
      × HasServed n clients (serve l r k n path t)
unfolding serve serve_plan
check_config-serve l r k n path t accepted w named listens q =
    let (c, e, paired) = check_config-load l r n path accepted in
    let (a, clients, served, f, planned) = plan-ok l r n path c e in
    let (d, t', g, same) = open_tun-succeeds k "masque0" w 1280 t in
    let after =
      after_open-HasServed l r k n (record { config = c; server = a; clients = clients }) d t'
        (same ∙ named) w served (listens c.listen) q in
    elim (Option-cases (n.load_key_pair c.tls.cert c.tls.key)) [
      | inl missing ↦ absurd (paired missing)
      | inr (chain, pair) ↦ (c, clients, e, f, rw (planned, pair, serve_plan) (rw g after))
    ]
