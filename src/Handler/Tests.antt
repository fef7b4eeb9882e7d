-- ===== src/Handler/Tests.antt =====
-- A request of the first client of Config/Tests.antt, and the theorem at it.
use jiejie_masque_unified.Base.{
  ◌≡◌, refl, ◌⊎◌, inl, inr, ◌↔◌, In, string_eq, true, false, some, [], ◌∷◌, ret,
}
use jiejie_masque_unified.Auth.{Crypto, Certificate, ecdsa, public_key_bytes}
use jiejie_masque_unified.Dict.{get, put, delete}
use jiejie_masque_unified.Datapath.{protocol_for_parse}
use jiejie_masque_unified.Config.{TunnelAddresses, ok}
use jiejie_masque_unified.Config.Tests.{library, config, resolved_a, resolves}
use jiejie_masque_unified.Config.Distinctness.{all_keys, resolved_clients-IsResolution}
use jiejie_masque_unified.System.Tests.{started, serving, nobody, clients}
use jiejie_masque_unified.Handler.{
  Services, Request, Answer, established, authorize, by_key, client_of, request_template, malformed,
  handle_request, verify_connection,
}
use jiejie_masque_unified.Handler.Authentication.{verify_connection_iff}
use jiejie_masque_unified.Manager.{World, close, new_manager}
use jiejie_masque_unified.System.{IsServing}
use jiejie_masque_unified.Handler.Lifetime.{Life, requested, closed, Life-IsServing}
use jiejie_masque_unified.Handler.Admission.{IsAdmission, IsRefusal, handle_request_cases}

abbrev services : Services
services = record {
  parse_url = λ u. some (record { user = false; host = "vpn.example"; hostname = "vpn.example" });
  new_template = λ t. some t;
  parse_request = λ protocol template. true;
  proxy = true;
  assign_addresses = λ prefixes. true;
  advertise_route = λ routes. true;
}

-- The keys of this library are all encoded as "a".
abbrev crypto : Crypto
crypto = record library.crypto { encode_to_string = λ b. "a" }

abbrev certificate : Certificate
certificate = record { raw_subject_public_key_info = []; public_key = ecdsa true 1 2 }

abbrev request : Request
request = record { proto = "connect-ip"; tls = some (certificate ∷ []); host = "vpn.example" }

abbrev server : TunnelAddresses
server = (resolved_clients-IsResolution library config clients resolves).server

handle_request_cases_example :
    ((a : Answer) × (handle_request crypto services server true
          (by_key clients [])
          request
          7
          started
        ≡ ret (a, started))
      × IsRefusal library config clients
          (resolved_clients-IsResolution library config clients resolves)
          started
          serving
          7
          (nobody 7)
          crypto
          services
          server
          true
          request
          a)
    ⊎ IsAdmission library config clients
        (resolved_clients-IsResolution library config clients resolves)
        started
        serving
        7
        (nobody 7)
        crypto
        request
        (handle_request crypto services server true (by_key clients []) request 7 started)
handle_request_cases_example =
    handle_request_cases library config clients
      (resolved_clients-IsResolution library config clients resolves) started serving 7 (nobody 7)
      crypto services server true request

verify_connection_iff_example :
    (verify_connection crypto (by_key clients []) (certificate ∷ []) ≡ true) ↔ (
      (cert : Certificate) × (certificate ∷ [] ≡ cert ∷ [])
      × In (public_key_bytes crypto cert) (all_keys clients))
verify_connection_iff_example = verify_connection_iff crypto clients (certificate ∷ [])

-- This request is admitted.
admitted : authorize crypto services (by_key clients []) request ≡ ok resolved_a
unfolding public_key_bytes by_key client_of authorize protocol_for_parse request_template malformed
    get put delete
admitted = refl

-- What becomes of the request.
answered :
    (a : Answer) × (w : World) × (handle_request crypto services server true
        (by_key clients [])
        request
        7
        started
      ≡ ret (a, w))
answered =
    elim (handle_request_cases library config clients
      (resolved_clients-IsResolution library config clients resolves) started serving 7 (nobody 7)
      crypto services server true request) [
        | inl (a, e, why) ↦ (a, started, e)
        | inr admission ↦ (established admission.old, admission.world, admission.answer)
      ]

-- The request, and then the closing of its session.
life : Life crypto server true clients (close 7 answered.1)
unfolding started new_manager
life = closed 7 answered.1 (
    requested services request 7 started answered.1 answered.0 (Life.started started.heap)
      (nobody 7) answered.2)

Life-IsServing_example : IsServing (close 7 answered.1) clients
Life-IsServing_example =
    Life-IsServing library config clients crypto server true (close 7 answered.1) resolves life
