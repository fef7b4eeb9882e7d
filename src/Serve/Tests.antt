-- ===== src/Serve/Tests.antt =====
-- The server of Config/Tests.antt on the kernel of Tunnel/Tests.antt, and the theorems at it.
use jiejie_masque_unified.Base.{◌≡◌, refl, true, false, some, [], ◌∷◌}
use jiejie_masque_unified.Auth.{ecdsa}
use jiejie_masque_unified.Config.{ok}
use jiejie_masque_unified.Config.Tests.{library, reader, loads}
use jiejie_masque_unified.System.Tests.{started}
use jiejie_masque_unified.Serve.{
  Network, serve_ended, http_server_closed, is_server_closed, run_error, check_config,
}

abbrev pub network : Network
network = record {
  load_key_pair = λ cert key. some ((1 ∷ []) ∷ []);
  parse_certificate = λ der. some (ecdsa true 1 2);
  read_file = λ path. some (5 ∷ []);
  has_pem_block = λ b. true;
  listen_packet = λ address. true;
  listen_quic = true;
  requests = λ m. record started { registry = m };
  stop = serve_ended (some http_server_closed);
  shuts_down = false;
}

closed_counts_as_success : run_error (serve_ended (some http_server_closed)) ≡ ok tt
unfolding run_error is_server_closed
closed_counts_as_success = refl

pub accepts : check_config library reader network "server.yaml" ≡ ok tt
unfolding check_config
accepts = rw loads refl
