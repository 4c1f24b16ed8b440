-- ===== src/Tests/Proxy/Http.antt =====
-- A share that is sent over HTTP.
use btcpool.Common.{◌≡◌, refl, true, false, none, [], ◌∷◌}
use btcpool.Common.Int.{pos}
use btcpool.Common.Bytes.{codes, string_in_slice}
use btcpool.Policy.{find, is_banned, apply_login_policy}
use btcpool.Proxy.Work.{Packages, set_bytes, target_hex_to_diff}
use btcpool.Proxy.Session.{nonce_pattern, handle_submit_rpc}
use btcpool.Proxy.Http.{
  Request, texts, remote_addr, http_session, submit_work, on_method, handle_message,
  handle_documents, handle_client, serve_http,
}
use btcpool.Proxy.Http.Idle.{serve_http-idle}
use btcpool.Tests.Policy
use btcpool.Tests.Shares.{prefix, server}
use btcpool.Tests.Proxy.{packages, accepts, shares}
use btcpool.Tests.Proxy.Submit.{pool}
use btcpool.Tests.Proxy.Stratum.{surroundings}

abbrev byte_packages : Packages
byte_packages = record packages { from_hex = λ s. s }

abbrev request : Request
request = record {
  method = codes "POST";
  content_length = pos 200;
  login = codes "alice";
  documents = record { has_id = true; method = codes "eth_submitWork"; params = texts shares } ∷ [];
  malformed = false;
  forwarded_for = codes "10.0.0.9";
  remote_addr = codes "10.0.0.7:5555";
}

-- Only a proxy's header is trusted.
address :
    (remote_addr false (λ s. true) (λ s. codes "10.0.0.7") request ≡ codes "10.0.0.7")
    × (remote_addr true (λ s. true) (λ s. codes "10.0.0.7") request ≡ codes "10.0.0.9")
unfolding remote_addr
address = (refl, refl)

-- The submission ends in the division by zero.
panics :
    (serve_http Policy.config
      (λ i v. false)
      byte_packages
      server
      prefix
      accepts
      (λ login. true)
      surroundings
      (pos 1024)
      request
      (codes "10.0.0.7")
      pool).0
    ≡ none
unfolding serve_http handle_client handle_documents handle_message on_method submit_work
    handle_submit_rpc is_banned apply_login_policy find string_in_slice http_session nonce_pattern
    target_hex_to_diff set_bytes
panics = refl

serve_http-idle_example :
    (serve_http Policy.config
      (λ i v. false)
      byte_packages
      server
      prefix
      accepts
      (λ login. true)
      surroundings
      (pos 1024)
      request
      (codes "10.0.0.7")
      pool).1.world
    ≡ pool.world
serve_http-idle_example =
    serve_http-idle Policy.config (λ i v. false) byte_packages server prefix accepts (λ login. true)
      refl surroundings (pos 1024) request (codes "10.0.0.7") pool
