-- ===== src/Tests/Native.antt =====
-- The native server at concrete inputs: a network that answers from a script.
use nft_gate.Base.{
  ℕ, suc, ◌+◌, ◌≤◌, ◌≡◌, ◌⊎◌, refl, true, false, none, some, List, [], ◌∷◌, arith, ltb,
  if◌then◌else◌, length,
}
use nft_gate.Text.{Text, codes, text_eq}
use nft_gate.Config.{GatewayConfig, AuthHeader}
use nft_gate.Text.Split.{map_text}
use nft_gate.Forward.{preflight, declared_too_large, parse_u64, is_redirect}
use nft_gate.Headers.{
  via_token, drop_request_header, drop_response_header, connection_named, is_safe_path,
  cors_allowed_origin,
}
use nft_gate.Grpc.Wire.{Bytes}
use nft_gate.Grpc.Frames.{Fault, frame}
use nft_gate.Chain.Client.{Cache}
use nft_gate.Gateway.{JsonReply, Reply, upstream, handle, redeem_and_forward}
use nft_gate.Ports.{Result, Exit, pass}
use nft_gate.Native.Headers.{
  join_comma, named_by_connection, remove_all, retain, upstream_request_headers,
  client_response_headers, joined,
}
use nft_gate.Native.HttpClient.{
  HttpRequest, HttpResponse, Stack, IsBounded, insert_auth, insert_auths, append_all, exchange,
  send, post_grpc_web, proxy_request,
}
use nft_gate.Native.HttpClient
use nft_gate.Native.Proxy.{
  Request, Response, relayed, refused, status_of, answered, relay, read_and_relay,
}
use nft_gate.Native.Proxy
use nft_gate.Native.Proxy.Sent.{get_all-proxy_request}
use nft_gate.Native.Proxy.Relayed.{IsRelayed, forward-IsRelayed}
use nft_gate.Native.Clock.{now_ms}
use nft_gate.Native.Redis.{nonce_key}
use nft_gate.Native.State.{
  NonceStore, in_memory, redis, Server, Ambient, issue_nonce, take_nonce, rate_check,
  try_lease_redemption, commit_redemption, release_redemption,
}
use nft_gate.Native.Router.{
  HttpReply, no_body, insert_grants, cors_headers, cors, render, into_reply, status_code,
}
use nft_gate.Native.Router.Cors.{Reflects, kept, cors-fields}
use nft_gate.Native.Wiring.{native_ports, handle_request}
use nft_gate.Native.Wiring.Granted.{IsGranted, handle-IsGranted}
use nft_gate.Native.Wiring.Once.{IsRefused, redeem_once_shared}
use nft_gate.Tests.Requests.{requests, crates, config, consume, upload, start_rates}
use nft_gate.Tests.Chain.{chains, gate, gate_object, owned_page}
use nft_gate.Tests.Redis.{Db, put, server, server-IsRedis, redis_calls, turn}
use nft_gate.Tests.HeaderMap.{Pairs, list_map, list_map-IsHeaderMap}

natives : Unit {0}
unfolding list_map join_comma named_by_connection remove_all retain upstream_request_headers
    client_response_headers joined insert_auth insert_auths append_all exchange send post_grpc_web
    proxy_request HttpClient.forward answered relay read_and_relay Proxy.forward now_ms issue_nonce
    take_nonce rate_check try_lease_redemption commit_redemption release_redemption insert_grants
    cors_headers cors render into_reply status_code drop_request_header drop_response_header
    connection_named map_text preflight is_safe_path declared_too_large parse_u64 is_redirect
    cors_allowed_origin handle_request
natives = tt

-- The answers that are left, and the clock.
record Script : Type 0 where
  answers : List (HttpResponse Pairs Bytes)
  clock : ℕ

abbrev Net : Type 0
Net = Cache × Script

abbrev first_of : List (HttpResponse Pairs Bytes) → Result (HttpResponse Pairs Bytes)
first_of [] = Result.err (codes "no route")
first_of (a ∷ rest) = Result.ok a

abbrev others_of : List (HttpResponse Pairs Bytes) → List (HttpResponse Pairs Bytes)
others_of [] = []
others_of (a ∷ rest) = rest

abbrev up_to : ℕ → Bytes → Result Bytes
up_to max b = if ltb max (length b) then Result.err (codes "length limit exceeded") else Result.ok b

abbrev stack : Stack Pairs Bytes Net
stack = record {
  is_uri = λ u. true;
  request = λ req s.
      (first_of s.1.answers, (s.0, record { answers = others_of s.1.answers; clock = s.1.clock }));
  collect = λ max b s. (up_to max b, s);
  to_bytes = λ max b s. (up_to max b, s);
  cancelled = λ ms s s'. none;
  sleep_ms = λ ms s. (s.0, record { answers = s.1.answers; clock = s.1.clock + ms });
  wall_ms = λ s. (s.1.clock, s);
}

up_to-length :
    (max : ℕ) (b : Bytes) {bytes : Bytes} → up_to max b ≡ Result.ok bytes → length bytes ≤ max
up_to-length max b h = ground arith

stack-IsBounded : IsBounded stack
stack-IsBounded = record {
  length-collect = λ max b s. up_to-length max b;
  length-to_bytes = λ max b s. up_to-length max b;
}

abbrev rpc_answer : Bytes → HttpResponse Pairs Bytes
rpc_answer message = record {
  status = 200;
  headers = (codes "grpc-status", codes "0") ∷ [];
  body = frame message;
}

abbrev stored : HttpResponse Pairs Bytes
stored = record {
  status = 201;
  headers = (codes "set-cookie", codes "a=b") ∷ (codes "x-relay", codes "kept") ∷ [];
  body = codes "ok";
}

abbrev kept_of : HttpResponse Pairs Bytes
kept_of = record { status = 201; headers = (codes "x-relay", codes "kept") ∷ []; body = codes "ok" }

abbrev network : List (HttpResponse Pairs Bytes) → Net
network answers = ([], record { answers = answers; clock = 6000 })

abbrev sent_fields : Pairs
sent_fields =
    (codes "connection", codes "x-hop")
    ∷ (codes "x-hop", codes "1")
    ∷ (codes "authorization", codes "Bearer TOKEN")
    ∷ (codes "via", codes "1.1 other")
    ∷ (codes "x-keep", codes "yes")
    ∷ []

abbrev posted : Request Pairs Bytes
posted = record {
  method = codes "POST";
  path = codes "/files";
  path_and_query = some (codes "/files?a=1");
  headers = sent_fields;
  body = codes "body";
}

abbrev fields_of : Result (HttpRequest Pairs) → Pairs
fields_of (Result.ok r) = r.headers
fields_of (Result.err e) = []

native_tests :
    (upstream_request_headers list_map sent_fields
      ≡ (codes "x-keep", codes "yes") ∷ (codes "via", via_token) ∷ [])
    × (Proxy.forward list_map stack config posted (network (stored ∷ []))
        ≡ (relayed kept_of, network []))
    × (status_of
          (Proxy.forward list_map stack config posted
            (network (record stored { status = 302 } ∷ []))).0
        ≡ 502)
    × (status_of (Proxy.forward list_map stack config posted (network [])).0 ≡ 502)
    × (joined list_map sent_fields (codes "via") ≡ some (codes "1.1 other"))
unfolding requests natives
native_tests = (refl, refl, refl, refl, refl)

forward-IsRelayed_example :
    IsRelayed list_map stack stack-IsBounded config posted kept_of
      (network (stored ∷ []))
      (network [])
unfolding requests natives
forward-IsRelayed_example =
    forward-IsRelayed list_map stack stack-IsBounded config posted (network (stored ∷ [])) kept_of
      (network []) refl

abbrev credentials : List AuthHeader
credentials = record { name = codes "x-keep"; value = codes "secret" } ∷ []

abbrev proxied : HttpRequest Pairs
proxied = record {
  method = codes "POST";
  uri = codes "https://up.example/files";
  headers = (codes "via", via_token) ∷ (codes "x-keep", codes "secret") ∷ [];
  body = [];
}

get_all-proxy_request_example :
    (x : Text) × (some (codes "secret") ≡ some x)
    × ◌≡◌ {A = List Text} (codes "secret" ∷ []) (x ∷ [])
unfolding requests natives
get_all-proxy_request_example =
    get_all-proxy_request list_map list_map-IsHeaderMap stack (codes "x-keep") (codes "POST")
      (codes "https://up.example/files") sent_fields [] credentials {req = proxied} refl

abbrev cors_origins : List Text
cors_origins = codes "https://app.example" ∷ []

abbrev from_app : Pairs
from_app = (codes "origin", codes "https://app.example") ∷ []

abbrev inner : ℕ → HttpReply Pairs × ℕ
inner n = (
  record {
    status = 200;
    headers = (codes "access-control-allow-origin", codes "*") ∷ [];
    body = no_body;
  },
  suc n,
)

cors_tests :
    (list_map.get_all
        (codes "access-control-allow-origin")
        (cors list_map cors_origins (codes "GET") from_app inner 0).0.headers
      ≡ codes "https://app.example" ∷ [])
    × (list_map.get_all
          (codes "access-control-allow-origin")
          (cors list_map cors_origins (codes "GET") [] inner 0).0.headers
        ≡ [])
    × ((cors list_map cors_origins (codes "OPTIONS") from_app inner 0).1 ≡ 0)
unfolding requests natives
cors_tests = (refl, refl, refl)

cors-fields_example :
    let sent = (cors list_map cors_origins (codes "GET") from_app inner 0).0.headers in
    Reflects list_map list_map-IsHeaderMap cors_origins from_app
      (list_map.get_all (codes "access-control-allow-origin") sent)
    × ((text_eq (codes "access-control-allow-origin") (codes "vary") ≡ true)
        ⊎ (list_map.get_all (codes "vary") sent
            ≡ kept list_map list_map-IsHeaderMap (codes "vary") []))
unfolding requests natives
cors-fields_example =
    cors-fields list_map list_map-IsHeaderMap cors_origins (codes "GET") from_app inner 0
      (codes "vary")

abbrev gated : GatewayConfig
gated = record config { single_use = false; gate_id = gate }

abbrev ambient : Ambient
ambient = record {
  store_clock = record { wall_at_start = 1000 };
  store_elapsed = λ n. n;
  rates_clock = record { wall_at_start = 1000 };
  rates_elapsed = λ n. n;
  random = λ n. n ∷ [];
  store_meanwhile = λ n s. s;
  rates_meanwhile = λ n s. s;
  turn = turn;
}

abbrev message : Fault → Text
message e = codes "chain"

-- A server that issued the nonce of the proof.
abbrev ready : List (HttpResponse Pairs Bytes) → Server Db Net
ready answers = record {
  store = redis (record {
    db = put (nonce_key (codes "n1")) (some (codes "1", 9000)) (λ k. none);
    calls = 5;
  });
  rates = start_rates;
  ticks = 0;
  net = network answers;
}

abbrev visited : Reply (Response Pairs) × Server Db Net
visited =
    handle crates (native_ports crates list_map stack server ambient message gated posted) gated
      upload (ready (rpc_answer gate_object ∷ rpc_answer owned_page ∷ stored ∷ []))

visited_ok : visited ≡ (upstream (relayed kept_of), visited.1)
unfolding requests chains redis_calls natives
visited_ok = refl

handle-IsGranted_example :
    IsGranted crates list_map stack server ambient message gated upload posted
      (relayed kept_of)
      (ready (rpc_answer gate_object ∷ rpc_answer owned_page ∷ stored ∷ []))
      visited.1
unfolding requests
handle-IsGranted_example =
    handle-IsGranted crates list_map stack server ambient message gated upload posted
      (ready (rpc_answer gate_object ∷ rpc_answer owned_page ∷ stored ∷ [])) visited.1
      (relayed kept_of) refl visited_ok

-- An upload that spends a consume, and one for the same consume on another server.
abbrev spent : Exit JsonReply (Response Pairs) × Server Db Net
spent =
    redeem_and_forward crates
      (native_ports crates list_map stack server ambient message config posted) config consume
      (ready (stored ∷ []))

spent_ok : spent ≡ (pass (relayed kept_of), spent.1)
unfolding requests chains redis_calls natives
spent_ok = refl

abbrev db_after : NonceStore Db → Db
db_after (in_memory m) = λ k. none
db_after (redis w) = w.db

abbrev other_server : Server Db Net
other_server = record {
  store = redis (record { db = db_after spent.1.store; calls = 40 });
  rates = start_rates;
  ticks = 9;
  net = network [];
}

redeem_once_shared_example :
    IsRefused crates list_map stack server server-IsRedis ambient message config
      (redeem_and_forward crates
        (native_ports crates list_map stack server ambient message config posted)
        config
        consume
        other_server).0
      40
unfolding requests chains redis_calls natives
redeem_once_shared_example =
    redeem_once_shared crates list_map stack server server-IsRedis ambient message config consume
      posted posted (ready (stored ∷ [])) spent.1 other_server
      (record { db = put (nonce_key (codes "n1")) (some (codes "1", 9000)) (λ k. none); calls = 5 })
      (record { db = db_after spent.1.store; calls = 40 }) (relayed kept_of) refl (omega arith)
      spent_ok refl refl refl (omega arith) (omega arith)
