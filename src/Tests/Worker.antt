-- ===== src/Tests/Worker.antt =====
-- The worker's routing and its Durable Object at concrete inputs.
use nft_gate.Base.{ℕ, ◌+◌, ◌*◌, ◌≡◌, refl, true, false, none, some, List, [], ◌∷◌, arith}
use nft_gate.Text.{codes, text_eq}
use nft_gate.Text.Split.{split_once}
use nft_gate.Assoc.{lookup, insert, remove, retain, min_by_key}
use nft_gate.State.{RateScope}
use nft_gate.Redemption.Leases
use nft_gate.Redemption.Leases.{Lease, Commit, evict_lease, grant, lease_live, try_lease}
use nft_gate.Redemption.Leases.History.{Call, leases, commits, releases}
use nft_gate.Worker.Region.{shard_of_nonce, region_of, issued_nonce, rate_key, instance_name}
use nft_gate.Worker.Durable.Oldest.{min_by_key-none, min_by_key-IsFirst}
use nft_gate.Worker.Durable.{
  Sql, IsSql, RowState, Redemptions, drop_lapsed, evict_leased, lease_rows, lease, live_leases,
  set_committed, commit, release,
}
use nft_gate.Worker.Durable.Rows.{rows_of}
use nft_gate.Worker.Durable.Laws.{
  of_lease, of_commit, of_release, answered, dispatched, durable_answers, core_answers,
  durable_answers-core_answers,
}
use nft_gate.Worker.Durable.Limits.{issue, take_if_valid, window_at, rate_check}
use nft_gate.Text.{Text, strip_prefix}
use nft_gate.Forward.{decimal}
use nft_gate.Ports.{Result}
use nft_gate.Worker.Numbers.{digits, parse_i64}
use nft_gate.Worker.Dispatch.{get, int_of, dispatch}
use nft_gate.Worker.Store.{
  DoState, Objects, Turn, World, hex, put, call, issue_nonce, take_nonce, try_lease_redemption,
  commit_redemption,
}
use nft_gate.Worker.Store.Routed.{nonces_of, take_nonce-issue_nonce}
use nft_gate.Worker.Store.Once.{durable_run, rows_left, redeem_once_durable}

workers : Unit {0}
unfolding text_eq split_once lookup insert remove retain min_by_key evict_lease grant lease_live
    try_lease Leases.commit Leases.release shard_of_nonce region_of issued_nonce rate_key
    instance_name drop_lapsed evict_leased lease_rows lease live_leases set_committed commit release
    rows_of answered dispatched durable_answers core_answers issue take_if_valid window_at
    rate_check digits parse_i64 strip_prefix decimal get int_of dispatch hex call issue_nonce
    take_nonce try_lease_redemption commit_redemption durable_run
workers = tt

region_tests :
    (shard_of_nonce (codes "eu.0a") ≡ some (codes "eu"))
    × (shard_of_nonce (codes "xx.0a") ≡ none)
    × (shard_of_nonce (codes "redeem.0a") ≡ none)
    × (shard_of_nonce (codes "0a") ≡ some (codes "g"))
    × (region_of false (some (codes "EU")) ≡ codes "eu")
    × (region_of false (some (codes "XX")) ≡ codes "g")
    × (rate_key RateScope.gated_preauth (codes "a") ≡ codes "pre:a")
    × (instance_name (codes "g") ≡ codes "nonce:g")
unfolding workers
region_tests = (refl, refl, refl, refl, refl, refl, refl, refl)

-- An engine that gives the first of the oldest rows, and reads each number as it was written
abbrev engine : Sql
engine = record { oldest = min_by_key (λ r. r.expiry); read = λ n. n }

engine-IsSql : IsSql engine
engine-IsSql = record {
  oldest_none = min_by_key-none;
  oldest_found = min_by_key-IsFirst;
  read_exact = λ n h. refl;
}

-- Another digest's lease fills the table.
abbrev full : Redemptions
full = (codes "E", record { state = RowState.leased; expiry = 900; token = some (codes "u") }) ∷ []

abbrev calls : List (ℕ × Call)
calls =
    (100, leases (codes "D") 60 1 (codes "t"))
    ∷ (200, leases (codes "D") 60 1 (codes "v"))
    ∷ (300, releases (codes "D") (codes "v"))
    ∷ (300, commits (codes "D") (codes "v") 60)
    ∷ (400, commits (codes "D") (codes "t") 60)
    ∷ (500, leases (codes "D") 60 1 (codes "t"))
    ∷ []

durable_answers-core_answers_example :
    of_lease (Lease.ok (codes "t"))
      ∷ of_lease Lease.leased
      ∷ of_release
      ∷ of_commit Commit.lost
      ∷ of_commit Commit.ok
      ∷ of_lease Lease.redeemed
      ∷ []
    ≡ core_answers calls (rows_of full)
unfolding workers
durable_answers-core_answers_example =
    durable_answers-core_answers engine engine-IsSql calls full (refl, tt)
      (
        omega arith,
        (omega arith, (refl, ((refl, omega arith), ((refl, omega arith), (omega arith, tt))))),
      )
      (
        ((tt, tt), (omega arith, tt)),
        (
          ((tt, tt), (omega arith, tt)),
          (
            ((tt, tt), (omega arith, tt)),
            (
              ((tt, tt), (omega arith, tt)),
              (((tt, tt), (omega arith, tt)), ((tt, (omega arith, tt)), tt)),
            ),
          ),
        ),
      )

limit_tests :
    ((issue (codes "n") 100 60 1 ((codes "m", 900) ∷ [])).1 ≡ (codes "n", 60_100) ∷ [])
    × ((take_if_valid (codes "n") 900 ((codes "n", 900) ∷ [])).0 ≡ false)
    × ((take_if_valid (codes "n") 899 ((codes "n", 900) ∷ [])).0 ≡ true)
    × ((rate_check true
          (codes "a")
          1
          60_500
          ((codes "a", record { start = 500; count = 1 }) ∷ [])).0
        ≡ true)
    × ((rate_check true
          (codes "a")
          1
          60_499
          ((codes "a", record { start = 500; count = 1 }) ∷ [])).0
        ≡ false)
unfolding workers
limit_tests = (refl, refl, refl, refl, refl)

abbrev nothing : Objects
nothing name = record { nonces = []; rates = []; redemptions = [] }

-- A tenth of a second passes from call to call.
abbrev turn : ℕ → Turn
turn n = record {
  meanwhile = λ o. o;
  chance = record { now = 1000 + 100 * n; token = codes "t"; sweep = false };
  random = some (n ∷ 255 ∷ []);
  failure = none;
}

-- A request from Europe, and one from elsewhere
abbrev in_europe : DoState
in_europe = record {
  region = codes "eu";
  challenge_ttl_secs = 300;
  max_entries = 10;
  budgets = record { challenge = 30; public = 120; gated_preauth = 120; address = 30 };
}

abbrev elsewhere : DoState
elsewhere = record in_europe { region = codes "g" }

abbrev fresh_world : World
fresh_world = record { objects = nothing; calls = 0 }

abbrev challenged : Result (Text × ℕ) × World
challenged = issue_nonce engine turn in_europe fresh_world

challenged_ok : challenged ≡ (Result.ok (codes "eu.00ff", 301_000), challenged.1)
unfolding workers
challenged_ok = refl

take_nonce-issue_nonce_example :
    let after = take_nonce engine turn elsewhere (codes "eu.00ff") challenged.1 in
    (after.0 ≡ Result.ok true)
    × (lookup (codes "eu.00ff") (nonces_of engine turn in_europe elsewhere after.1 (codes "eu"))
        ≡ none)
unfolding workers
take_nonce-issue_nonce_example =
    take_nonce-issue_nonce engine turn in_europe elsewhere false (some (codes "EU")) fresh_world
      challenged.1 challenged.1 (codes "eu.00ff") 301_000 refl (omega arith) (omega arith)
      challenged_ok refl refl

abbrev leased_world : World
leased_world = (try_lease_redemption engine turn in_europe (codes "D") 60 fresh_world).1

abbrev committed_world : World
committed_world =
    (commit_redemption engine turn in_europe (codes "D") (codes "t") 60 leased_world).1

committed_ok :
    commit_redemption engine turn in_europe (codes "D") (codes "t") 60 leased_world
    ≡ (Result.ok Commit.ok, committed_world)
unfolding workers
committed_ok = refl

-- Others try to lease and to release the consume before.
abbrev tried : List (ℕ × Call)
tried = (1150, leases (codes "D") 60 10 (codes "u")) ∷ (1160, releases (codes "D") (codes "t")) ∷ []

abbrev later_world : World
later_world = record committed_world {
  objects =
      put (codes "nonce:redeem")
        (record (committed_world.objects (codes "nonce:redeem")) {
          redemptions =
              durable_run engine tried
                (rows_left engine engine-IsSql turn in_europe elsewhere committed_world);
        })
        committed_world.objects;
}

redeem_once_durable_example :
    (try_lease_redemption engine turn elsewhere (codes "D") 60 later_world).0
    ≡ Result.ok Lease.redeemed
unfolding workers
redeem_once_durable_example =
    redeem_once_durable engine engine-IsSql turn in_europe elsewhere (codes "D") (codes "t") 60 60
      tried leased_world committed_world later_world (refl, tt) refl (omega arith) committed_ok refl
      (omega arith, (refl, tt)) (omega arith, (omega arith, tt)) (omega arith) (omega arith)
      (omega arith) refl
