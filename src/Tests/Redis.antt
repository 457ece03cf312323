-- ===== src/Tests/Redis.antt =====
-- A Redis in a function, with the laws that the theorems ask for, and leases on it.
use nft_gate.Base.{
  ℕ, ◌+◌, ◌≡◌, ◌≢◌, refl, true, false, Option, none, some, [], ◌∷◌, arith, ltb, if◌then◌else◌, inr,
}
use nft_gate.Text.{Text, codes, text_eq}
use nft_gate.Redemption.Leases.{Lease, Commit, redeemed}
use nft_gate.Ports.{Result}
use nft_gate.Native.Redis.{
  Redis, IsRedis, is_absent, nonce_key, redeem_key, lease_value, commit_script, release_script,
  set_lease, read_lease, commit_lease, release_lease, set_nonce, get_del_nonce, leases, releases,
  inserts, Turn, World, step, run, db_of, lease_of, try_lease_redemption, commit_redemption,
  release_redemption, issue, take_if_valid,
}
use nft_gate.Native.Redis.Owner.{holder_commits, lease_exclusive}
use nft_gate.Tests.Requests.{crates}

abbrev pub Db : Type 0
Db = Text → Option (Text × ℕ)

-- The value, while its time lasts
abbrev pub live : ℕ → Option (Text × ℕ) → Option Text
live t none = none
live t (some (v, e)) = if ltb t e then some v else none

abbrev pub put : Text → Option (Text × ℕ) → Db → Db
put k x d j = if text_eq k j then x else d j

abbrev pub server : Redis Db
server = record {
  get = λ k t d. live t (d k);
  set_px = λ k v px now d. put k (some (v, now + px)) d;
  set_nx_px = λ k v px now d.
      if is_absent (live now (d k)) then (true, put k (some (v, now + px)) d) else (false, d);
  del = λ k now d. put k none d;
  getdel = λ k now d. (live now (d k), put k none d);
}

pub server-IsRedis : IsRedis server
server-IsRedis = record {
  get-set_px = λ j k v px now t d ok le. ground arith;
  set_nx_px_made = λ k v px now d. ground arith;
  get-set_nx_px = λ j k v px now t d le. ground arith;
  get-del = λ j k now t d le. ground arith;
  getdel_read = λ k now d. refl;
  get-getdel = λ j k now t d le. refl;
}

unfoldable pub redis_calls : Unit {0}
unfolding text_eq nonce_key redeem_key lease_value commit_script release_script set_lease read_lease
    commit_lease release_lease set_nonce get_del_nonce step run db_of lease_of try_lease_redemption
    commit_redemption release_redemption issue take_if_valid
redis_calls = tt

-- Before each command another process tries to lease the digest and to release it with its own token.
abbrev pub turn : ℕ → Turn
turn n = record {
  others =
      (1000 + n, leases (codes "D") (codes "x") 60)
      ∷ (1000 + n, releases (codes "D") (codes "x"))
      ∷ (1000 + n, inserts (codes "n2") 5000)
      ∷ [];
  now = 1000 + n;
  random = 7 ∷ n ∷ [];
  wall_ms = 9000;
  failure = none;
}

abbrev pub fresh : World Db
fresh = record { db = λ k. none; calls = 5 }

abbrev digest : Text
digest = codes "D"

abbrev token : Text
token = 7 ∷ 5 ∷ []

abbrev leased_world : World Db
leased_world = (try_lease_redemption crates server turn digest 60 fresh).1

leased_ok :
    try_lease_redemption crates server turn digest 60 fresh
    ≡ (Result.ok (Lease.ok token), leased_world)
unfolding redis_calls
leased_ok = refl

redis_tests :
    ((try_lease_redemption crates server turn digest 60 leased_world).0 ≡ Result.ok Lease.leased)
    × ((commit_redemption crates server turn digest token 60 leased_world).0 ≡ Result.ok Commit.ok)
    × ((commit_redemption crates server turn digest (codes "x") 60 leased_world).0
        ≡ Result.ok Commit.lost)
    × ((try_lease_redemption crates server turn digest 60
          (commit_redemption crates server turn digest token 60 leased_world).1).0
        ≡ Result.ok redeemed)
    × ((issue crates server turn 5000 fresh).0 ≡ Result.ok (token, 14_000))
    × ((take_if_valid crates server turn token (issue crates server turn 5000 fresh).1).0
        ≡ Result.ok true)
    × ((take_if_valid crates server turn token fresh).0 ≡ Result.ok false)
unfolding redis_calls
redis_tests = (refl, refl, refl, refl, refl, refl, refl)

holder_commits_example :
    (commit_redemption crates server turn digest token 60 leased_world).0 ≡ Result.ok Commit.ok
unfolding redis_calls
holder_commits_example =
    holder_commits crates server server-IsRedis turn digest token 60 60 fresh leased_world
      leased_world (omega arith) leased_ok refl (omega arith) (tt, (inr refl, (tt, tt))) refl

lease_exclusive_example :
    (try_lease_redemption crates server turn digest 30 leased_world).0
    ≢ Result.ok (Lease.ok (codes "y"))
unfolding redis_calls
lease_exclusive_example =
    lease_exclusive crates server server-IsRedis turn digest token (codes "y") 60 30 fresh
      leased_world leased_world (omega arith) leased_ok refl (omega arith)
      (tt, (inr refl, (tt, tt)))
