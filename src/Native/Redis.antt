-- ===== src/Native/Redis.antt =====
-- gateway-rust/src/challenge.rs: the nonces and redemptions on a Redis server that any number of
-- gateway processes share. The server is not part of the repository: its commands are the record
-- `Redis`, and the documented behaviour of them is `IsRedis`. Every command, and every script, is run
-- by the server alone; between two of them the others' come in any order, and a command may fail
-- before or after the server has run it.
pub mod Steps
pub mod Spent
pub mod Owner
use nft_gate.Base.{
  ℕ, suc, ◌+◌, ◌^◌, ◌≤◌, ◌<◌, ◌≡◌, Bool, true, false, Option, none, some, List, [], ◌∷◌, ◌++◌, ltb,
  if◌then◌else◌,
}
use nft_gate.Base.Words.{saturating_mul}
use nft_gate.Text.{Text, codes, text_eq}
use nft_gate.External.{Crates}
use nft_gate.State.{random_hex24}
use nft_gate.Redemption.Leases.{Lease, Commit, leased, redeemed, lost}
use nft_gate.Ports.{Result}

-- The commands on string keys, at the server's time in milliseconds: `GET`, `SET … PX`,
-- `SET … NX PX` with whether it set the key, `DEL` and `GETDEL`.
pub record Redis (D : Type 0) : Type 0 where
  pub get : Text → ℕ → D → Option Text
  pub set_px : (key value : Text) (px now : ℕ) → D → D
  pub set_nx_px : (key value : Text) (px now : ℕ) → D → Bool × D
  pub del : Text → ℕ → D → D
  pub getdel : Text → ℕ → D → Option Text × D

-- The times to live that `SET` takes: positive, and ending in the range of an i64.
abbrev pub IsTtl : ℕ → ℕ → Type 0
IsTtl px now = (0 < px) × (now + px < 2 ^ 63)

abbrev pub is_absent : Option Text → Bool
is_absent none = true
is_absent (some v) = false

-- What Redis documents, seen by the reads from then on: `SET` gives the key its value until the time
-- to live has passed, `NX` does so only on a key that does not exist, `DEL` and `GETDEL` remove the key,
-- and no command touches another key.
pub record IsRedis {D : Type 0} (r : Redis D) : Type 0 where
  pub get-set_px :
      (j k v : Text) (px now t : ℕ) (d : D)
      → IsTtl px now
      → now ≤ t
      → r.get j t (r.set_px k v px now d)
        ≡ (if text_eq k j then (if ltb t (now + px) then some v else none) else r.get j t d)
  pub set_nx_px_made :
      (k v : Text) (px now : ℕ) (d : D) → (r.set_nx_px k v px now d).0 ≡ is_absent (r.get k now d)
  pub get-set_nx_px :
      (j k v : Text) (px now t : ℕ) (d : D)
      → now ≤ t
      → r.get j t (r.set_nx_px k v px now d).1
        ≡ (if is_absent (r.get k now d) then r.get j t (r.set_px k v px now d) else r.get j t d)
  pub get-del :
      (j k : Text) (now t : ℕ) (d : D)
      → now ≤ t
      → r.get j t (r.del k now d) ≡ (if text_eq k j then none else r.get j t d)
  pub getdel_read : (k : Text) (now : ℕ) (d : D) → (r.getdel k now d).0 ≡ r.get k now d
  pub get-getdel :
      (j k : Text) (now t : ℕ) (d : D)
      → now ≤ t
      → r.get j t (r.getdel k now d).1 ≡ r.get j t (r.del k now d)

unfoldable pub nonce_key : Text → Text
nonce_key nonce = codes "nftgate:nonce:" ++ nonce

unfoldable pub redeem_key : Text → Text
redeem_key key = codes "nftgate:redeem:" ++ key

unfoldable pub lease_value : Text → Text
lease_value token = codes "leased:" ++ token

abbrev pub committed_value : Text
committed_value = codes "committed"

-- `redis.call('GET', KEYS[1]) == ARGV[1]`
abbrev pub holds : Option Text → Text → Bool
holds none arg = false
holds (some v) arg = text_eq v arg

module _ {D : Type 0} (r : Redis D) where
  -- The two scripts
  unfoldable pub commit_script : (key arg : Text) (px now : ℕ) → D → Bool × D
  commit_script key arg px now d =
      if holds (r.get key now d) arg
      then (true, r.set_px key committed_value px now d)
      else (false, d)

  unfoldable pub release_script : (key arg : Text) (now : ℕ) → D → Bool × D
  release_script key arg now d =
      if holds (r.get key now d) arg then (true, r.del key now d) else (false, d)

  unfoldable pub set_lease : (key token : Text) (lease_ttl_secs now : ℕ) → D → Bool × D
  set_lease key token lease_ttl_secs now d =
      r.set_nx_px (redeem_key key) (lease_value token) (saturating_mul lease_ttl_secs 1000) now d

  unfoldable pub read_lease : (key : Text) (now : ℕ) → D → Option Text × D
  read_lease key now d = (r.get (redeem_key key) now d, d)

  unfoldable pub commit_lease : (key token : Text) (retention_secs now : ℕ) → D → Bool × D
  commit_lease key token retention_secs now d =
      commit_script (redeem_key key) (lease_value token) (saturating_mul retention_secs 1000) now d

  unfoldable pub release_lease : (key token : Text) (now : ℕ) → D → Bool × D
  release_lease key token now d = release_script (redeem_key key) (lease_value token) now d

  unfoldable pub set_nonce : (nonce : Text) (ttl_ms now : ℕ) → D → Unit {0} × D
  set_nonce nonce ttl_ms now d = (tt, r.set_px (nonce_key nonce) (codes "1") ttl_ms now d)

  unfoldable pub get_del_nonce : (nonce : Text) (now : ℕ) → D → Option Text × D
  get_del_nonce nonce now d = r.getdel (nonce_key nonce) now d

-- What a gateway process sends to the server in one go.
pub data Command : Type 0 where
  leases : (key token : Text) (ttl : ℕ) → Command
  commits : (key token : Text) (retention : ℕ) → Command
  releases : (key token : Text) → Command
  inserts : (nonce : Text) (ttl_ms : ℕ) → Command
  takes : (nonce : Text) → Command

-- A command that failed: whether the server ran it before, and the error.
pub record Failure : Type 0 where
  pub executed : Bool
  pub error : Text

-- What precedes a command and what becomes of it: the commands of other processes, then the server's
-- time at which it comes, the random bytes and the wall clock of the call.
pub record Turn : Type 0 where
  pub others : List (ℕ × Command)
  pub now : ℕ
  pub random : List ℕ
  pub wall_ms : ℕ
  pub failure : Option Failure

pub record World (D : Type 0) : Type 0 where
  pub db : D
  pub calls : ℕ

module _ {D : Type 0} (r : Redis D) where
  unfoldable pub step : ℕ × Command → D → D
  step (now, leases key token ttl) d = (set_lease r key token ttl now d).1
  step (now, commits key token retention) d = (commit_lease r key token retention now d).1
  step (now, releases key token) d = (release_lease r key token now d).1
  step (now, inserts nonce ttl_ms) d = (set_nonce r nonce ttl_ms now d).1
  step (now, takes nonce) d = (get_del_nonce r nonce now d).1

  unfoldable pub run : List (ℕ × Command) → D → D
  run [] d = d
  run (c ∷ cs) d = run cs (step c d)

-- What `GET` says of a key that was there.
unfoldable pub lease_of : Option Text → Lease
lease_of none = leased
lease_of (some v) = if text_eq v committed_value then redeemed else leased

module _ {D : Type 0} where
  abbrev pub sent : {A : Type 0} → Text → Option Failure → A × D → D → ℕ → Result A × World D
  sent what none done d n = (Result.ok done.0, record { db = done.1; calls = suc n })
  sent what (some f) done d n = (
    Result.err (what ++ f.error),
    record { db = if f.executed then done.1 else d; calls = suc n },
  )

  abbrev pub found : Result (Option Text) × World D → Result Lease × World D
  found (Result.ok cur, w) = (Result.ok (lease_of cur), w)
  found (Result.err e, w) = (Result.err e, w)

  abbrev pub committed_or : Result Bool × World D → Result Commit × World D
  committed_or (Result.ok true, w) = (Result.ok Commit.ok, w)
  committed_or (Result.ok false, w) = (Result.ok lost, w)
  committed_or (Result.err e, w) = (Result.err e, w)

  abbrev pub issued : Text → ℕ → Result (Unit {0}) × World D → Result (Text × ℕ) × World D
  issued nonce expires_at (Result.ok _, w) = (Result.ok (nonce, expires_at), w)
  issued nonce expires_at (Result.err e, w) = (Result.err e, w)

  abbrev pub taken : Result (Option Text) × World D → Result Bool × World D
  taken (Result.ok (some v), w) = (Result.ok true, w)
  taken (Result.ok none, w) = (Result.ok false, w)
  taken (Result.err e, w) = (Result.err e, w)

module _ {D : Type 0} (crates : Crates) (r : Redis D) (turn : ℕ → Turn) where
  -- The server's data when the next command comes to it.
  unfoldable pub db_of : World D → D
  db_of w = run r (turn w.calls).others w.db

  -- `query_async(…).await.map_err(…)`
  abbrev pub query : {A : Type 0} → Text → (ℕ → D → A × D) → World D → Result A × World D
  query what op w =
      sent what (turn w.calls).failure (op (turn w.calls).now (db_of w)) (db_of w) w.calls

  abbrev pub after_set : Text → Text → Result Bool × World D → Result Lease × World D
  after_set key token (Result.err e, w) = (Result.err e, w)
  after_set key token (Result.ok true, w) = (Result.ok (Lease.ok token), w)
  after_set key token (Result.ok false, w) =
      found (query (codes "redis redemption GET failed: ") (read_lease r key) w)

  unfoldable pub try_lease_redemption : Text → ℕ → World D → Result Lease × World D
  try_lease_redemption key lease_ttl_secs w =
      let token = random_hex24 crates (turn w.calls).random in
      after_set key token
        (query (codes "redis redemption SET failed: ") (set_lease r key token lease_ttl_secs) w)

  unfoldable pub commit_redemption : Text → Text → ℕ → World D → Result Commit × World D
  commit_redemption key token retention_secs w =
      committed_or (
        query (codes "redis redemption commit failed: ") (commit_lease r key token retention_secs)
          w)

  -- A failure is logged only.
  unfoldable pub release_redemption : Text → Text → World D → World D
  release_redemption key token w = (query (codes "") (release_lease r key token) w).1

  -- A sum beyond u64 stops the process.
  unfoldable pub issue : ℕ → World D → Result (Text × ℕ) × World D
  issue ttl_ms w =
      let nonce = random_hex24 crates (turn w.calls).random in
      issued nonce ((turn w.calls).wall_ms + ttl_ms)
        (query (codes "redis nonce SET failed: ") (set_nonce r nonce ttl_ms) w)

  unfoldable pub take_if_valid : Text → World D → Result Bool × World D
  take_if_valid nonce w =
      taken (query (codes "redis nonce GETDEL failed: ") (get_del_nonce r nonce) w)
