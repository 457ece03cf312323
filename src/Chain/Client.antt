-- ===== src/Chain/Client.antt =====
-- core/src/chain.rs: `SuiRpc`, over a world of the ownership cache and all else. The cache stands in
-- the world of the transport, since other requests may change it while a call waits.
pub mod Laws
pub mod Polls
pub mod Reach
pub mod Bounds
use nft_gate.Base.{
  ℕ, zero, suc, ◌+◌, ◌-◌, Bool, true, false, Option, none, some, List, [], ◌++◌, ltb, leb, ◌==◌,
  if◌then◌else◌, length,
}
use nft_gate.Base.Ints.{pos, negsuc}
use nft_gate.Text.{Text, codes, is_nil}
use nft_gate.Assoc.{lookup, insert, remove, retain, min_by_key}
use nft_gate.External.{Crates}
use nft_gate.Ports.{Exit, stop, pass, Run, pure, throw, check_that, ◌>>=◌, ◌>>◌}
use nft_gate.Grpc.{Transport, call}
use nft_gate.Grpc.Wire.{Bytes, field_bytes}
use nft_gate.Grpc.Frames.{Fault, grpc_status, failed}
use nft_gate.Chain.{
  build_list_owned, build_get_transaction, build_get_object, ledger_get_transaction,
  ledger_get_object, state_list_owned_objects, loo_next_page_token, max_owned_pages,
  tx_fetch_attempts, tx_fetch_retry_ms, max_cache_entries,
}
use nft_gate.Chain.Responses.{response_has_owned, response_has_consume, response_gate_blocks_access}

pub record CacheEntry : Type 0 where
  pub owns : Bool
  pub expiry_ms : ℕ

abbrev pub Cache : Type 0
Cache = List (Text × CacheEntry)

abbrev gate_or_dash : Option Text → Text
gate_or_dash none = codes "-"
gate_or_dash (some g) = g

unfoldable pub cache_key : Text → Text → Option Text → Text
cache_key address nft_type gate_id =
    address ++ (codes "|" ++ (nft_type ++ (codes "|" ++ gate_or_dash gate_id)))

-- The answer of an entry that has not expired
unfoldable pub cached : Text → ℕ → Cache → Option Bool
cached key now cache = elim (lookup key cache) [
  | none ↦ none
  | some e ↦ if ltb now e.expiry_ms then some e.owns else none
]

unfoldable pub evict_entry : Cache → Cache
evict_entry cache =
    if leb max_cache_entries (length cache)
    then elim (min_by_key (λ e. e.expiry_ms) cache) [
      | none ↦ cache
      | some oldest ↦ remove oldest.0 cache
    ]
    else cache

-- What happens under the second lock
unfoldable pub store : Text → Bool → ℕ → ℕ → Cache → Cache
store key owns now ttl_ms cache =
    insert key (record { owns = owns; expiry_ms = now + ttl_ms })
      (evict_entry (retain (λ e. ltb now e.expiry_ms) cache))

abbrev non_empty : Bytes → Option Bytes
non_empty t = if is_nil t then none else some t

unfoldable pub next_page : Bytes → Option Bytes
next_page resp = elim (field_bytes resp loo_next_page_token) [ none ↦ none | some t ↦ non_empty t ]

unfoldable pub is_not_found : Fault → Bool
is_not_found (grpc_status (pos n)) = n == 5
is_not_found other = false

pub record Settings : Type 0 where
  pub base_url : Text
  pub timeout_ms : ℕ
  pub cache_ttl_ms : ℕ

module _ (crates : Crates) {W : Type 0} (transport : Transport (Cache × W)) (rpc : Settings) where
  abbrev now : Run (Cache × W) Fault ℕ
  now s = (pass (transport.now_ms s).0, (transport.now_ms s).1)

  -- A lock that is held for one computation
  abbrev with_cache : {A : Type 0} → (Cache → A) → Run (Cache × W) Fault A
  with_cache f s = (pass (f s.0), s)

  abbrev change_cache : (Cache → Cache) → Run (Cache × W) Fault (Unit {0})
  change_cache f s = (pass tt, (f s.0, s.1))

  abbrev answer_or : {A : Type 0} → Option A → Run (Cache × W) Fault A
  answer_or none = throw failed
  answer_or (some a) = pure a

  -- The arms of the `match` in the loop, by what the second does
  abbrev after :
      Exit Fault Bytes → Run (Cache × W) Fault (Option Bytes) → Run (Cache × W) Fault (Option Bytes)
  after (pass resp) retry s = (pass (some resp), s)
  after (stop e) retry s = if is_not_found e then retry s else (stop e, s)

  abbrev on_not_found :
      Run (Cache × W) Fault Bytes
      → Run (Cache × W) Fault (Option Bytes)
      → Run (Cache × W) Fault (Option Bytes)
  on_not_found m retry s = after (m s).0 retry (m s).1

  abbrev ask : Text → Bytes → Run (Cache × W) Fault Bytes
  ask method request = call transport rpc.base_url method request

  -- What a page decides, and how the loop goes on where it decides nothing
  unfoldable pub on_page :
      Bytes → Option Text → (Bytes → Run (Cache × W) Fault Bool) → Run (Cache × W) Fault Bool
  on_page resp gate_id more =
      if response_has_owned crates resp gate_id
      then pure true
      else elim (next_page resp) [ none ↦ pure false | some token ↦ more token ]

  -- The loop, by the pages that it may still read
  unfoldable pub scan_pages :
      ℕ → Text → Text → Option Text → ℕ → Option Bytes → Run (Cache × W) Fault Bool
  scan_pages zero address nft_type gate_id started token = throw failed
  scan_pages (suc left) address nft_type gate_id started token = do
    t ← now
    check_that (leb (t - started) rpc.timeout_ms) failed
    resp ← ask state_list_owned_objects (build_list_owned address nft_type token)
    on_page resp gate_id (λ next. scan_pages left address nft_type gate_id started (some next))

  unfoldable pub scan_owned : Text → Text → Option Text → Run (Cache × W) Fault Bool
  scan_owned address nft_type gate_id = do
    started ← now
    scan_pages max_owned_pages address nft_type gate_id started none

  -- A cache that another request changed while the scan waited is the one that is changed here.
  unfoldable pub owns_nft : Text → Text → Option Text → Run (Cache × W) Fault Bool
  owns_nft address nft_type gate_id =
      if rpc.cache_ttl_ms == 0 then scan_owned address nft_type gate_id else do
        let key = cache_key address nft_type gate_id
        t ← now
        entry ← with_cache (cached key t)
        elim entry [
          | some owns ↦ pure owns
          | none ↦ do
            owns ← scan_owned address nft_type gate_id
            t' ← now
            change_cache (store key owns t' rpc.cache_ttl_ms)
            pure owns
        ]

  unfoldable pub gate_access_blocked : Text → Run (Cache × W) Fault Bool
  gate_access_blocked gate_id = do
    resp ← ask ledger_get_object (build_get_object gate_id)
    answer_or (response_gate_blocks_access resp)

  -- The loop, by the attempts that are left after this one; `none` when the transaction stays unknown
  unfoldable pub fetch_tx : ℕ → Text → Run (Cache × W) Fault (Option Bytes)
  fetch_tx zero digest =
      on_not_found (ask ledger_get_transaction (build_get_transaction digest)) (pure none)
  fetch_tx (suc left) digest =
      on_not_found (ask ledger_get_transaction (build_get_transaction digest))
        (λ s. fetch_tx left digest (transport.sleep_ms tx_fetch_retry_ms s))

  unfoldable pub consume_tx_valid :
      Text → Text → Text → Option Text → ℕ → Run (Cache × W) Fault Bool
  consume_tx_valid digest address consumed_event_type gate_id max_age_secs = do
    found ← fetch_tx (tx_fetch_attempts - 1) digest
    elim found [
      | none ↦ pure false
      | some resp ↦ do
        t ← now
        pure (response_has_consume crates resp address consumed_event_type gate_id t max_age_secs)
    ]
