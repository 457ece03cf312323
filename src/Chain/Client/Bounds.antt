-- ===== src/Chain/Client/Bounds.antt =====
-- How many requests the loops of `SuiRpc` make of the node.
use nft_gate.Base.{
  ℕ, zero, suc, ◌+◌, ◌-◌, ◌≤◌, ◌≡◌, inl, inr, Option, none, some, ◌++◌, leb, ◌==◌, arith,
  Option-cases, Bool-cases,
}
use nft_gate.Text.{Text, codes}
use nft_gate.External.{Crates}
use nft_gate.Ports.{Exit}
use nft_gate.Ports.Laws.{Run-cases}
use nft_gate.Grpc.{Transport, call}
use nft_gate.Grpc.Wire.{Bytes}
use nft_gate.Grpc.Frames.{Fault, frame}
use nft_gate.Chain.{
  max_owned_pages, tx_fetch_attempts, tx_fetch_retry_ms, state_list_owned_objects, build_list_owned,
  ledger_get_transaction, build_get_transaction,
}
use nft_gate.Chain.Responses.{response_has_owned}
use nft_gate.Chain.Client.{
  Cache, Settings, cache_key, cached, next_page, is_not_found, on_page, scan_pages, scan_owned,
  owns_nft, fetch_tx, consume_tx_valid,
}

-- `posts` counts the requests of this run: the transport's other calls leave it.
module _ (crates : Crates) {W : Type 0} (transport : Transport (Cache × W)) (rpc : Settings)
    (posts : W → ℕ)
    (posts_one : (url : Text) (body : Bytes) (s : Cache × W)
      → posts (transport.post_grpc_web url body s).1.1 ≡ suc (posts s.1))
    (posts_now : (s : Cache × W) → posts (transport.now_ms s).1.1 ≡ posts s.1)
    (posts_sleep : (ms : ℕ) (s : Cache × W) → posts (transport.sleep_ms ms s).1 ≡ posts s.1) where
  call_posts :
      (method : Text) (request : Bytes) (s : Cache × W)
      → posts (call transport rpc.base_url method request s).1.1 ≡ suc (posts s.1)
  unfolding call
  call_posts method request s =
      let url = rpc.base_url ++ (codes "/" ++ method) in
      elim (Run-cases (transport.post_grpc_web url (frame request) s)) [
        | inl (e, s₁, q) ↦ rw (call, q) (rw q at (posts_one url (frame request) s))
        | inr (r, s₁, q) ↦ rw (call, q) (rw q at (posts_one url (frame request) s))
      ]

  called_posts :
      (method : Text) (request : Bytes) (s s₁ : Cache × W) {x : Exit Fault Bytes}
      → call transport rpc.base_url method request s ≡ (x, s₁)
      → posts s₁.1 ≡ suc (posts s.1)
  called_posts method request s s₁ q = rw q at (call_posts method request s)

  scan_pages_posts :
      (left : ℕ) (address nft_type : Text) (g : Option Text) (started : ℕ) (token : Option Bytes)
      (s : Cache × W)
      → posts (scan_pages crates transport rpc left address nft_type g started token s).1.1
        ≤ posts s.1 + left
  unfolding scan_pages on_page
  scan_pages_posts zero address nft_type g started token s = omega arith
  scan_pages_posts (suc left) address nft_type g started token s =
      let (t, s₁) = transport.now_ms s in
      let request = build_list_owned address nft_type token in
      elim (Bool-cases (leb (t - started) rpc.timeout_ms)) [
        | inr k ↦ rw (scan_pages, k) (omega (arith, posts_now s))
        | inl k ↦
            elim (Run-cases (call transport rpc.base_url state_list_owned_objects request s₁)) [
              | inl (e, s₂, q) ↦
                  rw (scan_pages, k, q) (omega (arith, posts_now s, called_posts _ _ s₁ s₂ q))
              | inr (resp, s₂, q) ↦ elim (Bool-cases (response_has_owned crates resp g)) [
                | inl o ↦
                    rw (scan_pages, k, q, on_page, o)
                      (omega (arith, posts_now s, called_posts _ _ s₁ s₂ q))
                | inr o ↦ elim (Option-cases (next_page resp)) [
                  | inl n ↦
                      rw (scan_pages, k, q, on_page, o, n)
                        (omega (arith, posts_now s, called_posts _ _ s₁ s₂ q))
                  | inr (next, n) ↦
                      rw (scan_pages, k, q, on_page, o, n)
                        (omega (
                          arith,
                          posts_now s,
                          called_posts _ _ s₁ s₂ q,
                          scan_pages_posts left address nft_type g started (some next) s₂,
                        ))
                ]
              ]
            ]
      ]

  scan_owned_posts :
      (address nft_type : Text) (g : Option Text) (s : Cache × W)
      → posts (scan_owned crates transport rpc address nft_type g s).1.1
        ≤ posts s.1 + max_owned_pages
  unfolding scan_owned
  scan_owned_posts address nft_type g s = omega (
    arith,
    posts_now s,
    scan_pages_posts max_owned_pages address nft_type g (transport.now_ms s).0 none
        (transport.now_ms s).1,
  )

  -- Under a count of requests that a request raises by one and that the clock and the sleep
  -- leave, one owns_nft raises it by at most 100, however many pages the node offers.
  pub owns_nft_posts :
      (address nft_type : Text) (g : Option Text) (s : Cache × W)
      → posts (owns_nft crates transport rpc address nft_type g s).1.1 ≤ posts s.1 + max_owned_pages
  unfolding owns_nft
  owns_nft_posts address nft_type g s =
      let (now, s₁) = transport.now_ms s in
      elim (Bool-cases (rpc.cache_ttl_ms == 0)) [
        | inl z ↦ rw (owns_nft, z) (scan_owned_posts address nft_type g s)
        | inr z ↦ elim (Option-cases (cached (cache_key address nft_type g) now s₁.0)) [
          | inr (b, c) ↦ rw (owns_nft, z, c) (omega (arith, posts_now s))
          | inl c ↦ elim (Run-cases (scan_owned crates transport rpc address nft_type g s₁)) [
            | inl (e, s₂, q) ↦
                rw (owns_nft, z, c, q)
                  (omega (arith, posts_now s, (rw q at (scan_owned_posts address nft_type g s₁))))
            | inr (b, s₂, q) ↦
                rw (owns_nft, z, c, q)
                  (omega (
                    arith,
                    posts_now s,
                    posts_now s₂,
                    (rw q at (scan_owned_posts address nft_type g s₁)),
                  ))
          ]
        ]
      ]

  fetch_tx_posts :
      (left : ℕ) (digest : Text) (s : Cache × W)
      → posts (fetch_tx crates transport rpc left digest s).1.1 ≤ posts s.1 + suc left
  unfolding fetch_tx
  fetch_tx_posts zero digest s =
      elim (Run-cases
        (call transport rpc.base_url ledger_get_transaction (build_get_transaction digest) s)) [
          | inr (r, s₁, q) ↦ rw (fetch_tx, q) (omega (arith, called_posts _ _ s s₁ q))
          | inl (e, s₁, q) ↦ elim (Bool-cases (is_not_found e)) [
            | inl k ↦ rw (fetch_tx, q, k) (omega (arith, called_posts _ _ s s₁ q))
            | inr k ↦ rw (fetch_tx, q, k) (omega (arith, called_posts _ _ s s₁ q))
          ]
        ]
  fetch_tx_posts (suc left) digest s =
      elim (Run-cases
        (call transport rpc.base_url ledger_get_transaction (build_get_transaction digest) s)) [
          | inr (r, s₁, q) ↦ rw (fetch_tx, q) (omega (arith, called_posts _ _ s s₁ q))
          | inl (e, s₁, q) ↦ elim (Bool-cases (is_not_found e)) [
            | inl k ↦
                rw (fetch_tx, q, k)
                  (omega (
                    arith,
                    called_posts _ _ s s₁ q,
                    posts_sleep tx_fetch_retry_ms s₁,
                    fetch_tx_posts left digest (transport.sleep_ms tx_fetch_retry_ms s₁),
                  ))
            | inr k ↦ rw (fetch_tx, q, k) (omega (arith, called_posts _ _ s s₁ q))
          ]
        ]

  -- One check of a consume makes at most `tx_fetch_attempts` requests.
  pub consume_tx_valid_posts :
      (digest address consumed_type : Text) (g : Option Text) (max_age : ℕ) (s : Cache × W)
      → posts (consume_tx_valid crates transport rpc digest address consumed_type g max_age s).1.1
        ≤ posts s.1 + tx_fetch_attempts
  unfolding consume_tx_valid
  consume_tx_valid_posts digest address ct g age s =
      let asked = fetch_tx_posts (tx_fetch_attempts - 1) digest s in
      elim (Run-cases (fetch_tx crates transport rpc (tx_fetch_attempts - 1) digest s)) [
        | inl (e, s₁, q) ↦ rw (consume_tx_valid, q) (omega (arith, (rw q at asked)))
        | inr (none, s₁, q) ↦ rw (consume_tx_valid, q) (omega (arith, (rw q at asked)))
        | inr (some resp, s₁, q) ↦
            rw (consume_tx_valid, q) (omega (arith, posts_now s₁, (rw q at asked)))
      ]
