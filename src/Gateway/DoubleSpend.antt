-- ===== src/Gateway/DoubleSpend.antt =====
-- `redeem_and_forward` of core/src/gateway.rs over the shared in-memory store of core/src/state.rs.
use mathlib.Core.Path.{subst, subst₂}
use nft_gate.Base.{suc, ◌<◌, ◌≡◌, ap, sym, ◌∙◌, inl, inr, true, arith}
use nft_gate.Base.Words.{after_secs}
use nft_gate.Text.{Text}
use nft_gate.External.{Crates}
use nft_gate.Config.{GatewayConfig}
use nft_gate.Assoc.{IsMap}
use nft_gate.State.{commit_redemption, try_lease_redemption, random_hex24}
use nft_gate.Redemption.Leases.{RedemptionTable, Lease, Commit, redeemed, try_lease, commit}
use nft_gate.Redemption.Leases.Owner.{try_lease-IsMap}
use nft_gate.Redemption.Leases.History.{run, Before, run-IsMap, commit_once}
use nft_gate.Ports.{Result, ForwardKind, stop, pass}
use nft_gate.Gateway.{JsonReply, coded, is_success, redeem_and_forward}
use nft_gate.Gateway.Served.{redeem_and_forward-eq-pass}
use nft_gate.Gateway.Memory.{Environment, World, store_of, memory_ports}

module _ {Resp : Type 0} (crates : Crates) (env : Environment Resp) (cfg : GatewayConfig) where
  -- The refusal of a consume that is spent.
  abbrev pub already_redeemed : JsonReply
  already_redeemed = coded 409 "this consume has already been redeemed for an upload" "redeemed"

  -- A lease on the store that finds the digest redeemed is answered so, with no forward.
  redeemed_reply :
      (key : Text) (w : World)
      → (try_lease key
          (env.turn w.calls).now
          cfg.redemption_lease_ttl_secs
          (store_of crates env w).max_entries
          (random_hex24 crates (env.turn w.calls).random)
          (store_of crates env w).redemptions).0
        ≡ redeemed
      → (redeem_and_forward crates (memory_ports crates env) cfg key w).0 ≡ stop already_redeemed
  unfolding redeem_and_forward try_lease_redemption
  redeemed_reply key w h = ground arith

  abbrev redemptions_of : World → RedemptionTable
  redemptions_of w = w.state.store.redemptions

  table_at : World → RedemptionTable
  unfolding store_of
  table_at w = (store_of crates env w).redemptions

  table_at-IsMap : (w : World) → IsMap (redemptions_of w) → IsMap (table_at w)
  unfolding table_at
  table_at-IsMap w d = run-IsMap (env.turn w.calls).others (redemptions_of w) d

  after_lease :
      (key : Text) (w : World) {l : Lease} {w₁ : World}
      → (memory_ports crates env).try_lease_redemption key cfg.redemption_lease_ttl_secs w
        ≡ (Result.ok l, w₁)
      → IsMap (redemptions_of w)
      → (w₁.calls ≡ suc w.calls) × IsMap (redemptions_of w₁)
  unfolding try_lease_redemption table_at
  after_lease key w {l} {w₁} h d =
      let t = table_at w in
      let made =
        try_lease-IsMap key (env.turn w.calls).now cfg.redemption_lease_ttl_secs
          (store_of crates env w).max_entries (random_hex24 crates (env.turn w.calls).random) t
          (table_at-IsMap w d) in
      (ground arith, subst (λ v. IsMap (redemptions_of v)) (ap (λ p. p.1) h) made)

  after_forward :
      (w : World) {resp : Resp} {w₁ : World}
      → (memory_ports crates env).forward ForwardKind.gated w ≡ (resp, w₁)
      → IsMap (redemptions_of w)
      → (w₁.calls ≡ suc w.calls) × IsMap (redemptions_of w₁)
  unfolding table_at
  after_forward w h d =
      (ground arith, subst (λ v. IsMap (redemptions_of v)) (ap (λ p. p.1) h) (table_at-IsMap w d))

  after_commit :
      (key token : Text) (w : World) {w' : World}
      → (memory_ports crates env).commit_redemption key token cfg.redemption_retention_secs w
        ≡ (Result.ok Commit.ok, w')
      → let done =
          commit key token (env.turn w.calls).now cfg.redemption_retention_secs (table_at w) in
        (w'.calls ≡ suc w.calls) × (done.0 ≡ Commit.ok) × (redemptions_of w' ≡ done.1)
  unfolding commit_redemption table_at
  after_commit key token w h = (ground arith, ground arith, ap (λ p. redemptions_of (p.1)) (sym h))

  then_refused :
      (key token : Text) (w w' : World)
      → IsMap (redemptions_of w)
      → (memory_ports crates env).commit_redemption key token cfg.redemption_retention_secs w
        ≡ (Result.ok Commit.ok, w')
      → Before
          (after_secs (env.turn w.calls).now cfg.redemption_retention_secs)
          (env.turn w'.calls).others
      → (env.turn w'.calls).now < after_secs (env.turn w.calls).now cfg.redemption_retention_secs
      → (redeem_and_forward crates (memory_ports crates env) cfg key w').0 ≡ stop already_redeemed
  unfolding store_of table_at
  then_refused key token w w' d h before lt =
      let now = (env.turn w.calls).now in
      let done = after_commit key token w h in
      let spent =
        commit_once key token now cfg.redemption_retention_secs (table_at w)
          (env.turn w'.calls).others (env.turn w'.calls).now cfg.redemption_lease_ttl_secs
          w'.state.store.max_entries 0 (random_hex24 crates (env.turn w'.calls).random)
          (table_at-IsMap w d) done.1 before lt in
      redeemed_reply key w' (
        subst
          (λ t.
            (try_lease key (env.turn w'.calls).now cfg.redemption_lease_ttl_secs
              w'.state.store.max_entries (random_hex24 crates (env.turn w'.calls).random)
              (run (env.turn w'.calls).others t)).0
            ≡ redeemed)
          (sym done.2) spent.0)

  -- No double spend, end to end, on a store whose redemptions have no key twice: once a request has redeemed a consume with a successful upload, a
  -- further request for it is answered 409 `redeemed`, whatever other requests did to the store
  -- before, between and after, as long as all this happens before the retention of the commit ends.
  pub redeem_once :
      (key : Text) (w : World) (resp : Resp) (w' : World)
      → IsMap w.state.store.redemptions
      → redeem_and_forward crates (memory_ports crates env) cfg key w ≡ (pass resp, w')
      → is_success (env.status resp) ≡ true
      → Before
          (after_secs (env.turn (suc (suc w.calls))).now cfg.redemption_retention_secs)
          (env.turn (suc (suc (suc w.calls)))).others
      → (env.turn (suc (suc (suc w.calls)))).now
        < after_secs (env.turn (suc (suc w.calls))).now cfg.redemption_retention_secs
      → (redeem_and_forward crates (memory_ports crates env) cfg key w').0 ≡ stop already_redeemed
  redeem_once key w resp w' d h good before lt =
      let r = redeem_and_forward-eq-pass crates (memory_ports crates env) cfg key w h in
      let (c₁, d₁) = after_lease key w r.claimed d in
      let (c₂, d₂) = after_forward r.w₁ r.forwarded d₁ in
      let at : r.w₂.calls ≡ suc (suc w.calls) = c₂ ∙ ap suc c₁ in
      elim r.settled [
        | inr (bad, _) ↦ absurd (ground arith)
        | inl (_, e) ↦
            let at' : w'.calls ≡ suc (suc (suc w.calls)) =
              (after_commit key r.token r.w₂ e).0 ∙ ap suc at in
            then_refused key r.token r.w₂ w' d₂ e
              (subst₂
                (λ n m.
                  Before (after_secs (env.turn n).now cfg.redemption_retention_secs)
                    (env.turn m).others)
                (sym at) (sym at') before)
              (subst₂
                (λ n m.
                  (env.turn m).now < after_secs (env.turn n).now cfg.redemption_retention_secs)
                (sym at) (sym at') lt)
      ]
