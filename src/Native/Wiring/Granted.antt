-- ===== src/Native/Wiring/Granted.antt =====
-- What the chain must have shown for a gated request that the native server passes on: the decision of
-- the core over the chain client and its transport.
use mathlib.Core.Path.{subst, subst₂}
use nft_gate.Base.{
  ◌<◌, ◌≡◌, refl, ◌⊎◌, inl, inr, ap, sym, ◌∙◌, Bool, true, false, ◌&&◌, Option, none, some, arith,
}
use nft_gate.Text.{Text}
use nft_gate.External.{Crates}
use nft_gate.Config.{GatewayConfig, is_public_path}
use nft_gate.Proof.{AccessProof}
use nft_gate.Proof.Base58.{is_tx_digest}
use nft_gate.Sig.{normalize_address, consumed_event_type}
use nft_gate.Headers.{extract_proof_token}
use nft_gate.Grpc.{base_of, call}
use nft_gate.Grpc.Wire.{Bytes}
use nft_gate.Grpc.Frames.{Fault}
use nft_gate.Chain.{
  ledger_get_object, build_get_object, ledger_get_transaction, build_get_transaction,
}
use nft_gate.Chain.Responses.{response_has_consume}
use nft_gate.Chain.Responses.Gate.{GateShows}
use nft_gate.Chain.Client.{Cache, cache_key, cached}
use nft_gate.Chain.Client
use nft_gate.Chain.Client.Reach.{Reaches}
use nft_gate.Chain.Client.Laws.{PageOwns, owns_nft-true, gate_access_blocked-shows}
use nft_gate.Chain.Client.Polls.{consume_tx_valid-true}
use nft_gate.Decision.{Verified, verify_params}
use nft_gate.Decision.Allowed.{IsAuthentic, Entitled}
use nft_gate.Gateway.{RequestHead, upstream, handle}
use nft_gate.Gateway.Served.{Spends, handle-upstream}
use nft_gate.Ports.{Result, Exit, stop, pass}
use nft_gate.Native.HeaderMap.{HeaderMap}
use nft_gate.Native.HttpClient.{Stack}
use nft_gate.Native.Proxy.{Request, Response}
use nft_gate.Native.Proxy
use nft_gate.Native.Redis.{Redis}
use nft_gate.Native.State.{Server, Ambient, rate_check}
use nft_gate.Native.State.Net.{take_net, lease_net, commit_net, release_net}
use nft_gate.Native.Wiring.{chain_settings, chain_transport, on_chain, native_ports}

module _ {H V B D N : Type 0} (crates : Crates) (m : HeaderMap H V) (stack : Stack H B (Cache × N))
    (r : Redis D) (ambient : Ambient) (message : Fault → Text) (cfg : GatewayConfig) where
  -- The gate was open by what the node showed of it.
  abbrev pub GateOpen : (n n' : Cache × N) → Type 0
  GateOpen n n' =
      (resp : Bytes) × (paused : Bool) × (blocks : Bool) × (call
          (chain_transport crates m stack r ambient message cfg) (base_of cfg.sui_rpc_url)
          ledger_get_object (build_get_object cfg.gate_id) n
        ≡ (pass resp, n'))
      × GateShows resp paused blocks
      × (false ≡ paused && blocks)

  -- The node showed a pass of the address, or the cache still holds that it did.
  abbrev pub OwnsPass : Text → (n n' : Cache × N) → Type 0
  OwnsPass address n n' =
      (Client.owns_nft crates (chain_transport crates m stack r ambient message cfg)
          (chain_settings crates m stack r ambient message cfg) address cfg.nft_type
          (some cfg.gate_id) n
        ≡ (pass true, n'))
      × (PageOwns crates (chain_transport crates m stack r ambient message cfg)
            (chain_settings crates m stack r ambient message cfg) n address cfg.nft_type
            (some cfg.gate_id)
          ⊎ ((0 < cfg.ownership_cache_ttl_ms)
              × (let (now, n₁) = stack.wall_ms n in
                  cached (cache_key address cfg.nft_type (some cfg.gate_id)) now n₁.0 ≡ some true)))

  -- The node showed the consume of the digest.
  abbrev pub Consumed : Text → Text → (n n' : Cache × N) → Type 0
  Consumed address digest n n' =
      (Client.consume_tx_valid crates (chain_transport crates m stack r ambient message cfg)
          (chain_settings crates m stack r ambient message cfg) digest address
          (consumed_event_type crates cfg.nft_type) (some cfg.gate_id) cfg.consume_max_age_secs n
        ≡ (pass true, n'))
      × (resp : Bytes) × (n₁ : Cache × N) × (n₂ : Cache × N) × Reaches
          (chain_transport crates m stack r ambient message cfg)
          (chain_settings crates m stack r ambient message cfg) n n₁
      × (call (chain_transport crates m stack r ambient message cfg) (base_of cfg.sui_rpc_url)
            ledger_get_transaction (build_get_transaction digest) n₁
          ≡ (pass resp, n₂))
      × (response_has_consume crates resp address (consumed_event_type crates cfg.nft_type)
            (some cfg.gate_id) (stack.wall_ms n₂).0 cfg.consume_max_age_secs
          ≡ true)

  pub record IsGranted (head : RequestHead) (req : Request H B) (resp : Response H)
      (s s' : Server D (Cache × N)) : Type 0 where
    pub token : Text
    pub found : extract_proof_token head.authorization head.x_access_proof ≡ some token
    pub proof : AccessProof
    pub authentic :
        IsAuthentic crates
          (native_ports crates m stack r ambient message cfg req)
          (verify_params cfg)
          token
          proof
    pub after_gate : Cache × N
    pub gate : GateOpen s.net after_gate
    pub after_pass : Cache × N
    pub shown :
        ((cfg.single_use ≡ false)
          × OwnsPass (normalize_address crates proof.address) after_gate after_pass)
        ⊎ ((d : Text) × (cfg.single_use ≡ true)
            × (proof.consume_digest ≡ some d)
            × (is_tx_digest d ≡ true)
            × Consumed (normalize_address crates proof.address) d after_gate after_pass)
    pub sent : Proxy.forward m stack cfg req after_pass ≡ (resp, s'.net)

  on_chain-eq-ok :
      {A : Type 0} (ask : Cache × N → Exit Fault A × (Cache × N)) (s : Server D (Cache × N)) {a : A}
      {s' : Server D (Cache × N)}
      → on_chain crates m stack r ambient message cfg ask s ≡ (Result.ok a, s')
      → ask s.net ≡ (pass a, s'.net)
  on_chain-eq-ok {A} ask s {a} {s'} h = go (ask s.net) refl
    where
      go : (x : Exit Fault A × (Cache × N)) → ask s.net ≡ x → ask s.net ≡ (pass a, s'.net)
      go (stop e, n) x = absurd (ground (arith, x, h))
      go (pass b, n) x = ground (arith, x, h)

  shown_of :
      (req : Request H B) (proof : AccessProof) (v : Verified) (s s' : Server D (Cache × N))
      → v.address ≡ normalize_address crates proof.address
      → Entitled crates
          (native_ports crates m stack r ambient message cfg req)
          (verify_params cfg)
          proof
          v
          s
          s'
      → ((cfg.single_use ≡ false) × OwnsPass (normalize_address crates proof.address) s.net s'.net)
        ⊎ ((d : Text) × (cfg.single_use ≡ true)
            × (proof.consume_digest ≡ some d)
            × (is_tx_digest d ≡ true)
            × Consumed (normalize_address crates proof.address) d s.net s'.net)
  shown_of req proof v s s' e (inl (mode, owns, _)) =
      let asked =
        on_chain-eq-ok
          (Client.owns_nft crates (chain_transport crates m stack r ambient message cfg)
            (chain_settings crates m stack r ambient message cfg) v.address cfg.nft_type
            (some cfg.gate_id))
          s owns in
      inl (
        mode,
        subst (λ a. OwnsPass a s.net s'.net) e
            (
              asked,
              owns_nft-true crates (chain_transport crates m stack r ambient message cfg)
                  (chain_settings crates m stack r ambient message cfg) v.address cfg.nft_type
                  (some cfg.gate_id) s.net s'.net asked,
            ),
      )
  shown_of req proof v s s' e (inr (d, mode, given, ok, valid, _)) =
      let asked =
        on_chain-eq-ok
          (Client.consume_tx_valid crates (chain_transport crates m stack r ambient message cfg)
            (chain_settings crates m stack r ambient message cfg) d v.address
            (consumed_event_type crates cfg.nft_type) (some cfg.gate_id) cfg.consume_max_age_secs)
          s valid in
      let (resp, n₁, n₂, reached, told, consumed) =
        consume_tx_valid-true crates (chain_transport crates m stack r ambient message cfg)
          (chain_settings crates m stack r ambient message cfg) d v.address
          (consumed_event_type crates cfg.nft_type) (some cfg.gate_id) cfg.consume_max_age_secs
          s.net s'.net asked in
      inr (
        d,
        mode,
        given,
        ok,
        subst (λ a. Consumed a d s.net s'.net) e (asked, resp, n₁, n₂, reached, told, consumed),
      )

  gate_of :
      (req : Request H B) (s s' : Server D (Cache × N))
      → (native_ports crates m stack r ambient message cfg req).gate_access_blocked cfg.gate_id s
        ≡ (Result.ok false, s')
      → GateOpen s.net s'.net
  gate_of req s s' h =
      let (resp, paused, blocks, asked, shows, open_gate) =
        gate_access_blocked-shows crates (chain_transport crates m stack r ambient message cfg)
          (chain_settings crates m stack r ambient message cfg) cfg.gate_id false s.net s'.net
          (on_chain-eq-ok
            (Client.gate_access_blocked crates
              (chain_transport crates m stack r ambient message cfg)
              (chain_settings crates m stack r ambient message cfg) cfg.gate_id)
            s h) in
      (resp, paused, blocks, asked, shows, open_gate)

  -- What is spent is forwarded, by the last call on the network.
  sent_of :
      (req : Request H B) (k : Option Text) (resp : Response H) (s s' : Server D (Cache × N))
      → Spends crates (native_ports crates m stack r ambient message cfg req) cfg k resp s s'
      → Proxy.forward m stack cfg req s.net ≡ (resp, s'.net)
  sent_of req none resp s s' h = ap (λ p. (p.0, p.1.net)) h
  sent_of req (some key) resp s s' h =
      let before : h.w₁.net ≡ s.net =
        sym (ap (λ p. p.1.net) h.claimed)
        ∙ lease_net crates r ambient cfg.challenge_ttl_secs key cfg.redemption_lease_ttl_secs s in
      let sent : Proxy.forward m stack cfg req h.w₁.net ≡ (resp, h.w₂.net) =
        ap (λ p. (p.0, p.1.net)) h.forwarded in
      let after : s'.net ≡ h.w₂.net = elim h.settled [
        | inl (_, c) ↦
            sym (ap (λ p. p.1.net) c)
            ∙ commit_net crates r ambient cfg.challenge_ttl_secs key h.token
                cfg.redemption_retention_secs h.w₂
        | inr (_, c) ↦
            ap (λ t. t.net) c ∙ release_net crates r ambient cfg.challenge_ttl_secs key h.token h.w₂
      ] in
      subst₂ (λ n n'. Proxy.forward m stack cfg req n ≡ (resp, n')) before (sym after) sent

  -- A request for a path that is not public is passed on by the native server only with a proof
  -- that decodes and is signed over this gateway's own message, after the node showed the gate
  -- to be open and showed the pass of the proof's address (or, with an ownership cache, the
  -- cache held such an answer that had not expired) or, in single-use mode, the consume that the
  -- proof names; and the answer is what the proxy got for this request.
  pub handle-IsGranted :
      (head : RequestHead) (req : Request H B) (s s' : Server D (Cache × N)) (resp : Response H)
      → is_public_path cfg head.path ≡ false
      → handle crates (native_ports crates m stack r ambient message cfg req) cfg head s
        ≡ (upstream resp, s')
      → IsGranted head req resp s s'
  unfolding rate_check
  handle-IsGranted head req s s' resp private h =
      elim (handle-upstream crates (native_ports crates m stack r ambient message cfg req) cfg head
        s resp s' h).1 [
          | inl p ↦ absurd (ground (arith, p.listed, private))
          | inr g ↦
              let at_gate : g.allowed.w₁.net ≡ s.net =
                sym (ap (λ p. p.1.net) g.allowed.fresh)
                ∙ take_net crates r ambient cfg.challenge_ttl_secs g.allowed.proof.nonce g.w₁
                ∙ sym (ap (λ p. p.1.net) g.preauth) in
              let at_spend : g.w₃.net ≡ g.w₂.net = sym (ap (λ p. p.1.net) g.charged) in
              record {
                token = g.token;
                found = g.found;
                proof = g.allowed.proof;
                authentic = g.allowed.authentic;
                after_gate = g.allowed.w₂.net;
                gate =
                    subst (λ n. GateOpen n g.allowed.w₂.net) at_gate
                      (gate_of req g.allowed.w₁ g.allowed.w₂ g.allowed.open_gate);
                after_pass = g.w₂.net;
                shown =
                    shown_of req g.allowed.proof g.verified g.allowed.w₂ g.w₂ g.allowed.address
                      g.allowed.entitled;
                sent =
                    subst (λ n. Proxy.forward m stack cfg req n ≡ (resp, s'.net)) at_spend
                      (sent_of req g.verified.redemption_key resp g.w₃ s' g.spends);
              }
        ]
