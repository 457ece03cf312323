-- ===== src/Chain/Client/Reach.antt =====
-- The states that a run of `SuiRpc` goes through, call by call.
use nft_gate.Base.{ℕ, ◌≡◌}
use nft_gate.Text.{Text}
use nft_gate.Ports.{Exit, pass}
use nft_gate.Grpc.{Transport, call}
use nft_gate.Grpc.Wire.{Bytes}
use nft_gate.Grpc.Frames.{Fault}
use nft_gate.Chain.Client.{Cache, Settings}

module _ {W : Type 0} (transport : Transport (Cache × W)) (rpc : Settings) where
  pub data Reaches (s : Cache × W) : Cache × W → Type 0 where
    here : Reaches s s
    ticked : {s₁ : Cache × W} → Reaches s s₁ → Reaches s (transport.now_ms s₁).1
    slept : {s₁ : Cache × W} (ms : ℕ) → Reaches s s₁ → Reaches s (transport.sleep_ms ms s₁)
    called :
        {s₁ s₂ : Cache × W} {x : Exit Fault Bytes} (method : Text) (request : Bytes)
        → Reaches s s₁
        → call transport rpc.base_url method request s₁ ≡ (x, s₂)
        → Reaches s s₂

  -- A request that the run made from `s` on, and what the node answered.
  abbrev pub Answered : Cache × W → Text → Bytes → Bytes → Type 0
  Answered s method request resp =
      (s₁ : Cache × W) × (s₂ : Cache × W) × Reaches s s₁
      × (call transport rpc.base_url method request s₁ ≡ (pass resp, s₂))
