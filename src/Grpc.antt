-- ===== src/Grpc.antt =====
-- core/src/grpc.rs: the gRPC-web client over a `Transport`, which is the platform's.
pub mod Wire
pub mod Values
pub mod Frames
use nft_gate.Base.{ℕ, ◌==◌, Option, ◌++◌}
use nft_gate.Text.{Text, codes}
use nft_gate.Text.Split.{trim_end_by}
use nft_gate.Grpc.Wire.{Bytes}
use nft_gate.Grpc.Frames.{Fault, frame, unframe}
use nft_gate.Ports.{Exit, Run, ◌>>=◌}

-- A call may change the world in any way, since other requests run while it waits.
pub record Transport (W : Type 0) : Type 0 where
  pub post_grpc_web : Text → Bytes → Run W Fault (Option Text × Bytes)
  pub sleep_ms : ℕ → W → W
  pub now_ms : W → ℕ × W

-- `GrpcWeb::new`, of which the base is what it computes
unfoldable pub base_of : Text → Text
base_of base_url = trim_end_by (λ c. c == b'/') base_url

module _ {W : Type 0} (transport : Transport W) where
  unfoldable pub call : Text → Text → Bytes → Run W Fault Bytes
  call base_url service_method request =
      transport.post_grpc_web (base_url ++ (codes "/" ++ service_method)) (frame request) >>= λ r w.
      (unframe r.0 r.1, w)
