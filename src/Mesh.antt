-- ===== src/Mesh.antt =====
-- The keys of pkg/mesh/wireguard.go, over the curve and base64 of the standard library.
use crybaby.Base.{String}
use crybaby.Base.Result.{Result, ok, err}
use crybaby.Base.Text.{◌<>◌}

pub record KeyPair : Type 0 where
  pub private_key : String
  pub public_key : String

-- `generated` is the key that `GenerateKey` gives, with its public part, as bytes.
unfoldable pub generate_key_pair :
    (String → String) → Result String (String × String) → Result String KeyPair
generate_key_pair encode (err e) = err ("failed to generate X25519 key: " <> e)
generate_key_pair encode (ok (private_bytes, public_bytes)) =
    ok (record { private_key = encode private_bytes; public_key = encode public_bytes })
