-- ===== src/Proxy/Session/Nonce.antt =====
-- Two sessions have different extra nonces.
use btcpool.Common.{ℕ, ◌+◌, ◌*◌, ◌^◌, ◌<◌, ◌≡◌, arith}
use btcpool.Common.Bytes.{Bytes}
use btcpool.Common.Hex.{hex8-injective}
use btcpool.Proxy.Session.{Session, extra_nonce1_of, handle_subscribe_rpc}

pub extra_nonce1_of-injective :
    (id id' tag tag' : ℕ)
    → id < 2 ^ 16
    → id' < 2 ^ 16
    → tag < 2 ^ 16
    → tag' < 2 ^ 16
    → extra_nonce1_of id tag ≡ extra_nonce1_of id' tag'
    → (id ≡ id') × (tag ≡ tag')
unfolding extra_nonce1_of
extra_nonce1_of-injective id id' tag tag' a b c d e =
    let same =
      hex8-injective (id * 2 ^ 16 + tag) (id' * 2 ^ 16 + tag') (omega arith) (omega arith) e in
    (omega arith, omega arith)

-- After mining.subscribe, two sessions have the same extra nonce only if they have the same tag, on
-- servers of the same identifier. Identifiers and tags are uint16.
pub handle_subscribe_rpc-injective :
    (sha256 : Bytes → Bytes) (id id' : ℕ) (target target' : Bytes) (cs cs' : Session)
    → id < 2 ^ 16
    → id' < 2 ^ 16
    → cs.tag < 2 ^ 16
    → cs'.tag < 2 ^ 16
    → (handle_subscribe_rpc sha256 id target cs).extra_nonce1
      ≡ (handle_subscribe_rpc sha256 id' target' cs').extra_nonce1
    → (id ≡ id') × (cs.tag ≡ cs'.tag)
unfolding handle_subscribe_rpc
handle_subscribe_rpc-injective sha256 id id' target target' cs cs' a b c d e =
    extra_nonce1_of-injective id id' cs.tag cs'.tag a b c d e
