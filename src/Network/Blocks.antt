-- ===== src/Network/Blocks.antt =====
-- The two copies of the test for reserved addresses, in web/lib/url-security.ts and packages/proxy/src/network.ts.
use link_suffix.Base.{◌≡◌, not, ◌&&◌, ◌==◌, arith}
use link_suffix.Outbound.Addresses.{Bytes, blocked_bytes}
use link_suffix.Network.{public_bytes}

-- The runner opens exactly those addresses of the fourth version that the web application does not block, but for
-- 192.0.0.0/16, which it closes whole.
pub public_bytes-blocked_bytes :
    (x : Bytes) → public_bytes x ≡ (not (blocked_bytes x) && not (x.a == 192 && x.b == 0))
unfolding public_bytes blocked_bytes
public_bytes-blocked_bytes x = ground arith
