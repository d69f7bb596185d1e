-- ===== src/Net.antt =====
-- src/osc-net.h: where a datagram came from. `sockaddr_storage` is split into the parts that the
-- program looks at; `rest` is what else lies within `len` bytes (flow label, zero fill).
-- Sockets is src/osc-net.cpp, Sending the two loops over `send`.
pub mod Sockets
pub mod Sending
pub mod Resolve
use obs_osc.Base.{ℕ, Bool, true, false, ◌&&◌, [], Bytes, ◌==◌, str_eq, str_eq_refl, ◌≡◌, arith}

pub data Family : Type 0 where
  inet inet6 other : Family

abbrev pub family_eq : Family → Family → Bool
family_eq inet inet = true
family_eq inet6 inet6 = true
family_eq other other = true
family_eq _ _ = false

pub record Endpoint : Type 0 where
  pub family : Family
  pub port : ℕ
  pub address : Bytes
  pub scope : ℕ
  pub rest : Bytes
  pub len : ℕ

-- `sockaddr_storage{}` with length 0
abbrev pub no_endpoint : Endpoint
no_endpoint = record { family = other; port = 0; address = []; scope = 0; rest = []; len = 0 }

-- `a.len == b.len && memcmp(&a.addr, &b.addr, b.len) == 0`
unfoldable pub endpoint_same : Endpoint → Endpoint → Bool
endpoint_same a b =
    a.len == b.len
    && (family_eq a.family b.family
        && (a.port == b.port
            && (str_eq a.address b.address && (a.scope == b.scope && str_eq a.rest b.rest))))

pub endpoint_same_refl : (a : Endpoint) → endpoint_same a a ≡ true
unfolding endpoint_same
endpoint_same_refl a = ground (arith, str_eq_refl a.address, str_eq_refl a.rest)
