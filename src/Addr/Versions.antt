-- ===== src/Addr/Versions.antt =====
-- The comparison of address versions.
use libbgpstream.Prelude.{◌≡◌, refl, true}
use libbgpstream.Addr.{AddrVersion, unknown, ipv4, ipv6, version_eq}

pub version_eq_refl : (v : AddrVersion) → version_eq v v ≡ true
version_eq_refl unknown = refl
version_eq_refl ipv4 = refl
version_eq_refl ipv6 = refl

pub version_eq_sound : (v w : AddrVersion) → version_eq v w ≡ true → v ≡ w
version_eq_sound unknown unknown e = refl
version_eq_sound unknown ipv4 e = cc
version_eq_sound unknown ipv6 e = cc
version_eq_sound ipv4 unknown e = cc
version_eq_sound ipv4 ipv4 e = refl
version_eq_sound ipv4 ipv6 e = cc
version_eq_sound ipv6 unknown e = cc
version_eq_sound ipv6 ipv4 e = cc
version_eq_sound ipv6 ipv6 e = refl
