-- ===== src/Config.antt =====
-- consensus/src/config.rs: the port of the gossip network, its text form and its use on addresses.
pub mod Decimal
pub mod Ports
pub mod RoundTrip
pub mod Multiaddr
use validated_streams.Base.{
  ℕ, zero, suc, ◌+◌, ◌-◌, List, [], ◌∷◌, Option, none, some, Result, ok, err, ltb, if◌then◌else◌,
  ◌==◌,
}
use validated_streams.Base.Results.{◌>>=◌}
use validated_streams.Primitives.{Bytes}
use Decimal.{ℤ, pos, negsuc, Failure, invalid, fmt_u16, u16_from_str, i16_from_str, neg_i16}

pub data PortOrOffset : Type 0 where
  port : ℕ → PortOrOffset
  offset : ℤ → PortOrOffset

-- `u16::saturating_add_signed`
abbrev saturating_add_signed : ℕ → ℤ → ℕ
saturating_add_signed p (pos n) = if ltb 65535 (p + n) then 65535 else p + n
saturating_add_signed p (negsuc n) = p - suc n

unfoldable pub adjust_port : PortOrOffset → ℕ → ℕ
adjust_port (port p) _ = p
adjust_port (offset o) p = saturating_add_signed p o

-- `impl fmt::Display`
pub fmt : PortOrOffset → Bytes
fmt (port p) = fmt_u16 p
fmt (offset (pos n)) = b'+' ∷ fmt_u16 n
fmt (offset (negsuc n)) = b'-' ∷ Decimal.fmt_i16 (neg_i16 (negsuc n))

-- `impl FromStr`
pub from_str : Bytes → Result Failure PortOrOffset
from_str [] = u16_from_str [] >>= λ n. ok (port n)
from_str (c ∷ s) =
    if c == b'+'
    then i16_from_str s >>= (λ o. ok (offset o))
    else if c == b'-'
    then i16_from_str s >>= (λ o. ok (offset (neg_i16 o)))
    else u16_from_str (c ∷ s) >>= (λ n. ok (port n))
