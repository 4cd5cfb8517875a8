-- ===== src/Webhook/Address.antt =====
-- `publicWebhookIP` of whatsapp-bridge/webhook_runtime.go, with the parts of Go's `net/netip` that it
-- uses. An address of four bytes, or of sixteen, is the number of its bits.
pub mod Ranges
use whatsapp_mcp.Prelude.{
  ℕ, ◌+◌, ◌-◌, ◌*◌, ◌/◌, ◌%◌, Bool, true, false, not, ◌&&◌, ◌||◌, List, [], ◌∷◌, ◌==◌,
  if◌then◌else◌,
}
use Prim.Native.Nat.{◌^◌}

-- `malformed` is a slice of another length.
pub data Ip : Type 0 where
  v4 : ℕ → Ip
  v6 : ℕ → Ip
  malformed : Ip

abbrev pub quad : (a b c d : ℕ) → ℕ
quad a b c d = ((a * 256 + b) * 256 + c) * 256 + d

-- The first two groups of sixteen bits, before zeros.
abbrev pub groups : (a b : ℕ) → ℕ
groups a b = (a * 65536 + b) * 2 ^ 96

-- `Prefix.Contains`, for prefixes of `width` bits.
abbrev pub in_prefix : (width base bits n : ℕ) → Bool
in_prefix width base bits n = n / 2 ^ (width - bits) == base / 2 ^ (width - bits)

-- `Unmap`
unfoldable pub unmap : Ip → Ip
unmap (v4 n) = v4 n
unmap (v6 n) = if n / 2 ^ 32 == 65535 then v4 (n % 2 ^ 32) else v6 n
unmap malformed = malformed

-- IsGlobalUnicast, IsPrivate, IsLoopback and IsLinkLocalUnicast together.
unfoldable pub is_unicast_v4 : ℕ → Bool
is_unicast_v4 n =
    not (n == 0)
    && (not (n == quad 255 255 255 255)
        && (not (in_prefix 32 (quad 127 0 0 0) 8 n)
            && (not (in_prefix 32 (quad 224 0 0 0) 4 n)
                && (not (in_prefix 32 (quad 169 254 0 0) 16 n)
                    && (not (in_prefix 32 (quad 10 0 0 0) 8 n)
                        && (not (in_prefix 32 (quad 172 16 0 0) 12 n)
                            && not (in_prefix 32 (quad 192 168 0 0) 16 n)))))))

unfoldable pub is_unicast_v6 : ℕ → Bool
is_unicast_v6 n =
    not (n == 0)
    && (not (n == 1)
        && (not (in_prefix 128 (groups 0xff00 0) 8 n)
            && (not (in_prefix 128 (groups 0xfe80 0) 10 n)
                && not (in_prefix 128 (groups 0xfc00 0) 7 n))))

-- The list of `publicWebhookIP`.
unfoldable pub is_reserved_v4 : ℕ → Bool
is_reserved_v4 n =
    in_prefix 32 (quad 0 0 0 0) 8 n
    || (in_prefix 32 (quad 100 64 0 0) 10 n
        || (in_prefix 32 (quad 169 254 0 0) 16 n
            || (in_prefix 32 (quad 192 0 0 0) 24 n
                || (in_prefix 32 (quad 192 0 2 0) 24 n
                    || (in_prefix 32 (quad 198 18 0 0) 15 n
                        || (in_prefix 32 (quad 198 51 100 0) 24 n
                            || (in_prefix 32 (quad 203 0 113 0) 24 n
                                || (in_prefix 32 (quad 240 0 0 0) 4 n
                                    || in_prefix 32 (quad 168 63 129 16) 32 n))))))))

unfoldable pub is_native_v6 : ℕ → Bool
is_native_v6 n =
    in_prefix 128 (groups 0x2000 0) 3 n
    && (not (in_prefix 128 (groups 0x2001 0) 23 n)
        && (not (in_prefix 128 (groups 0x2001 0xdb8) 32 n)
            && not (in_prefix 128 (groups 0x2002 0) 16 n)))

unfoldable pub public_unmapped : Ip → Bool
unfolding is_unicast_v4 is_unicast_v6 is_reserved_v4 is_native_v6
public_unmapped (v4 n) = is_unicast_v4 n && not (is_reserved_v4 n)
public_unmapped (v6 n) = is_unicast_v6 n && is_native_v6 n
public_unmapped malformed = false

-- `publicWebhookIP`
unfoldable pub public_ip : Ip → Bool
unfolding public_unmapped unmap
public_ip ip = public_unmapped (unmap ip)
