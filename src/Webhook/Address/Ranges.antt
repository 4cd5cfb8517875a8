-- ===== src/Webhook/Address/Ranges.antt =====
-- The addresses that are public, as ranges.
use whatsapp_mcp.Prelude.{
  ℕ, ◌/◌, ◌%◌, ◌<◌, ◌≤◌, ◌≡◌, refl, Bool, false, not, ◌&&◌, ◌||◌, List, [], ◌∷◌, arith, ltb, leb,
  ◌==◌, if◌then◌else◌, Bool-cases, inl, inr,
}
use Prim.Native.Nat.{◌^◌}
use whatsapp_mcp.Webhook.Address.{
  Ip, v4, v6, malformed, quad, groups, unmap, is_unicast_v4, is_unicast_v6, is_reserved_v4,
  is_native_v6, public_unmapped, public_ip,
}

-- From the first number up to, and without, the second.
abbrev pub in_ranges : List (ℕ × ℕ) → ℕ → Bool
in_ranges [] n = false
in_ranges ((a, b) ∷ rs) n = (leb a n && ltb n b) || in_ranges rs n

abbrev pub public_v4 : List (ℕ × ℕ)
public_v4 =
    (quad 1 0 0 0, quad 10 0 0 0)
    ∷ (quad 11 0 0 0, quad 100 64 0 0)
    ∷ (quad 100 128 0 0, quad 127 0 0 0)
    ∷ (quad 128 0 0 0, quad 168 63 129 16)
    ∷ (quad 168 63 129 17, quad 169 254 0 0)
    ∷ (quad 169 255 0 0, quad 172 16 0 0)
    ∷ (quad 172 32 0 0, quad 192 0 0 0)
    ∷ (quad 192 0 1 0, quad 192 0 2 0)
    ∷ (quad 192 0 3 0, quad 192 168 0 0)
    ∷ (quad 192 169 0 0, quad 198 18 0 0)
    ∷ (quad 198 20 0 0, quad 198 51 100 0)
    ∷ (quad 198 51 101 0, quad 203 0 113 0)
    ∷ (quad 203 0 114 0, quad 224 0 0 0)
    ∷ []

abbrev pub public_v6 : List (ℕ × ℕ)
public_v6 =
    (groups 0x2000 0, groups 0x2001 0)
    ∷ (groups 0x2001 0x200, groups 0x2001 0xdb8)
    ∷ (groups 0x2001 0xdb9, groups 0x2002 0)
    ∷ (groups 0x2003 0, groups 0x4000 0)
    ∷ []

v6_ranges : (n : ℕ) → n < 2 ^ 128 → (is_unicast_v6 n && is_native_v6 n) ≡ in_ranges public_v6 n
unfolding is_unicast_v6 is_native_v6
v6_ranges n lt = ground arith

-- What `publicWebhookIP` says of an address of four bytes, on one stretch of the numbers.
abbrev Agrees : ℕ → ℕ → Type 0
Agrees a b =
    (n : ℕ) → a ≤ n → n < b → (is_unicast_v4 n && not (is_reserved_v4 n)) ≡ in_ranges public_v4 n

stretch_a : Agrees (quad 0 0 0 0) (quad 64 0 0 0)
unfolding is_unicast_v4 is_reserved_v4
stretch_a n low high = ground arith

stretch_b : Agrees (quad 64 0 0 0) (quad 120 0 0 0)
unfolding is_unicast_v4 is_reserved_v4
stretch_b n low high = ground arith

stretch_c : Agrees (quad 120 0 0 0) (quad 168 63 129 16)
unfolding is_unicast_v4 is_reserved_v4
stretch_c n low high = ground arith

stretch_d : Agrees (quad 168 63 129 16) (quad 168 63 129 17)
unfolding is_unicast_v4 is_reserved_v4
stretch_d n low high = ground arith

stretch_e : Agrees (quad 168 63 129 17) (quad 172 16 0 0)
unfolding is_unicast_v4 is_reserved_v4
stretch_e n low high = ground arith

stretch_f : Agrees (quad 172 16 0 0) (quad 192 0 1 0)
unfolding is_unicast_v4 is_reserved_v4
stretch_f n low high = ground arith

stretch_g : Agrees (quad 192 0 1 0) (quad 192 168 0 0)
unfolding is_unicast_v4 is_reserved_v4
stretch_g n low high = ground arith

stretch_h : Agrees (quad 192 168 0 0) (quad 198 18 0 0)
unfolding is_unicast_v4 is_reserved_v4
stretch_h n low high = ground arith

stretch_i : Agrees (quad 198 18 0 0) (quad 198 51 0 0)
unfolding is_unicast_v4 is_reserved_v4
stretch_i n low high = ground arith

stretch_j : Agrees (quad 198 51 0 0) (quad 203 0 113 0)
unfolding is_unicast_v4 is_reserved_v4
stretch_j n low high = ground arith

stretch_k : Agrees (quad 203 0 113 0) (quad 203 0 114 0)
unfolding is_unicast_v4 is_reserved_v4
stretch_k n low high = ground arith

stretch_l : Agrees (quad 203 0 114 0) (quad 224 0 0 0)
unfolding is_unicast_v4 is_reserved_v4
stretch_l n low high = ground arith

stretch_m : Agrees (quad 224 0 0 0) (quad 255 255 255 255)
unfolding is_unicast_v4 is_reserved_v4
stretch_m n low high = ground arith

stretch_n : Agrees (quad 255 255 255 255) (2 ^ 32)
unfolding is_unicast_v4 is_reserved_v4
stretch_n n low high = ground arith

joined : (a b c : ℕ) → a ≤ b → b ≤ c → Agrees a b → Agrees b c → Agrees a c
joined a b c ab bc p q n low high = elim (Bool-cases (ltb n b)) [
  | inl below ↦ p n low (ground arith)
  | inr above ↦ q n (ground arith) high
]

below_quarter : Agrees (quad 0 0 0 0) (quad 168 63 129 16)
below_quarter =
    joined (quad 0 0 0 0) (quad 64 0 0 0) (quad 168 63 129 16) (omega arith) (omega arith)
      (stretch_a)
      (joined (quad 64 0 0 0) (quad 120 0 0 0) (quad 168 63 129 16) (omega arith) (omega arith)
        (stretch_b) (stretch_c))

below_half : Agrees (quad 168 63 129 16) (quad 192 168 0 0)
below_half =
    joined (quad 168 63 129 16) (quad 172 16 0 0) (quad 192 168 0 0) (omega arith) (omega arith)
      (joined (quad 168 63 129 16) (quad 168 63 129 17) (quad 172 16 0 0) (omega arith)
        (omega arith) (stretch_d) (stretch_e))
      (joined (quad 172 16 0 0) (quad 192 0 1 0) (quad 192 168 0 0) (omega arith) (omega arith)
        (stretch_f) (stretch_g))

below_most : Agrees (quad 192 168 0 0) (quad 203 0 114 0)
below_most =
    joined (quad 192 168 0 0) (quad 198 51 0 0) (quad 203 0 114 0) (omega arith) (omega arith)
      (joined (quad 192 168 0 0) (quad 198 18 0 0) (quad 198 51 0 0) (omega arith) (omega arith)
        (stretch_h) (stretch_i))
      (joined (quad 198 51 0 0) (quad 203 0 113 0) (quad 203 0 114 0) (omega arith) (omega arith)
        (stretch_j) (stretch_k))

last : Agrees (quad 203 0 114 0) (2 ^ 32)
last = joined (quad 203 0 114 0) (quad 224 0 0 0) (2 ^ 32) (omega arith) (omega arith) (stretch_l) (
    joined (quad 224 0 0 0) (quad 255 255 255 255) (2 ^ 32) (omega arith) (omega arith) (stretch_m)
      (stretch_n))

v4_ranges : Agrees 0 (2 ^ 32)
v4_ranges =
    joined 0 (quad 192 168 0 0) (2 ^ 32) (omega arith) (omega arith)
      (joined 0 (quad 168 63 129 16) (quad 192 168 0 0) (omega arith) (omega arith) below_quarter
        below_half)
      (joined (quad 192 168 0 0) (quad 203 0 114 0) (2 ^ 32) (omega arith) (omega arith) below_most
        last)

-- The number of an address, in the bits of its kind.
abbrev pub Fits : Ip → Type 0
Fits (v4 n) = n < 2 ^ 32
Fits (v6 n) = n < 2 ^ 128
Fits malformed = Unit

-- The ranges an address is looked up in; the mapped addresses of IPv4 are looked up in those of IPv4.
abbrev pub listed : Ip → Bool
listed (v4 n) = in_ranges public_v4 n
listed (v6 n) =
    if n / 2 ^ 32 == 65535 then in_ranges public_v4 (n % 2 ^ 32) else in_ranges public_v6 n
listed malformed = false

-- An address is accepted exactly when it lies in one of the public ranges of its kind: thirteen
-- ranges for IPv4, which are also those of the mapped addresses of IPv6, and four for IPv6. The
-- address is a number of 32 or 128 bits.
public_ip-listed : (ip : Ip) → Fits ip → public_ip ip ≡ listed ip
unfolding public_ip public_unmapped unmap
public_ip-listed (v4 n) lt = v4_ranges n (omega arith) lt
public_ip-listed (v6 n) lt = elim (Bool-cases (n / 2 ^ 32 == 65535)) [
  | inl mapped ↦ ground (arith, v4_ranges (n % 2 ^ 32) (omega arith) (omega arith))
  | inr other ↦ ground (arith, v6_ranges n lt)
]
public_ip-listed malformed lt = refl
