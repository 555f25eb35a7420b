-- ===== src/Sharing/Hosts.antt =====
-- Hosts that a public URL cannot have.
use ledgerly_app.Base.{
  ap₂, ℕ, ◌*◌, ◌+◌, ◌<◌, ◌≡◌, refl, Bool, ◌&&◌, ◌||◌, List, [], ◌∷◌, any, leb, ltb, arith, ◌==◌,
  text_eq, nat_eq,
}
use ledgerly_app.Sharing.PublicUrls.{is_reserved}

-- The 32-bit number of an address.
abbrev pub address : ℕ → ℕ → ℕ → ℕ → ℕ
address a b c d = ((a * 256 + b) * 256 + c) * 256 + d

-- The blocks of addresses that are not public: a first address and how many bits vary. The last one is
-- multicast and all that is above it.
abbrev pub blocks : List (ℕ × ℕ)
blocks =
    (address 0 0 0 0, 0x1000000)
    ∷ (address 10 0 0 0, 0x1000000)
    ∷ (address 127 0 0 0, 0x1000000)
    ∷ (address 224 0 0 0, 0x20000000)
    ∷ (address 100 64 0 0, 0x400000)
    ∷ (address 169 254 0 0, 0x10000)
    ∷ (address 172 16 0 0, 0x100000)
    ∷ (address 192 0 0 0, 0x100)
    ∷ (address 192 0 2 0, 0x100)
    ∷ (address 192 168 0 0, 0x10000)
    ∷ (address 198 18 0 0, 0x20000)
    ∷ (address 198 51 100 0, 0x100)
    ∷ (address 203 0 113 0, 0x100)
    ∷ []

abbrev pub in_block : ℕ → ℕ × ℕ → Bool
in_block n (first, size) = leb first n && ltb n (first + size)

either : {p q r t : Bool} → p ≡ q → r ≡ t → (p || r) ≡ (q || t)
either h k = ap₂ ◌||◌ h k

module _ (a b c d : ℕ) (ha : a < 256) (hb : b < 256) (hc : c < 256) (hd : d < 256) where
  this_network : (a == 0) ≡ in_block (address a b c d) (address 0 0 0 0, 0x1000000)
  this_network = ground (arith)

  private_ten : (a == 10) ≡ in_block (address a b c d) (address 10 0 0 0, 0x1000000)
  private_ten = ground (arith)

  loopback : (a == 127) ≡ in_block (address a b c d) (address 127 0 0 0, 0x1000000)
  loopback = ground (arith)

  multicast : (leb 224 a) ≡ in_block (address a b c d) (address 224 0 0 0, 0x20000000)
  multicast = ground (arith)

  shared_carrier :
      (a == 100 && leb 64 b && leb b 127)
      ≡ in_block (address a b c d) (address 100 64 0 0, 0x400000)
  shared_carrier = ground (arith)

  link_local : (a == 169 && b == 254) ≡ in_block (address a b c d) (address 169 254 0 0, 0x10000)
  link_local = ground (arith)

  private_middle :
      (a == 172 && leb 16 b && leb b 31) ≡ in_block (address a b c d) (address 172 16 0 0, 0x100000)
  private_middle = ground (arith)

  protocol_assignments :
      (a == 192 && b == 0 && c == 0) ≡ in_block (address a b c d) (address 192 0 0 0, 0x100)
  protocol_assignments = ground (arith)

  first_documentation :
      (a == 192 && b == 0 && c == 2) ≡ in_block (address a b c d) (address 192 0 2 0, 0x100)
  first_documentation = ground (arith)

  private_small : (a == 192 && b == 168) ≡ in_block (address a b c d) (address 192 168 0 0, 0x10000)
  private_small = ground (arith)

  benchmarks :
      ((a == 198 && (b == 18 || b == 19)))
      ≡ in_block (address a b c d) (address 198 18 0 0, 0x20000)
  benchmarks = ground (arith)

  second_documentation :
      (a == 198 && b == 51 && c == 100) ≡ in_block (address a b c d) (address 198 51 100 0, 0x100)
  second_documentation = ground (arith)

  third_documentation :
      (a == 203 && b == 0 && c == 113) ≡ in_block (address a b c d) (address 203 0 113 0, 0x100)
  third_documentation = ground (arith)

  -- The tests of octets are the table of blocks: an address is reserved exactly when its number is in
  -- one of them.
  pub reserved-blocks : is_reserved a b c ≡ any (in_block (address a b c d)) blocks
  unfolding is_reserved
  reserved-blocks = either this_network (
      either private_ten (
        either loopback (
          either multicast (
            either shared_carrier (
              either link_local (
                either private_middle (
                  either protocol_assignments (
                    either first_documentation (
                      either private_small (
                        either benchmarks
                          (either second_documentation (either third_documentation refl))))))))))))
