-- ===== src/Behavior/Destination.antt =====
-- behavior_memory.py, the address tests of a connect: what `ipaddress` says of 4 or 16 bytes.
use e_bpf_based_kernel_ai_se.Prelude.{
  ℕ, List, Option, none, some, Bool, false, ◌&&◌, ◌||◌, if◌then◌else◌, ◌==◌, leb, all, take, drop,
  get_or,
}
use e_bpf_based_kernel_ai_se.Bytes.{slice}

pub data Address : Type 0 where
  v4 : List ℕ → Address
  v6 : List ℕ → Address

-- `event[184:188] if family == 2 else event[184:200]`
unfoldable pub address_of : ℕ → List ℕ → Address
address_of family event = if family == 2 then v4 (slice 184 4 event) else v6 (slice 184 16 event)

abbrev zeros : List ℕ → Bool
zeros = all (λ b. b == 0)

-- `::ffff:a.b.c.d`
unfoldable pub ipv4_mapped : Address → Option Address
ipv4_mapped (v4 b) = none
ipv4_mapped (v6 b) =
    if zeros (take 10 b) && ((get_or b 10 0 == 255) && (get_or b 11 0 == 255))
    then some (v4 (drop 12 b))
    else none

-- 127.0.0.0/8 and ::1
unfoldable pub is_loopback : Address → Bool
is_loopback (v4 b) = get_or b 0 0 == 127
is_loopback (v6 b) = zeros (take 15 b) && (get_or b 15 0 == 1)

unfoldable pub is_unspecified : Address → Bool
is_unspecified (v4 b) = zeros b
is_unspecified (v6 b) = zeros b

-- 224.0.0.0/4 and ff00::/8
unfoldable pub is_multicast : Address → Bool
is_multicast (v4 b) = leb 224 (get_or b 0 0) && leb (get_or b 0 0) 239
is_multicast (v6 b) = get_or b 0 0 == 255

abbrev or_self : Option Address → Address → Address
or_self none a = a
or_self (some b) a = b

abbrev mapped_loopback : Option Address → Bool
mapped_loopback none = false
mapped_loopback (some b) = is_loopback b

unfoldable pub loops_back : Address → Bool
unfolding ipv4_mapped is_loopback
loops_back a = is_loopback a || mapped_loopback (ipv4_mapped a)

-- The tests on `destination`, the mapped address where there is one.
unfoldable pub unsupported : Address → Bool
unfolding ipv4_mapped is_unspecified is_multicast
unsupported a =
    let destination = or_self (ipv4_mapped a) a in
    is_unspecified destination || is_multicast destination
