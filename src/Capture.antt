-- ===== src/Capture.antt =====
-- agent/ai/experiments/event-time-v1/src/extract.py: what it reads from an event, which detect2.py
-- uses too. Texts are bytes, as the decoding with "replace" leaves every ASCII byte in its place.
pub mod Calls
use e_bpf_based_kernel_ai_se.Prelude.{
  ℕ, List, [], ◌∷◌, ◌++◌, Bool, true, false, ◌&&◌, ◌||◌, not, if◌then◌else◌, ◌==◌, get_or,
}
use e_bpf_based_kernel_ai_se.Bytes.{u16, u32, u64, slice, until_nul}

-- `cstr(buf, off, n)`
unfoldable pub cstr : List ℕ → ℕ → ℕ → List ℕ
cstr buf off n = until_nul (slice off n buf)

-- The four numbers that `ipv4` joins with dots.
unfoldable pub ipv4 : List ℕ → ℕ → List ℕ
ipv4 buf off = slice off 4 buf

pub record FileAccess : Type 0 where
  pub p : List ℕ
  pub fl : ℕ
  pub m : ℕ

pub record Connect : Type 0 where
  pub port : ℕ
  pub fam : ℕ
  pub addr : List ℕ

-- An entry of `files`: the path at 120, the flags at 108, the mode at 112.
unfoldable pub file_access : List ℕ → FileAccess
unfolding cstr
file_access ev = record { p = cstr ev 120 256; fl = u32 108 ev; m = u32 112 ev }

-- An entry of `nets`: the port at 158, the family at 152, the address at 184.
unfoldable pub connect : List ℕ → Connect
unfolding ipv4
connect ev = record { port = u16 158 ev; fam = u16 152 ev; addr = ipv4 ev 184 }

-- The file name of an exec at 104.
unfoldable pub exec_name : List ℕ → List ℕ
unfolding cstr
exec_name ev = cstr ev 104 256

-- `magic != b"EBPF" or wire != 1 or little != 1` on the 12 bytes of a frame header.
unfoldable pub is_corrupt : List ℕ → Bool
is_corrupt h =
    not (
      (get_or h 0 0 == b'E')
      && ((get_or h 1 0 == b'B') && ((get_or h 2 0 == b'P') && (get_or h 3 0 == b'F'))))
    || (not (get_or h 4 0 == 1) || not (get_or h 5 0 == 1))
