-- ===== src/Cap.antt =====
-- Capabilities: kernel/src/cap.rs. The capability type with its codes for the system calls, and
-- the two ranges of ports; the tables of all domains are in Cap/Table.antt.
pub mod Slots
pub mod Table
pub mod Held
pub mod Handles
pub mod Encoding
pub mod Authority
pub mod Delegate
mod Tests
use Prim.Native.Nat.{bit_or}
use morion_os.Prelude.{
  ℕ, ◌+◌, ◌-◌, ◌*◌, ◌/◌, ◌%◌, ◌^◌, Bool, ◌&&◌, Option, none, some, ltb, leb, ◌==◌, if◌then◌else◌,
  ℕ_discrete,
}

-- `Capability`. The `u8`, `u16` and `u64` arguments are numbers; `IsWord` says their ranges.
pub data Capability : Type 0 where
  send_to : ℕ → Capability
  map_into : ℕ → Capability
  irq : ℕ → Capability
  mmio : ℕ → Capability
  io_port : ℕ → ℕ → Capability
  net : ℕ → ℕ → Capability
  fb : Capability
  spawn : Capability

-- The derived `PartialEq`.
unfoldable pub Capability-discrete : Discrete Capability
unfolding ℕ_discrete
Capability-discrete = hlevel ℕ_discrete

-- `CAP_SLOTS` and `HANDLE_SLOTS`
abbrev pub cap_slots : ℕ
cap_slots = 32

abbrev pub handle_slots : ℕ
handle_slots = 32

-- `CAP_KIND_*`
abbrev pub kind_send_to : ℕ
kind_send_to = 0

abbrev pub kind_map_into : ℕ
kind_map_into = 1

abbrev pub kind_irq : ℕ
kind_irq = 2

abbrev pub kind_mmio : ℕ
kind_mmio = 3

abbrev pub kind_spawn : ℕ
kind_spawn = 4

abbrev pub kind_fb : ℕ
kind_fb = 5

abbrev pub kind_io_port : ℕ
kind_io_port = 6

abbrev pub kind_net : ℕ
kind_net = 7

-- `as u16`
abbrev pub u16 : ℕ → ℕ
u16 n = n % 2 ^ 16

decode_io_port : ℕ → Option Capability
decode_io_port arg =
    let base = u16 (arg / 2 ^ 16) in
    let len = u16 arg in if leb (base + len) 0x10000 then some (io_port base len) else none

decode_net : ℕ → Option Capability
decode_net arg =
    let lo = u16 (arg / 2 ^ 16) in let hi = u16 arg in if leb lo hi then some (net lo hi) else none

-- `decode`: the arms in their order, a guard that fails falling through to the last arm.
unfoldable pub decode : ℕ → ℕ → Option Capability
unfolding decode_io_port decode_net
decode kind arg =
    if kind == kind_send_to
    then some (send_to arg)
    else if kind == kind_map_into
    then some (map_into arg)
    else if kind == kind_irq && leb arg 255
    then some (irq (arg % 2 ^ 8))
    else if kind == kind_mmio && (arg % 2 ^ 12 == 0)
    then some (mmio arg)
    else if kind == kind_spawn
    then some spawn
    else if kind == kind_fb
    then some fb
    else if kind == kind_io_port && (arg / 2 ^ 32 == 0) && ltb 0 (arg % 2 ^ 16)
    then decode_io_port arg
    else if kind == kind_net && (arg / 2 ^ 32 == 0)
    then decode_net arg
    else none

-- The pair that `pack_audit` makes of a capability.
unfoldable pub code : Capability → ℕ × ℕ
code (send_to d) = (kind_send_to, d)
code (map_into d) = (kind_map_into, d)
code (irq v) = (kind_irq, v)
code (mmio p) = (kind_mmio, p)
code spawn = (kind_spawn, 0)
code fb = (kind_fb, 0)
code (io_port base len) = (kind_io_port, bit_or (base * 2 ^ 16) len)
code (net lo hi) = (kind_net, bit_or (lo * 2 ^ 16) hi)

-- `pack_audit`: the shift drops what leaves the 64 bits.
unfoldable pub pack_audit : Capability → ℕ
pack_audit cap = let (kind, arg) = code cap in bit_or ((kind + 1) * 2 ^ 56 % 2 ^ 64) arg

-- `port_in_range`: the half-open range `[base, base + len)`.
unfoldable pub port_in_range : ℕ → ℕ → ℕ → Bool
port_in_range base len port = leb base port && ltb port (base + len)

-- `net_port_in_range`: the closed range `[lo, hi]`.
unfoldable pub net_port_in_range : ℕ → ℕ → ℕ → Bool
net_port_in_range lo hi port = leb lo port && leb port hi
