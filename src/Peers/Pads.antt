-- ===== src/Peers/Pads.antt =====
-- `Environment` and `PadCapture` of host/pe_host/peers.py: several devices on one set of pads.
use ttihp_protocol_emulator.Prelude.{
  ℕ, ◌%◌, ◌^◌, bit_and, bit_or, ◌&&◌, Option, some, is_some, List, [], ◌∷◌, ◌++◌, length, ltb, leb,
  nonzero, if◌then◌else◌,
}
use ttihp_protocol_emulator.Prelude.Bits.{and_not}
use ttihp_protocol_emulator.Peers.Uart.{UartSource, UartMonitor, source_step, monitor_step}
use ttihp_protocol_emulator.Peers.Spi.{SpiTarget, spi_step}
use ttihp_protocol_emulator.Peers.I2c.{I2cTarget, i2c_step}

pub record PadCapture : Type 0 where
  pub first : Option ℕ
  pub start : ℕ
  pub limit : ℕ
  pub samples : List ℕ

unfoldable pub capture_step : ℕ → ℕ → PadCapture → PadCapture
capture_step cycle pads c =
    if leb c.start cycle && ltb (length c.samples) c.limit
    then record c {
      first = if is_some c.first then c.first else some cycle;
      samples = c.samples ++ pads % 256 ∷ [];
    }
    else c

-- the subclasses of `Peer`, and `Peer` itself
pub data Device : Type 0 where
  plain : Device
  uart_source : UartSource → Device
  uart_monitor : UartMonitor → Device
  spi : SpiTarget → Device
  i2c : I2cTarget → Device
  capture : PadCapture → Device

-- `mask`
unfoldable pub mask : Device → ℕ
mask plain = 0
mask (uart_source u) = 2 ^ u.pin
mask (uart_monitor m) = 0
mask (spi t) = 2 ^ t.miso
mask (i2c t) = bit_or (2 ^ t.scl) (2 ^ t.sda)
mask (capture c) = 0

-- `step`: the device after it, what it drives, and the values
unfoldable pub step : ℕ → ℕ → Device → Device × ℕ × ℕ
unfolding capture_step source_step monitor_step spi_step i2c_step
step cycle pads plain = (plain, 0, 0)
step cycle pads (uart_source u) = let (e, v) = source_step u cycle pads in (uart_source u, e, v)
step cycle pads (uart_monitor m) = (uart_monitor (monitor_step cycle pads m), 0, 0)
step cycle pads (spi t) = let (t', e, v) = spi_step t pads in (spi t', e, v)
step cycle pads (i2c t) = let (t', e, v) = i2c_step cycle pads t in (i2c t', e, v)
step cycle pads (capture c) = (capture (capture_step cycle pads c), 0, 0)

unfoldable pub masks : List Device → ℕ → ℕ
unfolding mask
masks [] all = all
masks (d ∷ ds) all = masks ds (bit_or all (mask d))

-- drivers of one pin combine as wired-AND: `en |= e; val &= v | (~e & 0xFF)`
abbrev pub joined : ℕ → ℕ → ℕ × ℕ → ℕ × ℕ
joined e v (en, val) =
    if nonzero e then (bit_or en e, bit_and val (bit_or v (and_not 255 e))) else (en, val)

unfoldable pub step_all : ℕ → ℕ → List Device → ℕ × ℕ → List Device × ℕ × ℕ
unfolding step
step_all cycle pads [] (en, val) = ([], en, val)
step_all cycle pads (d ∷ ds) acc =
    let (d', e, v) = step cycle pads d in
    let (ds', en, val) = step_all cycle pads ds (joined e v acc) in (d' ∷ ds', en, val)

-- `Environment.step`
unfoldable pub environment_step : ℕ → ℕ → List Device → List Device × ℕ × ℕ
unfolding step_all
environment_step cycle pads ds =
    let (ds', en, val) = step_all cycle pads ds (0, 255) in (ds', en, bit_and val en)
