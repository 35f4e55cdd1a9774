-- ===== src/Peers/I2c.antt =====
-- `I2CTarget` of host/pe_host/peers.py.
pub mod Driving
pub mod Masks
use ttihp_protocol_emulator.Prelude.{
  ℕ, suc, ◌+◌, ◌-◌, ◌*◌, ◌/◌, ◌%◌, ◌^◌, bit_or, Bool, true, false, not, ◌&&◌, ◌||◌, Option, none,
  some, List, [], ◌∷◌, ◌++◌, length, get_or, any, nonzero, ltb, ◌==◌, if◌then◌else◌, to_ℕ,
}
use ttihp_protocol_emulator.Prelude.Bits.{bit, differs}

pub data State : Type 0 where
  idle address write ack ignore read master_ack wait_stop : State

pub record I2cTarget : Type 0 where
  pub target_address : ℕ
  pub scl : ℕ
  pub sda : ℕ
  pub read_bytes : List ℕ
  pub stretch_cycles : ℕ
  pub nack_bytes : List ℕ
  pub received : List ℕ
  pub master_acks : List Bool
  pub starts : ℕ
  pub stops : ℕ
  pub repeated_starts : ℕ
  pub violations : List ℕ
  pub state : State
  pub last_scl : Option Bool
  pub last_sda : Bool
  pub bits : ℕ
  pub byte : ℕ
  pub sda_low : Bool
  pub stretch : ℕ
  pub reading : Bool
  pub read_index : ℕ
  pub tx : ℕ
  pub ack_pending : Bool
  pub in_transaction : Bool
  pub byte_index : ℕ

-- `I2CTarget(address, scl, sda, read_bytes, stretch_cycles, nack_bytes)`
abbrev pub new_target : ℕ → ℕ → ℕ → List ℕ → ℕ → List ℕ → I2cTarget
new_target addr scl sda read_bytes stretch_cycles nack_bytes = record {
  target_address = addr;
  scl = scl;
  sda = sda;
  read_bytes = read_bytes;
  stretch_cycles = stretch_cycles;
  nack_bytes = nack_bytes;
  received = [];
  master_acks = [];
  starts = 0;
  stops = 0;
  repeated_starts = 0;
  violations = [];
  state = State.idle;
  last_scl = none;
  last_sda = true;
  bits = 0;
  byte = 0;
  sda_low = false;
  stretch = 0;
  reading = false;
  read_index = 0;
  tx = 0;
  ack_pending = false;
  in_transaction = false;
  byte_index = 0;
}

abbrev pub begin_byte : I2cTarget → I2cTarget
begin_byte t = record t { bits = 0; byte = 0 }

-- SDA falls while SCL is high: START, or a repeated one
unfoldable pub on_start : I2cTarget → I2cTarget
on_start t = record (begin_byte t) {
  repeated_starts = if t.in_transaction then t.repeated_starts + 1 else t.repeated_starts;
  starts = t.starts + 1;
  in_transaction = true;
  state = State.address;
  byte_index = 0;
  sda_low = false;
}

-- the states in which the target collects a byte
abbrev pub collects : State → Bool
collects State.address = true
collects State.write = true
collects _ = false

-- SDA rises while SCL is high: STOP. A violation is its cycle.
unfoldable pub on_stop : ℕ → I2cTarget → I2cTarget
on_stop cycle t = record t {
  violations =
      if collects t.state && ltb 1 t.bits then t.violations ++ cycle ∷ [] else t.violations;
  stops = t.stops + 1;
  in_transaction = false;
  state = State.idle;
  sda_low = false;
}

-- SCL rises: the target samples
abbrev pub on_rise : State → Bool → I2cTarget → I2cTarget
on_rise State.address sda t = record t {
  byte = bit_or (t.byte * 2) (to_ℕ sda) % 256;
  bits = t.bits + 1;
}
on_rise State.write sda t = record t {
  byte = bit_or (t.byte * 2) (to_ℕ sda) % 256;
  bits = t.bits + 1;
}
on_rise State.read sda t = record t { bits = t.bits + 1 }
on_rise State.master_ack sda t = record t {
  master_acks = t.master_acks ++ not sda ∷ [];
  ack_pending = not sda;
}
on_rise _ sda t = t

-- the byte that is complete is acknowledged, or not
unfoldable pub on_byte : Bool → I2cTarget → I2cTarget
on_byte addressed t =
    let acked =
      not (any (λ n. n == t.byte_index) t.nack_bytes)
      && (not addressed || t.byte / 2 == t.target_address) in
    record t {
      received = t.received ++ t.byte ∷ [];
      reading = if addressed then bit t.byte 0 else t.reading;
      byte_index = t.byte_index + 1;
      sda_low = acked;
      state = if acked then State.ack else State.ignore;
    }

-- the next byte that is served
abbrev pub serve : ℕ → I2cTarget → I2cTarget
serve index t =
    let tx = get_or t.read_bytes (index % length t.read_bytes) 0 % 256 in
    record t { state = State.read; tx = tx; bits = 0; sda_low = not (bit tx 7); read_index = index }

-- SCL falls: the target changes what it drives
abbrev pub on_fall : State → I2cTarget → I2cTarget
on_fall State.address t = if t.bits == 8 then on_byte true t else t
on_fall State.write t = if t.bits == 8 then on_byte false t else t
on_fall State.ack t =
    if t.reading
    then serve t.read_index t
    else record (begin_byte t) { state = State.write; sda_low = false }
on_fall State.read t =
    if ltb t.bits 8
    then record t { sda_low = not (bit t.tx (7 - t.bits)) }
    else record t { sda_low = false; state = State.master_ack }
on_fall State.master_ack t =
    if t.ack_pending
    then serve (t.read_index + 1) t
    else record t { read_index = t.read_index + 1; state = State.wait_stop; sda_low = false }
on_fall _ t = t

-- the edges of one cycle, between the levels before and the levels now
unfoldable pub edges : ℕ → Bool → Bool → Bool → Bool → I2cTarget → I2cTarget
unfolding on_start on_stop on_byte
edges cycle pscl psda scl sda t =
    if pscl && (scl && differs psda sda)
    then (if not sda then on_start t else on_stop cycle t)
    else if not pscl && scl
    then on_rise t.state sda t
    else if pscl && not scl
    then on_fall t.state
        (record t { stretch = if nonzero t.stretch_cycles then t.stretch_cycles else t.stretch })
    else t

-- the drive of the cycle; the values are always 0
unfoldable pub drive : I2cTarget → I2cTarget × ℕ
drive t =
    let en = if t.sda_low then 2 ^ t.sda else 0 in
    if nonzero t.stretch
    then (record t { stretch = t.stretch - 1 }, bit_or en (2 ^ t.scl))
    else (t, en)

-- a step, by the level of SCL that was seen last
unfoldable pub step_from : Option Bool → ℕ → ℕ → I2cTarget → I2cTarget × ℕ × ℕ
unfolding edges drive
step_from none cycle pads t =
    (record t { last_scl = some (bit pads t.scl); last_sda = bit pads t.sda }, 0, 0)
step_from (some pscl) cycle pads t =
    let scl = bit pads t.scl in
    let sda = bit pads t.sda in
    let t' = edges cycle pscl t.last_sda scl sda t in
    let (t'', en) = drive (record t' { last_scl = some scl; last_sda = sda }) in (t'', en, 0)

unfoldable pub i2c_step : ℕ → ℕ → I2cTarget → I2cTarget × ℕ × ℕ
unfolding step_from
i2c_step cycle pads t = step_from t.last_scl cycle pads t
