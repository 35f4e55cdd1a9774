-- ===== src/Peers/Spi.antt =====
-- `SpiTarget` of host/pe_host/peers.py.
use ttihp_protocol_emulator.Prelude.{
  ℕ, ◌+◌, ◌*◌, ◌%◌, ◌^◌, bit_or, Bool, true, false, not, ◌&&◌, Option, none, some, List, [], ◌∷◌,
  ◌++◌, length, get_or, nonzero, ◌==◌, if◌then◌else◌, to_ℕ,
}
use ttihp_protocol_emulator.Prelude.Bits.{bit, differs}

pub data Violation : Type 0 where
  sck_not_idle : Violation
  released_after : ℕ → Violation

pub record SpiTarget : Type 0 where
  pub mode : ℕ
  pub responses : List ℕ
  pub sck : ℕ
  pub mosi : ℕ
  pub miso : ℕ
  pub cs : ℕ
  pub received : List ℕ
  pub violations : List Violation
  pub previous_sck : Option Bool
  pub previous_cs : Bool
  pub shift_in : ℕ
  pub bits_in : ℕ
  pub out : ℕ
  pub miso_level : Bool
  pub index : ℕ

-- `SpiTarget(mode, responses, sck, mosi, miso, cs)`
abbrev pub new_target : ℕ → List ℕ → ℕ → ℕ → ℕ → ℕ → SpiTarget
new_target mode responses sck mosi miso cs = record {
  mode = mode;
  responses = responses;
  sck = sck;
  mosi = mosi;
  miso = miso;
  cs = cs;
  received = [];
  violations = [];
  previous_sck = none;
  previous_cs = true;
  shift_in = 0;
  bits_in = 0;
  out = 0;
  miso_level = true;
  index = 0;
}

abbrev pub cpol : SpiTarget → Bool
cpol t = bit t.mode 1

abbrev pub cpha : SpiTarget → Bool
cpha t = bit t.mode 0

-- CS falls
unfoldable pub selected : SpiTarget → Bool → SpiTarget
selected t sck =
    let out = get_or t.responses (t.index % length t.responses) 0 % 256 in
    record t {
      out = out;
      index = t.index + 1;
      shift_in = 0;
      bits_in = 0;
      violations =
          if differs sck (cpol t)
          then t.violations ++ Violation.sck_not_idle ∷ []
          else t.violations;
      miso_level = if not (cpha t) then bit out 7 else t.miso_level;
    }

-- CS rises
unfoldable pub deselected : SpiTarget → SpiTarget
deselected t =
    if nonzero (t.bits_in % 8)
    then record t { violations = t.violations ++ Violation.released_after t.bits_in ∷ [] }
    else t

unfoldable pub sampled : SpiTarget → Bool → SpiTarget
sampled t mosi =
    let byte = bit_or (t.shift_in * 2) (to_ℕ mosi) % 256 in
    record t {
      shift_in = byte;
      bits_in = t.bits_in + 1;
      received = if (t.bits_in + 1) % 8 == 0 then t.received ++ byte ∷ [] else t.received;
    }

-- the edge that changes MISO
unfoldable pub shifted : SpiTarget → SpiTarget
shifted t =
    let out = t.out * 2 % 256 in
    record t { out = out; miso_level = if cpha t then bit t.out 7 else bit out 7 }

unfoldable pub update : SpiTarget → ℕ → SpiTarget
unfolding selected deselected sampled shifted
update t pads =
    let cs = bit pads t.cs in
    let sck = bit pads t.sck in
    let mosi = bit pads t.mosi in
    let moved : Bool = elim t.previous_sck [ none ↦ false | some before ↦ differs sck before ] in
    let leading = differs sck (cpol t) in
    let t' : SpiTarget =
      if t.previous_cs && not cs
      then selected t sck
      else if not t.previous_cs && cs
      then deselected t
      else if not cs && moved
      then (if differs leading (cpha t) then sampled t mosi else shifted t)
      else t in
    record t' { previous_cs = cs; previous_sck = some sck }

unfoldable pub spi_step : SpiTarget → ℕ → SpiTarget × ℕ × ℕ
unfolding update
spi_step t pads = let t' = update t pads in (t', 2 ^ t.miso, to_ℕ t'.miso_level * 2 ^ t.miso)
