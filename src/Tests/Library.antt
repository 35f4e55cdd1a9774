-- ===== src/Tests/Library.antt =====
-- The theorems on the host library and its peers at concrete inputs, and runs of its functions.
use ttihp_protocol_emulator.Prelude.{
  ℕ, ◌+◌, ◌*◌, ◌^◌, ◌≡◌, refl, true, false, none, some, Option, List, [], ◌∷◌, set, arith, ◌≢◌,
}
use ttihp_protocol_emulator.Prelude.Bits.{bit, and_not}
use ttihp_protocol_emulator.Prelude.Results.{ok}
use ttihp_protocol_emulator.Engine.{fresh}
use ttihp_protocol_emulator.Machine.{reset}
use ttihp_protocol_emulator.Machine.Read.{status_word}
use ttihp_protocol_emulator.Machine.Command
use ttihp_protocol_emulator.Host.{command_word, route_payload, decode_status}
use ttihp_protocol_emulator.Host.Encoders.{command-route, decode_status-status_word}
use ttihp_protocol_emulator.Host.Driver.{Port, Settings, new_host, write_word, read_word}
use ttihp_protocol_emulator.Host.Driver.Words.{logged}
use ttihp_protocol_emulator.Host.Driver.Words.Written.{Wrote, write_word-Wrote}
use ttihp_protocol_emulator.Host.Driver.Words.Received.{Read, paused, read_word-Read}
use ttihp_protocol_emulator.Host.Commands.{conclude}
use ttihp_protocol_emulator.Host.Commands.Tracking.{conclude-command}
use ttihp_protocol_emulator.Host.Sha.{sha256_py, bytecode_sha256}
use ttihp_protocol_emulator.Host.Image.{
  integer, text, ImageData, FirmwareImage, design_architecture, codes, firmware_image,
  architecture_differences, check_image_isa,
}
use ttihp_protocol_emulator.Host.Image.Fits.{Fits, firmware_image-Fits}
use ttihp_protocol_emulator.Host.Image.Unchanged.{RunsUnchanged, check_image_isa-RunsUnchanged}
use ttihp_protocol_emulator.Peers.I2c.{I2cTarget, new_target, i2c_step}
use ttihp_protocol_emulator.Peers.I2c.Masks.{Bus, fresh as unclocked, after, i2c_step-moves}
use ttihp_protocol_emulator.Tests.Scenario.{flagship}

-- "abc", with the digest of FIPS 180-4
sha256_abc :
    sha256_py (97 ∷ 98 ∷ 99 ∷ [])
    ≡ 186 ∷ 120 ∷ 22 ∷ 191 ∷ 143 ∷ 1 ∷ 207 ∷ 234 ∷ 65 ∷ 65 ∷ 64 ∷ 222 ∷ 93 ∷ 174 ∷ 34 ∷ 35 ∷ 176 ∷ 3
      ∷ 97 ∷ 163 ∷ 150 ∷ 23 ∷ 122 ∷ 156 ∷ 180 ∷ 16 ∷ 255 ∷ 97 ∷ 242 ∷ 0 ∷ 21 ∷ 173 ∷ []
unfolding sha256_py
sha256_abc = refl

-- a port that takes and gives a nibble in each cycle, the nibble 5
abbrev ready : Port (Unit {0})
ready = record {
  cycle = λ p ui. (tt, 0x35);
  reset = λ p cycles. tt;
  deselect = λ p cycles. tt;
  free_run = λ p cycles hz. tt;
  uo_visible = 0x80;
}

abbrev settings : Settings
settings = record {
  timeout = 10;
  engines = 4;
  program_words = 64;
  isa_versions = 2 ∷ [];
  strict = true;
}

write_word-Wrote_example :
    Wrote ready 0xe100_0002 3 []
      (write_word (logged ready) settings 2 0xe100_0002 (some 3) (new_host (tt, [])))
write_word-Wrote_example =
    write_word-Wrote ready settings 2 0xe100_0002 3 (new_host (tt, [])) (omega arith) (omega arith)
      (omega arith)

read_word-Read_example :
    Read ready 3
      (paused ready (1 ∷ []) 0 8)
      []
      (read_word (logged ready) settings 3 (some 3) (1 ∷ []) (new_host (tt, [])))
read_word-Read_example =
    read_word-Read ready settings 3 3 (1 ∷ []) (new_host (tt, [])) refl (omega arith)

-- SELECT 2 on a new machine
conclude-command_example :
    let h' = (conclude ready settings 0 2 none 0 (new_host tt)).1 in
    let m' = (Command.command flagship (reset flagship) 2).0 in
    (h'.selected ≡ m'.selected) × (h'.read_selected ≡ m'.read_select)
unfolding reset command_word
conclude-command_example =
    conclude-command ready flagship settings (reset flagship) (new_host tt) 0 2 2 0 none refl refl
      refl refl

-- a route of three words from engine 0 to engine 1
command-route_example : Command.command flagship (reset flagship) (6 * 2 ^ 24 + 116) ≡ (
  record (reset flagship) {
    routes = set (reset flagship).routes 0 (some (record { dest = 1; count = 3 }));
  },
  true,
)
unfolding command_word route_payload
command-route_example =
    command-route flagship (reset flagship) 0 1 3 116 (6 * 2 ^ 24 + 116) true (omega arith)
      (omega arith) refl refl

decode_status-status_word_example :
    decode_status (status_word (record fresh { fault = 3 })) (some 1) ≡ record {
      word = status_word (record fresh { fault = 3 });
      engine = some 1;
      running = false;
      committed = false;
      stalled = false;
      faulted = true;
      fault = 3;
    }
decode_status-status_word_example =
    decode_status-status_word (record fresh { fault = 3 }) (some 1) (omega arith)

-- "x" stands for an image of two words, FAULT and a jump to itself, for engine 1 with the pins 0 and 1
abbrev image_data : ImageData
image_data = record {
  schema_version = some (text (codes "protocol-emulator.firmware-image.v1"));
  isa_version = some (integer 1);
  name = some (text (codes "loop"));
  architecture = some (some design_architecture);
  engine = some (integer 1);
  owned_pins = some (integer 3);
  open_drain = some (integer 1);
  source_sha256 = some (text []);
  bytecode_sha256 = some (text (codes "0000"));
  words = some (some (integer 0x1d00_0001 ∷ integer 0x0500_0001 ∷ []));
}

abbrev image : FirmwareImage
image = record {
  isa_version = 1;
  architecture = design_architecture;
  engine = 1;
  owned_pins = 3;
  open_drain = 1;
  words = 0x1d00_0001 ∷ 0x0500_0001 ∷ [];
  source_verified = false;
}

-- a digest of two zero bytes for all data
abbrev zeros : Option (List ℕ → List ℕ)
zeros = some (λ bytes. 0 ∷ 0 ∷ [])

firmware_image-image : firmware_image zeros image_data none (some design_architecture) ≡ ok image
unfolding firmware_image and_not bytecode_sha256 architecture_differences
firmware_image-image = refl

firmware_image-Fits_example : Fits image
firmware_image-Fits_example =
    firmware_image-Fits zeros image_data none (some design_architecture) firmware_image-image

check_image-passes : check_image_isa 3 image ≡ ok tt
unfolding check_image_isa
check_image-passes = refl

check_image_isa-RunsUnchanged_example : RunsUnchanged 0x0500_0001
check_image_isa-RunsUnchanged_example =
    check_image_isa-RunsUnchanged 3 image refl (omega arith) check_image-passes 1 (omega arith)

-- the levels of SCL and SDA of a START and of the eight bits of address 0 with a write, up to the last rise
abbrev levels : List ℕ
levels = 192 ∷ 64 ∷ 0 ∷ 64 ∷ 0 ∷ 64 ∷ 0 ∷ 64 ∷ 0 ∷ 64 ∷ 0 ∷ 64 ∷ 0 ∷ 64 ∷ 0 ∷ 64 ∷ 0 ∷ []

abbrev driven : List ℕ → I2cTarget → I2cTarget
driven [] t = t
driven (pads ∷ rest) t = driven rest (i2c_step 0 pads t).0

-- a step with SDA low on the pads
low :
    {t : I2cTarget} {en : ℕ} (pads : ℕ)
    → Bus t en
    → t.sda ≡ 7
    → bit pads 7 ≡ false
    → Bus (i2c_step 0 pads t).0 (i2c_step 0 pads t).1
low pads b at h = after 0 pads b (λ _. rw at h)

abbrev before_last : I2cTarget
before_last = driven levels (new_target 0 6 7 [] 0 [])

abbrev addressed : I2cTarget
addressed = (i2c_step 0 64 before_last).0

abbrev mask : ℕ
mask = (i2c_step 0 64 before_last).1

addressed-Bus : Bus addressed mask
unfolding i2c_step bit
addressed-Bus =
    low 64
      (low 0
        (low 64
          (low 0
            (low 64
              (low 0
                (low 64
                  (low 0
                    (low 64
                      (low 0
                        (low 64
                          (low 0
                            (low 64
                              (low 0
                                (low 64
                                  (low 0
                                    (low 64
                                      (after 0 192 (unclocked 0 6 7 [] 0 [] (λ h. omega (arith, h)))
                                        (λ h. cc))
                                      refl refl)
                                    refl refl)
                                  refl refl)
                                refl refl)
                              refl refl)
                            refl refl)
                          refl refl)
                        refl refl)
                      refl refl)
                    refl refl)
                  refl refl)
                refl refl)
              refl refl)
            refl refl)
          refl refl)
        refl refl)
      refl refl

-- the fall of SCL at which the target acknowledges its address
i2c_step-moves_example :
    let r = i2c_step 0 0 addressed in
    (bit r.1 7 ≢ bit mask 7 → (addressed.last_scl ≡ some true) × (bit 0 6 ≡ false))
    × (bit mask 6 ≡ false → bit r.1 6 ≡ true → (addressed.last_scl ≡ some true) × (bit 0 6 ≡ false))
    × (r.2 ≡ 0)
unfolding i2c_step bit
i2c_step-moves_example = i2c_step-moves {t = addressed} {en = mask} 0 0 addressed-Bus (λ h. refl)

acknowledged : (i2c_step 0 0 addressed).1 ≡ 128
unfolding i2c_step bit
acknowledged = refl
