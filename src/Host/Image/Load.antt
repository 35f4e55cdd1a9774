-- ===== src/Host/Image/Load.antt =====
-- Loading a verified firmware image: `load_image` of host/pe_host/host.py.
use ttihp_protocol_emulator.Prelude.{ℕ, Bool, true, false, Option, none, some}
use ttihp_protocol_emulator.Host.Driver.{Port, Settings, Action, pure, lift, ◌>>=◌, ◌>>◌}
use ttihp_protocol_emulator.Host.Reads.{check_isa, load_program}
use ttihp_protocol_emulator.Host.Image.{Architecture, FirmwareImage, check_binding, check_image_isa}

-- `if check_isa:`
abbrev pub when_checked : {P : Type 0} → Bool → Action P (Unit {0}) → Action P (Unit {0})
when_checked true m = m
when_checked false m = pure tt

-- `load_image(image, ...)` of an image that is loaded already; `cfg` holds the figures of `device`
unfoldable pub load_image :
    {P : Type 0}
    → Port P
    → Settings
    → Architecture
    → FirmwareImage
    → Option ℕ
    → Bool
    → Bool
    → Action P ℕ
unfolding check_binding check_image_isa check_isa load_program
load_image port cfg device image engine is_checked verify = do
  lift (check_binding (λ key. false) device image)
  when_checked is_checked (check_isa port cfg >>= λ version. lift (check_image_isa version image))
  load_program port cfg (elim engine [ none ↦ image.engine | some n ↦ n ]) image.words
      image.owned_pins image.open_drain verify
