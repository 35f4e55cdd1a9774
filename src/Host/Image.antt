-- ===== src/Host/Image.antt =====
-- Firmware images in host/pe_host/image.py: their checks, their binding to a device, and loading.
pub mod Fits
pub mod Unchanged
pub mod Load
use Prim.Native.String.{String}
use Prim.Native.Char.{code}
use ttihp_protocol_emulator.Prelude.{
  ℕ, ◌+◌, ◌*◌, ◌/◌, ◌%◌, ◌^◌, Bool, true, false, not, ◌&&◌, ◌||◌, Option, none, some, List, [], ◌∷◌,
  length, nonempty, nonzero, ltb, leb, ◌==◌, any, is_some, if◌then◌else◌,
}
use ttihp_protocol_emulator.Prelude.Bits.{and_not}
use ttihp_protocol_emulator.Prelude.Results.{Result, ok, raise, ◌>>=◌, ◌>>◌, require}
use ttihp_protocol_emulator.Host.{HostError}
use ttihp_protocol_emulator.Host.Sha.{sha256_hex, bytecode_sha256}

-- the code points of a text
abbrev pub codes : String → List ℕ
codes String.[] = []
codes (String.◌∷◌ c s) = code c ∷ codes s

abbrev pub same_codes : List ℕ → List ℕ → Bool
same_codes [] [] = true
same_codes (x ∷ xs) (y ∷ ys) = x == y && same_codes xs ys
same_codes _ _ = false

-- What JSON may hold at a key. `whole` and `negative_whole` are floats without a fraction; `other`
-- is another float, a list or an object, numbered so that equal ones have one number.
pub data Value : Type 0 where
  null : Value
  boolean : Bool → Value
  integer negative whole negative_whole : ℕ → Value
  text : List ℕ → Value
  other : ℕ → Value

-- the number that `==` compares, with whether it is below zero
abbrev pub number : Value → Option (Bool × ℕ)
number (boolean false) = some (false, 0)
number (boolean true) = some (false, 1)
number (integer n) = some (false, n)
number (whole n) = some (false, n)
number (negative n) = some (true, n)
number (negative_whole n) = some (true, n)
number _ = none

abbrev pub same_number : Option (Bool × ℕ) → Option (Bool × ℕ) → Bool
same_number (some (false, n)) (some (false, m)) = n == m
same_number (some (true, n)) (some (true, m)) = n == m
same_number _ _ = false

-- `a == b`
unfoldable pub same_value : Value → Value → Bool
same_value null null = true
same_value (text a) (text b) = same_codes a b
same_value (other a) (other b) = a == b
same_value a b = same_number (number a) (number b)

-- `architecture[key]`, none where the key is missing; keys that are not read are left out
pub record Architecture : Type 0 where
  pub schema_version : Option Value
  pub engine_count : Option Value
  pub data_width : Option Value
  pub program_words : Option Value
  pub fifo_words : Option Value
  pub issue : Option Value
  pub prefetch : Option Value

-- `DESIGN_ARCHITECTURE`
abbrev pub design_architecture : Architecture
design_architecture = record {
  schema_version = some (text (codes "protocol-emulator.architecture.v1"));
  engine_count = some (integer 4);
  data_width = some (integer 32);
  program_words = some (integer 64);
  fifo_words = some (integer 8);
  issue = some (text (codes "fused"));
  prefetch = some (boolean false);
}

-- the values of `ARCHITECTURE_KEYS`, in order
abbrev pub architecture_values : Architecture → List (Option Value)
architecture_values a =
    a.schema_version ∷ a.engine_count ∷ a.data_width ∷ a.program_words ∷ a.fifo_words ∷ a.issue
    ∷ a.prefetch ∷ []

-- `_is_int(value) and value > 0`
abbrev pub positive : Option Value → Bool
positive (some (integer n)) = nonzero n
positive _ = false

abbrev pub is_text : Option Value → List ℕ → Bool
is_text (some (text t)) expected = same_codes t expected
is_text _ expected = false

-- an architecture that is not an object is none
unfoldable pub check_architecture : Option Architecture → Result HostError Architecture
check_architecture none = raise HostError.image_error
check_architecture (some a) = do
  require (not (any (λ v. not (is_some v)) (architecture_values a))) HostError.image_error
  require (is_text a.schema_version (codes "protocol-emulator.architecture.v1"))
      HostError.image_error
  require (positive a.engine_count) HostError.image_error
  require (positive a.data_width) HostError.image_error
  require (positive a.program_words) HostError.image_error
  require (positive a.fifo_words) HostError.image_error
  ok a

-- whether a word may run differently on a version-3 device
unfoldable pub is_different : ℕ → Bool
is_different word =
    let op = word / 2 ^ 24 in
    if (op == 24 || op == 25) && nonzero (word % 256 % 8)
    then true
    else if (op == 5 || op == 11) && leb 128 (word % 2 ^ 24)
    then true
    else op == 26 && leb 128 (word % 2 ^ 16)

-- the places of such words, without the reasons' text
unfoldable pub isa3_differences : ℕ → List ℕ → List ℕ
unfolding is_different
isa3_differences pc [] = []
isa3_differences pc (word ∷ words) =
    let rest = isa3_differences (pc + 1) words in if is_different word then pc ∷ rest else rest

-- `a != b` of two values that `.get` gives
abbrev pub differ_at : Option Value → Option Value → Bool
differ_at none none = false
differ_at none (some null) = false
differ_at (some null) none = false
differ_at (some a) (some b) = not (same_value a b)
differ_at _ _ = true

-- the places in `ARCHITECTURE_KEYS` whose values differ, `ignore` telling which to pass over
unfoldable pub differences : ℕ → (ℕ → Bool) → List (Option Value) → List (Option Value) → List ℕ
unfolding same_value
differences key ignore (a ∷ left) (b ∷ right) =
    let rest = differences (key + 1) ignore left right in
    if ignore key then rest else if differ_at a b then key ∷ rest else rest
differences key ignore _ _ = []

unfoldable pub architecture_differences : (ℕ → Bool) → Architecture → Architecture → List ℕ
unfolding differences
architecture_differences ignore image_arch device_arch =
    differences 0 ignore (architecture_values image_arch) (architecture_values device_arch)

-- The object of an image's JSON. `architecture` and `words` hold none under a key whose value is
-- not an object or a list.
pub record ImageData : Type 0 where
  pub schema_version : Option Value
  pub isa_version : Option Value
  pub name : Option Value
  pub architecture : Option (Option Architecture)
  pub engine : Option Value
  pub owned_pins : Option Value
  pub open_drain : Option Value
  pub source_sha256 : Option Value
  pub bytecode_sha256 : Option Value
  pub words : Option (Option (List Value))

-- a verified image, with the fields that the library reads
pub record FirmwareImage : Type 0 where
  pub isa_version : ℕ
  pub architecture : Architecture
  pub engine : ℕ
  pub owned_pins : ℕ
  pub open_drain : ℕ
  pub words : List ℕ
  pub source_verified : Bool

abbrev pub present {ℓ} : {A : Type ℓ} → Option A → Result HostError A
present none = raise HostError.image_error
present (some a) = ok a

-- `_is_int(value) and value >= 0`
abbrev pub natural : Value → Result HostError ℕ
natural (integer n) = ok n
natural _ = raise HostError.image_error

-- `_is_int(value) and 0 <= value <= limit`
unfoldable pub bounded : ℕ → Value → Result HostError ℕ
bounded limit v = do n ← natural v; require (leb n limit) HostError.image_error; ok n

unfoldable pub image_words : List Value → Result HostError (List ℕ)
unfolding bounded
image_words [] = ok []
image_words (v ∷ vs) = do word ← bounded 0xffffffff v; words ← image_words vs; ok (word ∷ words)

-- `0 <= engine < arch["engine_count"]`
unfoldable pub check_engine : Architecture → Value → Result HostError ℕ
check_engine a v = do
  engines ← present a.engine_count >>= natural
  engine ← natural v
  require (ltb engine engines) HostError.image_error
  ok engine

-- the two masks, the owned pins first
unfoldable pub check_pins : Value → Value → Result HostError (ℕ × ℕ)
unfolding bounded
check_pins owned drain = do
  owned_pins ← bounded 255 owned
  open_drain ← bounded 255 drain
  require (not (nonzero (and_not open_drain owned_pins))) HostError.image_error
  ok (owned_pins, open_drain)

unfoldable pub check_words : Architecture → Option (List Value) → Result HostError (List ℕ)
unfolding image_words
check_words a words = do
  listed ← present words
  require (nonempty listed) HostError.image_error
  room ← present a.program_words >>= natural
  require (leb (length listed) room) HostError.image_error
  image_words listed

-- a digest in the image against the one that was computed
abbrev pub check_digest : List ℕ → Value → Result HostError (Unit {0})
check_digest digest (text t) = require (same_codes digest t) HostError.image_error
check_digest digest _ = raise HostError.image_error

unfoldable pub check_binding :
    (ℕ → Bool) → Architecture → FirmwareImage → Result HostError (Unit {0})
unfolding architecture_differences
check_binding ignore device image =
    require (not (nonempty (architecture_differences ignore image.architecture device)))
      HostError.image_error

-- an image, checked against the device where one is given
unfoldable pub bound_to : Option Architecture → FirmwareImage → Result HostError FirmwareImage
unfolding check_binding
bound_to none image = ok image
bound_to (some device) image = do check_binding (λ _. false) device image; ok image

module _ (native : Option (List ℕ → List ℕ)) where
  unfoldable pub check_source : Option (List ℕ) → Value → Result HostError Bool
  check_source none expected = ok false
  check_source (some bytes) expected = do check_digest (sha256_hex native bytes) expected; ok true

  -- `_verify`, with the values that the constructor took from the object
  unfoldable pub verify :
      Option (List ℕ)
      → Value
      → Option Architecture
      → Value
      → Value
      → Value
      → Value
      → Value
      → Option (List Value)
      → Result HostError FirmwareImage
  unfolding check_architecture check_engine check_pins check_words check_source
  verify source isa arch engine owned open_drain source_sha bytecode_sha words = do
    isa_version ← natural isa
    require (leb 1 isa_version) HostError.image_error
    a ← check_architecture arch
    e ← check_engine a engine
    (owned_pins, drain) ← check_pins owned open_drain
    ws ← check_words a words
    check_digest (bytecode_sha256 native ws) bytecode_sha
    verified ← check_source source source_sha
    ok (record {
      isa_version = isa_version;
      architecture = a;
      engine = e;
      owned_pins = owned_pins;
      open_drain = drain;
      words = ws;
      source_verified = verified;
    })

  -- `FirmwareImage(data, source_bytes, architecture=device)` of an object
  unfoldable pub firmware_image :
      ImageData → Option (List ℕ) → Option Architecture → Result HostError FirmwareImage
  unfolding verify bound_to
  firmware_image d source device = do
    require (is_text d.schema_version (codes "protocol-emulator.firmware-image.v1"))
        HostError.image_error
    isa ← present d.isa_version
    name ← present d.name
    arch ← present d.architecture
    engine ← present d.engine
    owned ← present d.owned_pins
    drain ← present d.open_drain
    source_sha ← present d.source_sha256
    bytecode_sha ← present d.bytecode_sha256
    words ← present d.words
    image ← verify source isa arch engine owned drain source_sha bytecode_sha words
    bound_to device image

-- `FirmwareImage.check_isa`
unfoldable pub check_image_isa : ℕ → FirmwareImage → Result HostError (Unit {0})
unfolding isa3_differences
check_image_isa version image = do
  require (leb image.isa_version version) HostError.image_error
  if version % 256 == 3 && ltb image.isa_version 3
      then require (not (nonempty (isa3_differences 0 image.words))) HostError.image_error
      else ok tt
