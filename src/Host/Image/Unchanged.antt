-- ===== src/Host/Image/Unchanged.antt =====
-- What `check_isa` of a firmware image says of its instructions.
use ttihp_protocol_emulator.Prelude.{
  ℕ, zero, suc, ◌+◌, ◌/◌, ◌%◌, ◌^◌, ◌<◌, Bool, true, false, not, ◌&&◌, ◌≡◌, ◌⊎◌, refl, List, [],
  ◌∷◌, length, get_or, nonempty, ltb, leb, if◌then◌else◌, ◌==◌, arith,
}
use ttihp_protocol_emulator.Prelude.Results.{ok, require}
use ttihp_protocol_emulator.Host.{HostError}
use ttihp_protocol_emulator.Host.Image.{
  FirmwareImage, is_different, isa3_differences, check_image_isa,
}
use ttihp_protocol_emulator.Host.Image.Fits.{require-ok}

-- The instructions of docs/isa.md, "ISA version", that every version-3 device runs alike.
unfoldable pub RunsUnchanged : ℕ → Type 0
RunsUnchanged word =
    ((word / 2 ^ 24 ≡ 24) ⊎ (word / 2 ^ 24 ≡ 25) → word % 256 % 8 ≡ 0)
    × ((word / 2 ^ 24 ≡ 5) ⊎ (word / 2 ^ 24 ≡ 11) → word % 2 ^ 24 < 128)
    × (word / 2 ^ 24 ≡ 26 → word % 2 ^ 16 < 128)

same-RunsUnchanged : (word : ℕ) → is_different word ≡ false → RunsUnchanged word
unfolding is_different RunsUnchanged
same-RunsUnchanged word h =
    (λ k. ground (arith, h, k), λ k. ground (arith, h, k), λ k. ground (arith, h, k))

none-here :
    (b : Bool) (pc : ℕ) (rest : List ℕ)
    → nonempty (if b then pc ∷ rest else rest) ≡ false
    → b ≡ false
none-here true pc rest h = cc
none-here false pc rest h = refl

none-later :
    (b : Bool) (pc : ℕ) (rest : List ℕ)
    → nonempty (if b then pc ∷ rest else rest) ≡ false
    → nonempty rest ≡ false
none-later true pc rest h = cc
none-later false pc rest h = h

none-RunsUnchanged :
    (pc : ℕ) (words : List ℕ)
    → nonempty (isa3_differences pc words) ≡ false
    → (i : ℕ) → i < length words
    → RunsUnchanged (get_or words i 0)
unfolding isa3_differences
none-RunsUnchanged pc [] h i k = absurd (omega arith)
none-RunsUnchanged pc (word ∷ words) h zero k =
    same-RunsUnchanged word (none-here (is_different word) pc _ h)
none-RunsUnchanged pc (word ∷ words) h (suc i) k =
    none-RunsUnchanged (pc + 1) words (none-later (is_different word) pc _ h) i (omega arith)

checked-none :
    (t b : Bool)
    → t ≡ true
    → (if t then require (not b) HostError.image_error else ok tt) ≡ ok tt
    → b ≡ false
checked-none true true h k = cc
checked-none true false h k = refl
checked-none false b h k = cc

-- On a version-3 device, whatever the version's higher bits, an image of an older version that passes
-- `check_isa` has only shifts by a byte lane, and jumps, loops and JZs to a target below 128.
pub check_image_isa-RunsUnchanged :
    (version : ℕ) (image : FirmwareImage)
    → version % 256 ≡ 3
    → image.isa_version < 3
    → check_image_isa version image ≡ ok tt
    → (i : ℕ) → i < length image.words
    → RunsUnchanged (get_or image.words i 0)
unfolding check_image_isa
check_image_isa-RunsUnchanged version image v o h =
    let (p, q) = require-ok (leb image.isa_version version) _ _ h in
    none-RunsUnchanged 0 image.words
      (checked-none (version % 256 == 3 && ltb image.isa_version 3) _ (ground (arith, v, o)) q)
