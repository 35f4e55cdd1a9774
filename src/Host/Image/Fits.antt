-- ===== src/Host/Image/Fits.antt =====
-- What the checks of a firmware image say of an image that they accept.
use ttihp_protocol_emulator.Prelude.{
  ℕ, zero, suc, ◌^◌, ◌<◌, ◌≤◌, Bool, true, false, not, ◌≡◌, refl, ap, ◌∙◌, subst, Option, none,
  some, List, [], ◌∷◌, length, get_or, nonempty, nonzero, ltb, leb, ltb→lt, arith,
}
use ttihp_protocol_emulator.Prelude.Bits.{bit, and_not, subset_of-and_not}
use ttihp_protocol_emulator.Prelude.Results.{Result, ok, ◌>>=◌, ◌>>◌, require, >>=-eq-ok}
use ttihp_protocol_emulator.Host.{HostError}
use ttihp_protocol_emulator.Host.Sha.{bytecode_sha256}
use ttihp_protocol_emulator.Host.Image.{
  Value, null, boolean, integer, negative, whole, negative_whole, text, other, Architecture,
  ImageData, FirmwareImage, natural, bounded, image_words, present, check_digest, check_source,
  check_engine, check_pins, check_words, check_architecture, verify, bound_to, check_binding, codes,
  is_text, firmware_image,
}

-- What the loader of a device with the image's architecture needs.
pub record Fits (image : FirmwareImage) : Type 0 where
  pub nonempty : 0 < length image.words
  pub capacity :
      (n : ℕ) × (image.architecture.program_words ≡ some (integer n)) × (length image.words ≤ n)
  pub present : (n : ℕ) × (image.architecture.engine_count ≡ some (integer n)) × (image.engine < n)
  pub words : (i : ℕ) → get_or image.words i 0 < 2 ^ 32
  pub owned : image.owned_pins < 256
  pub drained : (i : ℕ) → bit image.open_drain i ≡ true → bit image.owned_pins i ≡ true

abbrev the_ok : {A : Type 0} → A → Result HostError A
the_ok a = ok a

ok-injective : {A : Type 0} {a b : A} → the_ok a ≡ the_ok b → a ≡ b
ok-injective h = cc

pub require-ok :
    {B : Type 0} (t : Bool) (e : HostError) (k : Result HostError B) {b : B}
    → (require t e >> k) ≡ ok b
    → (t ≡ true) × (k ≡ ok b)
require-ok true e k h = (refl, h)
require-ok false e k h = cc

natural-ok : (v : Value) {n : ℕ} → natural v ≡ ok n → v ≡ integer n
natural-ok (integer n) h = cc
natural-ok null h = cc
natural-ok (boolean b) h = cc
natural-ok (negative n) h = cc
natural-ok (whole n) h = cc
natural-ok (negative_whole n) h = cc
natural-ok (text t) h = cc
natural-ok (other n) h = cc

bounded-ok : (limit : ℕ) (v : Value) {n : ℕ} → bounded limit v ≡ ok n → n ≤ limit
unfolding bounded
bounded-ok limit v h =
    let (n, p, q) = >>=-eq-ok (natural v) _ h in
    let (r, s) = require-ok (leb n limit) _ _ q in ground (arith, r, s)

abbrev IsWordsOf : List Value → List ℕ → Type 0
IsWordsOf vs ws = (length ws ≡ length vs) × ((i : ℕ) → get_or ws i 0 < 2 ^ 32)

words-below :
    (w : ℕ) (ws : List ℕ)
    → w ≤ 0xffffffff
    → ((i : ℕ) → get_or ws i 0 < 2 ^ 32)
    → (i : ℕ) → get_or (w ∷ ws) i 0 < 2 ^ 32
words-below w ws h k zero = omega arith
words-below w ws h k (suc i) = k i

image_words-ok : (vs : List Value) {ws : List ℕ} → image_words vs ≡ ok ws → IsWordsOf vs ws
unfolding image_words
image_words-ok [] {ws} h = subst (λ l. IsWordsOf [] l) (ok-injective h) (refl, λ i. omega arith)
image_words-ok (v ∷ vs) {ws} h =
    let (w, p, q) = >>=-eq-ok (bounded 0xffffffff v) _ h in
    let (l, r, s) = >>=-eq-ok (image_words vs) _ q in
    let (m, below) = image_words-ok vs r in
    subst (λ l. IsWordsOf (v ∷ vs) l) (ok-injective s)
      (ap suc m, words-below w l (bounded-ok 0xffffffff v p) below)

present-ok : {A : Type 0} (o : Option A) {a : A} → present o ≡ ok a → o ≡ some a
present-ok none h = cc
present-ok (some a) h = cc

nonempty-lt :
    (vs : List Value) (ws : List ℕ) → nonempty vs ≡ true → length ws ≡ length vs → 0 < length ws
nonempty-lt [] ws h k = cc
nonempty-lt (v ∷ vs) ws h k = omega arith

module _ (a : Architecture) where
  check_engine-ok :
      (v : Value) {e : ℕ}
      → check_engine a v ≡ ok e
      → (n : ℕ) × (a.engine_count ≡ some (integer n)) × (e < n)
  unfolding check_engine
  check_engine-ok v h =
      let (n, p, q) = >>=-eq-ok (present a.engine_count >>= natural) _ h in
      let (w, r, s) = >>=-eq-ok (present a.engine_count) _ p in
      let (e, t, u) = >>=-eq-ok (natural v) _ q in
      let (x, y) = require-ok (ltb e n) _ _ u in
      (
        n,
        present-ok a.engine_count r ∙ ap some (natural-ok w s),
        subst (λ e. e < n) (ok-injective y) (ltb→lt e n x),
      )

  check_words-ok :
      (words : Option (List Value)) {ws : List ℕ}
      → check_words a words ≡ ok ws
      → (0 < length ws)
        × ((n : ℕ) × (a.program_words ≡ some (integer n)) × (length ws ≤ n))
        × ((i : ℕ) → get_or ws i 0 < 2 ^ 32)
  unfolding check_words
  check_words-ok words {ws} h =
      let (vs, p, q) = >>=-eq-ok (present words) _ h in
      let (r, s) = require-ok (nonempty vs) _ _ q in
      let (n, t, u) = >>=-eq-ok (present a.program_words >>= natural) _ s in
      let (w, x, y) = >>=-eq-ok (present a.program_words) _ t in
      let (z, k) = require-ok (leb (length vs) n) _ _ u in
      let (same_length, below) = image_words-ok vs k in
      (
        nonempty-lt vs ws r same_length,
        (
          n,
          present-ok a.program_words x ∙ ap some (natural-ok w y),
          ground (arith, same_length, z),
        ),
        below,
      )

check_pins-ok :
    (owned drain : Value) {o d : ℕ}
    → check_pins owned drain ≡ ok (o, d)
    → (o < 256) × ((i : ℕ) → bit d i ≡ true → bit o i ≡ true)
unfolding check_pins
check_pins-ok owned drain h =
    let (o, p, q) = >>=-eq-ok (bounded 255 owned) _ h in
    let (d, r, s) = >>=-eq-ok (bounded 255 drain) _ q in
    let (t, u) = require-ok (not (nonzero (and_not d o))) _ _ s in
    subst (λ p. (p.0 < 256) × ((i : ℕ) → bit p.1 i ≡ true → bit p.0 i ≡ true)) (ok-injective u)
      (ground (arith, bounded-ok 255 owned p), λ i. subset_of-and_not d o i (ground (arith, t)))

verify-Fits :
    (native : Option (List ℕ → List ℕ)) (source : Option (List ℕ)) (isa : Value)
    (arch : Option Architecture) (engine owned drain source_sha bytecode_sha : Value)
    (words : Option (List Value)) {image : FirmwareImage}
    → verify native source isa arch engine owned drain source_sha bytecode_sha words ≡ ok image
    → Fits image
unfolding verify
verify-Fits native source isa arch engine owned drain source_sha bytecode_sha words h =
    let (version, h1, k1) = >>=-eq-ok (natural isa) _ h in
    let (h2, k2) = require-ok (leb 1 version) _ _ k1 in
    let (a, h3, k3) = >>=-eq-ok (check_architecture arch) _ k2 in
    let (e, h4, k4) = >>=-eq-ok (check_engine a engine) _ k3 in
    let (p, h5, k5) = >>=-eq-ok (check_pins owned drain) _ k4 in
    let (ws, h6, k6) = >>=-eq-ok (check_words a words) _ k5 in
    let (_, h7, k7) = >>=-eq-ok (check_digest (bytecode_sha256 native ws) bytecode_sha) _ k6 in
    let (verified, h8, k8) = >>=-eq-ok (check_source native source source_sha) _ k7 in
    let (some_words, room, below) = check_words-ok a words h6 in
    let (within, drained) = check_pins-ok owned drain h5 in
    subst Fits (ok-injective k8) (record {
      nonempty = some_words;
      capacity = room;
      present = check_engine-ok a engine h4;
      words = below;
      owned = within;
      drained = drained;
    })

bound_to-eq :
    (device : Option Architecture) (image : FirmwareImage) {image' : FirmwareImage}
    → bound_to device image ≡ ok image'
    → image ≡ image'
unfolding bound_to
bound_to-eq none image h = ok-injective h
bound_to-eq (some a) image h =
    let (_, _, k) = >>=-eq-ok (check_binding (λ _. false) a image) _ h in ok-injective k

-- An image that is accepted, whatever its JSON holds and for whatever device: it has a word and no more than its architecture has
-- room for, its engine is one of those, every word has 32 bits, the owned pins are among eight and
-- every open-drain pin is owned.
pub firmware_image-Fits :
    (native : Option (List ℕ → List ℕ)) (d : ImageData) (source : Option (List ℕ))
    (device : Option Architecture) {image : FirmwareImage}
    → firmware_image native d source device ≡ ok image
    → Fits image
unfolding firmware_image
firmware_image-Fits native d source device h =
    let (_, h0, k0) =
      >>=-eq-ok
        (require (is_text d.schema_version (codes "protocol-emulator.firmware-image.v1"))
          HostError.image_error)
        _ h in
    let (isa, h1, k1) = >>=-eq-ok (present d.isa_version) _ k0 in
    let (name, h2, k2) = >>=-eq-ok (present d.name) _ k1 in
    let (arch, h3, k3) = >>=-eq-ok (present d.architecture) _ k2 in
    let (engine, h4, k4) = >>=-eq-ok (present d.engine) _ k3 in
    let (owned, h5, k5) = >>=-eq-ok (present d.owned_pins) _ k4 in
    let (drain, h6, k6) = >>=-eq-ok (present d.open_drain) _ k5 in
    let (source_sha, h7, k7) = >>=-eq-ok (present d.source_sha256) _ k6 in
    let (bytecode_sha, h8, k8) = >>=-eq-ok (present d.bytecode_sha256) _ k7 in
    let (words, h9, k9) = >>=-eq-ok (present d.words) _ k8 in
    let (image, h10, k10) =
      >>=-eq-ok (verify native source isa arch engine owned drain source_sha bytecode_sha words) _
        k9 in
    subst Fits (bound_to-eq device image k10)
      (verify-Fits native source isa arch engine owned drain source_sha bytecode_sha words h10)
