-- ===== src/Host/Sha.antt =====
-- SHA-256 in host/pe_host/image.py: the function that stands in for a missing hashlib, and its callers.
use ttihp_protocol_emulator.Prelude.{
  ℕ, zero, suc, ◌+◌, ◌-◌, ◌*◌, ◌/◌, ◌%◌, ◌^◌, bit_and, bit_or, bit_xor, Option, none, some, List,
  [], ◌∷◌, ◌++◌, length, get_or, replicate, ltb, if◌then◌else◌,
}
use ttihp_protocol_emulator.Prelude.Bits.{and_not}

-- `_K`
abbrev pub round_constants : List ℕ
round_constants =
    0x428a2f98 ∷ 0x71374491 ∷ 0xb5c0fbcf ∷ 0xe9b5dba5 ∷ 0x3956c25b ∷ 0x59f111f1 ∷ 0x923f82a4
    ∷ 0xab1c5ed5 ∷ 0xd807aa98 ∷ 0x12835b01 ∷ 0x243185be ∷ 0x550c7dc3 ∷ 0x72be5d74 ∷ 0x80deb1fe
    ∷ 0x9bdc06a7 ∷ 0xc19bf174 ∷ 0xe49b69c1 ∷ 0xefbe4786 ∷ 0x0fc19dc6 ∷ 0x240ca1cc ∷ 0x2de92c6f
    ∷ 0x4a7484aa ∷ 0x5cb0a9dc ∷ 0x76f988da ∷ 0x983e5152 ∷ 0xa831c66d ∷ 0xb00327c8 ∷ 0xbf597fc7
    ∷ 0xc6e00bf3 ∷ 0xd5a79147 ∷ 0x06ca6351 ∷ 0x14292967 ∷ 0x27b70a85 ∷ 0x2e1b2138 ∷ 0x4d2c6dfc
    ∷ 0x53380d13 ∷ 0x650a7354 ∷ 0x766a0abb ∷ 0x81c2c92e ∷ 0x92722c85 ∷ 0xa2bfe8a1 ∷ 0xa81a664b
    ∷ 0xc24b8b70 ∷ 0xc76c51a3 ∷ 0xd192e819 ∷ 0xd6990624 ∷ 0xf40e3585 ∷ 0x106aa070 ∷ 0x19a4c116
    ∷ 0x1e376c08 ∷ 0x2748774c ∷ 0x34b0bcb5 ∷ 0x391c0cb3 ∷ 0x4ed8aa4a ∷ 0x5b9cca4f ∷ 0x682e6ff3
    ∷ 0x748f82ee ∷ 0x78a5636f ∷ 0x84c87814 ∷ 0x8cc70208 ∷ 0x90befffa ∷ 0xa4506ceb ∷ 0xbef9a3f7
    ∷ 0xc67178f2 ∷ []

-- The eight words of the state, `a` to `h`.
pub record Digest : Type 0 where
  pub a : ℕ
  pub b : ℕ
  pub c : ℕ
  pub d : ℕ
  pub e : ℕ
  pub f : ℕ
  pub g : ℕ
  pub h : ℕ

-- `h` before the first block
abbrev pub initial_digest : Digest
initial_digest = record {
  a = 0x6a09e667;
  b = 0xbb67ae85;
  c = 0x3c6ef372;
  d = 0xa54ff53a;
  e = 0x510e527f;
  f = 0x9b05688c;
  g = 0x1f83d9ab;
  h = 0x5be0cd19;
}

unfoldable pub rotr : ℕ → ℕ → ℕ
rotr x n = bit_or (x / 2 ^ n) (x * 2 ^ (32 - n)) % 2 ^ 32

-- `struct.pack` of a number in `count` bytes, the low byte first, and the high byte first
unfoldable pub little_endian : ℕ → ℕ → List ℕ
little_endian zero n = []
little_endian (suc count) n = n % 256 ∷ little_endian count (n / 256)

unfoldable pub big_endian : ℕ → ℕ → List ℕ
big_endian zero n = []
big_endian (suc count) n = big_endian count (n / 256) ++ n % 256 ∷ []

-- `struct.unpack(">16I", ...)` of a block of 64 bytes
unfoldable pub words_of : List ℕ → List ℕ
words_of (x ∷ y ∷ z ∷ u ∷ bytes) = (x * 2 ^ 24 + y * 2 ^ 16 + z * 2 ^ 8 + u) ∷ words_of bytes
words_of _ = []

-- `bytes(data) + b"\x80" + bytes((55 - length) % 64) + struct.pack(">Q", length * 8)`, where `%` of
-- a negative number rounds to a number that is not negative
unfoldable pub padded : List ℕ → List ℕ
unfolding big_endian
padded bytes =
    let count = length bytes in
    bytes
    ++ 0x80 ∷ replicate ((55 + 64 * (count / 64 + 1) - count) % 64) 0
    ++ big_endian 8 (count * 8)

-- the word that the loop appends at its round `i`
unfoldable pub next_word : List ℕ → ℕ → ℕ
unfolding rotr
next_word w i =
    let x = get_or w (i - 15) 0 in
    let y = get_or w (i - 2) 0 in
    let s0 = bit_xor (bit_xor (rotr x 7) (rotr x 18)) (x / 2 ^ 3) in
    let s1 = bit_xor (bit_xor (rotr y 17) (rotr y 19)) (y / 2 ^ 10) in
    (get_or w (i - 16) 0 + s0 + get_or w (i - 7) 0 + s1) % 2 ^ 32

unfoldable pub schedule : ℕ → ℕ → List ℕ → List ℕ
unfolding next_word
schedule zero i w = w
schedule (suc left) i w = schedule left (suc i) (w ++ next_word w i ∷ [])

unfoldable pub round : ℕ → ℕ → Digest → Digest
unfolding rotr and_not
round k w s =
    let t1 =
      (s.h
        + bit_xor (bit_xor (rotr s.e 6) (rotr s.e 11)) (rotr s.e 25)
        + bit_xor (bit_and s.e s.f) (and_not s.g s.e)
        + k
        + w)
      % 2 ^ 32 in
    let t2 =
      (bit_xor (bit_xor (rotr s.a 2) (rotr s.a 13)) (rotr s.a 22)
        + bit_xor (bit_xor (bit_and s.a s.b) (bit_and s.a s.c)) (bit_and s.b s.c))
      % 2 ^ 32 in
    record {
      a = (t1 + t2) % 2 ^ 32;
      b = s.a;
      c = s.b;
      d = s.c;
      e = (s.d + t1) % 2 ^ 32;
      f = s.e;
      g = s.f;
      h = s.g;
    }

-- the rounds, one for each pair of a constant and a word
unfoldable pub rounds : List ℕ → List ℕ → Digest → Digest
unfolding round
rounds (k ∷ ks) (w ∷ ws) s = rounds ks ws (round k w s)
rounds _ _ s = s

abbrev pub add_digest : Digest → Digest → Digest
add_digest x y = record {
  a = (x.a + y.a) % 2 ^ 32;
  b = (x.b + y.b) % 2 ^ 32;
  c = (x.c + y.c) % 2 ^ 32;
  d = (x.d + y.d) % 2 ^ 32;
  e = (x.e + y.e) % 2 ^ 32;
  f = (x.f + y.f) % 2 ^ 32;
  g = (x.g + y.g) % 2 ^ 32;
  h = (x.h + y.h) % 2 ^ 32;
}

-- one block of sixteen words
unfoldable pub compress : List ℕ → Digest → Digest
unfolding schedule rounds
compress w s = add_digest s (rounds round_constants (schedule 48 16 w) s)

-- `left` blocks of sixteen words
unfoldable pub blocks : ℕ → List ℕ → Digest → Digest
unfolding compress
blocks (suc left)
      (w0 ∷ w1 ∷ w2 ∷ w3 ∷ w4 ∷ w5 ∷ w6 ∷ w7 ∷ w8 ∷ w9 ∷ w10 ∷ w11 ∷ w12 ∷ w13 ∷ w14 ∷ w15 ∷ words)
      s =
    blocks left words (
      compress
        (w0 ∷ w1 ∷ w2 ∷ w3 ∷ w4 ∷ w5 ∷ w6 ∷ w7 ∷ w8 ∷ w9 ∷ w10 ∷ w11 ∷ w12 ∷ w13 ∷ w14 ∷ w15 ∷ [])
        s)
blocks _ _ s = s

-- `struct.pack(">8I", *h)`
unfoldable pub digest_bytes : Digest → List ℕ
unfolding big_endian
digest_bytes s =
    big_endian 4 s.a
    ++ big_endian 4 s.b
    ++ big_endian 4 s.c
    ++ big_endian 4 s.d
    ++ big_endian 4 s.e
    ++ big_endian 4 s.f
    ++ big_endian 4 s.g
    ++ big_endian 4 s.h

unfoldable pub sha256_py : List ℕ → List ℕ
unfolding padded words_of blocks digest_bytes
sha256_py bytes =
    let w = words_of (padded bytes) in digest_bytes (blocks (length w / 16) w initial_digest)

-- the code points of `binascii.hexlify`
abbrev pub hex_digit : ℕ → ℕ
hex_digit n = if ltb n 10 then 48 + n else 87 + n

unfoldable pub hexlify : List ℕ → List ℕ
hexlify [] = []
hexlify (n ∷ bytes) = hex_digit (n / 16) ∷ hex_digit (n % 16) ∷ hexlify bytes

-- `_native_sha256` is a parameter: none on a build without hashlib
unfoldable pub sha256_hex : Option (List ℕ → List ℕ) → List ℕ → List ℕ
unfolding hexlify sha256_py
sha256_hex none bytes = hexlify (sha256_py bytes)
sha256_hex (some native) bytes = hexlify (native bytes)

unfoldable pub payload_of : List ℕ → List ℕ
unfolding little_endian
payload_of [] = []
payload_of (word ∷ words) = little_endian 4 word ++ payload_of words

unfoldable pub bytecode_sha256 : Option (List ℕ → List ℕ) → List ℕ → List ℕ
unfolding sha256_hex payload_of
bytecode_sha256 native words = sha256_hex native (payload_of words)
