-- ===== src/Controller/Payload/RoundTrip.antt =====
-- The payloads are read back from their bytes, and are twice as long as what they encode.
use df10ch_atmolight_control.Prelude.{
  ℕ, zero, suc, ◌+◌, ◌*◌, ◌/◌, ◌%◌, ◌<◌, ◌≡◌, refl, List, [], ◌∷◌, length, arith, All, get_elem?,
  All-get_elem?, some,
}
use df10ch_atmolight_control.Result.{ok, ◌>>=◌, for_range-eq, word_at}
use df10ch_atmolight_control.Protocol.{cm_code}
use df10ch_atmolight_control.Protocol.Codes.{cm_code_fields}
use df10ch_atmolight_control.Controller.Payload.{
  ChannelRec, encode_words, decode_words, encode_map, decode_map, decode_entry,
}

-- Two bytes for each element.
module _ {A : Type 0} (f g : A → ℕ) where
  abbrev pub pair_bytes : List A → List ℕ
  pair_bytes [] = []
  pair_bytes (x ∷ xs) = f x ∷ g x ∷ pair_bytes xs

  pub length-pair_bytes : (xs : List A) → length (pair_bytes xs) ≡ length xs * 2
  length-pair_bytes [] = omega arith
  length-pair_bytes (x ∷ xs) = omega (arith, length-pair_bytes xs)

  first_byte :
      (xs : List A) (i j : ℕ) (x : A)
      → j ≡ i * 2
      → get_elem? xs i ≡ some x
      → get_elem? (pair_bytes xs) j ≡ some (f x)
  first_byte [] i j x e h = absurd (cc)
  first_byte (y ∷ xs) zero zero x e h = cc
  first_byte (y ∷ xs) zero (suc j) x e h = absurd (omega arith)
  first_byte (y ∷ xs) (suc i) zero x e h = absurd (omega arith)
  first_byte (y ∷ xs) (suc i) (suc zero) x e h = absurd (omega arith)
  first_byte (y ∷ xs) (suc i) (suc (suc j)) x e h = first_byte xs i j x (omega arith) h

  second_byte :
      (xs : List A) (i j : ℕ) (x : A)
      → j ≡ i * 2 + 1
      → get_elem? xs i ≡ some x
      → get_elem? (pair_bytes xs) j ≡ some (g x)
  second_byte [] i j x e h = absurd (cc)
  second_byte (y ∷ xs) zero zero x e h = absurd (omega arith)
  second_byte (y ∷ xs) zero (suc zero) x e h = cc
  second_byte (y ∷ xs) zero (suc (suc j)) x e h = absurd (omega arith)
  second_byte (y ∷ xs) (suc i) zero x e h = absurd (omega arith)
  second_byte (y ∷ xs) (suc i) (suc zero) x e h = absurd (omega arith)
  second_byte (y ∷ xs) (suc i) (suc (suc j)) x e h = second_byte xs i j x (omega arith) h

-- Values of 16 bits.
abbrev pub AreWords : List ℕ → Type 0
AreWords = All (λ v. v < 65536)

abbrev pub low_byte : ℕ → ℕ
low_byte v = v % 256

abbrev pub high_byte : ℕ → ℕ
high_byte v = v / 256

abbrev pub word_bytes : List ℕ → List ℕ
word_bytes = pair_bytes low_byte high_byte

pub encode_words-eq : (vs : List ℕ) → AreWords vs → encode_words vs ≡ ok (word_bytes vs)
unfolding encode_words
encode_words-eq [] h = refl
encode_words-eq (v ∷ vs) h = ground (arith, encode_words-eq vs h.1)

decode_word :
    (vs : List ℕ) (i v : ℕ) → get_elem? vs i ≡ some v → word_at (word_bytes vs) ((0 + i) * 2) ≡ ok v
decode_word vs i v h =
    rw
      (
        first_byte low_byte high_byte vs i ((0 + i) * 2) v (omega arith) h,
        second_byte low_byte high_byte vs i ((0 + i) * 2 + 1) v (omega arith) h,
      )
      (ground arith)

-- What set_brightness sends is read back by get_brightness's decoding, value by value.
pub decode-encode_words :
    (vs : List ℕ)
    → AreWords vs
    → (encode_words vs >>= λ bytes. decode_words bytes (length vs)) ≡ ok vs
decode-encode_words vs h = rw (encode_words-eq vs h) (
    unfold decode_words in
    for_range-eq (λ i. word_at (word_bytes vs) (i * 2)) vs 0 (decode_word vs))

abbrev pub code_byte : ChannelRec → ℕ
code_byte r = cm_code r.port r.channel

abbrev pub pins_byte : ChannelRec → ℕ
pins_byte r = r.pins

abbrev pub entry_bytes : List ChannelRec → List ℕ
entry_bytes = pair_bytes code_byte pins_byte

-- The entry's fields fit its two bytes.
pub record Fits (r : ChannelRec) : Type 0 where
  pub channel_fits : r.channel < 64
  pub port_fits : r.port < 4
  pub pins_fit : r.pins < 256

pub encode_map-eq : (rs : List ChannelRec) → All Fits rs → encode_map rs ≡ ok (entry_bytes rs)
unfolding encode_map
encode_map-eq [] h = refl
encode_map-eq (r ∷ rs) h =
    ground
      (arith, cm_code_fields r.port r.channel h.0.port_fits h.0.channel_fits, encode_map-eq rs h.1)

decode_one :
    (rs : List ChannelRec) (i : ℕ) (r : ChannelRec)
    → All Fits rs
    → get_elem? rs i ≡ some r
    → decode_entry (entry_bytes rs) (0 + i) ≡ ok r
decode_one rs i r f h =
    let fits = All-get_elem? Fits rs i r f h in
    rw
      (
        first_byte code_byte pins_byte rs i ((0 + i) * 2) r (omega arith) h,
        second_byte code_byte pins_byte rs i ((0 + i) * 2 + 1) r (omega arith) h,
      )
      (ground (arith, cm_code_fields r.port r.channel fits.port_fits fits.channel_fits))

-- For entries whose channel is below 64, whose port is below 4 and whose pins fit a byte: what
-- set_channel_map sends is read back by get_channel_map's decoding, entry by entry.
pub decode-encode_map :
    (rs : List ChannelRec)
    → All Fits rs
    → (encode_map rs >>= λ bytes. decode_map bytes (length rs)) ≡ ok rs
decode-encode_map rs f = rw (encode_map-eq rs f) (
    unfold decode_map in
    for_range-eq (decode_entry (entry_bytes rs)) rs 0 λ i r h. decode_one rs i r f h)
