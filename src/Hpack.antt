-- ===== src/Hpack.antt =====
-- src/hpack: the header compression of RFC 7541. What the parts share.
pub mod Integer
pub mod Dynamic
pub mod Static
pub mod Encode
pub mod Decode
pub mod Compressor
use libhttp.Prelude.{ℕ, ◌+◌, List, length}

-- `mdelem_data` of src/hpack/metadata.h: a name and a value, each a slice.
pub record MdelemData : Type 0 where
  pub key : List ℕ
  pub value : List ℕ

-- MDELEM_SIZE.
unfoldable pub mdelem_size : MdelemData → ℕ
mdelem_size mdel = length mdel.key + length mdel.value

-- What a decoding primitive hands back: a value, the null pointer, or nothing at all, since it read
-- behind the end of the buffer.
pub data Decoded {ℓ} (A : Type ℓ) : Type ℓ where
  at : A → Decoded A
  nullptr : Decoded A
  outside : Decoded A

infixl 5 ◌>>=◌
abbrev pub ◌>>=◌ {ℓ κ} : {A : Type ℓ} {B : Type κ} → Decoded A → (A → Decoded B) → Decoded B
at a >>= f = f a
nullptr >>= f = nullptr
outside >>= f = outside
