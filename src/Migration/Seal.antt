-- ===== src/Migration/Seal.antt =====
-- internal/migration/seal.go and ephemeral.go: sealing to an X25519 key and opening again. The curve,
-- the key derivation, the cipher and the random source are arguments.
pub mod RoundTrip
use terraform_provider_pyxcl.Prelude.{
  ℕ, zero, suc, String, Bool, true, false, Option, none, some, List, [], ◌∷◌, ◌++◌, map, length,
  ltb, if◌then◌else◌,
}

abbrev pub Bytes : Type 0
Bytes = List ℕ

infixl 5 ◌>>=◌
abbrev pub ◌>>=◌ {ℓ κ} : {A : Type ℓ} {B : Type κ} → Option A → (A → Option B) → Option B
none >>= f = none
some a >>= f = f a

-- Sealed
pub record Sealed : Type 0 where
  pub kem_pub : Bytes
  pub ciphertext : Bytes

-- What the code calls of golang.org/x/crypto; `none` is an error.
pub record Crypto : Type 0 where
  pub basepoint : Bytes
  -- curve25519.X25519(scalar, point)
  pub x25519 : Bytes → Bytes → Option Bytes
  -- 32 bytes of hkdf.New(sha256.New, secret, salt, info)
  pub hkdf : Bytes → Bytes → String → Option Bytes
  -- whether chacha20poly1305.New(key) gives a cipher
  pub accepts : Bytes → Bool
  pub nonce_size : ℕ
  -- Seal and Open of that cipher: key, nonce, text, additional data
  pub aead_seal : Bytes → Bytes → Bytes → Bytes → Bytes
  pub aead_open : Bytes → Bytes → Bytes → Bytes → Option Bytes

unfoldable pub take_bytes : ℕ → Bytes → Bytes
take_bytes zero bs = []
take_bytes (suc n) [] = []
take_bytes (suc n) (b ∷ bs) = b ∷ take_bytes n bs

unfoldable pub drop_bytes : ℕ → Bytes → Bytes
drop_bytes zero bs = bs
drop_bytes (suc n) [] = []
drop_bytes (suc n) (b ∷ bs) = drop_bytes n bs

-- A fresh array of bytes.
unfoldable pub zeros : ℕ → Bytes
zeros zero = []
zeros (suc n) = 0 ∷ zeros n

-- zeroize
unfoldable pub zeroize : Bytes → Bytes
zeroize bs = map (λ b. 0) bs

-- sealInfo
abbrev pub seal_info : String
seal_info = "pyxcloud/migration/seal/v1 X25519-HKDF-SHA256 ChaCha20Poly1305"

-- ephemeralKey
pub record EphemeralKey : Type 0 where
  pub priv : Bytes
  pub pub_key : Bytes
  pub cleared : Bool

module _ (c : Crypto) where
  -- newEphemeralKey, from what the random source gives
  unfoldable pub new_ephemeral_key : Option Bytes → Option EphemeralKey
  new_ephemeral_key random = do
    priv ← random
    pub_key ← c.x25519 priv c.basepoint
    some (record { priv = priv; pub_key = pub_key; cleared = false })

  -- deriveKey
  unfoldable pub derive_key : Bytes → Bytes → Bytes → Option Bytes
  derive_key shared eph_pub recipient_pub = c.hkdf shared (eph_pub ++ recipient_pub) seal_info

  abbrev new_cipher : Bytes → Option Bytes
  new_cipher key = if c.accepts key then some key else none

  -- sealTo, from what the random source gives for the key and for the nonce
  unfoldable pub seal_to : Option Bytes → Option Bytes → Bytes → Bytes → Bytes → Option Sealed
  seal_to random_key random_nonce recipient_pub plaintext aad = do
    eph_priv ← random_key
    eph_pub ← c.x25519 eph_priv c.basepoint
    shared ← c.x25519 eph_priv recipient_pub
    derived ← derive_key shared eph_pub recipient_pub
    key ← new_cipher derived
    nonce ← random_nonce
    some (record { kem_pub = eph_pub; ciphertext = nonce ++ c.aead_seal key nonce plaintext aad })

  abbrev pub open_bytes : Bytes → Bytes → Bytes → Option Bytes
  open_bytes key ciphertext aad =
      if ltb (length ciphertext) c.nonce_size
      then none
      else c.aead_open key (take_bytes c.nonce_size ciphertext) (drop_bytes c.nonce_size ciphertext)
          aad

  -- open
  unfoldable pub open_sealed : Bytes → Sealed → Bytes → Option Bytes
  open_sealed recipient_priv s aad = do
    recipient_pub ← c.x25519 recipient_priv c.basepoint
    shared ← c.x25519 recipient_priv s.kem_pub
    derived ← derive_key shared s.kem_pub recipient_pub
    key ← new_cipher derived
    open_bytes key s.ciphertext aad

-- Zeroize
unfoldable pub zeroize_key : EphemeralKey → EphemeralKey
zeroize_key k = if k.cleared then k else record k { priv = zeroize k.priv; cleared = true }
