-- ===== src/Util/Cipher.antt =====
-- util/ae64.go: the encryption of the wallet and of Redis' password in the configuration. AES, its
-- mode CBC and base64 are of Go's library.
pub mod RoundTrip
use btcpool.Common.{
  ℕ, ◌+◌, ◌-◌, ◌%◌, Option, none, some, List, [], ◌∷◌, ◌++◌, length, take, replicate, get_elem?,
  ltb, leb, if◌then◌else◌,
}
use btcpool.Common.Bytes.{Bytes}
use btcpool.Common.Result.{Result, panic, failed, done, ◌>>=◌, or_fail}

-- `aes.NewCipher`, whose block has a size; `NewCBCEncrypter` with an initial vector and `CryptBlocks`,
-- and the same to decrypt; base64.
pub record Ciphers : Type 1 where
  pub Block : Type 0
  pub new_cipher : Bytes → Option Block
  pub block_size : Block → ℕ
  pub encrypt : Block → Bytes → Bytes → Result Bytes
  pub decrypt : Block → Bytes → Bytes → Result Bytes
  pub encode_base64 : Bytes → Bytes
  pub decode_base64 : Bytes → Option Bytes

-- The size of a block is not 0.
unfoldable pub padding : Bytes → ℕ → Bytes
padding src block_size =
    let pad_num = block_size - length src % block_size in src ++ replicate pad_num (pad_num % 256)

-- A text that is empty, or shorter than its last byte says, is out of range.
unfoldable pub unpadding : Bytes → Result Bytes
unpadding src = elim (get_elem? src (length src - 1)) [
  | none ↦ panic
  | some un_pad_num ↦
      if ltb (length src) un_pad_num then panic else done (take (length src - un_pad_num) src)
]

-- What `Ae64Encode` and `Ae64Decode` make of a key: 16 bytes.
unfoldable pub fit_key : Bytes → Bytes
fit_key key = if leb (length key) 16 then key ++ replicate (16 - length key) b' ' else take 16 key

module _ (c : Ciphers) where
  -- `encryptAES`
  unfoldable pub encrypt_aes : Bytes → Bytes → Result Bytes
  encrypt_aes src key = do
    block ← or_fail (c.new_cipher key)
    c.encrypt block key (padding src (c.block_size block))

  -- `decryptAES`
  unfoldable pub decrypt_aes : Bytes → Bytes → Result Bytes
  decrypt_aes src key = do
    block ← or_fail (c.new_cipher key)
    plain ← c.decrypt block key src
    unpadding plain

  -- `Ae64Encode`
  unfoldable pub ae64_encode : Bytes → Bytes → Result Bytes
  ae64_encode src key = do
    encrypted ← encrypt_aes src (fit_key key)
    done (c.encode_base64 encrypted)

  -- `Ae64Decode`
  unfoldable pub ae64_decode : Bytes → Bytes → Result Bytes
  ae64_decode text key = do
    decoded ← or_fail (c.decode_base64 text)
    decrypt_aes decoded (fit_key key)
