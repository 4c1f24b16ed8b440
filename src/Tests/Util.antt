-- ===== src/Tests/Util.antt =====
-- A cipher that only puts a byte in front of whole blocks of 16 bytes.
use btcpool.Common.{◌%◌, ◌==◌, ◌≡◌, refl, none, some, [], ◌∷◌, length, if◌then◌else◌, arith}
use btcpool.Common.Result.{done, panic}
use btcpool.Util.Cipher.{Ciphers, unpadding}
use btcpool.Util.Cipher.RoundTrip.{Documented}

abbrev pub plain : Ciphers
plain = record {
  Block = Unit {0};
  new_cipher = λ key. if length key == 16 then some tt else none;
  block_size = λ b. 16;
  encrypt = λ b iv src. if length src % 16 == 0 then done (0 ∷ src) else panic;
  decrypt = λ b iv out. elim out [ [] ↦ panic | x ∷ src ↦ done src ];
  encode_base64 = λ b. b;
  decode_base64 = λ b. some b;
}

pub as_documented : Documented plain
as_documented = record {
  keyed = λ key h. (tt, ground arith, refl);
  blocks = λ b iv src h k e. (0 ∷ src, ground arith, refl);
  base64 = λ b. refl;
}

-- An empty text was not padded.
unpadding_empty : (unpadding [] ≡ panic) × (unpadding (7 ∷ 2 ∷ []) ≡ done [])
unfolding unpadding
unpadding_empty = (refl, refl)
