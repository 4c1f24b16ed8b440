-- ===== src/Tests/Rows.antt =====
-- A row of the block candidates, written and read.
use btcpool.Common.{◌≡◌, some, [], ◌∷◌, arith}
use btcpool.Common.Int.{pos}
use btcpool.Common.Bytes.{codes}
use btcpool.Storage.Keys.{BlockData, empty_block}
use btcpool.Storage.Rows.{candidate_of_row}
use btcpool.Storage.Shares.{candidate_row}
use btcpool.Storage.Rows.RoundTrip.{candidate_of_row-candidate_row}

abbrev block : BlockData
block = record empty_block {
  height = pos 800000;
  round_height = pos 800000;
  timestamp = pos 1700000000;
  difficulty = pos 8;
  total_shares = pos 12;
  hash = codes "00ab";
  nonce = codes "1a2b3c4d";
  reward = some (pos 1000);
}

candidate_of_row-candidate_row_example :
    let row =
      candidate_row
        (codes "1a2b3c4d" ∷ codes "00010001" ∷ codes "0000002a" ∷ [])
        (pos 1700000000)
        (pos 8)
        (pos 12)
        (pos 1000)
        (pos 7) in
    candidate_of_row (record { score = pos 800000; member = row })
    ≡ some (record empty_block {
      height = pos 800000;
      round_height = pos 800000;
      nonce = codes "1a2b3c4d";
      e_nonce1 = codes "00010001";
      e_nonce2 = codes "0000002a";
      timestamp = pos 1700000000;
      difficulty = pos 8;
      total_shares = pos 12;
      coin_base_value = some (pos 1000);
      blk_total_fee = some (pos 7);
      candidate_key = row;
    })
candidate_of_row-candidate_row_example =
    candidate_of_row-candidate_row (pos 800000) (codes "1a2b3c4d") (codes "00010001")
      (codes "0000002a") (pos 1700000000) (pos 8) (pos 12) (pos 1000) (pos 7) (ground arith)
      (ground arith) (ground arith) (ground arith) (ground arith) (ground arith) (ground arith)
      (ground arith)
