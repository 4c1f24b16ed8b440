-- ===== src/Tests/Proxy/Template.antt =====
-- Block templates of a node whose reply is fixed.
use btcpool.Common.{some, [], ◌∷◌}
use btcpool.Common.Int.{pos}
use btcpool.Common.Bytes.{codes}
use btcpool.Proxy.Work.{BlockTemplate}
use btcpool.Proxy.Template.{TemplateReply, fetch_block_template}
use btcpool.Proxy.Template.Jobs.{Leaves, fetch_block_template-Serves}
use btcpool.Tests.Proxy.{template}

abbrev pub reply : TemplateReply
reply = record {
  version = 1;
  height = 800000;
  previous_block_hash = codes "ab";
  bits = codes "17034219";
  target = codes "01";
  cur_time = 1700000000;
  transactions = record { tx_id = codes "t1"; data_hex = codes "0a"; fee = pos 7 } ∷ [];
  coin_base_value = pos 1000;
  flags = [];
  default_witness_commitment = [];
}

abbrev old_template : BlockTemplate
old_template = record template { update_time = pos 1699999900 }

fetch_block_template-Serves_example :
    Leaves
      (λ s. s)
      (λ s. some (pos 5))
      (λ ids. some [])
      (λ t h. some (1 ∷ [], 2 ∷ []))
      (pos 1700000000)
      (pos 30)
      (some (codes "ab"))
      (some (some reply))
      (some old_template)
      (fetch_block_template
        (λ s. s)
        (λ s. some (pos 5))
        (λ ids. some [])
        (λ t h. some (1 ∷ [], 2 ∷ []))
        (pos 1700000000)
        (pos 30)
        (some (codes "ab"))
        (some (some reply))
        (some old_template))
fetch_block_template-Serves_example =
    fetch_block_template-Serves (λ s. s) (λ s. some (pos 5)) (λ ids. some [])
      (λ t h. some (1 ∷ [], 2 ∷ [])) (pos 1700000000) (pos 30) (some (codes "ab"))
      (some (some reply)) (some old_template)
