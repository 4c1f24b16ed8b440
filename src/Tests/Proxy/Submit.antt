-- ===== src/Tests/Proxy/Submit.antt =====
-- Submissions of one session.
use btcpool.Common.{◌^◌, not, ◌||◌, ◌≡◌, refl, true, false, Option, some, []}
use btcpool.Common.Int.{ℤ, pos, wrap64}
use btcpool.Common.Bytes.{codes}
use btcpool.Common.Hex.{decode, from_digit}
use btcpool.Proxy.Work.{
  BlockTemplate, BlockTemplateJob, lookup, hex_value, parse_uint_hex, set_bytes, target_hex_to_diff,
  assemble, hash_diff, double_sha256_hash_verify,
}
use btcpool.Proxy.Miner.{Submission, block_of, process_share}
use btcpool.Proxy.Miner.Accepted.{process_share_new}
use btcpool.Tests.Policy
use btcpool.Proxy.Session.Submit.{handle_submit_rpc_valid, handle_submit_rpc-Verified}
use btcpool.Proxy.Session.{Pool, ErrorReply, nonce_pattern, submission_of, handle_submit_rpc}
use btcpool.Tests.Shares.{prefix, server, seen_set}
use btcpool.Tests.Proxy.{
  packages, job, template, accepts, world, shares, session, no_block, job_known,
}

abbrev pub pool : Pool server
pool = record { policy = Policy.server; world = world }

abbrev submitted : Submission
submitted = submission_of 1700000000000 (pos 600) session (pos (2 ^ 256))

session_difficulty : target_hex_to_diff packages session.target ≡ some (pos (2 ^ 256))
unfolding target_hex_to_diff set_bytes
session_difficulty = refl

submitted_verified :
    double_sha256_hash_verify packages (
      block_of submitted template job
        (codes "0000002a")
        (codes "6553f100")
        (codes "1a2b3c4d")
        submitted.share_diff)
    ≡ some true
unfolding double_sha256_hash_verify assemble hash_diff target_hex_to_diff parse_uint_hex hex_value
    set_bytes decode from_digit block_of wrap64
submitted_verified = refl

submitted_new :
    (process_share packages server prefix accepts submitted shares template world).0
    ≡ some (false, true)
unfolding block_of
submitted_new =
    process_share_new packages server prefix accepts seen_set submitted template world
      (codes "alice.rig") (codes "j1") (codes "0000002a") (codes "6553f100") (codes "1a2b3c4d") []
      job job_known submitted_verified no_block refl refl

well_formed :
    (not (nonce_pattern (codes "0000002a"))
      || not (nonce_pattern (codes "6553f100"))
      || not (nonce_pattern (codes "1a2b3c4d")))
    ≡ false
unfolding nonce_pattern
well_formed = refl

answered_true :
    (reply : Option ErrorReply) × ((handle_submit_rpc Policy.config
        (λ i v. false)
        packages
        server
        prefix
        accepts
        (pos 1700000000000)
        1700000000000
        (pos 600)
        session
        shares
        (some template)
        pool).0
      ≡ some (true, reply))
answered_true =
    handle_submit_rpc_valid Policy.config (λ i v. false) packages server prefix accepts
      (pos 1700000000000) 1700000000000 (pos 600) session (some template) pool (codes "alice.rig")
      (codes "j1") (codes "0000002a") (codes "6553f100") (codes "1a2b3c4d") template (pos (2 ^ 256))
      well_formed refl session_difficulty submitted_new

handle_submit_rpc-Verified_example :
    (t : BlockTemplate) × (h : BlockTemplateJob) × (diff : ℤ) × (◌≡◌ {A = Option BlockTemplate}
      (some template)
      (some t))
    × (target_hex_to_diff packages session.target ≡ some diff)
    × (lookup (codes "j1") t.block_tpl_job_map ≡ some h)
    × (double_sha256_hash_verify packages (
          block_of
            (submission_of 1700000000000 (pos 600) session diff)
            t
            h
            (codes "0000002a")
            (codes "6553f100")
            (codes "1a2b3c4d")
            (wrap64 diff))
        ≡ some true)
handle_submit_rpc-Verified_example =
    handle_submit_rpc-Verified Policy.config (λ i v. false) packages server prefix accepts
      (pos 1700000000000) 1700000000000 (pos 600) session (some template) pool (codes "alice.rig")
      (codes "j1") (codes "0000002a") (codes "6553f100") (codes "1a2b3c4d") answered_true.0
      answered_true.1
