-- ===== src/Proxy/Broadcast.antt =====
-- `broadcastNewJobs` of proxy/stratum.go: the job that every authorized session is told of. JSON and the connections are outside;
-- whether a session's job can be written is a parameter.
pub mod Digits
pub mod Header
use btcpool.Common.{
  Bool, true, false, ◌&&◌, ◌||◌, Option, none, some, List, [], ◌∷◌, ◌==◌, length, map, map_all,
  if◌then◌else◌,
}
use btcpool.Common.Bytes.{Bytes}
use btcpool.Common.Hex.{hex8}
use btcpool.Util.Hashes.{hash256_stratum_format, target_hash256_stratum_format}
use btcpool.Common.Result.{Result, panic, failed, done, or_fail, ◌>>=◌}
use btcpool.Proxy.Work.{Packages, BlockTemplate, BlockTemplateJob, lookup}
use btcpool.Proxy.Session.{Session}
use btcpool.Proxy.Stratum.{Client}

-- The parameters of `mining.notify`.
pub record Notify : Type 0 where
  pub job_id : Bytes
  pub prev_hash : Bytes
  pub coin_base1 : Bytes
  pub coin_base2 : Bytes
  pub merkle_branch : List Bytes
  pub version : Bytes
  pub n_bits : Bytes
  pub n_time : Bytes
  pub clean_jobs : Bool

module _ (p : Packages) where
  -- The parameters for a template, where its parts can be read.
  unfoldable pub notify_params : BlockTemplate → Result Notify
  notify_params t = do
    prev_hash ← or_fail (p.set_hex t.prev_hash)
    prev_hash_stratum ← target_hash256_stratum_format p.set_hex (p.get_hex prev_hash)
    tpl_job ← or_fail (lookup t.last_blk_tpl_id t.block_tpl_job_map)
    branch ← or_fail (map_all (hash256_stratum_format p.set_hex) tpl_job.merkle_branch)
    done (record {
      job_id = t.last_blk_tpl_id;
      prev_hash = prev_hash_stratum;
      coin_base1 = tpl_job.coin_base1;
      coin_base2 = tpl_job.coin_base2;
      merkle_branch = branch;
      version = hex8 t.version;
      n_bits = hex8 t.n_bits;
      n_time = hex8 tpl_job.blk_tpl_job_time;
      clean_jobs = t.new_blk_tpl;
    })

  -- The job for a sick server or a template: `failed` is a silent return.
  unfoldable pub new_job : Bool → Option BlockTemplate → Result Notify
  new_job sick none = failed
  new_job sick (some t) = if length t.prev_hash == 0 || sick then failed else notify_params t

-- The goroutine of a session: it leaves the sessions if the job cannot be written.
unfoldable pub push_new_job : (Session → Bool) → Client → Client
push_new_job delivered c =
    if c.registered && c.session.is_auth
    then (if delivered c.session then c else record c { registered = false })
    else c

-- The sessions that a job goes to.
unfoldable pub recipients : List Client → List Session
recipients [] = []
recipients (c ∷ cs) =
    if c.registered && c.session.is_auth then c.session ∷ recipients cs else recipients cs

-- `broadcastNewJobs`: the job with those that it goes to, and the sessions after the goroutines.
unfoldable pub broadcast_new_jobs :
    Packages
    → Bool
    → Option BlockTemplate
    → (Session → Bool)
    → List Client
    → Result ((Notify × List Session) × List Client)
broadcast_new_jobs p sick t delivered clients = do
  notify ← new_job p sick t
  done ((notify, recipients clients), map (push_new_job delivered) clients)
