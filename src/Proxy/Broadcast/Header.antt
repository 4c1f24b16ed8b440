-- ===== src/Proxy/Broadcast/Header.antt =====
-- The header that a miner hashes who follows Stratum's description of `mining.notify`, next to that
-- which the pool tests (Proxy/Work), over what bitcoin-lib documents of hashes and Merkle trees.
use btcpool.Common.{
  ℕ, ◌^◌, ◌<◌, ◌≡◌, refl, ◌∙◌, sym, Bool, Option, some, List, [], ◌∷◌, ◌++◌, length, map_all, arith,
  some-elim, some-subst, All, ◌>>=◌,
}
use btcpool.Common.Int.{ℤ, pos, wrap32}
use btcpool.Common.Bytes.{Bytes}
use btcpool.Common.Hex.{decode, encode, hex8, decode-encode}
use btcpool.Common.Result.{done, done-subst, or_fail-elim, done-elim, unless-done}
use btcpool.Proxy.Broadcast.Digits.{parse_uint_hex-hex8}
use btcpool.Proxy.Work.{
  Packages, Header, BlockTemplate, BlockTemplateJob, lookup, parse_uint_hex, assemble,
}
use btcpool.Proxy.Miner.{Submission, block_of}
use btcpool.Proxy.Session.{Session}
use btcpool.Proxy.Stratum.{Client}
use btcpool.Proxy.Broadcast.{Notify, notify_params, new_job, broadcast_new_jobs}
use btcpool.Util.Hashes.{target_hash256_stratum_format, hash256_stratum_format}
use btcpool.Util.Hashes.Words.{
  swap_words, length-IsWords, swap_words_twice, swap_words-All, words_from-swap_words,
}

-- A hash of 32 bytes.
abbrev pub IsHash : Bytes → Type 0
IsHash b = (length b ≡ 32) × All (λ x. x < 256) b

module _ (p : Packages) where
  abbrev pub double_sha256 : Bytes → Bytes
  double_sha256 b = p.sha256 (p.sha256 b)

  -- The root over a transaction and the branch beside it.
  unfoldable pub root_of : Bytes → List Bytes → Bytes
  root_of id [] = id
  root_of id (h ∷ hs) = root_of (double_sha256 (id ++ h)) hs

  -- The header of a miner, by the parameters that it was told, its extra nonces, a time and a nonce.
  unfoldable pub miner_header : Notify → Bytes → Bytes → Bytes → Bytes → Option Header
  miner_header n e_nonce1 e_nonce2 n_time nonce = do
    coinbase ← decode (n.coin_base1 ++ e_nonce1 ++ e_nonce2 ++ n.coin_base2)
    branch ← map_all decode n.merkle_branch
    prev ← decode n.prev_hash
    version ← parse_uint_hex n.version
    bits ← parse_uint_hex n.n_bits
    time ← parse_uint_hex n_time
    nonce ← parse_uint_hex nonce
    some (record {
      version = wrap32 (pos version);
      hash_prev_block = swap_words prev;
      hash_merkle_root = root_of (double_sha256 coinbase) branch;
      time = time;
      bits = bits;
      nonce = nonce;
    })

  -- `SetHex` reads 32 bytes and reads what `GetHex` writes; a SHA-256 has 32 bytes; the root of a
  -- Merkle tree is computed along its branch.
  pub record Documented : Type 0 where
    pub set_hex-IsHash : (s b : Bytes) → p.set_hex s ≡ some b → IsHash b
    pub set_hex-get_hex : (b : Bytes) → IsHash b → p.set_hex (p.get_hex b) ≡ some b
    pub sha256-IsHash : (b : Bytes) → IsHash (p.sha256 b)
    pub merkle_root-root_of :
        (id : Bytes) (branch hashes : List Bytes)
        → IsHash id
        → map_all p.set_hex branch ≡ some hashes
        → p.merkle_root (p.get_hex id) branch ≡ some (p.get_hex (root_of id hashes))

  module _ (d : Documented) where
    root_of-IsHash : (hashes : List Bytes) (id : Bytes) → IsHash id → IsHash (root_of id hashes)
    unfolding root_of
    root_of-IsHash [] id h = h
    root_of-IsHash (x ∷ xs) id h = root_of-IsHash xs _ (d.sha256-IsHash _)

    -- What the texts of a job are read as.
    branch_format-decode :
        (branch : List Bytes) {texts : List Bytes}
        → map_all (hash256_stratum_format p.set_hex) branch ≡ some texts
        → (hashes : List Bytes) × (map_all p.set_hex branch ≡ some hashes)
          × (map_all decode texts ≡ some hashes)
    unfolding map_all hash256_stratum_format
    branch_format-decode [] {texts} e =
        some-subst
          (λ t. (hashes : List Bytes) × (some [] ≡ some hashes) × (map_all decode t ≡ some hashes))
          e ([], refl, refl)
    branch_format-decode (x ∷ branch) {texts} e =
        some-elim (hash256_stratum_format p.set_hex x) _ e (λ text f e1.
          some-elim (map_all (hash256_stratum_format p.set_hex) branch) _ e1 (λ more g e2.
            some-elim (p.set_hex x) _ f (λ b k e3.
              let (hashes, r, q) = branch_format-decode branch g in
              let (size, bytes) = d.set_hex-IsHash x b k in
              let read : decode text ≡ some b =
                some-subst (λ t. decode t ≡ some b) e3 (decode-encode b bytes) in
              (
                b ∷ hashes,
                rw (k, r) refl,
                some-subst (λ t. map_all decode t ≡ some (b ∷ hashes)) e2 (rw (read, q) refl),
              ))))

    prev_hash_format-decode :
        (s prev text : Bytes)
        → p.set_hex s ≡ some prev
        → target_hash256_stratum_format p.set_hex (p.get_hex prev) ≡ done text
        → (t : Bytes) × (decode text ≡ some t) × (swap_words t ≡ prev)
    unfolding target_hash256_stratum_format
    prev_hash_format-decode s prev text e f =
        let h = d.set_hex-IsHash s prev e in
        let w = length-IsWords 8 prev (omega arith) in
        let texts : target_hash256_stratum_format p.set_hex (p.get_hex prev)
            ≡ done (encode (swap_words prev)) =
          rw
            (
              target_hash256_stratum_format,
              d.set_hex-get_hex prev h,
              words_from-swap_words 8 prev w,
            )
            refl in
        let same : encode (swap_words prev) ≡ text = cc in
        (
          swap_words prev,
          rw (sym same) (decode-encode (swap_words prev) (swap_words-All 8 prev w h.1)),
          swap_words_twice 8 prev w,
        )

    -- The parts of a job that is broadcast, as a miner reads them.
    record Reads (t : BlockTemplate) (n : Notify) : Type 0 where
      job : BlockTemplateJob
      prev : Bytes
      swapped : Bytes
      hashes : List Bytes
      is_last : lookup t.last_blk_tpl_id t.block_tpl_job_map ≡ some job
      has_prev : p.set_hex t.prev_hash ≡ some prev
      has_hashes : map_all p.set_hex job.merkle_branch ≡ some hashes
      reads_prev : decode n.prev_hash ≡ some swapped
      is_prev : swap_words swapped ≡ prev
      reads_hashes : map_all decode n.merkle_branch ≡ some hashes
      same_base1 : n.coin_base1 ≡ job.coin_base1
      same_base2 : n.coin_base2 ≡ job.coin_base2
      same_version : n.version ≡ hex8 t.version
      same_bits : n.n_bits ≡ hex8 t.n_bits

    notify_params-Reads : (t : BlockTemplate) (n : Notify) → notify_params p t ≡ done n → Reads t n
    unfolding notify_params
    notify_params-Reads t n e = or_fail-elim (p.set_hex t.prev_hash) _ e (λ prev f e1.
        done-elim (target_hash256_stratum_format p.set_hex (p.get_hex prev)) _ e1 (λ text g e2.
          or_fail-elim (lookup t.last_blk_tpl_id t.block_tpl_job_map) _ e2 (λ job h e3.
            or_fail-elim (map_all (hash256_stratum_format p.set_hex) job.merkle_branch) _ e3
              (λ texts k e4.
                let (swapped, read, back) = prev_hash_format-decode t.prev_hash prev text f g in
                let (hashes, q, m) = branch_format-decode job.merkle_branch k in
                done-subst (Reads t) e4 (record {
                  job = job;
                  prev = prev;
                  swapped = swapped;
                  hashes = hashes;
                  is_last = h;
                  has_prev = f;
                  has_hashes = q;
                  reads_prev = read;
                  is_prev = back;
                  reads_hashes = m;
                  same_base1 = refl;
                  same_base2 = refl;
                  same_version = refl;
                  same_bits = refl;
                })))))

    broadcast_new_jobs-params :
        (sick : Bool) (t : BlockTemplate) (delivered : Session → Bool)
        (clients clients' : List Client) (n : Notify) (sent : List Session)
        → broadcast_new_jobs p sick (some t) delivered clients ≡ done ((n, sent), clients')
        → notify_params p t ≡ done n
    unfolding broadcast_new_jobs new_job
    broadcast_new_jobs-params sick t delivered clients clients' n sent e =
        done-elim (new_job p sick (some t)) _ e
          (λ n' f e1. done-subst (λ x. notify_params p t ≡ done x.0.0) e1 (unless-done _ _ f))

    read_root : (h hex b : Bytes) → IsHash h → hex ≡ p.get_hex h → p.set_hex hex ≡ some b → h ≡ b
    read_root h hex b k e f = let back = d.set_hex-get_hex h k in cc

    miner_header-eq :
        (t : BlockTemplate) (n : Notify) (rd : Reads t n)
        (e_nonce1 e_nonce2 n_time nonce coinbase : Bytes) (time num : ℕ)
        → t.version < 2 ^ 32
        → t.n_bits < 2 ^ 32
        → decode (rd.job.coin_base1 ++ e_nonce1 ++ e_nonce2 ++ rd.job.coin_base2) ≡ some coinbase
        → parse_uint_hex n_time ≡ some time
        → parse_uint_hex nonce ≡ some num
        → miner_header n e_nonce1 e_nonce2 n_time nonce
          ≡ some (record {
            version = wrap32 (pos t.version);
            hash_prev_block = rd.prev;
            hash_merkle_root = root_of (double_sha256 coinbase) rd.hashes;
            time = time;
            bits = t.n_bits;
            nonce = num;
          })
    unfolding miner_header
    miner_header-eq t n rd e_nonce1 e_nonce2 n_time nonce coinbase time num v w c f g =
        rw
          (
            rd.same_base1,
            rd.same_base2,
            c,
            rd.reads_hashes,
            rd.reads_prev,
            rd.same_version,
            parse_uint_hex-hex8 t.version v,
            rd.same_bits,
            parse_uint_hex-hex8 t.n_bits w,
            f,
            g,
            rd.is_prev,
          )
          refl

    -- A job that is broadcast and the pool's test agree: whoever follows Stratum from the parameters
    -- and its two extra nonces hashes the header that `DoubleSha256HashVerify` and
    -- `ConstructRawBlockHex` assemble for the share, if the id of the coinbase transaction is the
    -- double hash of its bytes, as it is for one without witnesses.
    pub miner_header-assemble :
        (sick : Bool) (t : BlockTemplate) (delivered : Session → Bool)
        (clients clients' : List Client) (n : Notify) (sent : List Session) (m : Submission)
        (job : BlockTemplateJob) (e_nonce2 n_time nonce : Bytes) (diff : ℤ) (coinbase : Bytes)
        (trx : p.Transaction) (header : Header)
        → broadcast_new_jobs p sick (some t) delivered clients ≡ done ((n, sent), clients')
        → t.version < 2 ^ 32
        → t.n_bits < 2 ^ 32
        → lookup t.last_blk_tpl_id t.block_tpl_job_map ≡ some job
        → decode (job.coin_base1 ++ m.e_nonce1 ++ e_nonce2 ++ job.coin_base2) ≡ some coinbase
        → assemble p (block_of m t job e_nonce2 n_time nonce diff) ≡ some (trx, header)
        → p.calc_trx_id trx ≡ some (p.get_hex (double_sha256 coinbase))
        → miner_header n m.e_nonce1 e_nonce2 n_time nonce ≡ some header
    unfolding assemble block_of
    miner_header-assemble sick t delivered clients clients' n sent m job e_nonce2 n_time nonce diff
          coinbase trx header b v w k c e i =
        let rd =
          notify_params-Reads t n
            (broadcast_new_jobs-params sick t delivered clients clients' n sent b) in
        some-elim (decode job.coin_base1) _ e (λ b1 f1 e1.
          some-elim (decode m.e_nonce1) _ e1 (λ b2 f2 e2.
            some-elim (decode e_nonce2) _ e2 (λ b3 f3 e3.
              some-elim (decode job.coin_base2) _ e3 (λ b4 f4 e4.
                some-elim (p.unpack (((b1 ++ b2) ++ b3) ++ b4)) _ e4 (λ cb f5 e5.
                  some-elim (p.calc_trx_id cb) _ e5 (λ id f6 e6.
                    some-elim (p.merkle_root id job.merkle_branch) _ e6 (λ root_hex f7 e7.
                      some-elim (p.set_hex t.prev_hash) _ e7 (λ prev f8 e8.
                        some-elim (p.set_hex root_hex) _ e8 (λ root f9 e9.
                          some-elim (parse_uint_hex n_time) _ e9 (λ time f10 e10.
                            some-elim (parse_uint_hex nonce) _ e10 (λ num f11 e11.
                              some-subst
                                (λ x.
                                  p.calc_trx_id x.0 ≡ some (p.get_hex (double_sha256 coinbase))
                                  → miner_header n m.e_nonce1 e_nonce2 n_time nonce ≡ some x.1)
                                e11
                                (λ j.
                                  let same_job : rd.job ≡ job = cc in
                                  let same_id : id ≡ p.get_hex (double_sha256 coinbase) = cc in
                                  let along : p.merkle_root id job.merkle_branch
                                      ≡ some
                                          (p.get_hex (root_of (double_sha256 coinbase) rd.hashes)) =
                                    rw (same_id, sym same_job)
                                      (d.merkle_root-root_of (double_sha256 coinbase)
                                        rd.job.merkle_branch rd.hashes (d.sha256-IsHash _)
                                        rd.has_hashes) in
                                  let same_root : root_of (double_sha256 coinbase) rd.hashes
                                      ≡ root =
                                    read_root (root_of (double_sha256 coinbase) rd.hashes) root_hex
                                      root (root_of-IsHash rd.hashes _ (d.sha256-IsHash _)) (cc)
                                      f9 in
                                  let same_prev : rd.prev ≡ prev = cc in
                                  miner_header-eq t n rd m.e_nonce1 e_nonce2 n_time nonce coinbase
                                    time num v w (rw (same_job) c) f10 f11
                                  ∙ rw (same_root, same_prev) refl)
                                i)))))))))))
