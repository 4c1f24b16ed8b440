-- ===== src/Policy/Workers.antt =====
-- The set-up of policy/policy.go, and its workers, which run a command for each address that is
-- banned. Durations are read by Go's library; the command is run by the system.
use btcpool.Common.{
  ℕ, Bool, ◌||◌, ◌==◌, ◌&&◌, leb, Option, none, some, List, [], ◌∷◌, ◌++◌, if◌then◌else◌,
}
use btcpool.Common.Int.{ℤ}
use btcpool.Common.Bytes.{Bytes, codes}
use btcpool.Common.Decimal.{format_int}
use btcpool.Policy.{Config, Server, refresh_state}

-- `Start` with the durations in milliseconds, and what the backend gives for the two lists. The
-- timeout of an entry is the interval of the reset.
pub start_server : ℤ → ℤ → ℤ → Option (List Bytes) → Option (List Bytes) → Server
start_server now grace reset_interval black white = refresh_state black white (record {
  stats = [];
  ban_channel = [];
  started_at = now;
  grace = grace;
  timeout = reset_interval;
  blacklist = [];
  whitelist = [];
})

-- `unicode.IsSpace` of an ASCII byte.
abbrev is_space : ℕ → Bool
is_space b = b == b' ' || (leb 9 b && leb b 13)

-- A word in front of others, unless it is empty.
abbrev add_word : Bytes → List Bytes → List Bytes
add_word [] words = words
add_word (b ∷ word) words = (b ∷ word) ∷ words

-- `strings.Fields` of a text of ASCII bytes, for a word that was begun.
abbrev fields_from : Bytes → Bytes → List Bytes
fields_from word [] = add_word word []
fields_from word (b ∷ s) =
    let next = fields_from [] s in
    let same = fields_from (word ++ b ∷ []) s in if is_space b then add_word word next else same

-- `doBan`: the command, cut into its words, and what it logs is left out.
unfoldable pub do_ban : Config → Bytes → List Bytes
do_ban c ip = fields_from [] (
    codes "sudo ipset add "
    ++ c.ip_set
    ++ codes " "
    ++ ip
    ++ codes " timeout "
    ++ format_int c.banning_timeout
    ++ codes " -!")

-- The first address that was sent into the channel, and the others.
abbrev first_sent : List Bytes → Option (Bytes × List Bytes)
first_sent [] = none
first_sent (ip ∷ sent) = elim (first_sent sent) [
  | none ↦ some (ip, [])
  | some (first, rest) ↦ some (first, ip ∷ rest)
]

-- A round of `startPolicyWorker`: the command that it runs; it waits where the channel is empty.
unfoldable pub work : Config → Server → Option (List Bytes × Server)
work c s = elim (first_sent s.ban_channel) [
  | none ↦ none
  | some (ip, rest) ↦ some (do_ban c ip, record s { ban_channel = rest })
]
